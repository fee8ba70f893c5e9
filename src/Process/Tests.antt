-- ===== src/Process/Tests.antt =====
-- The theorems on processes at a sample system.
use frostbite.Base.{
  ℕ, ◌∙◌, sym, ◌≢◌, ◌≡◌, refl, ◌⊎◌, ◌&&◌, ◌||◌, Option, none, some, List, [], ◌∷◌, arith, ◌==◌,
  if◌then◌else◌, ltb, leb, pos, negsuc,
}
use frostbite.Process.{State, max_open_files, Kernel, keyboard_input}
use frostbite.Process.Fork.{share_files, fork}
use frostbite.Process.Fork.Shares.{uses, inode_uses, raised, share_files-raised}
use frostbite.Fat.Sample.{disk}
use frostbite.Process.Fork.Queues.{fork-QueuesFit}
use frostbite.Process.Fork.Child.{Forked, fork-Forked}
use frostbite.Process.Sample.{system, system_table, system-QueuesFit}
use frostbite.Process.Kill.{kill, kill_children}
use frostbite.Process.Kill.Post.{kill-QueuesFit}
use frostbite.Process.Kill.Signals.{kill_children-table, is_target, signalled}
use frostbite.Process.Wake.{wake_up}
use frostbite.Process.Wake.Split.{Woken, wake_up-Woken}
use frostbite.Process.Schedule.{trigger_scheduler}
use frostbite.Process.Schedule.Pick.{Quiet, AllQuiet, Runs, preempted, trigger_scheduler-Runs}
use frostbite.Process.Signal.{any_pending, check_pending_signals}
use frostbite.Process.Signal.Deliver.{HeldBack, check_pending_signals-HeldBack}
use frostbite.Process.Signal.Register.{Uncatchable}
use frostbite.Process.Arguments.{ArgArea}
use frostbite.Process.Wait.{returns, wait}
use frostbite.Process.Wait.Zombie.{final, wait-QueuesFit}
use frostbite.Process.Wait.Choice.{Named, DeadChild}
use frostbite.Process.Wait.Child.{Buried, wait-DeadChild}
use frostbite.Process.Jobs.{move_to_fore}
use frostbite.Process.Jobs.Fore.{move_to_fore-QueuesFit}
use frostbite.Process.Invariant.{QueuesFit}

system-Quiet : (j : ℕ) → Quiet system j
unfolding any_pending
system-Quiet j = ground arith

system-AllQuiet : (js : List ℕ) → AllQuiet system js
system-AllQuiet js j here = system-Quiet j

kill-QueuesFit_example : QueuesFit (kill 2 (pos 4) (pos 15) system).1
kill-QueuesFit_example =
    kill-QueuesFit {k = system} 2 (pos 4) (pos 15) (λ e. ground arith) system-QueuesFit

kill_children-table_example : (kill_children 2 18 system).table 5 ≡ (
    if leb 2 5 && (ltb 5 100 && is_target 2 (system.table 5))
    then signalled 18 (system.table 5)
    else system.table 5)
kill_children-table_example = kill_children-table 2 18 5 system

wake_up-Woken_example : Woken keyboard_input system (wake_up keyboard_input system)
wake_up-Woken_example = wake_up-Woken keyboard_input system system-QueuesFit

trigger_scheduler-Runs_example :
    (k' : Kernel) × (trigger_scheduler 1 system ≡ some k') × Runs 3 (2 ∷ []) (preempted system) k'
trigger_scheduler-Runs_example =
    trigger_scheduler-Runs 0 system 3 [] system-QueuesFit (λ e. ground arith) (λ e. ground arith)
      refl refl (system-AllQuiet (3 ∷ system.suspended))

-- The system with nothing ready and the idle process told to terminate.
abbrev ending : Kernel
ending = record system {
  table = λ j. record (system_table j) { signals = λ n. n == 15 };
  ready_que = [];
  wait_list = [];
  suspended = [];
}

-- The stopped process with a SIGTERM pending.
abbrev warned : Kernel
warned = record system {
  table = λ j. record (system_table j) { signals = λ n. (n == 15) || (n == 18) };
}

check_pending_signals-HeldBack_example : HeldBack warned 5 (check_pending_signals 5 warned)
check_pending_signals-HeldBack_example = check_pending_signals-HeldBack warned 5 refl

system-Uncatchable : Uncatchable system
system-Uncatchable i = ground arith

-- Each process in use has the number of its slot as its PID.
pid_is_slot : (j : ℕ) → (system_table j).state ≢ State.unused → (system_table j).pid ≡ j
pid_is_slot j used = ground arith

system-Named : Named system
system-Named = record {
  distinct = λ i j a b same. sym (pid_is_slot i a) ∙ same ∙ pid_is_slot j b;
  own_event = λ i dead. ground arith;
}

-- The child of the shell in slot 6.
dead_child : DeadChild (negsuc 0) system 6
dead_child = record { low = omega arith; high = omega arith; dead = refl; child = refl; asked = tt }

wait-DeadChild_example :
    (i : ℕ) × (k' : Kernel) × DeadChild (negsuc 0) system i
    × (wait (negsuc 0) 2 system
        ≡ returns (pos (system_table i).pid) (some (system_table i).status) k')
    × Buried (negsuc 0) system i k'
wait-DeadChild_example =
    wait-DeadChild (negsuc 0) system 2 6 system-QueuesFit system-Named (λ e. ground arith) refl
      (λ e. ground arith) refl dead_child

wait-QueuesFit_example : QueuesFit (final (wait (negsuc 0) 2 system))
wait-QueuesFit_example =
    wait-QueuesFit (negsuc 0) 2 system system-QueuesFit (λ e. ground arith) refl

move_to_fore-QueuesFit_example : QueuesFit (move_to_fore (some 4) system)
move_to_fore-QueuesFit_example =
    move_to_fore-QueuesFit system 4 system-QueuesFit (λ e. ground arith) refl

-- Descriptors 0 and 1 lead to entry 3.
abbrev shared : ℕ → Option ℕ
shared j = if j == 0 then some 3 else if j == 1 then some 3 else none

fork-QueuesFit_example : QueuesFit (fork disk 0 system).1
fork-QueuesFit_example = fork-QueuesFit disk 0 system system-QueuesFit

fork-Forked_example :
    ((fork disk 0 system).0 ≡ negsuc 0)
    ⊎ (((fork disk 0 system).0 ≡ pos 7) × ((i : ℕ) × Forked system i (fork disk 0 system).1))
fork-Forked_example = fork-Forked disk 0 system (λ e. ground (arith, e))

share_files-raised_example :
    ((e : ℕ)
      → ((share_files shared system.files).file_table e).ref_count
        ≡ raised (uses e shared max_open_files 0) (pos 0))
    × ((x : ℕ)
        → ((share_files shared system.files).inode_table x).ref_count
          ≡ raised (inode_uses (λ e. none) x shared max_open_files 0) (pos 0))
share_files-raised_example = share_files-raised shared system.files

abbrev given_args : List (List ℕ)
given_args = (b'l' ∷ b's' ∷ []) ∷ (b'a' ∷ []) ∷ (b'&' ∷ []) ∷ []

abbrev no_args : ArgArea
no_args = record { argc = 0; args = λ j. 0 }
