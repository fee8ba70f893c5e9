-- ===== src/Process/Wait.antt =====
-- `wait` of process/process.c. Each round of its loop ends the call or puts the caller to sleep.
pub mod Zombie
pub mod Choice
pub mod Child
use frostbite.Base.{
  ℕ, zero, suc, ◌+◌, ◌-◌, ◌*◌, ◌/◌, ◌%◌, ◌^◌, ◌≤◌, ◌<◌, ◌≡◌, refl, sym, ap, ◌∙◌, ◌≢◌, ◌⊎◌, inl, inr,
  Bool, true, false, not, ◌&&◌, ◌||◌, Option, none, some, List, [], ◌∷◌, ◌++◌, arith, ◌==◌,
  if◌then◌else◌, ltb, leb, has, length, ℤ, pos, negsuc, eqb_ℤ, find_slot, for_slots,
}
use frostbite.Queue.Search.{first_evt}
use frostbite.Queue.Event.{erase_evt}
use frostbite.Memory.{free_uvm}
use frostbite.Files.{release_fd}
use frostbite.Process.{
  Process, Kernel, State, is, unused, killed, stopped, set_proc, state_change, max_open_files,
}
use frostbite.Process.Table.{get_process}
use frostbite.Process.Wake.{events}
use frostbite.Process.Schedule.{sleep, fall_asleep}

-- The call returns a value, with what it stores through `wstatus`; or the caller sleeps on
-- STATE_CHANGE, and another round follows once it runs again.
pub data Outcome : Type 0 where
  returns : ℤ → Option ℕ → Kernel → Outcome
  sleeps : Kernel → Outcome

abbrev is_nonneg : ℤ → Bool
is_nonneg (pos n) = true
is_nonneg (negsuc n) = false

-- get_process(pid), of an int.
unfoldable pub get_process_of : ℤ → Kernel → Option ℕ
get_process_of (pos n) k = get_process n k
get_process_of (negsuc n) k = none

-- The child of the caller that has stopped and is to be acknowledged.
unfoldable pub stopped_child : Kernel → Option ℕ
stopped_child k = elim (get_process_of (k.table k.curr).wpid k) [
  | none ↦ none
  | some i ↦
      if not (eqb_ℤ (k.table k.curr).wpid (pos 0))
        && (not (eqb_ℤ (k.table k.curr).wpid (pos 1))
            && (is (k.table i).state stopped && has i k.suspended))
      then some i
      else none
]

unfoldable pub set_wpid : ℤ → Kernel → Kernel
set_wpid pid k = set_proc k.curr (record (k.table k.curr) { wpid = pid }) k

-- Whether init becomes the parent of a zombie: it has no parent, or one that waits for another.
abbrev pub abandoned : ℕ → Kernel → Bool
abandoned j k = not ((k.table j).ppid == 1) && elim (get_process (k.table j).ppid k) [
  | none ↦ true
  | some parent ↦
      is_nonneg (k.table parent).wpid && not (eqb_ℤ (pos (k.table j).pid) (k.table parent).wpid)
]

unfoldable pub foster : List ℕ → Kernel → Kernel
foster [] k = k
foster (j ∷ js) k =
    foster js (if abandoned j k then set_proc j (record (k.table j) { ppid = 1 }) k else k)

abbrev pub is_child : Kernel → ℕ → Bool
is_child k i = not (is (k.table i).state unused) && ((k.table i).ppid == (k.table k.curr).pid)

-- Whether there is a child to wait for, and the PID to look for among the zombies.
unfoldable pub choose : ℤ → Kernel → Bool × ℤ
choose (negsuc n) k = elim (find_slot 99 1 (λ i. is_child k i && has i k.zombies)) [
  | none ↦ (elim (find_slot 99 1 (is_child k)) [ none ↦ false | some _ ↦ true ], negsuc n)
  | some i ↦ (true, pos (k.table i).pid)
]
choose (pos n) k = elim (get_process n k) [
  | none ↦ (false, pos n)
  | some i ↦ ((k.table i).ppid == (k.table k.curr).pid, pos n)
]

-- The descriptors that the zombie left open.
unfoldable pub release_files : ℕ → Kernel → Kernel
release_files i k = record k {
  files = for_slots max_open_files 0 (λ j fs. release_fd ((k.table i).fd_table j) fs) k.files;
}

-- Memory, files and the table slot of a zombie that was taken off the list.
unfoldable pub clean_up : ℕ → Kernel → Kernel
clean_up i k =
    let k1 = release_files i (record k { memory = free_uvm (k.table i).page_map k.memory }) in
    set_proc i (record (k1.table i) { state = State.unused }) k1

unfoldable pub reap : ℕ → ℤ → Kernel → Outcome
reap i wpid k =
    if is (k.table i).state killed
    then returns wpid (some (k.table i).status) (clean_up i k)
    else returns wpid none k

-- The search of the zombies, and what follows if there is none: return 0 on WNOHANG, or sleep.
unfoldable pub collect : Bool × ℤ → Bool → Kernel → Outcome
collect (false, wpid) no_hang k = returns (negsuc 0) none k
collect (true, wpid) no_hang k = elim (first_evt (events k) wpid k.zombies) [
  | none ↦ if no_hang then returns (pos 0) none k else sleeps (fall_asleep state_change k)
  | some i ↦ reap i wpid (record k { zombies = erase_evt (events k) wpid k.zombies })
]

abbrev no_hang_bit : ℕ → Bool
no_hang_bit options = options % 2 == 1

abbrev pub untraced_bit : ℕ → Bool
untraced_bit options = options / 2 % 2 == 1

-- The round from the search for zombies on.
unfoldable pub wait_zombie : ℤ → ℕ → Kernel → Outcome
wait_zombie pid options k =
    let k1 = if (k.table k.curr).pid == 1 then foster k.zombies k else k in
    collect (choose pid k1) (no_hang_bit options) k1

unfoldable pub wait_round : ℤ → ℕ → Kernel → Outcome
wait_round pid options k = elim (stopped_child k) [
  | none ↦ wait_zombie pid options k
  | some i ↦
      if untraced_bit options
      then returns (pos (k.table i).pid) (some (k.table i).status) (set_wpid pid k)
      else wait_zombie pid options (set_wpid pid k)
]

abbrev pub bad_pid : ℤ → Bool
bad_pid (pos zero) = true
bad_pid (pos (suc n)) = false
bad_pid (negsuc zero) = false
bad_pid (negsuc (suc n)) = true

-- The call up to the end of its first round.
unfoldable pub wait : ℤ → ℕ → Kernel → Outcome
wait pid options k =
    if bad_pid pid then returns (negsuc 0) none k else wait_round pid options (set_wpid pid k)
