-- ===== src/Process/Jobs/Fore.antt =====
-- The queues under `move_to_fore` and `move_to_back`.
use frostbite.Base.{
  eqb_refl, Bool-cases, ℕ, ◌≡◌, refl, ◌≢◌, inl, inr, Bool, true, false, ◌||◌, Option, none, some,
  [], ◌∷◌, ◌++◌, arith, if◌then◌else◌, has, eqb_ℤ,
}
use frostbite.Process.{
  Kernel, Process, State, is, ready, sleeping, stopped, set_proc, daemon_input, keyboard_input,
}
use frostbite.Process.Invariant.{QueuesFit, not_on, on_queue, set_proc-QueuesFit}
use frostbite.Process.Kill.Post.{wake-QueuesFit, sleeping-eq}
use frostbite.Process.Jobs.{wake_in_fore, move_to_fore, move_to_back}

-- The states of a process that the `fg` command is meant for.
abbrev pub is_job : State → Bool
is_job s = is s ready || is s sleeping || is s stopped

abbrev enqueued : ℕ → Kernel → Kernel
enqueued i k = record k {
  fg = some i;
  ready_que = if has i k.ready_que then k.ready_que else k.ready_que ++ (i ∷ []);
}

set_fg-QueuesFit : {k : Kernel} (f : Option ℕ) → QueuesFit k → QueuesFit (record k { fg = f })
set_fg-QueuesFit f fit = record {
  fit_ready = fit.fit_ready;
  fit_wait = fit.fit_wait;
  fit_suspended = fit.fit_suspended;
  fit_zombies = fit.fit_zombies;
}

ready_not_sleeping : (s : State) → is s ready ≡ true → is s sleeping ≡ false
ready_not_sleeping s h = ground arith

sleeping_not_ready : (s : State) → is s sleeping ≡ true → is s ready ≡ false
sleeping_not_ready s h = ground arith

module _ (k : Kernel) (i : ℕ) (fit : QueuesFit k) (ne : i ≢ 0) where
  from_ready : is (k.table i).state ready ≡ true → QueuesFit (enqueued i (wake_in_fore i k))
  unfolding wake_in_fore
  from_ready is_ready =
      let awake : is (k.table i).state sleeping ≡ false =
        ready_not_sleeping (k.table i).state is_ready in
      let listed = on_queue fit.fit_ready i ne is_ready in
      rw (awake, listed) (set_fg-QueuesFit (some i) fit)

  from_wait : is (k.table i).state sleeping ≡ true → QueuesFit (enqueued i (wake_in_fore i k))
  unfolding wake_in_fore set_proc
  from_wait asleep =
      let out = not_on fit.fit_ready i (sleeping_not_ready (k.table i).state asleep) in
      let same = sleeping-eq (k.table i).state asleep in
      rw (asleep, out)
        (wake-QueuesFit i (record (k.table i) { state = ready }) (set_fg-QueuesFit (some i) fit) ne
          same refl)

  from_either :
      (is (k.table i).state ready || is (k.table i).state sleeping) ≡ true
      → QueuesFit (enqueued i (wake_in_fore i k))
  from_either either = elim (Bool-cases (is (k.table i).state ready)) [
    | inl is_ready ↦ from_ready is_ready
    | inr other ↦ from_wait (rw other at either)
  ]

not_stopped :
    (s : State) → is_job s ≡ true → is s stopped ≡ false → (is s ready || is s sleeping) ≡ true
not_stopped s a b = ground arith

-- For a process that is READY, asleep or stopped, `move_to_fore` keeps the queues right: one that
-- sleeps goes from the wait list to the ready queue, and a stopped one stays where it is.
pub move_to_fore-QueuesFit :
    (k : Kernel) (i : ℕ)
    → QueuesFit k
    → i ≢ 0
    → is_job (k.table i).state ≡ true
    → QueuesFit (move_to_fore (some i) k)
unfolding move_to_fore set_proc
move_to_fore-QueuesFit k i fit ne job = elim (Bool-cases (is (k.table i).state stopped)) [
  | inl halted ↦ rw halted (set_proc-QueuesFit i _ fit refl)
  | inr other ↦
      rw other
        (from_either _ i (set_proc-QueuesFit i (next (k.table i)) fit refl) ne (still job other))
]
  where
    next : Process → Process
    next p = record p {
      daemon = false;
      event = if eqb_ℤ p.event daemon_input then keyboard_input else p.event;
    }

    still :
        is_job (k.table i).state ≡ true
        → is (k.table i).state stopped ≡ false
        → (is ((set_proc i (next (k.table i)) k).table i).state ready
            || is ((set_proc i (next (k.table i)) k).table i).state sleeping)
          ≡ true
    still a b = rw (eqb_refl i) (not_stopped (k.table i).state a b)

-- `move_to_back` changes the event of a stopped process at most, and keeps the queues right.
pub move_to_back-QueuesFit :
    (process : Option ℕ) (k : Kernel) → QueuesFit k → QueuesFit (move_to_back process k)
unfolding move_to_back
move_to_back-QueuesFit none k fit = fit
move_to_back-QueuesFit (some i) k fit = elim (Bool-cases (is (k.table i).state stopped)) [
  | inl halted ↦ rw halted (set_proc-QueuesFit i _ fit refl)
  | inr other ↦ rw other fit
]
