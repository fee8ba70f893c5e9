-- ===== src/Irq/Tick.antt =====
-- A timer interrupt as a whole: the sleepers wake, and the next process runs.
use frostbite.Base.{
  ℕ, suc, ◌+◌, ◌%◌, ◌^◌, ◌≡◌, refl, ap, ◌∙◌, ◌≢◌, inl, inr, true, false, some, List, [], ◌∷◌, ◌++◌,
  has, Bool-cases,
}
use mathlib.Core.Path.{subst}
use frostbite.Process.{Kernel, running, sleep_syscall}
use frostbite.Process.Invariant.{QueuesFit, not_on}
use frostbite.Process.Wake.{events, wake_up}
use frostbite.Process.Wake.Split.{wake_up-Woken, waiting, has-waiting}
use frostbite.Process.Schedule.Pick.{Quiet, AllQuiet, Runs, preempted, trigger_scheduler-Runs}
use frostbite.Process.Schedule.{trigger_scheduler}
use frostbite.Irq.{
  Machine, set_kernel, timer_interrupt_handler, timer_irq, interrupt, handle_irq, handler,
}

-- The kernel once the sleepers are awake.
abbrev pub awake : Kernel → Kernel
awake k = wake_up sleep_syscall k

module _ (k : Kernel) (fit : QueuesFit k) where
  same_curr : (k.table k.curr).state ≡ running → (awake k).table (awake k).curr ≡ k.table k.curr
  same_curr busy =
      let w = wake_up-Woken sleep_syscall k fit in
      let out : has k.curr k.wait_list ≡ false = not_on fit.fit_wait k.curr (rw busy refl) in
      rw w.curr
        (w.table k.curr ∙ rw (has-waiting sleep_syscall (events k) k.curr k.wait_list out) refl)

  still-Quiet : (j : ℕ) → Quiet k j → Quiet (awake k) j
  still-Quiet j quiet =
      let w = wake_up-Woken sleep_syscall k fit in
      rw (w.table j) (elim (Bool-cases (has j (waiting (events k) sleep_syscall k.wait_list))) [
        | inl was_asleep ↦ rw was_asleep quiet
        | inr was_up ↦ rw was_up quiet
      ])

  all-Quiet : (i : ℕ) → AllQuiet k (i ∷ k.suspended) → AllQuiet (awake k) (i ∷ (awake k).suspended)
  all-Quiet i quiet =
      let w = wake_up-Woken sleep_syscall k fit in
      λ j listed. still-Quiet j (quiet j (rw w.suspended at listed))

  -- The scheduler's part of a tick.
  tick-Runs :
      (n : ℕ) (i : ℕ) (rest : List ℕ)
      → k.curr ≢ 0
      → (k.table k.curr).pid ≢ 0
      → (k.table k.curr).state ≡ running
      → k.ready_que ≡ i ∷ rest
      → AllQuiet k (i ∷ k.suspended)
      → (k' : Kernel) × (trigger_scheduler (suc n) (awake k) ≡ some k')
        × Runs i
            ((rest ++ waiting (events k) sleep_syscall k.wait_list) ++ (k.curr ∷ []))
            (preempted (awake k))
            k'
  tick-Runs n i rest ne user busy here quiet =
      let w = wake_up-Woken sleep_syscall k fit in
      let same = same_curr busy in
      let woke = waiting (events k) sleep_syscall k.wait_list in
      let queue : (awake k).ready_que ≡ i ∷ (rest ++ woke) =
        w.ready_que ∙ ap (λ q. q ++ woke) here in
      let (k', e, runs) =
        trigger_scheduler-Runs n (awake k) i (rest ++ woke) w.fit (rw w.curr ne) (rw same user)
          (rw same busy) queue (all-Quiet i quiet) in
      (k', e, subst (λ c. Runs i ((rest ++ woke) ++ (c ∷ [])) (preempted (awake k)) k') w.curr runs)

-- On a timer interrupt with the process in slot `i` at the head of the ready queue and no signal
-- pending for it or a stopped job, where the queues fit and the current process is RUNNING and not
-- the idle one: the tick is counted, the processes that sleep for ticks go behind the ready ones,
-- the current process goes behind them, and `i` runs; the queues fit again.
pub handler-tick :
    (n : ℕ) (m : Machine) (k : Kernel) (i : ℕ) (rest : List ℕ)
    → m.console.kernel ≡ k
    → QueuesFit k
    → k.curr ≢ 0
    → (k.table k.curr).pid ≢ 0
    → (k.table k.curr).state ≡ running
    → k.ready_que ≡ i ∷ rest
    → AllQuiet k (i ∷ k.suspended)
    → (k' : Kernel) × (handler (suc n) (interrupt (timer_irq true)) m
        ≡ some (record (set_kernel k' m) { ticks = (m.ticks + 1) % 2 ^ 64 }))
      × Runs i
          ((rest ++ waiting (events k) sleep_syscall k.wait_list) ++ (k.curr ∷ []))
          (preempted (awake k))
          k'
unfolding handler handle_irq timer_interrupt_handler
handler-tick n m k i rest own fit ne user busy here quiet =
    let (k', e, runs) = tick-Runs k fit n i rest ne user busy here quiet in
    (k', rw (own, e) refl, runs)
