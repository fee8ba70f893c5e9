-- ===== src/Irq/Tests.antt =====
-- A timer interrupt in the sample system.
use frostbite.Base.{ℕ, ◌≡◌, refl, true, some, [], ◌∷◌, ◌++◌, arith}
use frostbite.Process.{Kernel, sleep_syscall}
use frostbite.Process.Sample.{system, system-QueuesFit}
use frostbite.Process.Schedule.Pick.{Quiet, Runs, preempted}
use frostbite.Process.Signal.{any_pending}
use frostbite.Process.Wake.{events}
use frostbite.Process.Wake.Split.{waiting}
use frostbite.Irq.{Machine, set_kernel, timer_irq, interrupt, handler}
use frostbite.Irq.Tick.{awake, handler-tick}

abbrev machine : Machine
machine = record {
  console = record {
    kernel = system;
    keys = record { buf = λ j. 0; front = 0; end = 0 };
    echo = [];
  };
  ticks = 41;
}

system-Quiet : (j : ℕ) → Quiet system j
unfolding any_pending
system-Quiet j = ground arith

handler-tick_example :
    (k' : Kernel) × (handler 1 (interrupt (timer_irq true)) machine
      ≡ some (record (set_kernel k' machine) { ticks = 42 }))
    × Runs 3
        (([] ++ waiting (events system) sleep_syscall (1 ∷ 4 ∷ [])) ++ (2 ∷ []))
        (preempted (awake system))
        k'
handler-tick_example =
    handler-tick 0 machine system 3 [] refl system-QueuesFit (λ e. ground arith) (λ e. ground arith)
      refl refl (λ j listed. system-Quiet j)
