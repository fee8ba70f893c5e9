-- ===== src/Irq.antt =====
-- The timer and the entry for exceptions: irq/handler.c.
pub mod Tick
mod Tests
use frostbite.Base.{
  ℕ, zero, suc, ◌+◌, ◌-◌, ◌*◌, ◌/◌, ◌%◌, ◌^◌, ◌≤◌, ◌<◌, ◌≡◌, refl, sym, ap, ◌∙◌, ◌≢◌, ◌⊎◌, inl, inr,
  Bool, true, false, not, ◌&&◌, ◌||◌, Option, none, some, List, [], ◌∷◌, ◌++◌, arith, ◌==◌,
  if◌then◌else◌, ltb, leb, has, length, ℤ, pos, negsuc, eqb_ℤ,
}
use frostbite.Process.{Kernel, sleep_syscall}
use frostbite.Process.Wake.{wake_up}
use frostbite.Process.Schedule.{exit, trigger_scheduler}
use frostbite.Keyboard.Capture.{Console, uart_handler}

-- The console with the kernel, and the ticks since the start.
pub record Machine : Type 0 where
  pub console : Console
  pub ticks : ℕ

unfoldable pub get_ticks : Machine → ℕ
get_ticks m = m.ticks

abbrev pub set_kernel : Kernel → Machine → Machine
set_kernel k m = record m { console = record m.console { kernel = k } }

-- `fired` is bit 2 of the timer status.
unfoldable pub timer_interrupt_handler : Bool → Machine → Machine
timer_interrupt_handler fired m =
    let k = wake_up sleep_syscall m.console.kernel in
    if fired then record (set_kernel k m) { ticks = (m.ticks + 1) % 2 ^ 64 } else m

-- What the interrupt registers say.
pub data Irq : Type 0 where
  timer_irq : (fired : Bool) → Irq
  uart_irq : (receiving : Bool) → (keys : List ℕ) → Irq
  unknown_irq : Irq

-- Why the kernel was entered. `user_except` is whether user code ran; a system call is
-- system_call of irq/syscall.c.
pub data Trap : Type 0 where
  sync : (user_except : Bool) → Trap
  interrupt : Irq → Trap
  other : (user_except : Bool) → Trap

-- The machine after the call; `none` is an endless loop, in the kernel's own errors or in
-- uart_handler, or too little fuel for the scheduler.
abbrev with_kernel : Machine → Option Kernel → Option Machine
with_kernel m none = none
with_kernel m (some k) = some (set_kernel k m)

-- A process that user code has brought down.
unfoldable pub bring_down : ℕ → Bool → Machine → Option Machine
bring_down fuel user_except m =
    let k = m.console.kernel in if user_except then with_kernel m (exit fuel k.curr 1 k) else none

unfoldable pub handle_irq : ℕ → Irq → Machine → Option Machine
handle_irq fuel (timer_irq fired) m =
    let m1 = timer_interrupt_handler fired m in
    with_kernel m1 (trigger_scheduler fuel m1.console.kernel)
handle_irq fuel (uart_irq receiving keys) m = elim (uart_handler receiving keys m.console) [
  | none ↦ none
  | some c ↦ some (record m { console = c })
]
handle_irq fuel unknown_irq m = none

-- The context frame of the idle process, which it keeps a pointer to, is not modelled.
unfoldable pub handler : ℕ → Trap → Machine → Option Machine
handler fuel (sync user_except) m = bring_down fuel user_except m
handler fuel (interrupt irq) m = handle_irq fuel irq m
handler fuel (other user_except) m = bring_down fuel user_except m
