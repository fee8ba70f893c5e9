-- ===== src/Process/Signal/Register.antt =====
-- `register_handler`: which handlers a process can change.
use frostbite.Process.Invariant.{and-false, QueuesFit, set_proc-QueuesFit}
use frostbite.Base.{
  Bool-cases, ℕ, zero, suc, ◌≡◌, refl, ◌∙◌, inl, inr, Bool, true, false, not, ◌&&◌, ◌||◌, arith,
  ◌==◌, if◌then◌else◌, ltb,
}
use frostbite.Process.{Kernel, Handler, def_handler, no_handler, custom, sigkill, sigstop, set_proc}
use frostbite.Process.Signal.{register_handler}

-- SIGKILL and SIGSTOP have their default handlers in every process.
abbrev pub Uncatchable : Kernel → Type 0
Uncatchable k =
    (i : ℕ)
    → ((k.table i).handlers sigkill ≡ def_handler) × ((k.table i).handlers sigstop ≡ def_handler)

-- The signals whose handler a process can set, as POSIX has them: all but SIGKILL and SIGSTOP.
abbrev pub catchable : ℕ → Bool
catchable signal = ltb 0 signal && ltb signal 31 && not ((signal == 9) || (signal == 19))

-- The handler for an address: SIG_DFL is 0 and SIG_IGN is 1.
abbrev pub handler_at : ℕ → Handler
handler_at zero = def_handler
handler_at (suc zero) = no_handler
handler_at (suc (suc n)) = custom (suc (suc n))

handler_at-if :
    (address : ℕ)
    → (if address == 1 then no_handler else if address == 0 then def_handler else custom address)
      ≡ handler_at address
handler_at-if zero = refl
handler_at-if (suc zero) = refl
handler_at-if (suc (suc n)) = ground arith

-- The handlers after a call: the one of a catchable signal is what the address stands for, and
-- every other handler, and every handler of another process, is as it was.
pub register_handler-handlers :
    (i signal address : ℕ) (k : Kernel) (j n : ℕ)
    → ((register_handler i signal address k).table j).handlers n ≡ (
        if (j == i) && ((n == signal) && catchable signal)
        then handler_at address
        else (k.table j).handlers n)
unfolding register_handler set_proc
register_handler-handlers i signal address k j n = rw (handler_at-if address) (ground arith)

never_caught :
    (n signal : ℕ) → ((n == 9) || (n == 19)) ≡ true → ((n == signal) && catchable signal) ≡ false
never_caught n signal h = ground arith

register_handler-QueuesFit :
    (i signal address : ℕ) (k : Kernel)
    → QueuesFit k
    → QueuesFit (register_handler i signal address k)
unfolding register_handler
register_handler-QueuesFit i signal address k fit = elim (Bool-cases (catchable signal)) [
  | inl can ↦ rw can (set_proc-QueuesFit i _ fit refl)
  | inr cannot ↦ rw cannot fit
]

register_handler-kept :
    (i signal address : ℕ) (k : Kernel) (j n : ℕ)
    → ((n == 9) || (n == 19)) ≡ true
    → ((register_handler i signal address k).table j).handlers n ≡ (k.table j).handlers n
register_handler-kept i signal address k j n h =
    register_handler-handlers i signal address k j n
    ∙ rw (never_caught n signal h, and-false (j == i)) refl

-- No call takes the default handlers of SIGKILL and SIGSTOP away, from any process, and none moves a
-- process between the queues.
pub register_handler-Uncatchable :
    (i signal address : ℕ) (k : Kernel)
    → Uncatchable k
    → QueuesFit k
    → Uncatchable (register_handler i signal address k)
      × QueuesFit (register_handler i signal address k)
register_handler-Uncatchable i signal address k safe fit = (
  (λ j.
      let (a, b) = safe j in
      (
        register_handler-kept i signal address k j sigkill refl ∙ a,
        register_handler-kept i signal address k j sigstop refl ∙ b,
      )),
  register_handler-QueuesFit i signal address k fit,
)
