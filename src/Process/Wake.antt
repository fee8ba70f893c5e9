-- ===== src/Process/Wake.antt =====
-- `wake_up` of process/process.c.
pub mod Split
use frostbite.Base.{
  ℕ, zero, suc, ◌+◌, ◌-◌, ◌*◌, ◌/◌, ◌%◌, ◌^◌, ◌≤◌, ◌<◌, ◌≡◌, refl, sym, ap, ◌∙◌, ◌≢◌, ◌⊎◌, inl, inr,
  Bool, true, false, not, ◌&&◌, ◌||◌, Option, none, some, List, [], ◌∷◌, ◌++◌, arith, ◌==◌,
  if◌then◌else◌, ltb, leb, has, length, ℤ, pos, negsuc, eqb_ℤ,
}
use frostbite.Queue.Search.{first_evt}
use frostbite.Queue.Event.{erase_evt}
use frostbite.Process.{Process, Kernel, State, is, ready, no_event, set_proc}

-- The event of the process in a slot, as `remove_evt` reads it.
abbrev pub events : Kernel → ℕ → ℤ
events k i = (k.table i).event

-- The body of the loop, for a process that was taken off the wait list.
unfoldable pub make_ready : ℕ → Kernel → Kernel
make_ready i k =
    if has i k.ready_que
    then k
    else (record (set_proc i (record (k.table i) { event = no_event; state = ready }) k) {
      ready_que = k.ready_que ++ (i ∷ []);
    })

-- Each round takes a process off the wait list, so its length is enough fuel.
unfoldable pub wake_loop : ℕ → ℤ → Kernel → Kernel
wake_loop zero event k = k
wake_loop (suc n) event k = elim (first_evt (events k) event k.wait_list) [
  | none ↦ k
  | some i ↦
      wake_loop n event
        (make_ready i (record k { wait_list = erase_evt (events k) event k.wait_list }))
]

unfoldable pub wake_up : ℤ → Kernel → Kernel
wake_up event k = wake_loop (length k.wait_list) event k
