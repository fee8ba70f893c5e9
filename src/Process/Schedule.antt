-- ===== src/Process/Schedule.antt =====
-- `schedule`, `trigger_scheduler`, `sleep` and `exit` of process/process.c.
pub mod Pick
pub mod Sleep
use frostbite.Base.{
  ℕ, zero, suc, ◌+◌, ◌-◌, ◌*◌, ◌/◌, ◌%◌, ◌^◌, ◌≤◌, ◌<◌, ◌≡◌, refl, sym, ap, ◌∙◌, ◌≢◌, ◌⊎◌, inl, inr,
  Bool, true, false, not, ◌&&◌, ◌||◌, Option, none, some, List, [], ◌∷◌, ◌++◌, arith, ◌==◌,
  if◌then◌else◌, ltb, leb, has, length, ℤ, pos, negsuc, eqb_ℤ,
}
use frostbite.Process.{
  Process, Kernel, State, is, unused, killed, stopped, ready, running, sleeping, set_proc, sigterm,
}
use frostbite.Process.Kill.{gone}
use frostbite.Process.Exit.{terminate}
use frostbite.Process.Signal.{check_pending_signals}

-- The walk over the suspended jobs, as they stood at its start: each successor is saved first, and
-- a job leaves the list for good, since a stop and a continue signal are never pending together.
unfoldable pub check_suspended : List ℕ → Kernel → Kernel
check_suspended [] k = k
check_suspended (j ∷ js) k = check_suspended js (check_pending_signals j k)

-- The search for a process that is still at the head of the ready queue after its signals were
-- delivered; it is popped. `none` in the second part means that the fuel ran out.
unfoldable pub pick : ℕ → Kernel → Kernel × Option (Option ℕ)
pick zero k = (k, none)
pick (suc n) k = elim k.ready_que [
  | [] ↦ (k, some none)
  | i ∷ _ ↦
      let k1 = check_pending_signals i k in
      elim k1.ready_que [
        | [] ↦ pick n k1
        | j ∷ rest ↦ if j == i then (record k1 { ready_que = rest }, some (some i)) else pick n k1
      ]
]

-- The foreground process once the one in slot `i` runs: if there is none, it is this, unless that
-- is a daemon.
unfoldable pub claim_fg : ℕ → Kernel → Option ℕ
claim_fg i k = elim k.fg [ none ↦ if (k.table i).daemon then none else some i | some f ↦ some f ]

-- `new_process` becomes the current process.
unfoldable pub dispatch : ℕ → Kernel → Kernel
dispatch i k = record (set_proc i (record (k.table i) { state = running }) k) {
  curr = i;
  fg = claim_fg i k;
}

abbrev pub is_empty : List ℕ → Bool
is_empty [] = true
is_empty (x ∷ xs) = false

-- With nothing ready the idle process runs; if nothing waits either and it was told to terminate,
-- the system shuts down.
unfoldable pub go_idle : Kernel → Kernel
go_idle k = dispatch 0 (
    if is_empty k.wait_list && (k.table 0).signals sigterm then record k { shutdown = true } else k)

unfoldable pub run_next : Kernel × Option (Option ℕ) → Option Kernel
run_next (k, none) = none
run_next (k, some none) = some (go_idle k)
run_next (k, some (some i)) = some (dispatch i k)

-- The state in which the chosen process goes on; the switch of stacks is assembly code.
unfoldable pub schedule : ℕ → Kernel → Option Kernel
schedule fuel k = run_next (pick fuel (check_suspended k.suspended k))

unfoldable pub trigger_scheduler : ℕ → Kernel → Option Kernel
trigger_scheduler fuel k =
    let p = k.table k.curr in
    let k1 = set_proc k.curr (record p { state = ready }) k in
    let k2 = if p.pid == 0 then k1 else record k1 { ready_que = k1.ready_que ++ (k.curr ∷ []) } in
    let next = schedule fuel k2 in if is_empty k.ready_que then some k else next

unfoldable pub fall_asleep : ℤ → Kernel → Kernel
fall_asleep event k =
    record (set_proc k.curr (record (k.table k.curr) { state = sleeping; event = event }) k) {
      wait_list = k.wait_list ++ (k.curr ∷ []);
    }

unfoldable pub sleep : ℕ → ℤ → Kernel → Option Kernel
sleep fuel event k = schedule fuel (fall_asleep event k)

-- `exit(process, status, false)`; `status & 0xff` of the int.
unfoldable pub exit : ℕ → ℕ → ℕ → Kernel → Option Kernel
exit fuel i status k =
    let next = schedule fuel (terminate i (status % 256 * 256) k) in
    if gone (k.table i).state then some k else next
