-- ===== src/Process/Exit.antt =====
-- `switch_parent` and `exit` of process/process.c, up to the call of the scheduler.
use frostbite.Base.{
  erase, ℕ, ◌+◌, Bool, true, not, ◌&&◌, ◌||◌, Option, none, some, List, [], ◌∷◌, ◌++◌, ◌==◌,
  if◌then◌else◌, pos, for_slots,
}
use frostbite.Process.{
  Kernel, is, unused, killed, stopped, set_proc, raise, sigchld, sigterm, fg_paused, state_change,
}
use frostbite.Process.Table.{get_process}
use frostbite.Process.Kill.{kill, gone}
use frostbite.Process.Wake.{wake_up}

abbrev is_zero : ℕ → Bool
is_zero n = n == 0

-- The body of the loop of `switch_parent`; `parent` is the new parent's slot.
unfoldable pub adopt : ℕ → ℕ → ℕ → Bool → ℕ → Kernel → Kernel
adopt curr_ppid new_ppid parent transfer_jobs i k =
    let p = k.table i in
    let k1 = set_proc i (record p { ppid = new_ppid }) k in
    let boss = k1.table parent in
    let k2 = set_proc parent (record boss { jobs = boss.jobs + 1 }) k1 in
    let k3 = set_proc i (record (k2.table i) { job_spec = (k2.table parent).jobs }) k2 in
    if is p.state unused || not (p.ppid == curr_ppid)
    then k
    else if transfer_jobs && not (is_zero p.job_spec) && not (is p.state stopped)
    then k3
    else k1

unfoldable pub switch_parent : ℕ → ℕ → Bool → Kernel → Kernel
switch_parent curr_ppid new_ppid transfer_jobs k = elim (get_process new_ppid k) [
  | none ↦ k
  | some parent ↦
      if is (k.table parent).state killed
      then k
      else for_slots 99 1 (adopt curr_ppid new_ppid parent transfer_jobs) k
]

-- The living parent of the process in a slot, as the exit code looks it up.
abbrev pub live_parent : ℕ → Kernel → Option ℕ
live_parent i k = elim (get_process (k.table i).ppid k) [
  | none ↦ none
  | some parent ↦ if is (k.table parent).state killed then none else some parent
]

-- SIGCHLD and the child's status for the parent.
unfoldable pub tell_parent : ℕ → ℕ → Kernel → Kernel
tell_parent parent i k =
    let boss = k.table parent in
    set_proc parent
      (record boss { signals = raise sigchld boss.signals; status = (k.table i).status }) k

-- Tells a living parent, or makes init the parent.
unfoldable pub inform : ℕ → Kernel → Kernel
inform i k = elim (live_parent i k) [
  | none ↦ set_proc i (record (k.table i) { ppid = 1 }) k
  | some parent ↦ tell_parent parent i k
]

-- One stopped job of the process with this PID: it is killed with its children.
unfoldable pub end_job : ℕ → ℕ → Kernel → Kernel
end_job pid j k =
    let p = k.table j in
    let k1 = set_proc j (record p { state = killed; event = pos p.pid }) k in
    let k2 = (kill p.pid (pos 0) (pos sigterm) k1).1 in
    if (p.ppid == pid) && is p.state stopped
    then record k2 { suspended = erase j k2.suspended; zombies = k2.zombies ++ (j ∷ []) }
    else k

-- The walk saves each successor before its body runs, and the body takes only the visited job off
-- the list, so it visits the list as it stood at the start.
unfoldable pub end_jobs : ℕ → List ℕ → Kernel → Kernel
end_jobs pid [] k = k
end_jobs pid (j ∷ js) k = end_jobs pid js (end_job pid j k)

-- The slot that takes the foreground from a process: its parent, unless that is a daemon.
abbrev pub heir : Option ℕ → Kernel → Option ℕ
heir none k = none
heir (some parent) k = if (k.table parent).daemon then none else some parent

-- `if (process->pid == pc.fg_process->pid) pc.fg_process = …`
unfoldable pub yield_fg : ℕ → Option ℕ → Kernel → Kernel
yield_fg i parent k = elim k.fg [
  | none ↦ k
  | some f ↦ if (k.table i).pid == (k.table f).pid then record k { fg = heir parent k } else k
]

unfoldable pub wake_paused : ℕ → Kernel → Kernel
wake_paused i k = if (k.table i).daemon then k else wake_up fg_paused k

-- `exit` after its guard and without the final `schedule`; `parent` is looked up once the process
-- counts as killed.
unfoldable pub terminate : ℕ → ℕ → Kernel → Kernel
terminate i status k =
    let p = k.table i in
    let k1 = set_proc i (record p { status = status; state = killed; event = pos p.pid }) k in
    let parent = get_process p.ppid k1 in
    let k2 = inform i k1 in
    let k3 = end_jobs p.pid k2.suspended k2 in
    let k4 = switch_parent p.pid 1 true k3 in
    let k5 = wake_paused i (yield_fg i parent k4) in
    wake_up state_change (record k5 { zombies = k5.zombies ++ (i ∷ []) })

-- `exit(process, status, true)`, as a signal handler calls it.
unfoldable pub exit_by_signal : ℕ → ℕ → Kernel → Kernel
exit_by_signal i status k = if gone (k.table i).state then k else terminate i status k
