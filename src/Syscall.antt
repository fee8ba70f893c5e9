-- ===== src/Syscall.antt =====
-- The system calls of irq/syscall.c: those on processes, signals and jobs here, the others in the
-- modules below.
pub mod Restore
pub mod Kill
pub mod Sleep
pub mod Environment
pub mod Open
pub mod Dispatch
mod Tests
use frostbite.Base.{
  ℕ, zero, suc, ◌+◌, ◌-◌, ◌*◌, ◌/◌, ◌%◌, ◌^◌, ◌≤◌, ◌<◌, ◌≡◌, refl, sym, ap, ◌∙◌, ◌≢◌, ◌⊎◌, inl, inr,
  Bool, true, false, not, ◌&&◌, ◌||◌, Option, none, some, List, [], ◌∷◌, ◌++◌, arith, ◌==◌,
  if◌then◌else◌, ltb, leb, has, length, ℤ, pos, negsuc, eqb_ℤ,
}
use frostbite.Process.{Kernel, Process, Frame, set_proc}
use frostbite.Process.Table.{get_process, get_status, find_job, get_active_pids}
use frostbite.Process.Kill.{kill}
use frostbite.Process.Signal.{register_handler, set_sighandler_proxy}
use frostbite.Process.Schedule.{exit}
use frostbite.Process.Wait.{Outcome, wait}
use frostbite.Process.Jobs.{move_to_fore, move_to_back}

-- get_curr_process()
abbrev pub current : Kernel → Process
current k = k.table k.curr

-- `status` is the low 32 bits of the argument.
unfoldable pub sys_exit : ℕ → ℕ → Kernel → Option Kernel
sys_exit fuel status k = exit fuel k.curr status k

unfoldable pub sys_wait : ℤ → ℕ → Kernel → Outcome
sys_wait pid options k = wait pid options k

unfoldable pub sys_get_pid : Kernel → ℕ
sys_get_pid k = (current k).pid

unfoldable pub sys_get_jpid : ℤ → Kernel → ℤ
sys_get_jpid job k = elim (find_job job (current k).ppid k) [
  | none ↦ negsuc 0
  | some i ↦ pos (k.table i).pid
]

unfoldable pub sys_get_ppid : Kernel → ℕ
sys_get_ppid k = (current k).ppid

-- The process whose session is listed: the parent of the caller for 0, the caller for 2, NULL else.
abbrev pub session_of : ℕ → Kernel → Option ℕ
session_of which k =
    if which == 0 then get_process (current k).ppid k else if which == 2 then some k.curr else none

-- The PIDs that are stored; `none` is a NULL dereference, as some process is always in use.
unfoldable pub sys_active_procs : ℕ → Kernel → Option (List ℕ)
sys_active_procs which k =
    if which == 1 then some (get_active_pids 0 true k) else elim (session_of which k) [
      | none ↦ none
      | some i ↦ some (get_active_pids (k.table i).pid false k)
    ]

unfoldable pub sys_pstatus : Kernel → ℕ
sys_pstatus k = get_status (current k).ppid k

unfoldable pub sys_pctrl : ℤ → ℕ → Kernel → ℤ × Kernel
sys_pctrl job where_to k = elim (find_job job (current k).ppid k) [
  | none ↦ (negsuc 0, k)
  | some i ↦ (pos 0, if where_to == 0 then move_to_fore (some i) k else move_to_back (some i) k)
]

-- Forbids signals to the init process.
unfoldable pub sys_kill : ℤ → ℤ → Kernel → ℤ × Kernel
sys_kill pid signal k =
    if eqb_ℤ pid (pos 1) then (negsuc 0, k) else kill (current k).pid pid signal k

abbrev register_of : ℤ → ℕ → Kernel → Kernel
register_of (pos signal) address k = register_handler k.curr signal address k
register_of (negsuc n) address k = k

unfoldable pub sys_signal : ℤ → ℕ → ℕ → Kernel → Kernel
sys_signal signal address proxy k = set_sighandler_proxy proxy (register_of signal address k)

unfoldable pub sys_switchpenv : Kernel → Kernel
sys_switchpenv k = set_proc k.curr (record (current k) { env = 0 }) k

-- What `sigproxy_restore` takes back from the user stack before it restarts an interrupted system
-- call: the registers x1 and x8, the program counter and 24 bytes of stack.
pub record Restored : Type 0 where
  pub x1 : ℕ
  pub x8 : ℕ
  pub frame : Frame

unfoldable pub sigproxy_restore : Frame → Restored
sigproxy_restore f = record {
  x1 = f.stack f.sp0;
  x8 = f.stack ((f.sp0 + 8) % 2 ^ 64);
  frame = record f { elr = f.stack ((f.sp0 + 16) % 2 ^ 64); sp0 = (f.sp0 + 24) % 2 ^ 64 };
}
