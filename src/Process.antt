-- ===== src/Process.antt =====
-- The process table and `struct ProcessControl` of process/process.h.
pub mod Table
pub mod Kill
pub mod Wake
pub mod Exit
pub mod Signal
pub mod Schedule
pub mod Wait
pub mod Jobs
pub mod Arguments
pub mod Load
pub mod Fork
pub mod Invariant
mod Tests
pub mod Sample
use frostbite.Base.{
  ℕ, zero, suc, ◌+◌, ◌-◌, ◌*◌, ◌/◌, ◌%◌, ◌^◌, ◌≤◌, ◌<◌, ◌≡◌, refl, sym, ap, ◌∙◌, ◌≢◌, ◌⊎◌, inl, inr,
  Bool, true, false, not, ◌&&◌, ◌||◌, Option, none, some, List, [], ◌∷◌, ◌++◌, arith, ◌==◌,
  if◌then◌else◌, ltb, leb, has, length, ℤ, pos, negsuc, eqb_ℤ,
}
use frostbite.Memory.{Memory}
use frostbite.Files.{Files}
pub use frostbite.Files.Open.{max_open_files}

-- En_ProcessState
pub data State : Type 0 where
  unused init running ready sleeping stopped killed : State

abbrev pub state_code : State → ℕ
state_code unused = 0
state_code init = 1
state_code running = 2
state_code ready = 3
state_code sleeping = 4
state_code stopped = 5
state_code killed = 6

abbrev pub is : State → State → Bool
is s t = state_code s == state_code t

-- En_SleepEvent; an event is one of these, or the PID of a dead process.
abbrev pub no_event : ℤ
no_event = negsuc 254

abbrev pub sleep_syscall : ℤ
sleep_syscall = negsuc 253

abbrev pub state_change : ℤ
state_change = negsuc 252

abbrev pub keyboard_input : ℤ
keyboard_input = negsuc 251

abbrev pub daemon_input : ℤ
daemon_input = negsuc 250

abbrev pub fg_paused : ℤ
fg_paused = negsuc 249

abbrev pub proc_table_size : ℕ
proc_table_size = 100

abbrev pub total_signals : ℕ
total_signals = 32

abbrev pub sighup : ℕ
sighup = 1

abbrev pub sigint : ℕ
sigint = 2

abbrev pub sigabrt : ℕ
sigabrt = 6

abbrev pub sigkill : ℕ
sigkill = 9

abbrev pub sigterm : ℕ
sigterm = 15

abbrev pub sigchld : ℕ
sigchld = 17

abbrev pub sigcont : ℕ
sigcont = 18

abbrev pub sigstop : ℕ
sigstop = 19

abbrev pub sigtstp : ℕ
sigtstp = 20

-- An entry of `handlers`: NULL, the kernel's `def_handler_entry`, or an address that a process
-- registered.
pub data Handler : Type 0 where
  no_handler : Handler
  def_handler : Handler
  custom : ℕ → Handler

-- The fields of `struct ContextFrame` that fork and the kernel's signal code touch, and the words of
-- the user stack.
pub record Frame : Type 0 where
  pub x0 : ℕ
  pub elr : ℕ
  pub sp0 : ℕ
  pub stack : ℕ → ℕ

-- `signals` is the bit map, read by bit number.
pub record Process : Type 0 where
  pub name : List ℕ
  pub pid : ℕ
  pub ppid : ℕ
  pub wpid : ℤ
  pub state : State
  pub status : ℕ
  pub daemon : Bool
  pub jobs : ℕ
  pub job_spec : ℕ
  pub event : ℤ
  pub env : ℕ
  pub page_map : ℕ
  pub signals : ℕ → Bool
  pub fd_table : ℕ → Option ℕ
  pub frame : Frame
  pub handlers : ℕ → Handler

-- The kernel's state. A process is named by its slot in the table, and a queue is the list of its
-- slots in order. `kernel_call` is set when the kernel calls a custom handler at a kernel address,
-- after which the rest means nothing; so it does once the memory has halted or the files crashed.
pub record Kernel : Type 0 where
  pub table : ℕ → Process
  pub pid_num : ℕ
  pub curr : ℕ
  pub fg : Option ℕ
  pub ready_que : List ℕ
  pub wait_list : List ℕ
  pub suspended : List ℕ
  pub zombies : List ℕ
  pub shutdown : Bool
  pub target_proc : Option ℕ
  pub proxy_handler : ℕ
  pub kernel_call : Option ℕ
  pub memory : Memory
  pub files : Files

unfoldable pub set_proc : ℕ → Process → Kernel → Kernel
set_proc i p k = record k { table = λ j. if j == i then p else k.table j }

-- `1 << s` set in, and cleared from, a bit map.
abbrev pub raise : ℕ → (ℕ → Bool) → ℕ → Bool
raise s bits n = if n == s then true else bits n

abbrev pub lower : ℕ → (ℕ → Bool) → ℕ → Bool
lower s bits n = if n == s then false else bits n

-- `signals ^= (1 << s)`
abbrev pub toggle : ℕ → (ℕ → Bool) → ℕ → Bool
toggle s bits n = if n == s then not (bits n) else bits n
