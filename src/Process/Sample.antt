-- ===== src/Process/Sample.antt =====
-- A system at work, on which the theorems are applied.
use frostbite.Base.{ℕ, refl, false, none, some, [], ◌∷◌, arith, ◌==◌, if◌then◌else◌, ℤ, pos}
use frostbite.Process.{
  Kernel, Process, State, running, ready, sleeping, stopped, killed, no_event, state_change, Frame,
  keyboard_input,
}
use frostbite.Process.Signal.{def_handlers}
use frostbite.Memory.{Memory}
use frostbite.Files.{Files}
use frostbite.Process.Invariant.{QueuesFit}

abbrev pub quiet_frame : Frame
quiet_frame = record { x0 = 0; elr = 4096; sp0 = 8192; stack = λ a. 0 }

abbrev proc : ℕ → ℕ → State → ℤ → Process
proc pid ppid state event = record {
  name = [];
  pid = pid;
  ppid = ppid;
  wpid = pos 0;
  state = state;
  status = 7;
  daemon = false;
  jobs = 0;
  job_spec = 0;
  event = event;
  env = 0;
  page_map = 0;
  signals = λ n. false;
  fd_table = λ n. none;
  frame = quiet_frame;
  handlers = def_handlers;
}

-- The shell in slot 2 runs; its children are ready, asleep, stopped and dead.
abbrev pub system_table : ℕ → Process
system_table j =
    if j == 0
    then proc 0 0 ready no_event
    else if j == 1
    then proc 1 0 sleeping state_change
    else if j == 2
    then proc 2 1 running no_event
    else if j == 3
    then proc 3 2 ready no_event
    else if j == 4
    then proc 4 2 sleeping keyboard_input
    else if j == 5
    then proc 5 2 stopped no_event
    else if j == 6
    then proc 6 2 killed (pos 6)
    else proc 0 0 State.unused no_event

abbrev no_memory : Memory
no_memory = record { word = λ a. 0; free_head = 0; kern_end = 0; halted = false }

abbrev no_files : Files
no_files = record {
  inode_table = λ i. record {
    name = [];
    ext = [];
    cluster_index = 0;
    dir_index = 0;
    file_size = 0;
    ref_count = pos 0;
  };
  file_table = λ i. record { inode = none; offset = 0; ref_count = pos 0 };
  crashed = false;
}

abbrev pub system : Kernel
system = record {
  table = system_table;
  pid_num = 7;
  curr = 2;
  fg = some 2;
  ready_que = 3 ∷ [];
  wait_list = 1 ∷ 4 ∷ [];
  suspended = 5 ∷ [];
  zombies = 6 ∷ [];
  shutdown = false;
  target_proc = none;
  proxy_handler = 0;
  kernel_call = none;
  memory = no_memory;
  files = no_files;
}

pub system-QueuesFit : QueuesFit system
system-QueuesFit = record {
  fit_ready = record { members = λ j. ground arith; nodup = (refl, tt) };
  fit_wait = record { members = λ j. ground arith; nodup = (refl, (refl, tt)) };
  fit_suspended = record { members = λ j. ground arith; nodup = (refl, tt) };
  fit_zombies = record { members = λ j. ground arith; nodup = (refl, tt) };
}
