-- ===== src/Syscall/Open.antt =====
-- The system calls on files, the fork call and the keyboard's, irq/syscall.c.
use frostbite.Base.{ℕ, Option, none, some, List, ◌==◌, if◌then◌else◌, ℤ}
use frostbite.Process.{Kernel, set_proc, fg_paused, daemon_input}
use frostbite.Process.Table.{get_fg_process}
use frostbite.Process.Fork.{fork}
use frostbite.Fat.{Image}
use frostbite.Files.{Files, close_file}
use frostbite.Files.Open.{open_file, get_file_size, read_file, read_root_dir_table}
use frostbite.Syscall.{current}

-- The descriptors of the current process and the files after a call.
abbrev pub with_fds : (ℕ → Option ℕ) → Files → Kernel → Kernel
with_fds fds fs k = record (set_proc k.curr (record (current k) { fd_table = fds }) k) {
  files = fs;
}

unfoldable pub sys_open_file : Image → List ℕ → Kernel → ℤ × Kernel
sys_open_file img pathname k =
    let r = open_file img pathname (current k).fd_table k.files in (r.0, with_fds r.1.0 r.1.1 k)

unfoldable pub sys_close_file : ℤ → Kernel → Kernel
sys_close_file fd k = let r = close_file fd (current k).fd_table k.files in with_fds r.0 r.1 k

-- `none` is a NULL dereference.
unfoldable pub sys_file_size : ℕ → Kernel → Option ℕ
sys_file_size fd k = get_file_size (current k).fd_table fd k.files

-- The result, and what is copied to the buffer.
unfoldable pub sys_read_file : Image → (fd size : ℕ) → Kernel → Option ((ℕ × List ℕ) × Kernel)
sys_read_file img fd size k = elim (read_file img (current k).fd_table fd size k.files) [
  | none ↦ none
  | some (r, fs) ↦ some (r, record k { files = fs })
]

unfoldable pub sys_read_root_dir : Image → ℕ × List ℕ
sys_read_root_dir img = read_root_dir_table img

unfoldable pub sys_fork : Image → ℕ → Kernel → ℤ × Kernel
sys_fork img trap_return k = fork img trap_return k

-- What sys_keyboard_read does next: it sleeps on an event, or reads the key.
pub data Turn : Type 0 where
  asleep : ℤ → Turn
  reads : Turn

-- From the second check on, at the first time and after each sleep; `none` is the NULL dereference
-- without a foreground process.
unfoldable pub paused_turn : Kernel → Option Turn
paused_turn k =
    let p = current k in
    let in_fore : Option Turn = elim (get_fg_process k) [
      | none ↦ none
      | some f ↦ some (if p.pid == (k.table f).pid then reads else asleep fg_paused)
    ] in
    if p.daemon then some reads else in_fore

unfoldable pub first_turn : Kernel → Option Turn
first_turn k = if (current k).daemon then some (asleep daemon_input) else paused_turn k
