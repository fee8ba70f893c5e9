-- ===== src/Process/Load.antt =====
-- The memory of a process: alloc_new_process of process/process.c, and setup_uvm and copy_uvm of
-- memory/memory.c.
pub mod Slot
use frostbite.Base.{
  ℕ, ◌+◌, ◌-◌, ◌*◌, Bool, true, false, not, Option, none, some, List, [], ◌==◌, if◌then◌else◌, ℤ,
  pos, negsuc,
}
use frostbite.Process.{Process, Kernel, no_handler, set_proc, no_event, init}
use frostbite.Process.Table.{find_unused_slot}
use frostbite.Fat.{Image}
use frostbite.Files.{Files, close_file}
use frostbite.Files.Open.{open_file, get_file_size, read_file}
use frostbite.Memory.{
  Memory, kalloc, kfree, assert, store, clear_table, map_page, free_uvm, find_udt_entry, mdt_slot,
  is_valid, to_virt, to_phy, page_table_entry_addr, user_attr, userspace_base, userspace_ext,
  page_size,
}
use frostbite.Memory.Bytes.{put_bytes, copy_bytes, clear_words}

-- `sizeof(struct Map)` and `sizeof(struct ContextFrame)`
abbrev pub map_size : ℕ
map_size = 101 * (64 + 128 + 8)

abbrev pub context_frame_size : ℕ
context_frame_size = 36 * 8

abbrev pub userspace_context_size : ℕ
userspace_context_size = 12 * 8

abbrev pub def_bss_size : ℕ
def_bss_size = 0x400

-- The place of register x30 on the kernel stack of the process with its page at `page_map`.
abbrev pub return_slot : ℕ → ℕ
return_slot page_map = page_map + page_size - context_frame_size - userspace_context_size + 11 * 8

-- The memory once the pages of a new process are there; `trap_return` is the address of that label
-- in the assembly code.
unfoldable pub new_pages : (trap_return page_map env : ℕ) → Memory → Memory
new_pages trap_return page_map env m =
    store (return_slot page_map) trap_return (clear_words map_size env (assert (not (env == 0)) m))

abbrev pub new_process : (pid page_map env : ℕ) → Process
new_process pid page_map env = record {
  name = [];
  pid = pid;
  ppid = 0;
  wpid = pos 0;
  state = init;
  status = 0;
  daemon = false;
  jobs = 0;
  job_spec = 0;
  event = no_event;
  env = env;
  page_map = page_map;
  signals = λ n. false;
  fd_table = λ n. none;
  frame = record { x0 = 0; elr = userspace_base; sp0 = userspace_base + page_size; stack = λ a. 0 };
  handlers = λ n. no_handler;
}

-- The kernel with a new process in slot `i`.
unfoldable pub place_new : ℕ → ℕ → Kernel → Kernel
place_new trap_return i k =
    let (page_map, m1) = kalloc k.memory in
    let m2 = clear_table page_map (assert (not (page_map == 0)) m1) in
    let (env, m3) = kalloc m2 in
    let k1 = set_proc i (new_process k.pid_num page_map env) k in
    record k1 { pid_num = k.pid_num + 1; memory = new_pages trap_return page_map env m3 }

-- The slot, and the kernel with the new process in it.
unfoldable pub alloc_new_process : ℕ → Kernel → Option (ℕ × Kernel)
alloc_new_process trap_return k = elim (find_unused_slot k) [
  | none ↦ none
  | some i ↦ some (i, place_new trap_return i k)
]

-- What setup_uvm and copy_uvm return and leave: the result, the environment's address, the
-- descriptors, the files and the memory.
pub record Uvm : Type 0 where
  pub ok : Bool
  pub env : ℕ
  pub fds : ℕ → Option ℕ
  pub files : Files
  pub memory : Memory

-- The label `out`.
unfoldable pub give_up : (page_map env : ℕ) → (ℕ → Option ℕ) → Files → Memory → Uvm
give_up page_map env fds fs m = record {
  ok = false;
  env = env;
  fds = fds;
  files = fs;
  memory = free_uvm page_map m;
}

-- A NULL dereference or a failed ASSERT.
unfoldable pub crash : (env : ℕ) → (ℕ → Option ℕ) → Files → Memory → Uvm
crash env fds fs m = record {
  ok = false;
  env = env;
  fds = fds;
  files = record fs { crashed = true };
  memory = m;
}

-- The last step of both: the page of the environment, which gets `new_env` as its address.
unfoldable pub map_env : (page_map env new_env : ℕ) → (ℕ → Option ℕ) → Files → Memory → Uvm
map_env page_map env new_env fds fs m =
    let (mapped, m1) = map_page page_map userspace_ext (to_phy env) user_attr m in
    if mapped
    then record { ok = true; env = new_env; fds = fds; files = fs; memory = m1 }
    else give_up page_map env fds fs m1

-- From the page `page` on, with the file open.
unfoldable pub load_file :
    Image → (page_map env page fd : ℕ) → (ℕ → Option ℕ) → Files → Memory → Uvm
load_file img page_map env page fd fds fs m = elim (get_file_size fds fd fs) [
  | none ↦ crash env fds fs m
  | some binary_size ↦ elim (read_file img fds fd binary_size fs) [
    | none ↦ crash env fds fs m
    | some ((bytes_read, out), fs1) ↦
        let m1 = put_bytes page out m in
        let (fds1, fs2) = close_file (pos fd) fds fs1 in
        if binary_size == bytes_read
        then map_env page_map env userspace_ext fds1 fs2 m1
        else give_up page_map env fds1 fs2 m1
  ]
]

unfoldable pub load_program :
    Image → (page_map env page : ℕ) → ℤ × ((ℕ → Option ℕ) × Files) → Memory → Uvm
load_program img page_map env page (negsuc n, (fds, fs)) m = give_up page_map env fds fs m
load_program img page_map env page (pos fd, (fds, fs)) m =
    load_file img page_map env page fd fds fs m

unfoldable pub setup_uvm :
    Image → (page_map env : ℕ) → List ℕ → (ℕ → Option ℕ) → Files → Memory → Uvm
setup_uvm img page_map env program_filename fds fs m =
    let (page, m1) = kalloc m in
    let (mapped, m2) = map_page page_map userspace_base (to_phy page) user_attr m1 in
    if page == 0
    then give_up page_map env fds fs m1
    else if mapped
    then load_program img page_map env page (open_file img program_filename fds fs) m2
    else record { ok = false; env = env; fds = fds; files = fs; memory = kfree page m2 }

abbrev pub stack_size : ℕ
stack_size = 135168

abbrev pub user_heap_size : ℕ
user_heap_size = 524288

-- The copy of the binary, of its bss, and of the user stack and heap at the end of the page. The frame
-- has the words of the user stack too.
unfoldable pub copy_file :
    (page_map env page src_mem fd : ℕ) → (ℕ → Option ℕ) → Files → Memory → Uvm
copy_file page_map env page src_mem fd fds fs m = elim (get_file_size fds fd fs) [
  | none ↦ crash env fds fs m
  | some binary_size ↦
      let (fds1, fs1) = close_file (pos fd) fds fs in
      let m1 = copy_bytes binary_size page src_mem m in
      let m2 = copy_bytes def_bss_size (page + binary_size) (src_mem + binary_size) m1 in
      let rest = page_size - (stack_size + user_heap_size) in
      let m3 = copy_bytes (stack_size + user_heap_size) (page + rest) (src_mem + rest) m2 in
      map_env page_map env env fds1 fs1 m3
]

unfoldable pub copy_program :
    (page_map env page src_mem : ℕ) → ℤ × ((ℕ → Option ℕ) × Files) → Memory → Uvm
copy_program page_map env page src_mem (negsuc n, (fds, fs)) m = give_up page_map env fds fs m
copy_program page_map env page src_mem (pos fd, (fds, fs)) m =
    copy_file page_map env page src_mem fd fds fs m

unfoldable pub copy_uvm :
    Image → (page_map env src_map : ℕ) → List ℕ → (ℕ → Option ℕ) → Files → Memory → Uvm
copy_uvm img page_map env src_map src_program_filename fds fs m =
    let (page, m1) = kalloc m in
    let (mapped, m2) = map_page page_map userspace_base (to_phy page) user_attr m1 in
    let (mdt, m3) = find_udt_entry src_map userspace_base false 0 m2 in
    let entry = m3.word (mdt_slot mdt userspace_base) in
    let m4 = assert (is_valid entry) m3 in
    if page == 0
    then give_up page_map env fds fs m1
    else if not mapped
    then record { ok = false; env = env; fds = fds; files = fs; memory = kfree page m2 }
    else if mdt == 0
    then give_up page_map env fds fs m3
    else copy_program page_map env page (to_virt (page_table_entry_addr entry))
        (open_file img src_program_filename fds fs) m4
