-- ===== src/Process/Fork.antt =====
-- fork, exec and the first processes of process/process.c.
pub mod Queues
pub mod Child
pub mod Shares
use frostbite.Base.{
  inc, for_slots, ℕ, zero, suc, ◌+◌, ◌-◌, ◌*◌, ◌/◌, ◌%◌, ◌^◌, ◌≤◌, ◌<◌, ◌≡◌, refl, sym, ap, ◌∙◌,
  ◌≢◌, ◌⊎◌, inl, inr, Bool, true, false, not, ◌&&◌, ◌||◌, Option, none, some, List, [], ◌∷◌, ◌++◌,
  arith, ◌==◌, if◌then◌else◌, ltb, leb, has, length, ℤ, pos, negsuc, eqb_ℤ,
}
use frostbite.Process.{
  Process, Kernel, State, set_proc, no_event, init, ready, running, max_open_files,
}
use frostbite.Process.Load.{Uvm, alloc_new_process, copy_uvm, setup_uvm, map_size}
use frostbite.Process.Signal.{init_handlers}
use frostbite.Fat.{Image}
use frostbite.Files.{Files, set_entry, set_inode}
use frostbite.Memory.{Memory, assert}
use frostbite.Memory.Bytes.{copy_bytes}

-- `.BIN`
abbrev pub bin_ext : List ℕ
bin_ext = b'.' ∷ b'B' ∷ b'I' ∷ b'N' ∷ []

-- A descriptor of the parent is shared with the child: the counts of its entry and inode grow.
unfoldable pub share_fd : Option ℕ → Files → Files
share_fd none fs = fs
share_fd (some e) fs =
    let entry = fs.file_table e in
    let fs1 = set_entry e (record entry { ref_count = inc entry.ref_count }) fs in
    elim entry.inode [
      | none ↦ record fs1 { crashed = true }
      | some i ↦
          let node = fs1.inode_table i in
          set_inode i (record node { ref_count = inc node.ref_count }) fs1
    ]

unfoldable pub share_files : (ℕ → Option ℕ) → Files → Files
share_files fds fs = for_slots max_open_files 0 (λ j. share_fd (fds j)) fs

-- The current process gives up the foreground.
unfoldable pub yield_to_child : Kernel → Kernel
yield_to_child k = elim k.fg [
  | none ↦ k
  | some f ↦ if (k.table k.curr).pid == (k.table f).pid then record k { fg = none } else k
]

abbrev pub named : (parent child : Process) → Process
named parent child = record child { name = parent.name; ppid = parent.pid }

-- The child in slot `i` has its name and parent.
unfoldable pub name_child : ℕ → Kernel → Kernel
name_child i k = yield_to_child (set_proc i (named (k.table k.curr) (k.table i)) k)

-- The kernel after copy_uvm for the process in slot `i`.
unfoldable pub put_uvm : ℕ → Uvm → Kernel → Kernel
put_uvm i u k =
    let k1 = set_proc i (record (k.table i) { fd_table = u.fds; env = u.env }) k in
    record k1 { files = u.files; memory = u.memory }

unfoldable pub copy_parent : Image → ℕ → Kernel → Uvm
copy_parent img i k =
    let child = k.table i in
    let parent = k.table k.curr in
    copy_uvm img child.page_map child.env parent.page_map (parent.name ++ bin_ext) child.fd_table
      k.files k.memory

-- The child as a copy of the parent that is ready to run; it gets 0 from fork.
abbrev pub twin : (parent child : Process) → Process
twin parent child = init_handlers (record child {
  fd_table = parent.fd_table;
  frame = record parent.frame { x0 = 0 };
  state = ready;
})

-- The child becomes ready, and the parent gets its PID. The environment of the parent may be at an
-- address of its own; the words there are those of the page that is mapped.
unfoldable pub start_child : ℕ → Kernel → ℤ × Kernel
start_child i k =
    let child = k.table i in
    let parent = k.table k.curr in
    let k1 = set_proc i (twin parent child) k in
    (
      pos child.pid,
      record k1 {
        files = share_files parent.fd_table k.files;
        memory = copy_bytes map_size child.env parent.env k.memory;
        ready_que = k.ready_que ++ (i ∷ []);
      },
    )

-- From the allocated child on; a failed copy leaves it in the table.
unfoldable pub fork_child : Image → ℕ → Kernel → ℤ × Kernel
fork_child img i k =
    let k1 = name_child i k in
    let u = copy_parent img i k1 in
    if u.ok then start_child i (put_uvm i u k1) else (negsuc 0, put_uvm i u k1)

unfoldable pub fork : Image → ℕ → Kernel → ℤ × Kernel
fork img trap_return k = elim (alloc_new_process trap_return k) [
  | none ↦ (negsuc 0, k)
  | some (i, k1) ↦ fork_child img i k1
]

-- The idle process; `gdt` is the page table that the boot code has set up.
unfoldable pub init_idle_process : ℕ → Kernel → Kernel
init_idle_process gdt k =
    let idle = record (k.table 0) { state = running; pid = 0; daemon = true; page_map = gdt } in
    record (set_proc 0 idle k) { curr = 0 }

-- `INIT.BIN`
abbrev pub init_name : List ℕ
init_name = b'I' ∷ b'N' ∷ b'I' ∷ b'T' ∷ []

unfoldable pub start_init : ℕ → Kernel → Kernel
start_init i k =
    let p = record (k.table i) { name = init_name; ppid = 0; state = ready; daemon = true } in
    record (set_proc i (init_handlers p) k) { ready_que = k.ready_que ++ (i ∷ []) }

-- `none` is the failed ASSERT where there is no slot, or the program does not load.
unfoldable pub init_user_process : Image → ℕ → Kernel → Option Kernel
init_user_process img trap_return k = elim (alloc_new_process trap_return k) [
  | none ↦ none
  | some (i, k1) ↦
      let p = k1.table i in
      let u = setup_uvm img p.page_map p.env (init_name ++ bin_ext) p.fd_table k1.files k1.memory in
      if u.ok then some (start_init i (put_uvm i u k1)) else none
]

unfoldable pub init_process : Image → (trap_return gdt : ℕ) → Kernel → Option Kernel
init_process img trap_return gdt k =
    init_user_process img trap_return (init_idle_process gdt (record k { ready_que = [] }))
