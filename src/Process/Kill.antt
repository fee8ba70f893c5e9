-- ===== src/Process/Kill.antt =====
-- `kill` of process/process.c.
pub mod Post
pub mod Signals
use frostbite.Base.{
  erase, ℕ, zero, suc, ◌+◌, ◌-◌, ◌*◌, ◌/◌, ◌%◌, ◌^◌, ◌≤◌, ◌<◌, ◌≡◌, refl, sym, ap, ◌∙◌, ◌≢◌, ◌⊎◌,
  inl, inr, Bool, true, false, not, ◌&&◌, ◌||◌, Option, none, some, List, [], ◌∷◌, ◌++◌, arith,
  ◌==◌, if◌then◌else◌, ltb, leb, has, length, ℤ, pos, negsuc, eqb_ℤ, for_slots,
}
use frostbite.Memory.{free_uvm}
use frostbite.Files.{release_fd}
use frostbite.Process.{
  Process, Kernel, State, is, unused, killed, ready, sleeping, set_proc, raise, lower, sighup,
  sigterm, sigstop, sigtstp, sigcont, max_open_files,
}
use frostbite.Process.Table.{get_process}

-- A stop signal discards a pending continue signal, and the other way round.
unfoldable pub discard : ℕ → (ℕ → Bool) → ℕ → Bool
discard signal bits =
    if (signal == sigstop) || (signal == sigtstp)
    then lower sigcont bits
    else if signal == sigcont
    then lower sigstop (lower sigtstp bits)
    else bits

-- What the three branches of `kill` do to a process that is to get the signal: note it, and move
-- the process from the wait list to the ready queue if it sleeps.
unfoldable pub post : ℕ → ℕ → Kernel → Kernel
post signal i k =
    let p = k.table i in
    let noted = record p { signals = raise signal (discard signal p.signals) } in
    if is p.state sleeping
    then record (set_proc i (record noted { state = ready }) k) {
      wait_list = erase i k.wait_list;
      ready_que = k.ready_que ++ (i ∷ []);
    }
    else set_proc i noted k

abbrev pub gone : State → Bool
gone s = is s unused || is s killed

-- The inner loop over the descriptors of a zombie. Its counter hides the outer one, so that it
-- releases descriptor j of the process in slot j.
unfoldable pub release_shadowed : Kernel → Kernel
release_shadowed k =
    for_slots max_open_files 0
      (λ j k. record k { files = release_fd ((k.table j).fd_table j) k.files }) k

unfoldable pub release_zombie : ℕ → Kernel → Kernel
release_zombie i k =
    let k1 = release_shadowed (record k { memory = free_uvm (k.table i).page_map k.memory }) in
    set_proc i (record (k1.table i) { state = State.unused; daemon = false }) k1

-- The body of the loop of `kill(-1)`.
unfoldable pub broadcast_to : ℕ → ℕ → ℕ → Kernel → Kernel
broadcast_to sender signal i k =
    let p = k.table i in
    if p.pid == sender
    then k
    else if not (gone p.state)
    then post signal i k
    else if is p.state killed && (signal == sighup)
    then (if p.ppid == 1 then k else release_zombie i k)
    else k

-- The body of the loop of `kill(0)`.
unfoldable pub group_to : ℕ → ℕ → ℕ → Kernel → Kernel
group_to sender signal i k =
    let p = k.table i in
    if p.pid == sender
    then k
    else if not (gone p.state) && (sender == p.ppid)
    then post signal i k
    else k

unfoldable pub note_signal : ℕ → ℕ → Kernel → Kernel
note_signal signal i k =
    set_proc i (record (k.table i) { signals = raise signal (k.table i).signals }) k

unfoldable pub broadcast : ℕ → ℕ → Kernel → Kernel
broadcast sender signal k =
    let k1 = for_slots 98 2 (broadcast_to sender signal) k in
    let k2 = if signal == sigterm then note_signal signal 0 (note_signal signal 1 k1) else k1 in
    if signal == sighup then record k2 { pid_num = 2 } else k2

unfoldable pub kill_children : ℕ → ℕ → Kernel → Kernel
kill_children sender signal k = for_slots 98 2 (group_to sender signal) k

unfoldable pub kill_one : ℕ → ℕ → Kernel → ℤ × Kernel
kill_one pid signal k = elim (get_process pid k) [
  | none ↦ (negsuc 0, k)
  | some i ↦ (pos 0, post signal i k)
]

-- `sender` is the PID of the calling process.
unfoldable pub kill_pid : ℕ → ℤ → ℕ → Kernel → ℤ × Kernel
kill_pid sender (negsuc zero) signal k = (pos 0, broadcast sender signal k)
kill_pid sender (negsuc (suc n)) signal k = (negsuc 0, k)
kill_pid sender (pos zero) signal k = (pos 0, kill_children sender signal k)
kill_pid sender (pos (suc n)) signal k = kill_one (suc n) signal k

unfoldable pub kill : ℕ → ℤ → ℤ → Kernel → ℤ × Kernel
kill sender pid (negsuc n) k = (negsuc 0, k)
kill sender pid (pos signal) k =
    if ltb 31 signal then (negsuc 0, k) else kill_pid sender pid signal k
