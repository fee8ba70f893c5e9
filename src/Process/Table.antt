-- ===== src/Process/Table.antt =====
-- The searches of the process table in process/process.c.
use frostbite.Base.{
  ℕ, zero, suc, ◌-◌, ◌^◌, ◌≤◌, ◌<◌, ◌≡◌, ap, ◌∙◌, ◌≢◌, inl, inr, Bool, true, not, ◌&&◌, ◌||◌,
  Option, none, some, List, [], ◌∷◌, ◌++◌, arith, ◌==◌, if◌then◌else◌, ℤ, pos, negsuc,
  find_slot-some, find_slot-none, Option-cases, find_slot, for_slots, ◌↔◌,
}
use frostbite.Process.{Process, Kernel, State, is, unused, killed, proc_table_size}

-- A slot that is in use by a process with this PID.
abbrev pub holds_pid : Kernel → ℕ → ℕ → Bool
holds_pid k pid i = not (is (k.table i).state unused) && ((k.table i).pid == pid)

-- The slot that `get_process` points to; the idle process in slot 0 is never found.
unfoldable pub get_process : ℕ → Kernel → Option ℕ
get_process pid k = find_slot 99 1 (holds_pid k pid)

abbrev pub holds_job : Kernel → ℕ → ℕ → ℕ → Bool
holds_job k job_spec ppid i =
    not (is (k.table i).state unused)
    && (((k.table i).ppid == ppid) && ((k.table i).job_spec == job_spec))

abbrev positive : ℤ → Option ℕ
positive (pos zero) = none
positive (pos (suc n)) = some (suc n)
positive (negsuc n) = none

unfoldable pub find_job : ℤ → ℕ → Kernel → Option ℕ
find_job job_spec ppid k = elim (positive job_spec) [
  | none ↦ none
  | some n ↦ find_slot 99 1 (holds_job k n ppid)
]

-- INT32_MAX if there is no such process.
unfoldable pub get_status : ℕ → Kernel → ℕ
get_status pid k = elim (get_process pid k) [ none ↦ 2 ^ 31 - 1 | some i ↦ (k.table i).status ]

unfoldable pub get_fg_process : Kernel → Option ℕ
get_fg_process k = elim k.fg [
  | none ↦ none
  | some f ↦ if is (k.table f).state unused || is (k.table f).state killed then none else some f
]

abbrev pub in_session : Kernel → Bool → ℕ → ℕ → Bool
in_session k all pid i =
    not (is (k.table i).state unused)
    && (all || (((k.table i).ppid == pid) || ((k.table i).pid == pid)))

-- The PIDs that are stored through `pid_list`; the result of the function is their number.
-- `pid` is the PID of `process`, which is read only if `all` is 0.
unfoldable pub get_active_pids : ℕ → Bool → Kernel → List ℕ
get_active_pids pid all k =
    for_slots 99 1
      (λ i pids. if in_session k all pid i then pids ++ ((k.table i).pid ∷ []) else pids) []

-- The first free slot; slot 0 is reserved for the idle process.
unfoldable pub find_unused_slot : Kernel → Option ℕ
find_unused_slot k = find_slot 99 1 (λ i. is (k.table i).state unused)

pub is-unused_iff : (s : State) → (is s unused ≡ true) ↔ (s ≡ unused)
is-unused_iff s = ground arith

holds_pid-true :
    (p : Process) (pid : ℕ)
    → (not (is p.state unused) && (p.pid == pid)) ≡ true
    → (p.pid ≡ pid) × (p.state ≢ unused)
holds_pid-true p pid h = ground arith

holds_pid_self :
    (p : Process) → p.state ≢ unused → (not (is p.state unused) && (p.pid == p.pid)) ≡ true
holds_pid_self p used = ground (arith, is-unused_iff p.state)

-- A process that `get_process` finds has the PID, is in the table and is not unused.
pub get_process-some :
    (pid : ℕ) (k : Kernel) (i : ℕ)
    → get_process pid k ≡ some i
    → (1 ≤ i) × (i < proc_table_size) × ((k.table i).pid ≡ pid) × ((k.table i).state ≢ unused)
unfolding get_process
get_process-some pid k i h =
    let (lo, hi, t, before) = find_slot-some 99 1 (holds_pid k pid) i h in
    let (same, used) = holds_pid-true (k.table i) pid t in (lo, omega arith, same, used)

not-get_process-none :
    (k : Kernel) (i : ℕ)
    → 1 ≤ i
    → i < proc_table_size
    → (k.table i).state ≢ unused
    → get_process (k.table i).pid k ≢ none
unfolding get_process
not-get_process-none k i lo hi used e =
    let missed = find_slot-none 99 1 (holds_pid k (k.table i).pid) e i lo (omega arith) in
    let found = holds_pid_self (k.table i) used in cc

-- When no other process in use has its PID, `get_process` finds a process that is in use.
pub get_process_self :
    (k : Kernel) (i : ℕ)
    → ((j : ℕ)
        → j < proc_table_size
        → (k.table j).state ≢ unused
        → (k.table j).pid ≡ (k.table i).pid
        → j ≡ i)
    → 1 ≤ i
    → i < proc_table_size
    → (k.table i).state ≢ unused
    → get_process (k.table i).pid k ≡ some i
get_process_self k i distinct lo hi used = elim (Option-cases (get_process (k.table i).pid k)) [
  | inl e ↦ absurd (not-get_process-none k i lo hi used e)
  | inr (j, e) ↦
      let (jlo, jhi, same, jused) = get_process-some (k.table i).pid k j e in
      e ∙ ap some (distinct j jhi jused same)
]
