-- ===== src/Process/Load/Slot.antt =====
-- The slot and the PID that a new process gets.
use frostbite.Base.{
  find_slot-some, Option-cases, ℕ, ◌+◌, ◌≤◌, ◌<◌, ◌≡◌, refl, inl, inr, some, arith,
}
use frostbite.Process.{Kernel, set_proc, is, unused, proc_table_size}
use frostbite.Process.Table.{find_unused_slot, is-unused_iff}
use frostbite.Process.Load.{alloc_new_process, place_new, new_process}

-- The slot that alloc_new_process takes was free, and holds the new process with the next PID.
pub record Allocated (k : Kernel) (i : ℕ) (k1 : Kernel) : Type 0 where
  pub range : (1 ≤ i) × (i < proc_table_size)
  pub free : (k.table i).state ≡ unused
  pub fresh :
      (page_map : ℕ) × (env : ℕ) × (k1.table
        ≡ (set_proc i (new_process k.pid_num page_map env) k).table)
  pub next_pid : k1.pid_num ≡ k.pid_num + 1
  pub rest :
      (k1.curr ≡ k.curr)
      × (k1.ready_que ≡ k.ready_que)
      × (k1.wait_list ≡ k.wait_list)
      × (k1.suspended ≡ k.suspended)
      × (k1.zombies ≡ k.zombies)

pub alloc_new_process-Allocated :
    (trap_return : ℕ) (k : Kernel) (i : ℕ) (k1 : Kernel)
    → alloc_new_process trap_return k ≡ some (i, k1)
    → Allocated k i k1
unfolding alloc_new_process find_unused_slot place_new set_proc
alloc_new_process-Allocated trap_return k i k1 h = elim (Option-cases (find_unused_slot k)) [
  | inl full ↦ (let bad = rw (full, alloc_new_process) at h in cc)
  | inr (j, found) ↦
      let (lo, hi, empty, before) =
        find_slot-some 99 1 (λ i. is (k.table i).state unused) j found in
      let h' = rw (found, alloc_new_process) at h in
      let e : j ≡ i = cc in
      let e' : place_new trap_return j k ≡ k1 = cc in
      rw (← e, ← e')
        (record {
          range = (lo, omega arith);
          free = (is-unused_iff (k.table j).state).0 empty;
          fresh = (_, _, refl);
          next_pid = refl;
          rest = (refl, refl, refl, refl, refl);
        })
]
