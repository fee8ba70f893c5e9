-- ===== src/Syscall/Kill.antt =====
-- The guard of `sys_kill`.
use frostbite.Base.{
  eqb→eq, Bool-cases, ℕ, zero, suc, ◌≤◌, ◌≡◌, refl, sym, ap, ◌∙◌, ◌≢◌, inl, inr, false, some, arith,
  ◌==◌, ltb, pos, negsuc,
}
use frostbite.Process.{Kernel}
use frostbite.Process.Table.{get_process, get_process-some}
use frostbite.Process.Kill.{kill, kill_pid}
use frostbite.Process.Kill.Signals.{kill-get_process, kill_children-table, kill-error}
use frostbite.Syscall.{sys_kill, current}

group_spares :
    (sender signal : ℕ) (k : Kernel)
    → signal ≤ 31
    → (kill sender (pos 0) (pos signal) k).1.table 1 ≡ k.table 1
unfolding kill kill_pid
group_spares sender signal k valid =
    let small : ltb 31 signal ≡ false = ground arith in
    rw small (kill_children-table sender signal 1 k)

-- With a PID but 1, the process that `get_process` finds is not in the slot of init.
found_elsewhere :
    (n i : ℕ) (k : Kernel)
    → (k.table 1).pid ≡ 1
    → suc n ≢ 1
    → get_process (suc n) k ≡ some i
    → (1 == i) ≡ false
found_elsewhere n i k init other e = elim (Bool-cases (1 == i)) [
  | inl hit ↦
      let (lo, hi, same, used) = get_process-some (suc n) k i e in
      let here : (k.table 1).pid ≡ suc n = rw (eqb→eq 1 i hit) same in
      absurd (other (sym here ∙ init))
  | inr miss ↦ miss
]

zero_ne : pos 0 ≢ negsuc 0
zero_ne e = ground arith

one_spares :
    (sender n signal : ℕ) (k : Kernel)
    → (k.table 1).pid ≡ 1
    → suc n ≢ 1
    → signal ≤ 31
    → (kill sender (pos (suc n)) (pos signal) k).1.table 1 ≡ k.table 1
one_spares sender n signal k init other valid = elim (kill-get_process sender n signal k valid) [
  | inl (none_found, failed) ↦ (elim (kill-error sender (pos (suc n)) (pos signal) k) [
    | inl sent ↦ absurd (zero_ne (sym sent ∙ failed))
    | inr (code, same) ↦ ap (λ (s : Kernel). s.table 1) same
  ])
  | inr (i, e, code, table) ↦ table 1 ∙ rw (found_elsewhere n i k init other e) refl
]

-- A signal to one process or to the caller's children never reaches the init process in slot 1.
pub sys_kill-init :
    (n signal : ℕ) (k : Kernel)
    → (k.table 1).pid ≡ 1
    → signal ≤ 31
    → (sys_kill (pos n) (pos signal) k).1.table 1 ≡ k.table 1
unfolding sys_kill
sys_kill-init zero signal k init valid = group_spares (current k).pid signal k valid
sys_kill-init (suc n) signal k init valid = elim (Bool-cases (suc n == 1)) [
  | inl hit ↦ rw hit refl
  | inr miss ↦ rw miss (one_spares (current k).pid n signal k init (λ e. ground arith) valid)
]
