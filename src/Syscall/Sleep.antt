-- ===== src/Syscall/Sleep.antt =====
-- sys_sleep of irq/syscall.c, and when it returns.
use frostbite.Base.{
  eqb→eq, ℕ, zero, suc, ◌+◌, ◌%◌, ◌^◌, ◌≤◌, ◌<◌, ◌≡◌, refl, inl, inr, Option, none, some, arith,
  ◌==◌, if◌then◌else◌, ltb, Bool-cases,
}
use native.Mathlib.Nat.{mod-eq_of_lt}

-- `clock r` is what get_ticks reads after the process has slept `r` times. The result is the number of
-- times; `none` is too little fuel.
unfoldable pub sleep_loop : (fuel : ℕ) → (clock : ℕ → ℕ) → (target_ticks slept : ℕ) → Option ℕ
sleep_loop zero clock target_ticks slept = none
sleep_loop (suc n) clock target_ticks slept =
    let rest = sleep_loop n clock target_ticks (suc slept) in
    if ltb (clock slept) target_ticks then rest else some slept

-- No more than `sleep_ticks` sleeps, as each takes a tick.
unfoldable pub sys_sleep : (clock : ℕ → ℕ) → (sleep_ticks : ℕ) → Option ℕ
sys_sleep clock sleep_ticks =
    sleep_loop (suc sleep_ticks) clock ((clock 0 + sleep_ticks) % 2 ^ 64) 0

module _ (clock : ℕ → ℕ) (ticks : (r : ℕ) → clock r < clock (suc r)) where
  -- When the loop ends: at the first reading that reaches the target.
  abbrev pub Wakes : (target_ticks slept n : ℕ) → Type 0
  Wakes target_ticks slept n =
      (slept ≤ n)
      × (target_ticks ≤ clock n)
      × ((r : ℕ) → slept ≤ r → r < n → clock r < target_ticks)

  Wakes-later :
      (target_ticks slept n : ℕ)
      → clock slept < target_ticks
      → Wakes target_ticks (suc slept) n
      → Wakes target_ticks slept n
  Wakes-later target_ticks slept n early (lo, reached, before) = (
    omega arith,
    reached,
    λ r le lt. elim (Bool-cases (r == slept)) [
      | inl same ↦ rw (eqb→eq r slept same) early
      | inr after ↦ before r (ground arith) lt
    ],
  )

  sleep_loop-some :
      (fuel target_ticks slept : ℕ)
      → 0 < fuel
      → target_ticks < clock slept + fuel
      → (n : ℕ) × (sleep_loop fuel clock target_ticks slept ≡ some n)
        × ((n < slept + fuel) × Wakes target_ticks slept n)
  unfolding sleep_loop
  sleep_loop-some zero target_ticks slept some_fuel enough = absurd (omega arith)
  sleep_loop-some (suc f) target_ticks slept some_fuel enough =
      elim (Bool-cases (ltb (clock slept) target_ticks)) [
        | inl early ↦
            let below : clock slept < target_ticks = ground arith in
            let (n, e, (low, w)) =
              sleep_loop-some f target_ticks (suc slept) (omega arith)
                (omega (arith, ticks slept)) in
            (n, rw early e, (omega arith, Wakes-later target_ticks slept n below w))
        | inr late ↦ (
          slept,
          rw late refl,
          (omega arith, (omega arith, ground arith, λ r lo hi. absurd (omega arith))),
        )
      ]

  with_target :
      (sleep_ticks n : ℕ)
      → clock 0 + sleep_ticks < 2 ^ 64
      → sleep_loop (suc sleep_ticks) clock (clock 0 + sleep_ticks) 0 ≡ some n
      → sys_sleep clock sleep_ticks ≡ some n
  unfolding sys_sleep
  with_target sleep_ticks n fits e =
      let whole : (clock 0 + sleep_ticks) % 2 ^ 64 ≡ clock 0 + sleep_ticks = mod-eq_of_lt fits in
      rw whole e

  -- If a tick passes with every sleep and the target is no overflow, sys_sleep returns: after at most
  -- as many sleeps as ticks were asked for, at the first reading of the clock that reaches the target.
  pub sys_sleep-Wakes :
      (sleep_ticks : ℕ)
      → clock 0 + sleep_ticks < 2 ^ 64
      → (n : ℕ) × (sys_sleep clock sleep_ticks ≡ some n)
        × ((n ≤ sleep_ticks) × Wakes (clock 0 + sleep_ticks) 0 n)
  sys_sleep-Wakes sleep_ticks fits =
      let (n, e, (low, w)) =
        sleep_loop-some (suc sleep_ticks) (clock 0 + sleep_ticks) 0 (omega arith) (omega arith) in
      (n, with_target sleep_ticks n fits e, (omega arith, w))
