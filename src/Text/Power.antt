-- ===== src/Text/Power.antt =====
-- `power` of user/lib/flib.c computes the power modulo 2^64.
use frostbite.Base.{
  eqb→eq, Bool-cases, ℕ, zero, suc, ◌+◌, ◌*◌, ◌/◌, ◌%◌, ◌^◌, ◌≤◌, ◌≡◌, refl, sym, ap, ◌∙◌, inl, inr,
  false, arith, ◌==◌,
}
use native.Mathlib.Nat.{
  mul-add, mul_assoc, mul_comm, add-mul-mod_self_right, mod-add-div', pow-zero, pow-suc, mul-one,
}
use frostbite.Text.{power, power_on}

-- A remainder as a factor.
pub mul-mod_right : (a b m : ℕ) → a * (b % m) % m ≡ a * b % m
mul-mod_right a b m =
    let split : a * b ≡ a * (b % m) + a * (b / m) * m =
      ap (λ t. a * t) (sym (mod-add-div' b m))
      ∙ mul-add a (b % m) (b / m * m)
      ∙ ap (λ t. a * (b % m) + t) (sym (mul_assoc a (b / m) m)) in
    rw split (sym (add-mul-mod_self_right (a * (b % m)) (a * (b / m)) m))

pub mul-mod_left : (a b m : ℕ) → (a % m) * b % m ≡ a * b % m
mul-mod_left a b m =
    ap (λ t. t % m) (mul_comm (a % m) b) ∙ mul-mod_right b a m ∙ ap (λ t. t % m) (mul_comm b a)

pow-add : (b i j : ℕ) → b ^ (i + j) ≡ b ^ i * b ^ j
pow-add b i zero =
    let e : i + 0 ≡ i = omega arith in
    rw e (sym (ap (λ t. b ^ i * t) (pow-zero b) ∙ mul-one (b ^ i)))
pow-add b i (suc j) =
    let e : i + suc j ≡ suc (i + j) = omega arith in
    rw (e, pow-suc b (i + j), pow-suc b j, pow-add b i j) (mul_assoc (b ^ i) (b ^ j) b)

square : (b k m : ℕ) → (b ^ k % m) * (b ^ k % m) % m ≡ b ^ (k + k) % m
square b k m =
    mul-mod_left (b ^ k) (b ^ k % m) m
    ∙ mul-mod_right (b ^ k) (b ^ k) m
    ∙ ap (λ t. t % m) (sym (pow-add b k k))

halves : (exp : ℕ) → (exp % 2 ≡ 1) → exp ≡ suc (exp / 2 + exp / 2)
halves exp odd = omega arith

halves_even : (exp : ℕ) → (exp % 2 == 1) ≡ false → exp ≡ exp / 2 + exp / 2
halves_even exp even = ground arith

power_on-pow : (n base exp : ℕ) → exp ≤ n → power_on n base exp ≡ base ^ exp % 2 ^ 64
unfolding power_on
power_on-pow zero base exp le = let e : exp ≡ 0 = omega arith in rw (e, pow-zero base) refl
power_on-pow (suc n) base exp le = elim (Bool-cases (exp == 0)) [
  | inl none_left ↦ rw (none_left, eqb→eq exp 0 none_left, pow-zero base) refl
  | inr more ↦
      let half = power_on-pow n base (exp / 2) (ground arith) in
      elim (Bool-cases (exp % 2 == 1)) [
        | inl odd ↦
            let e = halves exp (ground arith) in
            rw (more, odd, half, square base (exp / 2) (2 ^ 64))
              (mul-mod_right base (base ^ (exp / 2 + exp / 2)) (2 ^ 64)
                ∙ ap (λ t. t % 2 ^ 64)
                    (mul_comm base _
                      ∙ sym (pow-suc base (exp / 2 + exp / 2))
                      ∙ ap (λ t. base ^ t) (sym e)))
        | inr even ↦
            rw (more, even, half, square base (exp / 2) (2 ^ 64))
              (ap (λ t. base ^ t % 2 ^ 64) (sym (halves_even exp even)))
      ]
]

-- `power` computes the power of its arguments, modulo 2^64.
pub power-pow : (base exp : ℕ) → power base exp ≡ base ^ exp % 2 ^ 64
unfolding power
power-pow base exp = power_on-pow exp base exp (omega arith)
