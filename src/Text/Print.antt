-- ===== src/Text/Print.antt =====
-- The loop of itoa and uitoa of io/print.c that puts the digits of a number, the lowest first.
use frostbite.Base.{
  ℕ, zero, suc, ◌+◌, ◌-◌, ◌*◌, ◌/◌, ◌%◌, ◌^◌, ◌≤◌, ◌<◌, ◌≡◌, refl, ap, ◌∙◌, inl, inr, true, false,
  List, [], ◌∷◌, arith, ◌==◌, ltb, length, eqb→eq, Bool-cases, eqb_refl,
}
use frostbite.Text.{Buffer, poke, hex_char, put_digits, is_digit}
use native.Mathlib.Nat.{pow-suc, pow-succ', add-mul, mul_assoc, mul_comm, mod-eq_of_lt}
use frostbite.Text.Digits.{all_digits, value}

-- The `n` characters from `s` on, in their order and backwards.
abbrev pub forward : (ℕ → ℕ) → ℕ → ℕ → List ℕ
forward chars s zero = []
forward chars s (suc n) = chars s ∷ forward chars (s + 1) n

abbrev pub backward : (ℕ → ℕ) → ℕ → ℕ → List ℕ
backward chars s zero = []
backward chars s (suc n) = chars (s + n) ∷ backward chars s n

length-backward : (chars : ℕ → ℕ) (s n : ℕ) → length (backward chars s n) ≡ n
length-backward chars s zero = refl
length-backward chars s (suc n) = ap suc (length-backward chars s n)

pub backward-poke :
    (chars : ℕ → ℕ) (s n i c : ℕ) → s + n ≤ i → backward (poke i c chars) s n ≡ backward chars s n
unfolding poke
backward-poke chars s zero i c le = refl
backward-poke chars s (suc n) i c le =
    let other : (s + n == i) ≡ false = ground arith in
    rw other (ap (λ t. chars (s + n) ∷ t) (backward-poke chars s n i c (omega arith)))

-- Characters that were put in the opposite order.
pub forward-backward :
    (f g : ℕ → ℕ) (s t n : ℕ)
    → ((j : ℕ) → j < n → g (t + j) ≡ f (s + (n - 1 - j)))
    → forward g t n ≡ backward f s n
forward-backward f g s t zero mirrored = refl
forward-backward f g s t (suc n) mirrored =
    let e0 : t + 0 ≡ t = omega arith in
    let e1 : suc n - 1 - 0 ≡ n = omega arith in
    let first : g t ≡ f (s + n) = rw (e0, e1) at (mirrored 0 (omega arith)) in
    let rest : (j : ℕ) → j < n → g (t + 1 + j) ≡ f (s + (n - 1 - j)) = λ j lt.
      let a : t + suc j ≡ t + 1 + j = omega arith in
      let b : suc n - 1 - suc j ≡ n - 1 - j = omega arith in
      rw (a, b) at (mirrored (suc j) (omega arith)) in
    rw (first, forward-backward f g s (t + 1) n rest) refl

digit_char : (d : ℕ) → d < 10 → (is_digit (hex_char d) ≡ true) × (hex_char d - 48 ≡ d)
digit_char d lt = let e : ltb d 10 ≡ true = ground arith in rw e (ground arith, omega arith)

carry : (q r p v : ℕ) → q * (p * 10) + (r * p + v) ≡ (q * 10 + r) * p + v
carry q r p v = rw (add-mul (q * 10) r p, mul_assoc q 10 p, mul_comm 10 p) (omega arith)

-- The digits that were put before, the lowest first, are those of a number below `10 ^ b.count`; the
-- loop puts the digits of `v` in front of them.
pub record Puts (start v n : ℕ) (b r : Buffer) : Type 0 where
  pub good : all_digits (backward r.chars start r.count) ≡ true
  pub sum :
      value (backward r.chars start r.count)
      ≡ v * 10 ^ b.count + value (backward b.chars start b.count)
  pub bounds : (b.count < r.count) × (r.count ≤ b.count + n)

-- One round of the loop.
abbrev with_digit : ℕ → ℕ → Buffer → Buffer
with_digit start v b = record {
  chars = poke (start + b.count) (hex_char (v % 10)) b.chars;
  count = b.count + 1;
}

backward-with_digit :
    (start v : ℕ) (b : Buffer)
    → backward (with_digit start v b).chars start (with_digit start v b).count
      ≡ hex_char (v % 10) ∷ backward b.chars start b.count
unfolding poke
backward-with_digit start v b =
    let e : b.count + 1 ≡ suc b.count = omega arith in
    rw (e, eqb_refl (start + b.count))
      (ap (λ t. hex_char (v % 10) ∷ t)
        (backward-poke b.chars start b.count (start + b.count) (hex_char (v % 10)) (omega arith)))

with_digit-Puts :
    (start v n : ℕ) (b : Buffer)
    → v < 10
    → all_digits (backward b.chars start b.count) ≡ true
    → Puts start v (suc n) b (with_digit start v b)
with_digit-Puts start v n b lt good =
    let e : v % 10 ≡ v = mod-eq_of_lt lt in
    let (digit, own) = digit_char v lt in
    record {
      good = rw (backward-with_digit, e, digit) good;
      sum = rw (backward-with_digit, e, own, length-backward) refl;
      bounds = (omega arith, omega arith);
    }

next_sum :
    (start v : ℕ) (b : Buffer)
    → v / 10 * 10 ^ (b.count + 1)
        + value (backward (with_digit start v b).chars start (with_digit start v b).count)
      ≡ v * 10 ^ b.count + value (backward b.chars start b.count)
next_sum start v b =
    let (digit, own) = digit_char (v % 10) (omega arith) in
    let split : v / 10 * 10 + v % 10 ≡ v = omega arith in
    let next : b.count + 1 ≡ suc b.count = omega arith in
    let sum = carry (v / 10) (v % 10) (10 ^ b.count) (value (backward b.chars start b.count)) in
    rw (backward-with_digit, own, length-backward, next, pow-suc 10 b.count)
      (sum ∙ ap (λ t. t * 10 ^ b.count + value (backward b.chars start b.count)) split)

pub put_digits-Puts :
    (n start v : ℕ) (b : Buffer)
    → 0 < n
    → v < 10 ^ n
    → all_digits (backward b.chars start b.count) ≡ true
    → Puts start v n b (put_digits n 10 start v b)
unfolding put_digits
put_digits-Puts zero start v b some_n lt good = absurd (omega arith)
put_digits-Puts (suc n) start v b some_n lt good = elim (Bool-cases (v / 10 == 0)) [
  | inl last ↦ rw last (with_digit-Puts start v n b (ground arith) good)
  | inr more ↦
      let (digit, own) = digit_char (v % 10) (omega arith) in
      let bound : v < 10 * 10 ^ n = rw (pow-succ' 10 n) at lt in
      let some_n' : 0 < n = elim (Bool-cases (n == 0)) [
        | inl none_left ↦ absurd (small_of n v (eqb→eq n 0 none_left) bound more)
        | inr some_left ↦ ground arith
      ] in
      let good1 : all_digits (backward (with_digit start v b).chars start (b.count + 1)) ≡ true =
        rw (backward-with_digit, digit) good in
      let r = put_digits-Puts n start (v / 10) (with_digit start v b) some_n' (omega arith) good1 in
      rw more (record {
        good = r.good;
        sum = r.sum ∙ next_sum start v b;
        bounds = (omega (arith, r.bounds.0), omega (arith, r.bounds.1));
      })
]
  where
    small_of : (n v : ℕ) → n ≡ 0 → v < 10 * 10 ^ n → (v / 10 == 0) ≡ false → ⊥
    small_of n v e lt ne = let lt' : v < 10 = rw (e) at lt in ground arith
