-- ===== src/Text/Round.antt =====
-- What itoa and uitoa print, and that atoi and atoui read it back.
use frostbite.Base.{
  eqb_refl, ℕ, zero, suc, ◌+◌, ◌-◌, ◌*◌, ◌%◌, ◌^◌, ◌≤◌, ◌<◌, ◌≡◌, refl, ap, ◌∙◌, Bool, true, false,
  ◌||◌, List, ◌∷◌, arith, ◌==◌, if◌then◌else◌, ltb, leb,
}
use native.Mathlib.Nat.{mod-eq_of_lt}
use frostbite.Text.{Buffer, poke, put_digits, reverse_digits, no_chars, uitoa, itoa, atoi, atoui}
use frostbite.Text.Digits.{all_digits, value, atoi-value}
use frostbite.Text.Print.{forward, put_digits-Puts}
use frostbite.Text.Reverse.{forward-reverse_digits}

pub forward-poke :
    (chars : ℕ → ℕ) (s n i c : ℕ)
    → ltb i s || leb (s + n) i ≡ true
    → forward (poke i c chars) s n ≡ forward chars s n
unfolding poke
forward-poke chars s zero i c out = refl
forward-poke chars s (suc n) i c out =
    let other : (s == i) ≡ false = ground arith in
    rw (other, forward-poke chars (s + 1) n i c (ground arith)) refl

-- The characters of a buffer.
abbrev pub text : Buffer → List ℕ
text b = forward b.chars 0 b.count

-- The digits of `v` after the loops, in the buffer from `start` on.
digits : (start v : ℕ) → List ℕ
digits start v =
    forward (reverse_digits start (put_digits 10 10 start v no_chars)) start
      (put_digits 10 10 start v no_chars).count

digits-value :
    (start v : ℕ)
    → v < 10 ^ 10
    → (all_digits (digits start v) ≡ true) × (value (digits start v) ≡ v)
unfolding digits
digits-value start v lt =
    let p = put_digits-Puts 10 start v no_chars (omega arith) lt refl in
    let e : v * 1 + 0 ≡ v = omega arith in
    rw (forward-reverse_digits start (put_digits 10 10 start v no_chars)) (p.good, p.sum ∙ e)

-- uitoa prints a number of 32 bits as 1 to 10 digits, which end in a NUL and have the number as their
-- value, so that atoui reads the number back.
pub atoui-uitoa :
    (v : ℕ)
    → v < 2 ^ 32
    → (atoui (text (uitoa v)) ≡ v)
      × (all_digits (text (uitoa v)) ≡ true)
      × ((uitoa v).chars (uitoa v).count ≡ 0)
      × (0 < (uitoa v).count)
      × ((uitoa v).count ≤ 10)
unfolding uitoa digits poke
atoui-uitoa v lt =
    let b = put_digits 10 10 0 v no_chars in
    let p = put_digits-Puts 10 0 v no_chars (omega arith) (omega arith) refl in
    let (good, same) = digits-value 0 v (omega arith) in
    let e : text (uitoa v) ≡ digits 0 v =
      forward-poke (reverse_digits 0 b) 0 b.count b.count 0 (ground arith) in
    let back = (atoi-value (digits 0 v) good).0 in
    (
      rw (e, back, same, mod-eq_of_lt lt) refl,
      rw e good,
      rw (eqb_refl b.count) refl,
      p.bounds.0,
      p.bounds.1,
    )

-- atoi reads back what itoa prints, for either sign and any absolute value below 2^31.
pub atoi-itoa :
    (neg : Bool) (v : ℕ)
    → v < 2 ^ 31
    → atoi (text (itoa neg v)) ≡ (if neg then (2 ^ 32 - v) % 2 ^ 32 else v)
unfolding itoa digits poke
atoi-itoa false v lt =
    let b = put_digits 10 10 0 v no_chars in
    let (good, same) = digits-value 0 v (omega arith) in
    let len : b.count + 0 ≡ b.count = omega arith in
    let e : text (itoa false v) ≡ digits 0 v =
      rw len (forward-poke (reverse_digits 0 b) 0 b.count b.count 0 (ground arith)) in
    let back = (atoi-value (digits 0 v) good).2 in
    let whole : v % 2 ^ 32 ≡ v = mod-eq_of_lt (omega arith) in rw (e, back, same, whole) refl
atoi-itoa true v lt =
    let b = put_digits 10 10 1 v no_chars in
    let (good, same) = digits-value 1 v (omega arith) in
    let len : b.count + 1 ≡ suc b.count = omega arith in
    let e : text (itoa true v) ≡ b'-' ∷ digits 1 v = rw len (
      ap (λ t. b'-' ∷ t)
        (forward-poke _ 1 b.count 0 45 refl
          ∙ forward-poke (reverse_digits 1 b) 1 b.count (suc b.count) 0 (ground arith))) in
    let back = (atoi-value (digits 1 v) good).3 in
    let whole : v % 2 ^ 32 ≡ v = mod-eq_of_lt (omega arith) in rw (e, back, same, whole) refl
