-- ===== src/Text/Digits.antt =====
-- What the parsers of user/lib/flib.c compute: the decimal value of the digits.
use frostbite.Base.{
  and_right, and_left, ℕ, ◌+◌, ◌-◌, ◌*◌, ◌%◌, ◌^◌, ◌≡◌, refl, sym, ap, ◌∙◌, Bool, true, false, ◌&&◌,
  some, List, [], ◌∷◌, arith, ◌==◌, length,
}
use native.Mathlib.Nat.{mod-mod, add-mod-mod, mod-add-mod, mod-mod_of_dvd, dvd_refl, dvd-mul_left}
use Prim.Native.Nat.{◌∣◌}
use frostbite.Text.{power, sum_digits, is_digit, after_sign, atoi, atoui, atox, parse_unsigned}
use frostbite.Text.Power.{power-pow, mul-mod_right}

abbrev pub all_digits : List ℕ → Bool
all_digits [] = true
all_digits (c ∷ cs) = is_digit c && all_digits cs

-- The number that digits stand for, the highest one first.
abbrev pub value : List ℕ → ℕ
value [] = 0
value (c ∷ cs) = (c - 48) * 10 ^ length cs + value cs

-- A term of the sum, in a type of `w` bits.
term_mod :
    (w num d k : ℕ)
    → (2 ^ w) ∣ (2 ^ 64)
    → (num + d * power 10 k) % 2 ^ w ≡ (num + d * 10 ^ k) % 2 ^ w
term_mod w num d k narrow =
    let reduce : d * (10 ^ k % 2 ^ 64) % 2 ^ w ≡ d * 10 ^ k % 2 ^ w =
      sym (mul-mod_right d (10 ^ k % 2 ^ 64) (2 ^ w))
      ∙ ap (λ t. d * t % 2 ^ w) (mod-mod_of_dvd (2 ^ w) (10 ^ k) narrow)
      ∙ mul-mod_right d (10 ^ k) (2 ^ w) in
    rw (power-pow 10 k) (
      sym (add-mod-mod num (d * (10 ^ k % 2 ^ 64)) (2 ^ w))
      ∙ ap (λ t. (num + t) % 2 ^ w) reduce
      ∙ add-mod-mod num (d * 10 ^ k) (2 ^ w))

pub sum_digits-value :
    (w : ℕ) (cs : List ℕ) (num : ℕ)
    → (2 ^ w) ∣ (2 ^ 64)
    → num % 2 ^ w ≡ num
    → all_digits cs ≡ true
    → sum_digits w cs num ≡ some ((num + value cs) % 2 ^ w)
unfolding sum_digits
sum_digits-value w [] num narrow small good =
    let e : num + 0 ≡ num = omega arith in rw (e, small) refl
sum_digits-value w (c ∷ cs) num narrow small good =
    let digit : is_digit c ≡ true = and_left (is_digit c) (all_digits cs) good in
    let rest : all_digits cs ≡ true = and_right (is_digit c) (all_digits cs) good in
    let num' = (num + (c - 48) * 10 ^ length cs) % 2 ^ w in
    let ih = sum_digits-value w cs num' narrow (mod-mod _ (2 ^ w)) rest in
    let e : num + (c - 48) * 10 ^ length cs + value cs ≡ num + value (c ∷ cs) = omega arith in
    rw
      (
        digit,
        term_mod w num (c - 48) (length cs) narrow,
        ih,
        mod-add-mod (num + (c - 48) * 10 ^ length cs) (2 ^ w) (value cs),
        e,
      )
      refl

no_sign : (cs : List ℕ) → all_digits cs ≡ true → after_sign cs ≡ (false, cs)
no_sign [] good = refl
no_sign (c ∷ cs) good =
    let minus : (c == 45) ≡ false = ground arith in
    let plus : (c == 43) ≡ false = ground arith in rw (minus, plus) refl

-- atoui and atox compute the value of a string of digits, modulo 2^32 and 2^64; so does atoi, and
-- after a minus it computes the negative of it.
pub atoi-value :
    (cs : List ℕ)
    → all_digits cs ≡ true
    → (atoui cs ≡ value cs % 2 ^ 32)
      × (atox cs ≡ value cs % 2 ^ 64)
      × (atoi cs ≡ value cs % 2 ^ 32)
      × (atoi (b'-' ∷ cs) ≡ (2 ^ 32 - value cs % 2 ^ 32) % 2 ^ 32)
unfolding atoui atox atoi parse_unsigned
atoi-value cs good =
    let e : 0 + value cs ≡ value cs = omega arith in
    let by32 : sum_digits 32 cs 0 ≡ some (value cs % 2 ^ 32) =
      rw e at (sum_digits-value 32 cs 0 (dvd-mul_left (2 ^ 32) (2 ^ 32)) refl good) in
    let by64 : sum_digits 64 cs 0 ≡ some (value cs % 2 ^ 64) =
      rw e at (sum_digits-value 64 cs 0 (dvd_refl (2 ^ 64)) refl good) in
    (
      rw (no_sign cs good, by32) refl,
      rw (no_sign cs good, by64) refl,
      rw (no_sign cs good, by32) refl,
      rw by32 refl,
    )
