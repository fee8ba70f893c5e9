-- ===== src/Text/Numeral.antt =====
-- What uitoa, itoa and xtoa print: the numerals of their numbers.
use frostbite.Base.{
  eqb_refl, and_right, if_elim, Bool-cases, and_left, ℕ, zero, suc, ◌+◌, ◌-◌, ◌/◌, ◌%◌, ◌≤◌, ◌<◌,
  ◌≡◌, refl, sym, ap, ◌∙◌, inl, inr, Bool, true, false, not, List, [], ◌∷◌, ◌++◌, arith, ◌==◌,
  if◌then◌else◌, ltb,
}
use native.Mathlib.Nat.{mod-lt}
use mathlib.Core.List.{append-nil, append_assoc}
use frostbite.Text.{Buffer, poke, hex_char, put_digits, reverse_digits, no_chars, uitoa, itoa, xtoa}
use frostbite.Text.Print.{forward, backward, backward-poke}
use frostbite.Text.Reverse.{forward-reverse_digits}
use frostbite.Text.Round.{forward-poke}
use frostbite.Text.Str.{str_at, no_nul}

-- The digits 0 to 9, and A to F behind them.
abbrev pub symbol : ℕ → ℕ
symbol d = if ltb d 10 then b'0' + d else b'A' + (d - 10)

-- The last `n` digits of a number without leading zeros, the highest one first.
unfoldable pub numeral : (n base v : ℕ) → List ℕ
numeral zero base v = []
numeral (suc n) base v =
    let high = numeral n base (v / base) in
    (if v / base == 0 then [] else high) ++ symbol (v % base) ∷ []

hex_char-symbol : (d : ℕ) → d < 16 → hex_char d ≡ symbol d
hex_char-symbol d lt = elim (Bool-cases (ltb d 10)) [
  | inl low ↦ rw low (omega arith)
  | inr high ↦ let e : d % 10 ≡ d - 10 = ground arith in rw (high, e) (omega arith)
]

no_nul-append : (t u : List ℕ) → no_nul t ≡ true → no_nul u ≡ true → no_nul (t ++ u) ≡ true
no_nul-append [] u h g = g
no_nul-append (c ∷ t) u h g =
    rw (and_left (not (c == 0)) _ h) (no_nul-append t u (and_right (not (c == 0)) _ h) g)

pub no_nul-numeral : (n base v : ℕ) → no_nul (numeral n base v) ≡ true
unfolding numeral
no_nul-numeral zero base v = refl
no_nul-numeral (suc n) base v =
    let char : (symbol (v % base) == 0) ≡ false = ground arith in
    let last : no_nul (symbol (v % base) ∷ []) ≡ true = rw char refl in
    if_elim (λ t. no_nul (t ++ symbol (v % base) ∷ []) ≡ true) (v / base == 0) _ _ (λ _. last)
      (λ _. no_nul-append (numeral n base (v / base)) _ (no_nul-numeral n base (v / base)) last)

-- The loop of the conversions puts the numeral in front of what was put before.
module _ (base start : ℕ) (positive : 0 < base) (small : base ≤ 16) where
  put_digits-numeral :
      (n v : ℕ) (b : Buffer)
      → (let r = put_digits n base start v b in
          backward r.chars start r.count ≡ numeral n base v ++ backward b.chars start b.count)
        × ((put_digits n base start v b).count ≤ b.count + n)
  unfolding put_digits numeral poke
  put_digits-numeral zero v b = (refl, omega arith)
  put_digits-numeral (suc n) v b =
      let b1 : Buffer = record {
        chars = poke (start + b.count) (hex_char (v % base)) b.chars;
        count = b.count + 1;
      } in
      let (later, bound) = put_digits-numeral n (v / base) b1 in
      elim (Bool-cases (v / base == 0)) [
        | inl last ↦ rw last (first v b, omega arith)
        | inr more ↦ rw more (
          later
              ∙ ap (λ t. numeral n base (v / base) ++ t) (first v b)
              ∙ sym (append_assoc (numeral n base (v / base)) (symbol (v % base) ∷ []) _),
          omega (arith, bound),
        )
      ]
    where
      first :
          (v : ℕ) (b : Buffer)
          → backward (poke (start + b.count) (hex_char (v % base)) b.chars) start (b.count + 1)
            ≡ symbol (v % base) ∷ backward b.chars start b.count
      first v b =
          let e : b.count + 1 ≡ suc b.count = omega arith in
          let digit : v % base < 16 = omega (arith, mod-lt v positive) in
          rw (e, eqb_refl (start + b.count), hex_char-symbol (v % base) digit)
            (ap (λ t. symbol (v % base) ∷ t)
              (backward-poke b.chars start b.count (start + b.count) _ (omega arith)))

-- The string at a place that `n` characters without NUL and a NUL stand at.
str_at-forward :
    (n m : ℕ) (chars : ℕ → ℕ) (s : ℕ)
    → n < m
    → no_nul (forward chars s n) ≡ true
    → chars (s + n) ≡ 0
    → str_at m chars s ≡ forward chars s n
unfolding str_at
str_at-forward n zero chars s lt real nul = absurd (omega arith)
str_at-forward zero (suc m) chars s lt real nul =
    let z : s + 0 ≡ s = omega arith in let here : chars s ≡ 0 = rw (z) at nul in rw here refl
str_at-forward (suc n) (suc m) chars s lt real nul =
    let z : s + suc n ≡ s + 1 + n = omega arith in
    let char : (chars s == 0) ≡ false = ground (arith, and_left (not (chars s == 0)) _ real) in
    rw char (
      ap (λ t. chars s ∷ t)
        (str_at-forward n m chars (s + 1) (omega arith) (and_right (not (chars s == 0)) _ real)
          (rw (z) at nul)))

-- The digits after the loops of a conversion, with their NUL, in a buffer whose characters from `start`
-- on were not changed later.
converted :
    (n base start v m : ℕ) (chars : ℕ → ℕ)
    → 0 < base
    → base ≤ 16
    → n < m
    → (let b = put_digits n base start v no_chars in
        (forward chars start b.count ≡ forward (reverse_digits start b) start b.count)
        → (chars (start + b.count) ≡ 0)
        → str_at m chars start ≡ numeral n base v)
converted n base start v m chars positive small room same nul =
    let b = put_digits n base start v no_chars in
    let (digits, bound) = put_digits-numeral base start positive small n v no_chars in
    let text : forward chars start b.count ≡ numeral n base v =
      same ∙ forward-reverse_digits start b ∙ digits ∙ append-nil (numeral n base v) in
    str_at-forward b.count m chars start (omega (arith, bound)) (rw text (no_nul-numeral n base v))
      nul
    ∙ text

str_at-next :
    (m : ℕ) (chars : ℕ → ℕ) (s c : ℕ)
    → chars s ≡ suc c
    → str_at (suc m) chars s ≡ suc c ∷ str_at m chars (s + 1)
unfolding str_at
str_at-next m chars s c e = let char : (suc c == 0) ≡ false = ground arith in rw (e, char) refl

-- The strings that the conversions return, in the buffer of 50 characters that a string is read from.
pub uitoa-numeral : (v : ℕ) → str_at 50 (uitoa v).chars 0 ≡ numeral 10 10 v
unfolding uitoa poke
uitoa-numeral v =
    let b = put_digits 10 10 0 v no_chars in
    let z : 0 + b.count ≡ b.count = omega arith in
    converted 10 10 0 v 50 _ (omega arith) (omega arith) (omega arith)
      (forward-poke (reverse_digits 0 b) 0 b.count b.count 0 (ground arith))
      (rw (z, eqb_refl b.count) refl)

pub itoa-numeral :
    (neg : Bool) (v : ℕ)
    → str_at 50 (itoa neg v).chars 0 ≡ (if neg then b'-' ∷ numeral 10 10 v else numeral 10 10 v)
unfolding itoa poke str_at
itoa-numeral false v =
    let b = put_digits 10 10 0 v no_chars in
    let z : b.count + 0 ≡ b.count = omega arith in
    let z' : 0 + b.count ≡ b.count = omega arith in
    converted 10 10 0 v 50 (itoa false v).chars (omega arith) (omega arith) (omega arith)
      (rw z (forward-poke (reverse_digits 0 b) 0 b.count b.count 0 (ground arith)))
      (rw (z, z', eqb_refl b.count) refl)
itoa-numeral true v =
    let b = put_digits 10 10 1 v no_chars in
    let z : 1 + b.count ≡ b.count + 1 = omega arith in
    let other : (b.count + 1 == 0) ≡ false = ground arith in
    ap (λ t. b'-' ∷ t)
      (converted 10 10 1 v 49 _ (omega arith) (omega arith) (omega arith)
        (forward-poke _ 1 b.count 0 45 refl
          ∙ forward-poke (reverse_digits 1 b) 1 b.count (b.count + 1) 0 (ground arith))
        (rw (z, other, eqb_refl (b.count + 1)) refl))

pub xtoa-numeral : (v : ℕ) → str_at 50 (xtoa v).chars 0 ≡ b'0' ∷ b'x' ∷ numeral 16 16 v
unfolding xtoa poke str_at
xtoa-numeral v =
    let b = put_digits 16 16 2 v no_chars in
    let z : 2 + b.count ≡ b.count + 2 = omega arith in
    let p = poke 0 48 (reverse_digits 2 b) in
    let chars = (xtoa v).chars in
    let not_0 : (0 == b.count + 2) ≡ false = ground arith in
    let not_1 : (1 == b.count + 2) ≡ false = ground arith in
    str_at-next 49 chars 0 47 (rw not_0 refl)
    ∙ ap (λ t. b'0' ∷ t) (str_at-next 48 chars 1 119 (rw not_1 refl))
    ∙ ap (λ t. b'0' ∷ b'x' ∷ t)
        (converted 16 16 2 v 48 chars (omega arith) (omega arith) (omega arith)
          (forward-poke (poke 1 120 p) 2 b.count (b.count + 2) 0 (ground arith)
            ∙ forward-poke p 2 b.count 1 120 refl
            ∙ forward-poke (reverse_digits 2 b) 2 b.count 0 48 refl)
          (rw (z, eqb_refl (b.count + 2)) refl))
