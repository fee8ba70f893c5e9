-- ===== src/Text/Reverse.antt =====
-- The loop of itoa, uitoa and xtoa of io/print.c that reverses the digits.
use frostbite.Base.{
  eqb→eq, eqb_refl, Bool-cases, for_slots, ℕ, zero, suc, ◌+◌, ◌-◌, ◌/◌, ◌≤◌, ◌<◌, ◌≡◌, refl, ap,
  ◌∙◌, inl, inr, true, false, ◌||◌, arith, ◌==◌, ltb, leb,
}
use frostbite.Text.{Buffer, poke, swap_digits, reverse_digits}
use frostbite.Text.Print.{forward, backward, forward-backward}

module _ (start count : ℕ) where
  abbrev opposite : ℕ → ℕ
  opposite j = count - 1 - j

  swap-low :
      (i : ℕ) (chars : ℕ → ℕ)
      → i + i < count
      → swap_digits start count i chars (start + i) ≡ chars (start + opposite i)
  unfolding swap_digits poke
  swap-low i chars lt =
      let a : i + start ≡ start + i = omega arith in
      let b : count - i - 1 + start ≡ start + opposite i = omega arith in
      elim (Bool-cases (start + i == start + opposite i)) [
        | inl same ↦
            let e : start + i ≡ start + opposite i = ground arith in rw (a, b, same) (ap chars e)
        | inr other ↦ rw (a, b, other, eqb_refl (start + i)) refl
      ]

  swap-high :
      (i : ℕ) (chars : ℕ → ℕ)
      → i + i < count
      → swap_digits start count i chars (start + opposite i) ≡ chars (start + i)
  unfolding swap_digits poke
  swap-high i chars lt =
      let a : i + start ≡ start + i = omega arith in
      let b : count - i - 1 + start ≡ start + opposite i = omega arith in
      rw (a, b, eqb_refl (start + opposite i)) refl

  swap-other :
      (i j : ℕ) (chars : ℕ → ℕ)
      → (j == i) ≡ false
      → (j == opposite i) ≡ false
      → i + i < count
      → swap_digits start count i chars (start + j) ≡ chars (start + j)
  unfolding swap_digits poke
  swap-other i j chars not_low not_high lt =
      let a : (start + j == i + start) ≡ false = ground arith in
      let b : (start + j == count - i - 1 + start) ≡ false = ground arith in rw (a, b) refl

  -- Rounds `i` to `i + n - 1` leave the characters outside the zone that they swap.
  swaps-outside :
      (n i j : ℕ) (chars : ℕ → ℕ)
      → (i + n) + (i + n) ≤ count
      → ltb j i || leb count (j + i) ≡ true
      → j < count
      → for_slots n i (swap_digits start count) chars (start + j) ≡ chars (start + j)
  unfolding for_slots
  swaps-outside zero i j chars half out lt = refl
  swaps-outside (suc n) i j chars half out lt =
      swaps-outside n (i + 1) j (swap_digits start count i chars) (omega arith) (ground arith) lt
      ∙ swap-other i j chars (ground arith) (ground arith) (omega arith)

  -- The rounds from `i` to the middle turn the zone around.
  swaps-inside :
      (n i j : ℕ) (chars : ℕ → ℕ)
      → (i + n) + (i + n) ≤ count
      → count ≤ suc ((i + n) + (i + n))
      → i ≤ j
      → j + i < count
      → for_slots n i (swap_digits start count) chars (start + j) ≡ chars (start + opposite j)
  unfolding for_slots
  swaps-inside zero i j chars half rest lo hi = let e : opposite j ≡ j = omega arith in rw e refl
  swaps-inside (suc n) i j chars half rest lo hi =
      let after = swap_digits start count i chars in
      elim (Bool-cases (j == i)) [
        | inl low ↦ rw (eqb→eq j i low) (
            swaps-outside n (i + 1) i after (omega arith) (ground arith) (omega arith)
            ∙ swap-low i chars (omega arith))
        | inr not_low ↦ elim (Bool-cases (j == opposite i)) [
          | inl high ↦
              let e : opposite (opposite i) ≡ i = omega arith in
              rw (eqb→eq j (opposite i) high, e)
                (swaps-outside n (i + 1) (opposite i) after (omega arith) (ground arith)
                    (omega arith)
                  ∙ swap-high i chars (omega arith))
          | inr not_high ↦
              swaps-inside n (i + 1) j after (omega arith) (omega arith) (ground arith)
                (ground arith)
              ∙ swap-other i (opposite j) chars (ground arith) (ground arith) (omega arith)
        ]
      ]

pub forward-reverse_digits :
    (start : ℕ) (b : Buffer)
    → forward (reverse_digits start b) start b.count ≡ backward b.chars start b.count
unfolding reverse_digits
forward-reverse_digits start b =
    forward-backward b.chars (reverse_digits start b) start start b.count (λ j lt.
      swaps-inside start b.count (b.count / 2) 0 j b.chars (omega arith) (omega arith) (omega arith)
        (omega arith))
