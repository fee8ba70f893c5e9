-- ===== src/Text/Sort/Swap.antt =====
-- One comparison of sort.
use frostbite.Base.{
  ℕ, zero, suc, ◌+◌, ◌^◌, ◌≤◌, ◌<◌, ◌≡◌, refl, sym, ap, ◌∙◌, ◌⊎◌, inl, inr, false, arith, ◌==◌,
  if◌then◌else◌, ltb, eqb→eq, Bool-cases, eqb_refl,
}
use frostbite.Text.{poke}
use frostbite.Text.Sort.{signed_key, wrap_add, wrap_sub, swap_cells, order_cells}

add_sub : (a b : ℕ) → a < 2 ^ 32 → b < 2 ^ 32 → wrap_sub (wrap_add a b) b ≡ a
add_sub a b la lb = omega arith

add_sub' : (a b : ℕ) → a < 2 ^ 32 → b < 2 ^ 32 → wrap_sub (wrap_add a b) a ≡ b
add_sub' a b la lb = omega arith

-- How often a value stands in the first `n` cells.
abbrev pub count : (v n : ℕ) → (ℕ → ℕ) → ℕ
count v zero arr = 0
count v (suc n) arr = if v == arr n then suc (count v n arr) else count v n arr

-- Cells `i` and `j` are exchanged, and the others left.
pub record Swapped (i j : ℕ) (arr r : ℕ → ℕ) : Type 0 where
  pub low : r i ≡ arr j
  pub high : r j ≡ arr i
  pub rest : (k : ℕ) → (k == i) ≡ false → (k == j) ≡ false → r k ≡ arr k

swap_cells-Swapped :
    (i j : ℕ) (arr : ℕ → ℕ)
    → (i == j) ≡ false
    → arr i < 2 ^ 32
    → arr j < 2 ^ 32
    → Swapped i j arr (swap_cells i j arr)
unfolding swap_cells poke
swap_cells-Swapped i j arr ne li lj =
    let ne' : (j == i) ≡ false = ground arith in
    record {
      low =
          rw (eqb_refl i, eqb_refl j, ne, ne')
            (ap (wrap_sub (wrap_add (arr i) (arr j))) (add_sub (arr i) (arr j) li lj)
              ∙ add_sub' (arr i) (arr j) li lj);
      high = rw (ne', eqb_refl j, eqb_refl i) (add_sub (arr i) (arr j) li lj);
      rest = λ k a b. rw (a, b) refl;
    }

abbrev once : ℕ → ℕ → ℕ
once v x = if v == x then 1 else 0

count-suc : (v n : ℕ) (f : ℕ → ℕ) → count v (suc n) f ≡ count v n f + once v (f n)
count-suc v n f = ground arith

count-same : (v n : ℕ) (f g : ℕ → ℕ) → ((k : ℕ) → k < n → g k ≡ f k) → count v n g ≡ count v n f
count-same v zero f g same = refl
count-same v (suc n) f g same =
    rw (same n (omega arith), count-same v n f g (λ k lt. same k (omega arith))) refl

-- A change of one cell.
count-change :
    (v n i : ℕ) (f g : ℕ → ℕ)
    → i < n
    → ((k : ℕ) → (k == i) ≡ false → g k ≡ f k)
    → count v n g + once v (f i) ≡ count v n f + once v (g i)
count-change v zero i f g lt same = absurd (omega arith)
count-change v (suc n) i f g lt same = elim (Bool-cases (n == i)) [
  | inl here ↦
      let e : n ≡ i = ground arith in
      let below = count-same v n f g (λ k lt'. same k (ground arith)) in
      rw (count-suc v n g, count-suc v n f, e) (omega (arith, rw e at below))
  | inr there ↦
      let ih = count-change v n i f g (ground arith) same in
      rw (count-suc v n g, count-suc v n f, same n there) (omega (arith, ih))
]

count-Swapped :
    (v n i j : ℕ) (arr r : ℕ → ℕ)
    → (i == j) ≡ false
    → i < n
    → j < n
    → Swapped i j arr r
    → count v n r ≡ count v n arr
unfolding poke
count-Swapped v n i j arr r ne li lj s =
    let h = poke i (arr j) arr in
    let ne' : (j == i) ≡ false = ground arith in
    let at_i : h i ≡ arr j = rw (eqb_refl i) refl in
    let at_j : h j ≡ arr j = rw ne' refl in
    let one : count v n h + once v (arr i) ≡ count v n arr + once v (arr j) =
      count-change v n i arr h li (λ k other. rw other refl)
      ∙ ap (λ t. count v n arr + once v t) at_i in
    let two : count v n r + once v (arr j) ≡ count v n h + once v (arr i) =
      ap (λ t. count v n r + once v t) (sym at_j)
      ∙ count-change v n j h r lj (λ k other. r_h k other)
      ∙ ap (λ t. count v n h + once v t) s.high in
    omega (arith, one, two)
  where
    r_h : (k : ℕ) → (k == j) ≡ false → r k ≡ poke i (arr j) arr k
    r_h k other = elim (Bool-cases (k == i)) [
      | inl here ↦ rw (here, eqb→eq k i here) s.low
      | inr there ↦ rw there (s.rest k there other)
    ]

-- What one comparison leaves: the lower value in cell `i`, and the same values.
pub record Ordered (i j : ℕ) (arr r : ℕ → ℕ) : Type 0 where
  pub least : signed_key (r i) ≤ signed_key (r j)
  pub falls : signed_key (r i) ≤ signed_key (arr i)
  pub rest : (k : ℕ) → (k == i) ≡ false → (k == j) ≡ false → r k ≡ arr k
  pub either : ((r i ≡ arr i) × (r j ≡ arr j)) ⊎ ((r i ≡ arr j) × (r j ≡ arr i))
  pub counts : (v n : ℕ) → i < n → j < n → count v n r ≡ count v n arr

pub order_cells-Ordered :
    (i j : ℕ) (arr : ℕ → ℕ)
    → (i == j) ≡ false
    → arr i < 2 ^ 32
    → arr j < 2 ^ 32
    → Ordered i j arr (order_cells i j arr)
unfolding order_cells
order_cells-Ordered i j arr ne li lj =
    elim (Bool-cases (ltb (signed_key (arr j)) (signed_key (arr i)))) [
      | inl wrong ↦
          let s = swap_cells-Swapped i j arr ne li lj in
          let less : signed_key (arr j) < signed_key (arr i) = ground arith in
          rw wrong (record {
            least = rw (s.low, s.high) (omega arith);
            falls = rw s.low (omega arith);
            rest = s.rest;
            either = inr (s.low, s.high);
            counts = λ v n a b. count-Swapped v n i j arr (swap_cells i j arr) ne a b s;
          })
      | inr right ↦ rw right (record {
        least = ground arith;
        falls = omega arith;
        rest = λ k a b. refl;
        either = inl (refl, refl);
        counts = λ v n a b. refl;
      })
    ]
