-- ===== src/Text/Sort/Loops.antt =====
-- The two loops of sort.
use frostbite.Base.{
  for_slots, ℕ, zero, suc, ◌+◌, ◌-◌, ◌^◌, ◌≤◌, ◌<◌, ◌≡◌, refl, sym, ap, ◌∙◌, ◌⊎◌, inl, inr, true,
  false, ◌||◌, arith, ◌==◌, ltb, leb, eqb→eq, Bool-cases,
}
use mathlib.Core.Path.{subst}
use frostbite.Text.Sort.{signed_key, order_cells, select, sort}
use frostbite.Text.Sort.Swap.{count, order_cells-Ordered}

abbrev Words : (ℕ → ℕ) → Type 0
Words arr = (k : ℕ) → arr k < 2 ^ 32

-- All of the cells from `lo` to `hi - 1`.
abbrev Each : (Q : ℕ → Type 0) → (lo hi : ℕ) → (ℕ → ℕ) → Type 0
Each Q lo hi arr = (k : ℕ) → lo ≤ k → k < hi → Q (arr k)

order_cells-Words :
    (i j : ℕ) (arr : ℕ → ℕ) → (i == j) ≡ false → Words arr → Words (order_cells i j arr)
order_cells-Words i j arr ne words k =
    let o = order_cells-Ordered i j arr ne (words i) (words j) in
    elim (Bool-cases (k == i)) [
      | inl low ↦
          rw (eqb→eq k i low)
            (elim o.either [ inl a ↦ rw a.0 (words i) | inr b ↦ rw b.0 (words j) ])
      | inr not_low ↦ elim (Bool-cases (k == j)) [
        | inl high ↦
            rw (eqb→eq k j high)
              (elim o.either [ inl a ↦ rw a.1 (words j) | inr b ↦ rw b.1 (words i) ])
        | inr not_high ↦ rw (o.rest k not_low not_high) (words k)
      ]
    ]

-- The rounds of the inner loop for cells `lo` to `hi - 1` bring the least of these to cell `i`.
record Selected (i lo hi : ℕ) (arr r : ℕ → ℕ) : Type 1 where
  words : Words r
  least : (k : ℕ) → lo ≤ k → k < hi → signed_key (r i) ≤ signed_key (r k)
  falls : signed_key (r i) ≤ signed_key (arr i)
  rest : (k : ℕ) → (k == i) ≡ false → (ltb k lo || leb hi k) ≡ true → r k ≡ arr k
  holds : (Q : ℕ → Type 0) → Q (arr i) → Each Q lo hi arr → Q (r i) × Each Q lo hi r
  counts : (v n : ℕ) → i < n → hi ≤ n → count v n r ≡ count v n arr

none-Selected : (i lo : ℕ) (arr : ℕ → ℕ) → Words arr → Selected i lo lo arr arr
none-Selected i lo arr words = record {
  words = words;
  least = λ k a b. absurd (omega arith);
  falls = omega arith;
  rest = λ k a b. refl;
  holds = λ Q q each. (q, each);
  counts = λ v n a b. refl;
}

both_hold :
    (Q : ℕ → Type 0) (i j : ℕ) (arr r : ℕ → ℕ)
    → ((r i ≡ arr i) × (r j ≡ arr j)) ⊎ ((r i ≡ arr j) × (r j ≡ arr i))
    → Q (arr i)
    → Q (arr j)
    → Q (r i) × Q (r j)
both_hold Q i j arr r (inl (a, b)) qi qj = (subst Q (sym a) qi, subst Q (sym b) qj)
both_hold Q i j arr r (inr (a, b)) qi qj = (subst Q (sym a) qj, subst Q (sym b) qi)

one_more-Selected :
    (i lo hi : ℕ) (arr r : ℕ → ℕ)
    → i < lo
    → lo < hi
    → Words arr
    → Selected i (lo + 1) hi (order_cells i lo arr) r
    → Selected i lo hi arr r
one_more-Selected i lo hi arr r before some_left words s =
    let ne : (i == lo) ≡ false = ground arith in
    let ne' : (lo == i) ≡ false = ground arith in
    let o = order_cells-Ordered i lo arr ne (words i) (words lo) in
    let at_lo : r lo ≡ order_cells i lo arr lo = s.rest lo ne' (ground arith) in
    record {
      words = s.words;
      least = λ k a b. elim (Bool-cases (k == lo)) [
        | inl here ↦ rw (eqb→eq k lo here, at_lo) (omega (arith, s.falls, o.least))
        | inr there ↦ s.least k (ground arith) b
      ];
      falls = omega (arith, s.falls, o.falls);
      rest = λ k a b. s.rest k a (ground arith) ∙ o.rest k a (ground arith);
      holds = λ Q q each.
          let (qi, ql) =
            both_hold Q i lo arr (order_cells i lo arr) o.either q
              (each lo (omega arith) some_left) in
          let (ri, later) = s.holds Q qi (λ k a b.
            subst Q (sym (o.rest k (ground arith) (ground arith))) (each k (omega arith) b)) in
          (
            ri,
            λ k a b. elim (Bool-cases (k == lo)) [
              | inl here ↦ subst Q (sym (ap r (eqb→eq k lo here) ∙ at_lo)) ql
              | inr there ↦ later k (ground arith) b
            ],
          );
      counts = λ v n a b. s.counts v n a b ∙ o.counts v n a (omega arith);
    }

rounds-Selected :
    (n i lo : ℕ) (arr : ℕ → ℕ)
    → i < lo
    → Words arr
    → Selected i lo (lo + n) arr (for_slots n lo (order_cells i) arr)
unfolding for_slots
rounds-Selected zero i lo arr before words =
    let e : lo + 0 ≡ lo = omega arith in rw e (none-Selected i lo arr words)
rounds-Selected (suc n) i lo arr before words =
    let e : lo + suc n ≡ lo + 1 + n = omega arith in
    let ne : (i == lo) ≡ false = ground arith in
    let next = order_cells i lo arr in
    rw e (
      one_more-Selected i lo (lo + 1 + n) arr (for_slots n (lo + 1) (order_cells i) next) before
        (omega arith) words
        (rounds-Selected n i (lo + 1) next (omega arith) (order_cells-Words i lo arr ne words)))

select-Selected :
    (size i : ℕ) (arr : ℕ → ℕ)
    → i < size
    → Words arr
    → Selected i (i + 1) size arr (select size i arr)
unfolding select
select-Selected size i arr lt words =
    let e : i + 1 + (size - (i + 1)) ≡ size = omega arith in
    subst (λ hi. Selected i (i + 1) hi arr (for_slots (size - (i + 1)) (i + 1) (order_cells i) arr))
      e (rounds-Selected (size - (i + 1)) i (i + 1) arr (omega arith) words)

-- The cells from `lo` on are in order, the ones before are left, and so are the values.
record Sorted (lo size : ℕ) (arr r : ℕ → ℕ) : Type 1 where
  order : (p q : ℕ) → lo ≤ p → p < q → q < size → signed_key (r p) ≤ signed_key (r q)
  before : (k : ℕ) → k < lo → r k ≡ arr k
  holds : (Q : ℕ → Type 0) → Each Q lo size arr → Each Q lo size r
  counts : (v : ℕ) → count v size r ≡ count v size arr

one-Sorted :
    (lo size : ℕ) (arr next r : ℕ → ℕ)
    → lo < size
    → Selected lo (lo + 1) size arr next
    → Sorted (lo + 1) size next r
    → Sorted lo size arr r
one-Sorted lo size arr next r lt s t =
    let at_lo : r lo ≡ next lo = t.before lo (omega arith) in
    let lowest : Each (λ x. signed_key (next lo) ≤ signed_key x) (lo + 1) size r =
      t.holds (λ x. signed_key (next lo) ≤ signed_key x) (λ k a b. s.least k a b) in
    record {
      order = λ p q a b c. elim (Bool-cases (p == lo)) [
        | inl first ↦ rw (eqb→eq p lo first, at_lo) (lowest q (ground arith) c)
        | inr later ↦ t.order p q (ground arith) b c
      ];
      before = λ k a. t.before k (omega arith) ∙ s.rest k (ground arith) (ground arith);
      holds = λ Q each.
          let (first, later) =
            s.holds Q (each lo (omega arith) lt) (λ k a b. each k (omega arith) b) in
          λ k a b. elim (Bool-cases (k == lo)) [
            | inl here ↦ subst Q (sym (ap r (eqb→eq k lo here) ∙ at_lo)) first
            | inr there ↦ t.holds Q later k (ground arith) b
          ];
      counts = λ v. t.counts v ∙ s.counts v size lt (omega arith);
    }

rounds-Sorted :
    (n lo size : ℕ) (arr : ℕ → ℕ)
    → lo + n ≡ size
    → Words arr
    → Sorted lo size arr (for_slots n lo (select size) arr)
unfolding for_slots
rounds-Sorted zero lo size arr e words = record {
  order = λ p q a b c. absurd (omega arith);
  before = λ k a. refl;
  holds = λ Q each. each;
  counts = λ v. refl;
}
rounds-Sorted (suc n) lo size arr e words =
    let s = select-Selected size lo arr (omega arith) words in
    one-Sorted lo size arr (select size lo arr)
      (for_slots n (lo + 1) (select size) (select size lo arr)) (omega arith) s
      (rounds-Sorted n (lo + 1) size (select size lo arr) (omega arith) s.words)

-- sort puts the first `size` cells of an array in the order of signed numbers, and each value stands
-- there as often as before. The cells are 32-bit patterns, and sums wrap around.
pub sort-ordered :
    (size : ℕ) (arr : ℕ → ℕ)
    → ((k : ℕ) → arr k < 2 ^ 32)
    → ((p q : ℕ) → p < q → q < size → signed_key (sort size arr p) ≤ signed_key (sort size arr q))
      × ((v : ℕ) → count v size (sort size arr) ≡ count v size arr)
unfolding sort
sort-ordered size arr words =
    let s = rounds-Sorted size 0 size arr (omega arith) words in
    ((λ p q a b. s.order p q (omega arith) a b), s.counts)
