-- ===== src/Text/Sort.antt =====
-- `sort` of user/lib/flib.c: the cells of an array of int, as 32-bit patterns.
pub mod Swap
pub mod Loops
use frostbite.Base.{
  for_slots, ℕ, zero, suc, ◌+◌, ◌-◌, ◌*◌, ◌/◌, ◌%◌, ◌^◌, ◌≤◌, ◌<◌, ◌≡◌, refl, sym, ap, ◌∙◌, ◌≢◌,
  ◌⊎◌, inl, inr, Bool, true, false, not, ◌&&◌, ◌||◌, Option, none, some, List, [], ◌∷◌, ◌++◌, arith,
  ◌==◌, if◌then◌else◌, ltb, leb, has, length, ℤ, pos, negsuc, eqb_ℤ,
}
use frostbite.Text.{poke}

-- The order of the patterns as signed numbers.
abbrev pub signed_key : ℕ → ℕ
signed_key x = (x + 2 ^ 31) % 2 ^ 32

abbrev pub wrap_add : ℕ → ℕ → ℕ
wrap_add a b = (a + b) % 2 ^ 32

abbrev pub wrap_sub : ℕ → ℕ → ℕ
wrap_sub a b = (a + 2 ^ 32 - b) % 2 ^ 32

-- The swap by a sum and two differences.
unfoldable pub swap_cells : ℕ → ℕ → (ℕ → ℕ) → ℕ → ℕ
swap_cells i j arr =
    let a1 = poke i (wrap_add (arr i) (arr j)) arr in
    let a2 = poke j (wrap_sub (a1 i) (a1 j)) a1 in poke i (wrap_sub (a2 i) (a2 j)) a2

unfoldable pub order_cells : ℕ → ℕ → (ℕ → ℕ) → ℕ → ℕ
order_cells i j arr =
    if ltb (signed_key (arr j)) (signed_key (arr i)) then swap_cells i j arr else arr

-- The inner loop.
unfoldable pub select : (size i : ℕ) → (ℕ → ℕ) → ℕ → ℕ
select size i arr = for_slots (size - (i + 1)) (i + 1) (order_cells i) arr

unfoldable pub sort : ℕ → (ℕ → ℕ) → ℕ → ℕ
sort size arr = for_slots size 0 (select size) arr
