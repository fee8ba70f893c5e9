-- ===== src/Base/Loop.antt =====
-- The loops over table slots: a search for the first slot that passes a test, and a body that runs
-- once for each slot.
use Prim.Native.Nat.{ℕ, zero, suc, ◌+◌, ◌≤◌, ◌<◌}
use mathlib.Core.Path.{◌≡◌, ◌∙◌}
use mathlib.Core.Logic.{inl, inr}
use mathlib.Core.Bool.{Bool, true, false, ◌&&◌}
use mathlib.Core.Option.{Option, none, some}
use native.Mathlib.Omega.{arith}
use frostbite.Base.Tests.{if◌then◌else◌, Bool-cases, ltb, leb, ◌==◌}

-- The first `j` of `i, i + 1, …, i + rounds - 1` with `test j`.
unfoldable pub find_slot : ℕ → ℕ → (ℕ → Bool) → Option ℕ
find_slot zero i test = none
find_slot (suc n) i test = if test i then some i else find_slot n (i + 1) test

-- `for (j = i; j < i + rounds; j++) s = body j s`
unfoldable pub for_slots {ℓ} : {S : Type ℓ} → ℕ → ℕ → (ℕ → S → S) → S → S
for_slots zero i body s = s
for_slots (suc n) i body s = for_slots n (i + 1) body (body i s)

-- A hit is in range, passes the test, and no slot before it does.
pub find_slot-some :
    (n i : ℕ) (test : ℕ → Bool) (j : ℕ)
    → find_slot n i test ≡ some j
    → (i ≤ j) × (j < i + n) × (test j ≡ true) × ((m : ℕ) → i ≤ m → m < j → test m ≡ false)
unfolding find_slot
find_slot-some zero i test j h = cc
find_slot-some (suc n) i test j h = elim (Bool-cases (test i)) [
  | inl hit ↦
      let e : i ≡ j = ground arith in
      (omega arith, omega arith, rw (← e) hit, λ m lo hi. absurd (omega arith))
  | inr miss ↦
      let (lo, hi, t, before) = find_slot-some n (i + 1) test j (ground arith) in
      (omega arith, omega arith, t, λ m le lt. first_or miss m le lt before)
]
  where
    first_or :
        test i ≡ false
        → (m : ℕ) → i ≤ m
        → m < j
        → ((m : ℕ) → i + 1 ≤ m → m < j → test m ≡ false)
        → test m ≡ false
    first_or miss m le lt before = ground (arith, before m)

-- With no hit, no slot in range passes the test.
pub find_slot-none :
    (n i : ℕ) (test : ℕ → Bool)
    → find_slot n i test ≡ none
    → (m : ℕ) → i ≤ m
    → m < i + n
    → test m ≡ false
unfolding find_slot
find_slot-none zero i test h m le lt = absurd (omega arith)
find_slot-none (suc n) i test h m le lt = ground (arith, find_slot-none n (i + 1) test _ m)

-- A body that keeps `P` at every slot of the range makes the loop keep it.
pub for_slots_inv {ℓ κ} :
    {S : Type ℓ} (P : S → Type κ) (body : ℕ → S → S) (lo hi : ℕ)
    → ((j : ℕ) (s : S) → lo ≤ j → j < hi → P s → P (body j s))
    → (n i : ℕ) (s : S) → lo ≤ i
    → i + n ≤ hi
    → P s
    → P (for_slots n i body s)
unfolding for_slots
for_slots_inv P body lo hi keep zero i s le fits p = p
for_slots_inv P body lo hi keep (suc n) i s le fits p =
    for_slots_inv P body lo hi keep n (i + 1) (body i s) (omega arith) (omega arith)
      (keep i s le (omega arith) p)

-- The part `view s j` of the state that belongs to slot `j` is changed by the round for `j` alone,
-- and that round computes it from what it was.
pub for_slots-view {ℓ κ} :
    {S : Type ℓ} {V : Type κ} (view : S → ℕ → V) (body : ℕ → S → S) (f : ℕ → V → V)
    → ((i : ℕ) (s : S) → view (body i s) i ≡ f i (view s i))
    → ((i j : ℕ) (s : S) → (j == i) ≡ false → view (body i s) j ≡ view s j)
    → (n i j : ℕ) (s : S)
    → view (for_slots n i body s) j
      ≡ (if leb i j && ltb j (i + n) then f j (view s j) else view s j)
unfolding for_slots
for_slots-view view body f own other zero i j s =
    let out : (leb i j && ltb j (i + 0)) ≡ false = ground arith in rw out
for_slots-view view body f own other (suc n) i j s =
    for_slots-view view body f own other n (i + 1) j (body i s) ∙ (elim (Bool-cases (j == i)) [
      | inl e ↦
          let e' : j ≡ i = ground arith in
          let past : (leb (i + 1) j && ltb j (i + 1 + n)) ≡ false = ground arith in
          let here : (leb i j && ltb j (i + suc n)) ≡ true = ground arith in
          rw (past, here, e') (own i s)
      | inr ne ↦
          let same : (leb (i + 1) j && ltb j (i + 1 + n)) ≡ (leb i j && ltb j (i + suc n)) =
            ground arith in
          rw (same, other i j s ne)
    ])
