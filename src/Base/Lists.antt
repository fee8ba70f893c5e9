-- ===== src/Base/Lists.antt =====
-- Lists measured by native numbers, and lists of numbers searched by their Boolean test.
use Prim.Native.Nat.{ℕ, suc, ◌+◌}
use mathlib.Core.Path.{◌≡◌, refl}
use mathlib.Core.Bool.{Bool, false, ◌||◌}
use mathlib.Core.List.{List, [], ◌∷◌, ◌++◌}
use native.Mathlib.Omega.{arith}
use frostbite.Base.Tests.{◌==◌, if◌then◌else◌}

module _ {ℓ} {A : Type ℓ} where
  abbrev pub length : List A → ℕ
  length [] = 0
  length (x ∷ xs) = suc (length xs)

  pub length-append : (xs ys : List A) → length (xs ++ ys) ≡ length xs + length ys
  length-append [] ys = omega arith
  length-append (x ∷ xs) ys = omega (arith, length-append xs ys)

-- Whether `a` is among `xs`.
abbrev pub has : ℕ → List ℕ → Bool
has a [] = false
has a (x ∷ xs) = (a == x) || has a xs

-- `xs` without its first `a`.
abbrev pub erase : ℕ → List ℕ → List ℕ
erase a [] = []
erase a (x ∷ xs) = if a == x then xs else x ∷ erase a xs

-- `xs` holds no number twice.
abbrev pub IsNodup : List ℕ → Type 0
IsNodup [] = Unit {0}
IsNodup (x ∷ xs) = (has x xs ≡ false) × IsNodup xs

pub has-append : (a : ℕ) (xs ys : List ℕ) → has a (xs ++ ys) ≡ (has a xs || has a ys)
has-append a [] ys = refl
has-append a (x ∷ xs) ys = ground (arith, has-append a xs ys)

pub has-erase_ne : (a b : ℕ) (xs : List ℕ) → (a == b) ≡ false → has a (erase b xs) ≡ has a xs
has-erase_ne a b [] h = refl
has-erase_ne a b (x ∷ xs) h = ground (arith, has-erase_ne a b xs h)

pub has-erase_of_not : (a b : ℕ) (xs : List ℕ) → has a xs ≡ false → has a (erase b xs) ≡ false
has-erase_of_not a b [] h = refl
has-erase_of_not a b (x ∷ xs) h = ground (arith, has-erase_of_not a b xs)

pub has-erase_self : (a : ℕ) (xs : List ℕ) → IsNodup xs → has a (erase a xs) ≡ false
has-erase_self a [] h = refl
has-erase_self a (x ∷ xs) h = ground (arith, has-erase_self a xs)

pub erase-IsNodup : (a : ℕ) (xs : List ℕ) → IsNodup xs → IsNodup (erase a xs)
erase-IsNodup a [] h = h
erase-IsNodup a (x ∷ xs) h = ground (arith, erase-IsNodup a xs h.1, has-erase_of_not x a xs)

pub append-IsNodup : (a : ℕ) (xs : List ℕ) → IsNodup xs → has a xs ≡ false → IsNodup (xs ++ a ∷ [])
append-IsNodup a [] h out = (refl, tt)
append-IsNodup a (x ∷ xs) h out = ground (arith, append-IsNodup a xs h.1, has-append x xs (a ∷ []))
