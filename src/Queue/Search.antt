-- ===== src/Queue/Search.antt =====
-- `contains`, `find` and `find_evt` of lib/lib.c.
use frostbite.Base.{
  ℕ, zero, suc, ◌<◌, ◌≡◌, Option, some, none, List, [], ◌∷◌, arith, has, ℤ, if◌then◌else◌, length,
  eqb_ℤ,
}
use frostbite.Queue.{Ptr, null, Heap, NodeList, contains, contains_loop, find, find_evt}
use frostbite.Queue.Chain.{Seg, IsQueue, not_null, load-some}

-- The first of `xs` that waits on `event`.
unfoldable pub first_evt : (Ptr → ℤ) → ℤ → List Ptr → Option Ptr
first_evt ev event [] = none
first_evt ev event (x ∷ xs) = if eqb_ℤ (ev x) event then some x else first_evt ev event xs

-- A node or NULL.
abbrev pub or_null : Option Ptr → Ptr
or_null none = null
or_null (some p) = p

module _ (ev : Ptr → ℤ) (h : Heap) where
  contains_loop-has :
      (k : ℕ) (p curr : Ptr) (xs : List Ptr)
      → Seg ev h curr xs null
      → length xs < k
      → contains_loop k p curr h ≡ some (has p xs)
  unfolding contains_loop
  contains_loop-has zero p curr xs s enough = absurd (omega arith)
  contains_loop-has (suc k) p curr [] s enough = rw s
  contains_loop-has (suc k) p curr (x ∷ xs) (q, e, ne, c, o, s) enough =
      rw (e, not_null h ne c, load-some h ne c) (ground (arith, contains_loop-has k p q xs s))

  -- `contains` decides membership.
  pub contains-has :
      (fuel : ℕ) (l : NodeList) (p : Ptr) (xs : List Ptr)
      → IsQueue ev h l xs
      → length xs < fuel
      → contains fuel l p h ≡ some (has p xs)
  unfolding contains
  contains-has fuel l p xs is enough = contains_loop-has fuel p l.head xs is.chain enough

  -- `find` from the head returns the node if it is on the list, and NULL if not.
  pub find-has :
      (k : ℕ) (curr p : Ptr) (xs : List Ptr)
      → Seg ev h curr xs null
      → length xs < k
      → find k curr p h ≡ some (if has p xs then p else null)
  unfolding find
  find-has zero curr p xs s enough = absurd (omega arith)
  find-has (suc k) curr p [] s enough = rw s
  find-has (suc k) curr p (x ∷ xs) (q, e, ne, c, o, s) enough =
      rw (e, not_null h ne c, c) (ground (arith, find-has k q p xs s))

  -- `find_evt` from the head returns the first node that waits on the event, or NULL.
  pub find_evt-first_evt :
      (k : ℕ) (curr : Ptr) (event : ℤ) (xs : List Ptr)
      → Seg ev h curr xs null
      → length xs < k
      → find_evt k curr event h ≡ some (or_null (first_evt ev event xs))
  unfolding find_evt first_evt
  find_evt-first_evt zero curr event xs s enough = absurd (omega arith)
  find_evt-first_evt (suc k) curr event [] s enough = rw s
  find_evt-first_evt (suc k) curr event (x ∷ xs) (q, e, ne, c, o, s) enough =
      rw (e, not_null h ne c, c) (ground (arith, find_evt-first_evt k q event xs s))
