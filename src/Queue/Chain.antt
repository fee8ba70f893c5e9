-- ===== src/Queue/Chain.antt =====
-- What a `struct List` stands for: the nodes in order, each on it once, and the tail pointer.
use frostbite.Base.{◌≡◌, ◌≢◌, true, false, Option, some, none, List, [], ◌∷◌, arith, has, ℤ, ◌==◌}
use frostbite.Queue.{Ptr, null, node, NodeList, Heap, write, load, set_next, ◌>>=◌}

-- From `p` the `next` pointers lead through the distinct nodes `xs` to `stop`; node `x` carries the
-- event `ev x`.
abbrev pub Seg : (Ptr → ℤ) → Heap → Ptr → List Ptr → Ptr → Type 0
Seg ev h p [] stop = p ≡ stop
Seg ev h p (x ∷ xs) stop =
    (q : Ptr) × (p ≡ x)
    × (x ≢ null)
    × (h x ≡ some (node q (ev x)))
    × (has x xs ≡ false)
    × Seg ev h q xs stop

-- The last of `x ∷ xs`.
abbrev pub last : Ptr → List Ptr → Ptr
last x [] = x
last x (y ∷ ys) = last y ys

-- Of an empty list only the head counts: `remove_evt` may leave a stale tail.
abbrev pub TailFits : NodeList → List Ptr → Type 0
TailFits l [] = Unit {0}
TailFits l (x ∷ xs) = l.tail ≡ last x xs

pub record IsQueue (ev : Ptr → ℤ) (h : Heap) (l : NodeList) (xs : List Ptr) : Type 0 where
  pub chain : Seg ev h l.head xs null
  pub tail_fits : TailFits l xs

-- `p` is a node, with event `e`, whatever its `next`.
abbrev pub IsNode : Heap → Ptr → ℤ → Type 0
IsNode h p e = (p ≢ null) × (q : Ptr) × (h p ≡ some (node q e))

-- `g` is `h` but for the nodes of `xs`.
abbrev pub SameOutside : List Ptr → Heap → Heap → Type 0
SameOutside xs h g = (a : Ptr) → has a xs ≡ false → g a ≡ h a

-- The run ends, with no fault, in a result that satisfies `P`.
abbrev pub Returns : {A : Type 0} → (A → Type 0) → Option A → Type 0
Returns P none = ⊥
Returns P (some r) = P r

pub has-last : (x : Ptr) (xs : List Ptr) → has (last x xs) (x ∷ xs) ≡ true
has-last x [] = ground arith
has-last x (y ∷ ys) = ground (arith, has-last y ys)

pub frame :
    (ev : Ptr → ℤ) (h g : Heap) (p : Ptr) (xs : List Ptr) (stop : Ptr)
    → Seg ev h p xs stop
    → ((a : Ptr) → has a xs ≡ true → g a ≡ h a)
    → Seg ev g p xs stop
frame ev h g p [] stop s same = s
frame ev h g p (x ∷ xs) stop (q, e, ne, c, out, s) same =
    (q, e, ne, ground (arith, same x), out, frame ev h g q xs stop s (λ a i. same a (ground arith)))

module _ (h : Heap) {p q : Ptr} {e : ℤ} (ne : p ≢ null) (c : h p ≡ some (node q e)) where
  pub not_null : (p == null) ≡ false
  not_null = ground arith

  pub load-some : load p h ≡ some (node q e)
  unfolding load
  load-some = rw (not_null, c)

  pub set_next-some : (r : Ptr) → set_next p r h ≡ some (write h p (node r e))
  unfolding set_next
  set_next-some r = rw (not_null, c)

pub mono :
    {A : Type 0} {P Q : A → Type 0} (r : Option A)
    → ((a : A) → P a → Q a)
    → Returns P r
    → Returns Q r
mono none f x = x
mono (some a) f x = f a x

pub bind :
    {A B : Type 0} {P : A → Type 0} (Q : B → Type 0) (m : Option A) (f : A → Option B)
    → Returns P m
    → ((a : A) → P a → Returns Q (f a))
    → Returns Q (m >>= f)
bind Q none f x next = x
bind Q (some a) f x next = next a x
