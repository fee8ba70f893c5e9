-- ===== src/Queue/Remove.antt =====
-- `remove` of lib/lib.c.
use mathlib.Core.Path.{subst}
use frostbite.Base.{
  ℕ, zero, suc, ◌<◌, ◌≡◌, refl, sym, ◌≢◌, true, false, some, List, [], ◌∷◌, arith, has, ℤ, ◌==◌,
  if◌then◌else◌, erase, length, has-erase_of_not, Bool-cases, inl, inr,
}
use frostbite.Queue.{Ptr, null, node, NodeList, Heap, write, remove_loop, unlink, remove}
use frostbite.Queue.Chain.{
  Seg, last, IsQueue, SameOutside, Returns, mono, bind, has-last, frame, not_null, load-some,
}

module _ (ev : Ptr → ℤ) (p : Ptr) where
  -- What the walk has done once `p` is unlinked behind `w`, from which the segment goes on.
  record Cut (h : Heap) (l : NodeList) (w : Ptr) (xs : List Ptr) (r : Heap × NodeList × Ptr)
      : Type 0 where
    chain : Seg ev r.0 w (w ∷ erase p xs) null
    head_kept : r.1.head ≡ l.head
    tail_last : r.1.tail ≡ last w (erase p xs)
    found : r.2 ≡ (if has p xs then p else null)
    same : SameOutside (w ∷ xs) h r.0

  unlink-Cut :
      (h : Heap) (l : NodeList) (w x q : Ptr) (xs : List Ptr)
      → w ≢ null
      → h w ≡ some (node x (ev w))
      → has w (x ∷ xs) ≡ false
      → has x xs ≡ false
      → Seg ev h q xs null
      → l.tail ≡ last x xs
      → (p == x) ≡ true
      → Returns (λ (g, l'). Cut h l w (x ∷ xs) (g, l', x)) (unlink l x w q h)
  unfolding unlink write
  unlink-Cut h l w x q [] ne c out o s t hit =
      let at_tail : (l.tail == x) ≡ true = ground arith in
      rw (not_null h ne c, at_tail, c)
        (record {
          chain = rw hit (null, refl, ne, ground arith, refl, refl);
          head_kept = refl;
          tail_last = rw hit;
          found = ground arith;
          same = λ a out. ground arith;
        })
  unlink-Cut h l w x q (y ∷ ys) ne c out o s t hit =
      let inside : (l.tail == x) ≡ false = ground (arith, has-last y ys) in
      rw (not_null h ne c, inside, c)
        (record {
          chain = rw hit (
            q,
            refl,
            ne,
            ground arith,
            ground arith,
            frame ev h _ q (y ∷ ys) null s (λ a i. ground arith),
          );
          head_kept = refl;
          tail_last = rw hit t;
          found = ground arith;
          same = λ a out. ground arith;
        })

  -- The walk's first step past `x`, which is not `p`.
  Cut-cons :
      (h : Heap) (l : NodeList) (w x : Ptr) (xs : List Ptr)
      → w ≢ null
      → h w ≡ some (node x (ev w))
      → has w (x ∷ xs) ≡ false
      → (p == x) ≡ false
      → (r : Heap × NodeList × Ptr) → Cut h l x xs r
      → Cut h l w (x ∷ xs) r
  Cut-cons h l w x xs ne c out miss r cut = record {
    chain = rw miss (
      x,
      refl,
      ne,
      ground (arith, cut.same w),
      ground (arith, has-erase_of_not w p xs),
      cut.chain,
    );
    head_kept = cut.head_kept;
    tail_last = rw miss cut.tail_last;
    found = ground (arith, cut.found);
    same = λ a o. ground (arith, cut.same a);
  }

  remove_loop-Cut :
      (k : ℕ) (h : Heap) (l : NodeList) (w curr : Ptr) (xs : List Ptr)
      → w ≢ null
      → h w ≡ some (node curr (ev w))
      → has w xs ≡ false
      → Seg ev h curr xs null
      → l.tail ≡ last w xs
      → length xs < k
      → Returns (Cut h l w xs) (remove_loop k l p curr w h)
  unfolding remove_loop
  remove_loop-Cut zero h l w curr xs ne c out s t fuel = absurd (omega arith)
  remove_loop-Cut (suc k) h l w curr [] ne c out s t fuel = rw s (record {
    chain = (null, refl, ne, rw (← s) c, refl, refl);
    head_kept = refl;
    tail_last = t;
    found = refl;
    same = λ a o. refl;
  })
  remove_loop-Cut (suc k) h l w curr (x ∷ xs) ne c out (q, e, ne', c', o, s) t fuel =
      let c'' : h w ≡ some (node x (ev w)) = ground arith in
      rw (e, not_null h ne' c', load-some h ne' c')
        (elim (Bool-cases (p == x)) [
          | inl hit ↦ rw hit (
              bind (Cut h l w (x ∷ xs)) (unlink l x w q h) _
                (unlink-Cut h l w x q xs ne c'' out o s t hit) (λ a cut. cut))
          | inr miss ↦ rw miss (
              mono (remove_loop k l p q x h) (Cut-cons h l w x xs ne c'' out miss)
                (remove_loop-Cut k h l x q xs ne' c' o s t (omega arith)))
        ])

  abbrev pub Removed : Heap → List Ptr → Heap × NodeList × Ptr → Type 0
  Removed h xs (g, l, r) =
      IsQueue ev g l (erase p xs) × (r ≡ (if has p xs then p else null)) × SameOutside xs h g

  unlink-first :
      (h : Heap) (t x q : Ptr) (xs : List Ptr)
      → x ≢ null
      → h x ≡ some (node q (ev x))
      → has x xs ≡ false
      → Seg ev h q xs null
      → t ≡ last x xs
      → (p == x) ≡ true
      → Returns
          (λ (g, l'). Removed h (x ∷ xs) (g, l', x))
          (unlink (record { head = x; tail = t }) x null q h)
  unfolding unlink
  unlink-first h t x q [] ne c o s tail hit =
      let at_tail : (t == x) ≡ true = ground arith in
      rw (at_tail, hit) (record { chain = refl; tail_fits = tt }, ground arith, λ a out. refl)
  unlink-first h t x q (y ∷ ys) ne c o s tail hit =
      let inside : (t == x) ≡ false = ground (arith, has-last y ys) in
      rw (inside, hit) (record { chain = s; tail_fits = tail }, ground arith, λ a out. refl)

  -- The list with its head spelled out, so that the chain's first node is the head.
  remove-cons :
      (k : ℕ) (h : Heap) (t x q : Ptr) (xs : List Ptr)
      → x ≢ null
      → h x ≡ some (node q (ev x))
      → has x xs ≡ false
      → Seg ev h q xs null
      → t ≡ last x xs
      → length xs < k
      → Returns (Removed h (x ∷ xs)) (remove (suc k) (record { head = x; tail = t }) p h)
  unfolding remove
  remove-cons k h t x q xs ne c o s tail enough = elim (Bool-cases (p == x)) [
    | inl hit ↦
        rw (not_null h ne c, c, hit)
          (bind (Removed h (x ∷ xs)) (unlink (record { head = x; tail = t }) x null q h) _
            (unlink-first h t x q xs ne c o s tail hit) (λ r done. done))
    | inr miss ↦
        rw (not_null h ne c, c, miss)
          (mono (remove_loop k (record { head = x; tail = t }) p q x h)
            (λ r cut. (
              record {
                chain = rw (miss, cut.head_kept) cut.chain;
                tail_fits = rw miss cut.tail_last;
              },
              ground (arith, cut.found),
              cut.same,
            ))
            (remove_loop-Cut k h (record { head = x; tail = t }) x q xs ne c o s tail enough))
  ]

  -- `remove` ends without a fault; the list then lacks the node, which is returned if it was there.
  pub remove-erase :
      (fuel : ℕ) (h : Heap) (l : NodeList) (xs : List Ptr)
      → IsQueue ev h l xs
      → length xs < fuel
      → Returns (Removed h xs) (remove fuel l p h)
  unfolding remove
  remove-erase zero h l xs is enough = absurd (omega arith)
  remove-erase (suc k) h l [] is enough =
      let no_head : (l.head == null) ≡ true = ground arith in
      rw no_head (record { chain = is.chain; tail_fits = tt }, refl, λ a o. refl)
  remove-erase (suc k) h l (x ∷ xs) is enough =
      let (q, e, ne, c, o, s) = is.chain in
      subst (λ a. Returns (Removed h (x ∷ xs)) (remove (suc k) (record l { head = a }) p h)) (sym e)
        (remove-cons k h l.tail x q xs ne c o s is.tail_fits (omega arith))
