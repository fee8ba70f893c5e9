-- ===== src/Queue/Append.antt =====
-- `push_back` and `pop_front` of lib/lib.c.
use frostbite.Base.{
  ◌≡◌, refl, sym, ◌≢◌, true, false, some, List, [], ◌∷◌, ◌++◌, arith, has, has-append, ℤ, ◌==◌,
  eqb_refl,
}
use frostbite.Queue.{Ptr, null, node, NodeList, Heap, write, push_back, pop_front}
use frostbite.Queue.Chain.{
  Seg, last, IsQueue, IsNode, SameOutside, Returns, has-last, set_next-some,
}

-- Linking `p` behind the last node and ending the list there extends the segment.
extend :
    (ev : Ptr → ℤ) (h : Heap) (p a x : Ptr) (xs : List Ptr)
    → p ≢ null
    → has p (x ∷ xs) ≡ false
    → Seg ev h a (x ∷ xs) null
    → Seg ev
        (write (write h (last x xs) (node p (ev (last x xs)))) p (node null (ev p)))
        a
        ((x ∷ xs) ++ (p ∷ []))
        null
unfolding write
extend ev h p a x [] ne out (q, e, ne', c, o, s) =
    (p, e, ne', ground arith, ground arith, (null, refl, ne, ground arith, refl, refl))
extend ev h p a x (y ∷ ys) ne out (q, e, ne', c, o, s) = (
  q,
  e,
  ne',
  ground (arith, has-last y ys),
  ground (arith, has-append x (y ∷ ys) (p ∷ [])),
  extend ev h p q y ys ne (ground arith) s,
)

last-IsNode :
    (ev : Ptr → ℤ) (h : Heap) (a x : Ptr) (xs : List Ptr)
    → Seg ev h a (x ∷ xs) null
    → IsNode h (last x xs) (ev (last x xs))
last-IsNode ev h a x [] (q, e, ne, c, o, s) = (ne, q, c)
last-IsNode ev h a x (y ∷ ys) (q, e, ne, c, o, s) = last-IsNode ev h q y ys s

last-append : (x p : Ptr) (xs : List Ptr) → last x (xs ++ (p ∷ [])) ≡ p
last-append x p [] = refl
last-append x p (y ∷ ys) = last-append y p ys

module _ (ev : Ptr → ℤ) (h : Heap) (p : Ptr) where
  abbrev pub Pushed : List Ptr → Heap × NodeList → Type 0
  Pushed xs (g, l) = IsQueue ev g l (xs ++ (p ∷ [])) × SameOutside (p ∷ xs) h g

  -- `push_back` of a node that is not on the list ends without a fault, puts the node behind the
  -- others, and writes to no node but these.
  pub push_back-append :
      (l : NodeList) (xs : List Ptr)
      → IsQueue ev h l xs
      → IsNode h p (ev p)
      → has p xs ≡ false
      → Returns (Pushed xs) (push_back l p h)
  unfolding push_back write
  push_back-append l [] is (ne, q, c) out =
      rw (is.chain, set_next-some h ne c null)
        (
          record { chain = (null, refl, ne, ground arith, refl, refl); tail_fits = refl },
          ground arith,
        )
  push_back-append l (x ∷ xs) is (ne, q, c) out =
      let (tne, tq, tc) = last-IsNode ev h l.head x xs is.chain in
      let inside = has-last x xs in
      let head_ne : (l.head == null) ≡ false = ground arith in
      let apart : (p == last x xs) ≡ false = ground arith in
      let kept : write h (last x xs) (node p (ev (last x xs))) p ≡ some (node q (ev p)) =
        ground arith in
      rw (head_ne, is.tail_fits, set_next-some h tne tc p, set_next-some _ ne kept null)
        (
          record {
            chain = extend ev h p l.head x xs ne out is.chain;
            tail_fits = sym (last-append x p xs);
          },
          λ a o. ground (arith, eqb_refl a),
        )

module _ (ev : Ptr → ℤ) (h : Heap) where
  -- `pop_front` unlinks the first node and returns it.
  pub pop_front-tail :
      (l : NodeList) (x : Ptr) (xs : List Ptr)
      → IsQueue ev h l (x ∷ xs)
      → Returns (λ (l', y). (y ≡ x) × IsQueue ev h l' xs) (pop_front l h)
  unfolding pop_front
  pop_front-tail l x [] is =
      let head_ne : (l.head == null) ≡ false = ground arith in
      let one : (l.tail == l.head) ≡ true = ground arith in
      rw (head_ne, one) (is.chain.1, record { chain = refl; tail_fits = tt })
  pop_front-tail l x (y ∷ ys) is =
      let head_ne : (l.head == null) ≡ false = ground arith in
      let more : (l.tail == l.head) ≡ false = ground (arith, has-last y ys) in
      let c : h l.head ≡ some (node is.chain.0 (ev x)) = ground arith in
      rw (head_ne, more, c) (is.chain.1, record { chain = is.chain.5; tail_fits = is.tail_fits })
