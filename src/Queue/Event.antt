-- ===== src/Queue/Event.antt =====
-- `remove_evt` of lib/lib.c, by which `wake_up` and `wait` take a process off a list.
use frostbite.Base.{
  sym, none, Option, eqb_refl, ℕ, zero, suc, ◌<◌, ◌≡◌, refl, ◌≢◌, true, false, some, List, [], ◌∷◌,
  arith, has, ℤ, ◌==◌, if◌then◌else◌, length, Bool-cases, inl, inr, eqb_ℤ,
}
use mathlib.Core.Path.{subst}
use frostbite.Queue.{
  load, store_from, remove_evt, start_at, ◌>>=◌, Ptr, null, node, NodeList, Heap, write, evt_loop,
  unlink_evt,
}
use frostbite.Queue.Chain.{
  IsQueue, TailFits, Seg, last, SameOutside, Returns, has-last, mono, bind, frame, not_null,
  load-some,
}
use frostbite.Queue.Search.{first_evt, or_null}

-- `xs` without the first node that waits on `event`.
unfoldable pub erase_evt : (Ptr → ℤ) → ℤ → List Ptr → List Ptr
erase_evt ev event [] = []
erase_evt ev event (x ∷ xs) = if eqb_ℤ (ev x) event then xs else x ∷ erase_evt ev event xs

has-erase_evt_of_not :
    (ev : Ptr → ℤ) (event : ℤ) (a : Ptr) (xs : List Ptr)
    → has a xs ≡ false
    → has a (erase_evt ev event xs) ≡ false
unfolding erase_evt
has-erase_evt_of_not ev event a [] o = refl
has-erase_evt_of_not ev event a (x ∷ xs) o = ground (arith, has-erase_evt_of_not ev event a xs)

-- The search begins at the head: `from` is NULL, or points to NULL.
abbrev pub FromHead : Option Ptr → Type 0
FromHead none = Unit {0}
FromHead (some p) = p ≡ null

start_at-head : (l : NodeList) (from : Option Ptr) → FromHead from → start_at l from ≡ l.head
start_at-head l none e = refl
start_at-head l (some p) e = rw e

store_from-null : (from : Option Ptr) → FromHead from → store_from from null ≡ from
store_from-null none e = refl
store_from-null (some p) e = rw e

module _ (ev : Ptr → ℤ) (event : ℤ) where
  -- What the walk has done once a node behind `w` is taken off, from which the segment goes on.
  record Cut (h : Heap) (l : NodeList) (w : Ptr) (xs : List Ptr) (r : Heap × NodeList × Ptr)
      : Type 0 where
    chain : Seg ev r.0 w (w ∷ erase_evt ev event xs) null
    head_kept : r.1.head ≡ l.head
    tail_last : r.1.tail ≡ last w (erase_evt ev event xs)
    found : r.2 ≡ or_null (first_evt ev event xs)
    detached : (r.2 ≢ null) → r.0 r.2 ≡ some (node null (ev r.2))
    same : SameOutside (w ∷ xs) h r.0

  unlink_evt-Cut :
      (h : Heap) (l : NodeList) (w x q : Ptr) (xs : List Ptr)
      → w ≢ null
      → x ≢ null
      → h w ≡ some (node x (ev w))
      → h x ≡ some (node q (ev x))
      → has w (x ∷ xs) ≡ false
      → has x xs ≡ false
      → (l.head == x) ≡ false
      → Seg ev h q xs null
      → l.tail ≡ last x xs
      → eqb_ℤ (ev x) event ≡ true
      → Returns (λ (g, l'). Cut h l w (x ∷ xs) (g, l', x)) (unlink_evt l x w q h)
  unfolding unlink_evt write erase_evt first_evt
  unlink_evt-Cut h l w x q [] ne nx c d out o hd s t hit =
      let at_tail : (l.tail == x) ≡ true = ground arith in
      let apart : (x == w) ≡ false = ground arith in
      rw (hd, not_null h ne c, c, not_null h nx d, apart, d, at_tail)
        (record {
          chain = rw hit (q, refl, ne, ground arith, refl, s);
          head_kept = refl;
          tail_last = rw hit;
          found = rw hit;
          detached = λ n. ground arith;
          same = λ a out. ground arith;
        })
  unlink_evt-Cut h l w x q (y ∷ ys) ne nx c d out o hd s t hit =
      let inside : (l.tail == x) ≡ false = ground (arith, has-last y ys) in
      let apart : (x == w) ≡ false = ground arith in
      rw (hd, not_null h ne c, c, not_null h nx d, apart, d, inside)
        (record {
          chain = rw hit (
            q,
            refl,
            ne,
            ground arith,
            ground arith,
            frame ev h _ q (y ∷ ys) null s (λ a i. ground arith),
          );
          head_kept = refl;
          tail_last = rw hit t;
          found = rw hit;
          detached = λ n. ground arith;
          same = λ a out. ground arith;
        })

  -- The walk's first step past `x`, which waits on another event.
  Cut-cons :
      (h : Heap) (l : NodeList) (w x : Ptr) (xs : List Ptr)
      → w ≢ null
      → h w ≡ some (node x (ev w))
      → has w (x ∷ xs) ≡ false
      → eqb_ℤ (ev x) event ≡ false
      → (r : Heap × NodeList × Ptr) → Cut h l x xs r
      → Cut h l w (x ∷ xs) r
  unfolding erase_evt first_evt
  Cut-cons h l w x xs ne c out miss r cut = record {
    chain = rw miss (
      x,
      refl,
      ne,
      ground (arith, cut.same w),
      ground (arith, has-erase_evt_of_not ev event w xs),
      cut.chain,
    );
    head_kept = cut.head_kept;
    tail_last = rw miss cut.tail_last;
    found = rw miss cut.found;
    detached = cut.detached;
    same = λ a o. ground (arith, cut.same a);
  }

  evt_loop-Cut :
      (k : ℕ) (h : Heap) (l : NodeList) (w curr : Ptr) (xs : List Ptr)
      → w ≢ null
      → h w ≡ some (node curr (ev w))
      → has w xs ≡ false
      → has l.head xs ≡ false
      → Seg ev h curr xs null
      → l.tail ≡ last w xs
      → length xs < k
      → Returns (Cut h l w xs) (evt_loop k l event curr w h)
  unfolding evt_loop
  evt_loop-Cut zero h l w curr xs ne c out hd s t fuel = absurd (omega arith)
  evt_loop-Cut (suc k) h l w curr [] ne c out hd s t fuel = rw s (record {
    chain = unfold erase_evt in (null, refl, ne, rw (← s) c, refl, refl);
    head_kept = refl;
    tail_last = unfold erase_evt in t;
    found = unfold first_evt in refl;
    detached = λ n. absurd (n refl);
    same = λ a o. refl;
  })
  evt_loop-Cut (suc k) h l w curr (x ∷ xs) ne c out hd (q, e, ne', c', o, s) t fuel =
      let c'' : h w ≡ some (node x (ev w)) = ground arith in
      let past : (l.head == x) ≡ false = ground arith in
      rw (e, not_null h ne' c', load-some h ne' c')
        (elim (Bool-cases (eqb_ℤ (ev x) event)) [
          | inl hit ↦ rw hit (
              bind (Cut h l w (x ∷ xs)) (unlink_evt l x w q h) _
                (unlink_evt-Cut h l w x q xs ne ne' c'' c' out o past s t hit) (λ a cut. cut))
          | inr miss ↦ rw miss (
              mono (evt_loop k l event q x h) (Cut-cons h l w x xs ne c'' out miss)
                (evt_loop-Cut k h l x q xs ne' c' o (ground arith) s t (omega arith)))
        ])

  record Taken (h : Heap) (xs : List Ptr) (r : Heap × NodeList × Ptr) : Type 0 where
    queue : IsQueue ev r.0 r.1 (erase_evt ev event xs)
    found : r.2 ≡ or_null (first_evt ev event xs)
    detached : (r.2 ≢ null) → r.0 r.2 ≡ some (node null (ev r.2))
    same : SameOutside xs h r.0

  unlink_evt-first :
      (h : Heap) (t x q : Ptr) (xs : List Ptr)
      → x ≢ null
      → h x ≡ some (node q (ev x))
      → has x xs ≡ false
      → Seg ev h q xs null
      → t ≡ last x xs
      → eqb_ℤ (ev x) event ≡ true
      → Returns
          (λ (g, l'). Taken h (x ∷ xs) (g, l', x))
          (unlink_evt (record { head = x; tail = t }) x null q h)
  unfolding unlink_evt write erase_evt first_evt
  unlink_evt-first h t x q xs ne c o s tail hit =
      rw (eqb_refl x, not_null h ne c, c)
        (record {
          queue = rw hit (record {
            chain = frame ev h _ q xs null s (λ a i. ground arith);
            tail_fits = rest xs tail;
          });
          found = rw hit;
          detached = λ n. ground arith;
          same = λ a out. ground arith;
        })
    where
      rest : (xs : List Ptr) → t ≡ last x xs → TailFits (record { head = q; tail = t }) xs
      rest [] e = tt
      rest (y ∷ ys) e = e

  evt_loop-cons :
      (k : ℕ) (h : Heap) (t x q : Ptr) (xs : List Ptr)
      → x ≢ null
      → h x ≡ some (node q (ev x))
      → has x xs ≡ false
      → Seg ev h q xs null
      → t ≡ last x xs
      → length xs < k
      → Returns (Taken h (x ∷ xs)) (evt_loop (suc k) (record { head = x; tail = t }) event x null h)
  unfolding evt_loop erase_evt first_evt
  evt_loop-cons k h t x q xs ne c o s tail enough = elim (Bool-cases (eqb_ℤ (ev x) event)) [
    | inl hit ↦
        rw (not_null h ne c, load-some h ne c, hit)
          (bind (Taken h (x ∷ xs)) (unlink_evt (record { head = x; tail = t }) x null q h) _
            (unlink_evt-first h t x q xs ne c o s tail hit) (λ r done. done))
    | inr miss ↦
        rw (not_null h ne c, load-some h ne c, miss)
          (mono (evt_loop k (record { head = x; tail = t }) event q x h)
            (λ r cut. record {
              queue =
                  rw miss
                    (record { chain = rw cut.head_kept cut.chain; tail_fits = cut.tail_last });
              found = rw miss cut.found;
              detached = cut.detached;
              same = cut.same;
            })
            (evt_loop-Cut k h (record { head = x; tail = t }) x q xs ne c o o s tail enough))
  ]

  evt_loop-Taken :
      (fuel : ℕ) (h : Heap) (l : NodeList) (xs : List Ptr)
      → IsQueue ev h l xs
      → length xs < fuel
      → Returns (Taken h xs) (evt_loop fuel l event l.head null h)
  unfolding evt_loop erase_evt first_evt
  evt_loop-Taken zero h l xs is enough = absurd (omega arith)
  evt_loop-Taken (suc k) h l [] is enough =
      let no_head : (l.head == null) ≡ true = ground arith in
      rw no_head (record {
        queue = record { chain = is.chain; tail_fits = tt };
        found = refl;
        detached = λ n. absurd (n refl);
        same = λ a o. refl;
      })
  evt_loop-Taken (suc k) h l (x ∷ xs) is enough =
      let (q, e, ne, c, o, s) = is.chain in
      subst
        (λ a. Returns (Taken h (x ∷ xs)) (evt_loop (suc k) (record l { head = a }) event a null h))
        (sym e) (evt_loop-cons k h l.tail x q xs ne c o s is.tail_fits (omega arith))

  abbrev pub Evicted : Heap → List Ptr → Option Ptr → Heap × NodeList × Ptr × Option Ptr → Type 0
  Evicted h xs from (g, l, r, from') =
      IsQueue ev g l (erase_evt ev event xs)
      × (r ≡ or_null (first_evt ev event xs))
      × SameOutside xs h g
      × (from' ≡ from)

  finish :
      (h : Heap) (xs : List Ptr) (from : Option Ptr) (g : Heap) (l : NodeList) (p : Ptr)
      → FromHead from
      → Taken h xs (g, l, p)
      → Returns (Evicted h xs from) (
          (if p == null then some null else (do n ← load p g; some n.next)) >>= λ q.
          some (g, l, p, store_from from q))
  unfolding load
  finish h xs from g l p start done = elim (Bool-cases (p == null)) [
    | inl none_found ↦ rw none_found (done.queue, done.found, done.same, store_from-null from start)
    | inr found ↦
        let next : g p ≡ some (node null (ev p)) = done.detached (ground arith) in
        rw (found, next) (done.queue, done.found, done.same, store_from-null from start)
  ]

  -- `remove_evt` from the head ends without a fault. It takes off the first node that waits on the
  -- event and returns it, or returns NULL if there is none, and leaves `*from` at NULL, so that
  -- the next call searches from the head again.
  pub remove_evt-erase_evt :
      (fuel : ℕ) (h : Heap) (l : NodeList) (from : Option Ptr) (xs : List Ptr)
      → IsQueue ev h l xs
      → FromHead from
      → length xs < fuel
      → Returns (Evicted h xs from) (remove_evt fuel l from event h)
  unfolding remove_evt
  remove_evt-erase_evt fuel h l from xs is start enough = rw (start_at-head l from start) (
      bind (Evicted h xs from) (evt_loop fuel l event l.head null h) _
        (evt_loop-Taken fuel h l xs is enough)
        (λ (g, l', p) done. finish h xs from g l' p start done))
