-- ===== src/Process/Wake/Split.antt =====
-- `wake_up` splits the wait list: the processes that wait on the event go to the ready queue.
use mathlib.Core.List.{append_assoc, append-nil}
use frostbite.Base.{
  ℕ, zero, suc, ◌≤◌, ◌≡◌, refl, sym, ap, ◌∙◌, ◌≢◌, inl, inr, true, false, not, ◌&&◌, none, some,
  List, [], ◌∷◌, ◌++◌, arith, ◌==◌, if◌then◌else◌, has, length, ℤ, eqb_ℤ, has-erase_self,
  Option-cases, and_right, and_left, eqb→eq, eqb_refl, erase, Bool-cases,
}
use frostbite.Process.Kill.Post.{sleeping-eq, wake-QueuesFit}
use mathlib.Core.Path.{subst}
use frostbite.Queue.Search.{first_evt}
use frostbite.Queue.Event.{erase_evt}
use frostbite.Process.{Process, Kernel, is, ready, sleeping, no_event, set_proc}
use frostbite.Process.Invariant.{QueuesFit, not_on}
use frostbite.Process.Wake.{events, make_ready, wake_loop, wake_up}

-- Of a list of slots, those that wait on the event, and the others.
unfoldable pub waiting : (ℕ → ℤ) → ℤ → List ℕ → List ℕ
waiting ev event [] = []
waiting ev event (x ∷ xs) =
    if eqb_ℤ (ev x) event then x ∷ waiting ev event xs else waiting ev event xs

unfoldable pub others : (ℕ → ℤ) → ℤ → List ℕ → List ℕ
others ev event [] = []
others ev event (x ∷ xs) = if eqb_ℤ (ev x) event then others ev event xs else x ∷ others ev event xs

module _ (event : ℤ) where
  waiting-agree :
      (f g : ℕ → ℤ) (xs : List ℕ)
      → ((j : ℕ) → has j xs ≡ true → f j ≡ g j)
      → (waiting f event xs ≡ waiting g event xs) × (others f event xs ≡ others g event xs)
  unfolding waiting others
  waiting-agree f g [] same = (refl, refl)
  waiting-agree f g (x ∷ xs) same =
      let e : f x ≡ g x = same x (ground arith) in
      let (a, b) = waiting-agree f g xs (λ j i. same j (ground arith)) in rw (e, a, b) (refl, refl)

  pub has-waiting :
      (ev : ℕ → ℤ) (j : ℕ) (xs : List ℕ) → has j xs ≡ false → has j (waiting ev event xs) ≡ false
  unfolding waiting
  has-waiting ev j [] out = refl
  has-waiting ev j (x ∷ xs) out = ground (arith, has-waiting ev j xs)

  -- What the first hit says of the list.
  pub record First (ev : ℕ → ℤ) (xs : List ℕ) (i : ℕ) : Type 0 where
    pub here : has i xs ≡ true
    pub rest : erase_evt ev event xs ≡ erase i xs
    pub first : waiting ev event xs ≡ i ∷ waiting ev event (erase i xs)
    pub kept : others ev event xs ≡ others ev event (erase i xs)
    pub shorter : length xs ≡ suc (length (erase i xs))
    pub waits : eqb_ℤ (ev i) event ≡ true

  apart :
      (ev : ℕ → ℤ) (i x : ℕ)
      → eqb_ℤ (ev i) event ≡ true
      → eqb_ℤ (ev x) event ≡ false
      → (i == x) ≡ false
  apart ev i x yes_i no_x = elim (Bool-cases (i == x)) [
    | inl e ↦ (let d : eqb_ℤ (ev x) event ≡ true = rw (← eqb→eq i x e) yes_i in cc)
    | inr ne ↦ ne
  ]

  pub first_evt-some :
      (ev : ℕ → ℤ) (xs : List ℕ) (i : ℕ) → first_evt ev event xs ≡ some i → First ev xs i
  unfolding first_evt erase_evt waiting others
  first_evt-some ev [] i h = cc
  first_evt-some ev (x ∷ xs) i h = elim (Bool-cases (eqb_ℤ (ev x) event)) [
    | inl hit ↦
        let h' : some x ≡ some i = rw hit at h in
        let e : x ≡ i = ground (arith, h') in
        subst (First ev (x ∷ xs)) e (record {
          here = rw (eqb_refl x);
          rest = rw (hit, eqb_refl x);
          first = rw (hit, eqb_refl x);
          kept = rw (hit, eqb_refl x);
          shorter = rw (eqb_refl x);
          waits = hit;
        })
    | inr miss ↦
        let h' : first_evt ev event xs ≡ some i = rw miss at h in
        let ih = first_evt-some ev xs i h' in
        let ne = apart ev i x ih.waits miss in
        record {
          here = rw (ne, ih.here);
          rest = rw (miss, ne, ih.rest);
          first = rw (miss, ne, miss) ih.first;
          kept = rw (miss, ne, miss) (ap (λ t. x ∷ t) ih.kept);
          shorter = rw ne (ap suc ih.shorter);
          waits = ih.waits;
        }
  ]

  first_evt-none :
      (ev : ℕ → ℤ) (xs : List ℕ)
      → first_evt ev event xs ≡ none
      → (waiting ev event xs ≡ []) × (others ev event xs ≡ xs)
  unfolding first_evt waiting others
  first_evt-none ev [] h = (refl, refl)
  first_evt-none ev (x ∷ xs) h = ground (arith, first_evt-none ev xs)

ne_of_not : (i : ℕ) → not (i == 0) ≡ true → i ≢ 0
ne_of_not i h = ground arith

-- The process in a slot after `wake_up` took it.
abbrev pub woken : Process → Process
woken p = record p { event = no_event; state = ready }

abbrev taken : ℕ → Kernel → Kernel
taken i k = record (set_proc i (woken (k.table i)) k) {
  wait_list = erase i k.wait_list;
  ready_que = k.ready_que ++ (i ∷ []);
}

module _ (event : ℤ) where
  -- What `wake_up` makes of a state.
  pub record Woken (k k' : Kernel) : Type 0 where
    pub fit : QueuesFit k'
    pub wait_list : k'.wait_list ≡ others (events k) event k.wait_list
    pub ready_que : k'.ready_que ≡ k.ready_que ++ waiting (events k) event k.wait_list
    pub table :
        (j : ℕ)
        → k'.table j
          ≡ (if has j (waiting (events k) event k.wait_list) then woken (k.table j) else k.table j)
    pub suspended : k'.suspended ≡ k.suspended
    pub zombies : k'.zombies ≡ k.zombies
    pub curr : k'.curr ≡ k.curr
    pub fg : k'.fg ≡ k.fg

  module _ (k : Kernel) (i : ℕ) (fit : QueuesFit k)
      (hit : First event (events k) k.wait_list i) where
    asleep : (not (i == 0) && is (k.table i).state sleeping) ≡ true
    asleep = sym (fit.fit_wait.members i) ∙ hit.here

    is_asleep : (k.table i).state ≡ sleeping
    is_asleep = sleeping-eq _ (and_right _ _ asleep)

    nonzero : i ≢ 0
    nonzero = ne_of_not i (and_left (not (i == 0)) (is (k.table i).state sleeping) asleep)

    make_ready-taken :
        make_ready i (record k { wait_list = erase_evt (events k) event k.wait_list }) ≡ taken i k
    unfolding make_ready set_proc
    make_ready-taken =
        let out : has i k.ready_que ≡ false = not_on fit.fit_ready i (rw is_asleep refl) in
        rw (out, hit.rest)

    taken-QueuesFit : QueuesFit (taken i k)
    taken-QueuesFit = wake-QueuesFit i _ fit nonzero is_asleep refl

    Woken-taken : (k' : Kernel) → Woken (taken i k) k' → Woken k k'
    unfolding set_proc
    Woken-taken k' w = record {
      fit = w.fit;
      wait_list = w.wait_list ∙ agree.1 ∙ sym hit.kept;
      ready_que =
          w.ready_que
          ∙ ap (λ t. (k.ready_que ++ (i ∷ [])) ++ t) agree.0
          ∙ append_assoc k.ready_que (i ∷ []) _
          ∙ ap (λ t. k.ready_que ++ t) (sym hit.first);
      table = λ j. w.table j ∙ table_at j;
      suspended = w.suspended;
      zombies = w.zombies;
      curr = w.curr;
      fg = w.fg;
    }
      where
        out : has i (erase i k.wait_list) ≡ false
        out = has-erase_self i k.wait_list fit.fit_wait.nodup

        left_alone :
            (j : ℕ) → has j (erase i k.wait_list) ≡ true → events (taken i k) j ≡ events k j
        left_alone j here = elim (Bool-cases (j == i)) [
          | inl e ↦ (let d = rw (eqb→eq j i e) at here in cc out)
          | inr ne ↦ rw (events, ne)
        ]

        agree :
            (waiting (events (taken i k)) event (erase i k.wait_list)
              ≡ waiting (events k) event (erase i k.wait_list))
            × (others (events (taken i k)) event (erase i k.wait_list)
                ≡ others (events k) event (erase i k.wait_list))
        agree = waiting-agree event (events (taken i k)) (events k) (erase i k.wait_list) left_alone

        table_at :
            (j : ℕ)
            → (if has j (waiting (events (taken i k)) event (erase i k.wait_list))
                then woken ((taken i k).table j)
                else (taken i k).table j)
              ≡ (if has j (waiting (events k) event k.wait_list)
                  then woken (k.table j)
                  else k.table j)
        table_at j = elim (Bool-cases (j == i)) [
          | inl e ↦ rw (agree.0, hit.first, e, eqb→eq j i e, has-waiting event (events k) i _ out)
          | inr ne ↦ rw (agree.0, hit.first, ne)
        ]

  first_evt-nil :
      (ev : ℕ → ℤ) (xs : List ℕ)
      → length xs ≤ 0
      → (waiting ev event xs ≡ []) × (others ev event xs ≡ xs)
  unfolding waiting others
  first_evt-nil ev [] short = (refl, refl)
  first_evt-nil ev (x ∷ xs) short = absurd (omega arith)

  Woken-self :
      (k : Kernel)
      → QueuesFit k
      → (waiting (events k) event k.wait_list ≡ [])
        × (others (events k) event k.wait_list ≡ k.wait_list)
      → Woken k k
  Woken-self k fit (nobody, all) = record {
    fit = fit;
    wait_list = sym all;
    ready_que = rw (nobody, append-nil);
    table = λ j. rw nobody;
    suspended = refl;
    zombies = refl;
    curr = refl;
    fg = refl;
  }

  wake_loop-Woken :
      (n : ℕ) (k : Kernel) → QueuesFit k → length k.wait_list ≤ n → Woken k (wake_loop n event k)
  unfolding wake_loop
  wake_loop-Woken zero k fit enough = Woken-self k fit (first_evt-nil (events k) k.wait_list enough)
  wake_loop-Woken (suc n) k fit enough =
      elim (Option-cases (first_evt (events k) event k.wait_list)) [
        | inl none_left ↦
            rw (none_left, wake_loop)
              (Woken-self k fit (first_evt-none event (events k) k.wait_list none_left))
        | inr (i, found) ↦
            let hit = first_evt-some event (events k) k.wait_list i found in
            rw (found, wake_loop, make_ready-taken k i fit hit)
              (Woken-taken k i fit hit _ (
                wake_loop-Woken n (taken i k) (taken-QueuesFit k i fit hit)
                  (omega (arith, hit.shorter))))
      ]

-- When the queues fit, `wake_up` takes exactly the processes that wait on the event off the wait
-- list, puts them behind the ready queue in the order in which they waited, marks them READY with
-- no event, and changes no other process or queue, nor the current or the foreground process; the
-- queues fit afterwards.
pub wake_up-Woken : (event : ℤ) (k : Kernel) → QueuesFit k → Woken event k (wake_up event k)
unfolding wake_up
wake_up-Woken event k fit = wake_loop-Woken event (length k.wait_list) k fit (omega arith)
