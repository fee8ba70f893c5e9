-- ===== src/Process/Wait/Choice.antt =====
-- The search of `wait` finds the dead child that it is asked for.
use frostbite.Base.{
  and_left, find_slot-some, find_slot-none, find_slot, eqb_refl, and_right, eqb→eq, Option-cases,
  Bool-cases, ℕ, ◌≤◌, ◌<◌, ◌≡◌, refl, sym, ap, ◌∙◌, ◌≢◌, inl, inr, Bool, true, false, not, ◌&&◌,
  none, some, List, [], ◌∷◌, arith, ◌==◌, if◌then◌else◌, has, ℤ, pos, negsuc, eqb_ℤ,
}
use frostbite.Process.{Kernel, is, unused, killed, proc_table_size}
use frostbite.Process.Invariant.{QueuesFit, on_queue}
use frostbite.Process.Table.{get_process, get_process_self}
use frostbite.Process.Wait.{get_process_of, is_child, choose, stopped_child}
use frostbite.Process.Wait.Zombie.{killed-eq}
use frostbite.Process.Wake.{events}
use frostbite.Process.Wake.Split.{first_evt-some}
use frostbite.Queue.Search.{first_evt}

-- No two processes in use have the same PID, and a dead one waits on its own PID.
pub record Named (k : Kernel) : Type 0 where
  pub distinct :
      (i j : ℕ)
      → (k.table i).state ≢ unused
      → (k.table j).state ≢ unused
      → (k.table i).pid ≡ (k.table j).pid
      → i ≡ j
  pub own_event : (i : ℕ) → (k.table i).state ≡ killed → (k.table i).event ≡ pos (k.table i).pid

-- The argument of `wait` asks for the process with this PID.
abbrev pub AskedFor : ℤ → ℕ → Type 0
AskedFor (pos n) p = n ≡ p
AskedFor (negsuc n) p = Unit {0}

-- The slot of a dead child of the caller that the argument asks for.
pub record DeadChild (pid : ℤ) (k : Kernel) (i : ℕ) : Type 0 where
  pub low : 1 ≤ i
  pub high : i < proc_table_size
  pub dead : (k.table i).state ≡ killed
  pub child : (k.table i).ppid ≡ (k.table k.curr).pid
  pub asked : AskedFor pid (k.table i).pid

first_evt-missed :
    (ev : ℕ → ℤ) (event : ℤ) (xs : List ℕ) (i : ℕ)
    → first_evt ev event xs ≡ none
    → has i xs ≡ true
    → eqb_ℤ (ev i) event ≡ false
unfolding first_evt
first_evt-missed ev event [] i h here = cc
first_evt-missed ev event (x ∷ xs) i h here = elim (Bool-cases (eqb_ℤ (ev x) event)) [
  | inl hit ↦ let found : some x ≡ none = rw (hit) at h in cc
  | inr miss ↦
      let later : first_evt ev event xs ≡ none = rw (miss) at h in
      elim (Bool-cases (i == x)) [
        | inl e ↦ rw (eqb→eq i x e) miss
        | inr ne ↦ first_evt-missed ev event xs i later (rw (ne) at here)
      ]
]

module _ (k : Kernel) (fit : QueuesFit k) (named : Named k) where
  not_unused : (i : ℕ) → (k.table i).state ≡ killed → (k.table i).state ≢ unused
  not_unused i dead e = let never : killed ≡ unused = sym dead ∙ e in cc

  zombie_of : (i : ℕ) → has i k.zombies ≡ true → (k.table i).state ≡ killed
  zombie_of i here =
      killed-eq (k.table i).state
        (and_right (not (i == 0)) _ (sym (fit.fit_zombies.members i) ∙ here))

  on_zombies : (i : ℕ) → 1 ≤ i → (k.table i).state ≡ killed → has i k.zombies ≡ true
  on_zombies i low dead = on_queue fit.fit_zombies i (λ z. absurd (omega (arith, z))) (rw dead refl)

  -- The search of the zombies for the PID of a dead process finds this process.
  pub zombie-found :
      (i : ℕ)
      → 1 ≤ i
      → (k.table i).state ≡ killed
      → first_evt (events k) (pos (k.table i).pid) k.zombies ≡ some i
  zombie-found i low dead =
      let here = on_zombies i low dead in
      elim (Option-cases (first_evt (events k) (pos (k.table i).pid) k.zombies)) [
        | inl e ↦
            let missed : (eqb_ℤ (pos (k.table i).pid) (pos (k.table i).pid)) ≡ false =
              rw (named.own_event i dead) at (first_evt-missed (events k) _ k.zombies i e here) in
            absurd (ground (arith, missed))
        | inr (j, e) ↦
            let hit = first_evt-some _ (events k) k.zombies j e in
            let j_dead = zombie_of j hit.here in
            let same : (k.table j).pid ≡ (k.table i).pid =
              ground (arith, rw (named.own_event j j_dead) at (hit.waits)) in
            e ∙ ap some (named.distinct j i (not_unused j j_dead) (not_unused i dead) same)
      ]

  -- The choice of the PID to look for.
  abbrev pub Chooses : ℤ → Type 0
  Chooses pid = (i : ℕ) × DeadChild pid k i × (choose pid k ≡ (true, pos (k.table i).pid))

  get_process-dead : (n c : ℕ) → DeadChild (pos n) k c → get_process n k ≡ some c
  get_process-dead n c d = rw (d.asked) (
      get_process_self k c (λ j hi used same. named.distinct j c used (not_unused c d.dead) same)
        d.low d.high (not_unused c d.dead))

  pub choose-Chooses : (pid : ℤ) (c : ℕ) → DeadChild pid k c → Chooses pid
  unfolding choose
  choose-Chooses (pos n) c d = (
    c,
    d,
    rw (get_process-dead n c d, choose, d.child, eqb_refl (k.table k.curr).pid, d.asked) refl,
  )
  choose-Chooses (negsuc n) c d =
      elim (Option-cases (find_slot 99 1 (λ i. is_child k i && has i k.zombies))) [
        | inl e ↦
            let missed =
              find_slot-none 99 1 (λ i. is_child k i && has i k.zombies) e c d.low
                (omega (arith, d.high)) in
            absurd (contradiction c d missed)
        | inr (i, e) ↦
            let (low, high, hit, _) =
              find_slot-some 99 1 (λ i. is_child k i && has i k.zombies) i e in
            let here = and_right (is_child k i) _ hit in
            let own =
              and_right (not (is (k.table i).state unused)) _ (and_left (is_child k i) _ hit) in
            (
              i,
              record {
                low = low;
                high = omega (arith, high);
                dead = zombie_of i here;
                child = ground (arith, own);
                asked = tt;
              },
              rw (e, choose) refl,
            )
      ]
    where
      contradiction :
          (c : ℕ) → DeadChild (negsuc n) k c → (is_child k c && has c k.zombies) ≡ false → ⊥
      contradiction c d missed =
          let found : (is_child k c && has c k.zombies) ≡ true =
            rw (d.dead, d.child, eqb_refl (k.table k.curr).pid, on_zombies c d.low d.dead) refl in
          cc

  -- No child has stopped that would be acknowledged first.
  pub no_stopped :
      (pid : ℤ) (c : ℕ) → (k.table k.curr).wpid ≡ pid → DeadChild pid k c → stopped_child k ≡ none
  unfolding stopped_child get_process_of
  no_stopped (pos n) c asks d = rw (stopped_child, asks, get_process-dead n c d, d.dead) (never _ _)
    where
      never : (a b : Bool) → (if a && (b && false) then some c else none) ≡ none
      never true true = refl
      never true false = refl
      never false b = refl
  no_stopped (negsuc n) c asks d = rw (stopped_child, asks) refl
