-- ===== src/Process/Invariant.antt =====
-- The agreement of the scheduler's queues with the states of the processes.
use frostbite.Process.{Process, set_proc, Kernel, State, is, ready, sleeping, stopped, killed}
use frostbite.Base.{
  ℕ, ◌≡◌, refl, sym, ◌∙◌, ◌≢◌, inl, inr, Bool, true, false, not, ◌&&◌, List, [], ◌∷◌, ◌++◌, arith,
  ◌==◌, if◌then◌else◌, has, eqb→eq, has-erase_self, Bool-cases, IsNodup, has-append, has-erase_ne,
  erase-IsNodup, append-IsNodup, erase,
}

-- The queue holds the slots of the processes in state `st`, each once, but never the idle process.
pub record OnQueue (st : State) (s : ℕ → State) (q : List ℕ) : Type 0 where
  pub members : (j : ℕ) → has j q ≡ (not (j == 0) && is (s j) st)
  pub nodup : IsNodup q

abbrev pub states : Kernel → ℕ → State
states k i = (k.table i).state

-- A process waits on a queue exactly if its state says so: no process is lost, and none is on two
-- queues, or twice on one.
pub record QueuesFit (k : Kernel) : Type 0 where
  pub fit_ready : OnQueue ready (states k) k.ready_que
  pub fit_wait : OnQueue sleeping (states k) k.wait_list
  pub fit_suspended : OnQueue stopped (states k) k.suspended
  pub fit_zombies : OnQueue killed (states k) k.zombies

-- The states after the process in slot `i` went to state `t`.
abbrev pub change : ℕ → State → (ℕ → State) → ℕ → State
change i t s j = if j == i then t else s j

pub and-false : (b : Bool) → (b && false) ≡ false
and-false true = refl
and-false false = refl

module _ {st : State} {s : ℕ → State} {q : List ℕ} (on : OnQueue st s q) where
  pub ext : (s' : ℕ → State) → ((j : ℕ) → s' j ≡ s j) → OnQueue st s' q
  ext s' same = record { members = λ j. rw (same j) (on.members j); nodup = on.nodup }

  pub not_on : (i : ℕ) → is (s i) st ≡ false → has i q ≡ false
  not_on i other = on.members i ∙ rw other (ground arith)

  pub on_queue : (i : ℕ) → i ≢ 0 → is (s i) st ≡ true → has i q ≡ true
  on_queue i ne here = on.members i ∙ rw here (ground arith)

  pub enter : (i : ℕ) → i ≢ 0 → is (s i) st ≡ false → OnQueue st (change i st s) (q ++ (i ∷ []))
  enter i ne other = record {
    members = λ j. ground (arith, has-append j q (i ∷ []), on.members j);
    nodup = append-IsNodup i q on.nodup (not_on i other);
  }

  pub leave : (i : ℕ) (t : State) → is t st ≡ false → OnQueue st (change i t s) (erase i q)
  leave i t other = record {
    members = λ j. elim (Bool-cases (j == i)) [
      | inl e ↦ rw (e, eqb→eq j i e, has-erase_self i q on.nodup, other) (sym (and-false _))
      | inr ne ↦ rw (ne, has-erase_ne j i q ne) (on.members j)
    ];
    nodup = erase-IsNodup i q on.nodup;
  }

  pub stay :
      (i : ℕ) (t : State) → is (s i) st ≡ false → is t st ≡ false → OnQueue st (change i t s) q
  stay i t was will = record {
    members = λ j. elim (Bool-cases (j == i)) [
      | inl e ↦ rw (e, eqb→eq j i e, not_on i was, will) (sym (and-false _))
      | inr ne ↦ rw ne (on.members j)
    ];
    nodup = on.nodup;
  }

pub states-set_proc :
    (i : ℕ) (p : Process) (k : Kernel) (j : ℕ)
    → states (set_proc i p k) j ≡ change i p.state (states k) j
unfolding set_proc
states-set_proc i p k j = ground arith

-- A change of a process that leaves its state alone.
pub same_state :
    (i : ℕ) (p : Process) (k : Kernel)
    → p.state ≡ (k.table i).state
    → (j : ℕ) → states (set_proc i p k) j ≡ states k j
same_state i p k e j =
    states-set_proc i p k j
    ∙ (elim (Bool-cases (j == i)) [ inl hit ↦ rw (hit, eqb→eq j i hit) e | inr miss ↦ rw miss ])

-- The invariant reads only the states and the four queues.
pub QueuesFit-states :
    {k : Kernel} (k' : Kernel)
    → QueuesFit k
    → ((j : ℕ) → states k' j ≡ states k j)
    → k'.ready_que ≡ k.ready_que
    → k'.wait_list ≡ k.wait_list
    → k'.suspended ≡ k.suspended
    → k'.zombies ≡ k.zombies
    → QueuesFit k'
QueuesFit-states k' fit same r w s z = record {
  fit_ready = rw r (ext fit.fit_ready (states k') same);
  fit_wait = rw w (ext fit.fit_wait (states k') same);
  fit_suspended = rw s (ext fit.fit_suspended (states k') same);
  fit_zombies = rw z (ext fit.fit_zombies (states k') same);
}

pub set_proc-QueuesFit :
    {k : Kernel} (i : ℕ) (p : Process)
    → QueuesFit k
    → p.state ≡ (k.table i).state
    → QueuesFit (set_proc i p k)
set_proc-QueuesFit {k} i p fit e =
    QueuesFit-states (set_proc i p k) fit (same_state i p k e) (unfold set_proc in refl)
      (unfold set_proc in refl) (unfold set_proc in refl) (unfold set_proc in refl)
