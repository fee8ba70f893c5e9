-- ===== src/Process/Schedule/Pick.antt =====
-- Which process `schedule` and `trigger_scheduler` let run.
use frostbite.Base.{
  ℕ, suc, ◌≡◌, refl, sym, ap, ◌∙◌, ◌≢◌, inl, inr, true, false, not, ◌&&◌, ◌||◌, none, some, List,
  [], ◌∷◌, ◌++◌, arith, ◌==◌, has, eqb→eq, eqb_of_ne, Bool-cases, and_right, erase, eqb_refl,
}
use frostbite.Process.Invariant.{
  OnQueue, QueuesFit, states, change, ext, enter, leave, stay, states-set_proc,
}
use mathlib.Core.Path.{subst}
use frostbite.Process.{Kernel, State, is, ready, running, set_proc, sigterm}
use frostbite.Process.Signal.{any_pending, check_pending_signals}
use frostbite.Process.Schedule.{
  go_idle, is_empty, check_suspended, pick, dispatch, run_next, schedule, trigger_scheduler,
}

-- No signal is pending for the process in a slot.
abbrev pub Quiet : Kernel → ℕ → Type 0
Quiet k i = any_pending 32 (k.table i).signals ≡ false

-- What a switch to the process in slot `i` leaves: it is current and RUNNING, and the queues fit.
pub record Runs (i : ℕ) (rest : List ℕ) (k k' : Kernel) : Type 0 where
  pub curr : k'.curr ≡ i
  pub state : (k'.table i).state ≡ running
  pub others : (j : ℕ) → (j == i) ≡ false → k'.table j ≡ k.table j
  pub ready_que : k'.ready_que ≡ rest
  pub wait_list : k'.wait_list ≡ k.wait_list
  pub fit : QueuesFit k'

pub check_pending_signals-Quiet : (k : Kernel) (i : ℕ) → Quiet k i → check_pending_signals i k ≡ k
unfolding check_pending_signals
check_pending_signals-Quiet k i quiet = rw quiet

check_suspended-Quiet :
    (js : List ℕ) (k : Kernel) → ((j : ℕ) → has j js ≡ true → Quiet k j) → check_suspended js k ≡ k
unfolding check_suspended
check_suspended-Quiet [] k quiet = refl
check_suspended-Quiet (j ∷ js) k quiet =
    rw (check_pending_signals-Quiet k j (quiet j (rw (eqb_refl j))))
      (check_suspended-Quiet js k (λ x here. quiet x (ground (arith, here))))

ready-eq : (s : State) → is s ready ≡ true → s ≡ ready
ready-eq s h = ground arith

-- The head of the ready queue runs: it is popped, and the queues fit again.
dispatch-Runs :
    (k : Kernel) (i : ℕ) (rest : List ℕ)
    → QueuesFit k
    → k.ready_que ≡ i ∷ rest
    → Runs i rest k (dispatch i (record k { ready_que = rest }))
unfolding dispatch set_proc
dispatch-Runs k i rest fit here = record {
  curr = refl;
  state = rw (eqb_refl i);
  others = λ j ne. rw ne;
  ready_que = refl;
  wait_list = refl;
  fit = record {
    fit_ready =
        ext
          (subst (λ q. OnQueue ready (change i running (states k)) q) popped
            (leave fit.fit_ready i running refl))
          _ moved;
    fit_wait = ext (stay fit.fit_wait i running (rw is_ready refl) refl) _ moved;
    fit_suspended = ext (stay fit.fit_suspended i running (rw is_ready refl) refl) _ moved;
    fit_zombies = ext (stay fit.fit_zombies i running (rw is_ready refl) refl) _ moved;
  };
}
  where
    popped : erase i k.ready_que ≡ rest
    popped = rw (here, eqb_refl i)

    listed : (not (i == 0) && is (k.table i).state ready) ≡ true
    listed = sym (fit.fit_ready.members i) ∙ rw (here, eqb_refl i)

    is_ready : (k.table i).state ≡ ready
    is_ready = ready-eq (k.table i).state (and_right (not (i == 0)) _ listed)

    moved :
        (j : ℕ)
        → states (set_proc i (record (k.table i) { state = running }) k) j
          ≡ change i running (states k) j
    moved j = states-set_proc i _ k j

pick-head :
    (n : ℕ) (k : Kernel) (i : ℕ) (rest : List ℕ)
    → k.ready_que ≡ i ∷ rest
    → Quiet k i
    → pick (suc n) k ≡ (record k { ready_que = rest }, some (some i))
unfolding pick
pick-head n k i rest here quiet =
    let same = check_pending_signals-Quiet k i quiet in
    rw (here, pick, same, here, pick, eqb_refl i, same)

-- A list of slots whose processes have no signal pending.
abbrev pub AllQuiet : Kernel → List ℕ → Type 0
AllQuiet k js = (j : ℕ) → has j js ≡ true → Quiet k j

-- When the queues fit, and no signal is pending for a stopped job or for the head of the ready
-- queue, `schedule` returns: the head is popped and runs, no other process changes, and the queues fit.
pub schedule-Runs :
    (n : ℕ) (k : Kernel) (i : ℕ) (rest : List ℕ)
    → QueuesFit k
    → k.ready_que ≡ i ∷ rest
    → AllQuiet k (i ∷ k.suspended)
    → (k' : Kernel) × (schedule (suc n) k ≡ some k') × Runs i rest k k'
unfolding schedule run_next
schedule-Runs n k i rest fit here quiet =
    (dispatch i (record k { ready_que = rest }), found, dispatch-Runs k i rest fit here)
  where
    found : schedule (suc n) k ≡ some (dispatch i (record k { ready_que = rest }))
    found =
        ap (λ (k1 : Kernel). run_next (pick (suc n) k1))
          (check_suspended-Quiet k.suspended k (λ x listed. quiet x (ground (arith, listed))))
        ∙ ap run_next (pick-head n k i rest here (quiet i (rw (eqb_refl i))))

-- The state in which a preempted process waits for its next turn.
abbrev pub preempted : Kernel → Kernel
preempted k = record (set_proc k.curr (record (k.table k.curr) { state = ready }) k) {
  ready_que = k.ready_que ++ (k.curr ∷ []);
}

preempted-QueuesFit :
    (k : Kernel)
    → QueuesFit k
    → k.curr ≢ 0
    → (k.table k.curr).state ≡ running
    → QueuesFit (preempted k)
unfolding set_proc
preempted-QueuesFit k fit ne e = record {
  fit_ready = ext (enter fit.fit_ready k.curr ne (rw e refl)) _ moved;
  fit_wait = ext (stay fit.fit_wait k.curr ready (rw e refl) refl) _ moved;
  fit_suspended = ext (stay fit.fit_suspended k.curr ready (rw e refl) refl) _ moved;
  fit_zombies = ext (stay fit.fit_zombies k.curr ready (rw e refl) refl) _ moved;
}
  where
    moved :
        (j : ℕ)
        → states (set_proc k.curr (record (k.table k.curr) { state = ready }) k) j
          ≡ change k.curr ready (states k) j
    moved j = states-set_proc k.curr _ k j

preempted-Quiet : (k : Kernel) (j : ℕ) → Quiet k j → Quiet (preempted k) j
unfolding set_proc
preempted-Quiet k j quiet = elim (Bool-cases (j == k.curr)) [
  | inl e ↦ (let d = rw (eqb→eq j k.curr e) at quiet in rw e d)
  | inr ne ↦ rw ne quiet
]

trigger_scheduler-preempted :
    (fuel : ℕ) (k : Kernel)
    → (k.table k.curr).pid ≢ 0
    → is_empty k.ready_que ≡ false
    → trigger_scheduler fuel k ≡ schedule fuel (preempted k)
unfolding trigger_scheduler set_proc
trigger_scheduler-preempted fuel k user some_ready =
    rw (eqb_of_ne (k.table k.curr).pid 0 user, some_ready)

-- When the queues fit: on a timer tick with the process in slot `i` at the head of the ready queue
-- and no signal pending for it or for a stopped job, the current process, RUNNING and not the idle
-- one, goes READY behind all others and `i` runs; the queues fit again.
pub trigger_scheduler-Runs :
    (n : ℕ) (k : Kernel) (i : ℕ) (rest : List ℕ)
    → QueuesFit k
    → k.curr ≢ 0
    → (k.table k.curr).pid ≢ 0
    → (k.table k.curr).state ≡ running
    → k.ready_que ≡ i ∷ rest
    → AllQuiet k (i ∷ k.suspended)
    → (k' : Kernel) × (trigger_scheduler (suc n) k ≡ some k')
      × Runs i (rest ++ (k.curr ∷ [])) (preempted k) k'
unfolding set_proc
trigger_scheduler-Runs n k i rest fit ne user busy here quiet =
    let fit' = preempted-QueuesFit k fit ne busy in
    let still : AllQuiet (preempted k) (i ∷ k.suspended) =
      λ j listed. preempted-Quiet k j (quiet j listed) in
    let queue : (preempted k).ready_que ≡ i ∷ (rest ++ (k.curr ∷ [])) = rw here refl in
    let (k', e, runs) = schedule-Runs n (preempted k) i (rest ++ (k.curr ∷ [])) fit' queue still in
    (k', trigger_scheduler-preempted (suc n) k user (rw here refl) ∙ e, runs)

go_idle-shutdown :
    (k : Kernel)
    → (go_idle k).shutdown ≡ (k.shutdown || (is_empty k.wait_list && (k.table 0).signals sigterm))
unfolding go_idle dispatch set_proc
go_idle-shutdown k = ground arith

pick-none : (n : ℕ) (k : Kernel) → k.ready_que ≡ [] → pick (suc n) k ≡ (k, some none)
unfolding pick
pick-none n k here =
    subst (λ q. pick (suc n) (record k { ready_que = q }) ≡ (record k { ready_que = q }, some none))
      (sym here) refl

-- With no process ready and no signal pending for a stopped job the idle process runs, and the
-- system shuts down exactly if it did already, or if no process waits either and the idle process
-- was told to terminate.
pub schedule-idle :
    (n : ℕ) (k : Kernel)
    → k.ready_que ≡ []
    → AllQuiet k k.suspended
    → (k' : Kernel) × (schedule (suc n) k ≡ some k')
      × (k'.curr ≡ 0)
      × (k'.shutdown ≡ (k.shutdown || (is_empty k.wait_list && (k.table 0).signals sigterm)))
unfolding schedule run_next
schedule-idle n k here quiet =
    (go_idle k, found, unfold go_idle dispatch in refl, go_idle-shutdown k)
  where
    found : schedule (suc n) k ≡ some (go_idle k)
    found =
        ap (λ (k1 : Kernel). run_next (pick (suc n) k1)) (check_suspended-Quiet k.suspended k quiet)
        ∙ ap run_next (pick-none n k here)
