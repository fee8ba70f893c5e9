-- ===== src/Process/Fork/Queues.antt =====
-- The queues after fork.
use frostbite.Process.Fork.{
  fork, alloc_new_process, twin, fork_child, name_child, yield_to_child, named, put_uvm,
  start_child, copy_parent,
}
use frostbite.Base.{
  ℕ, ◌≡◌, refl, ap, ◌∙◌, ◌≢◌, inl, inr, false, ◌||◌, Option, none, some, arith, ◌==◌, if◌then◌else◌,
  eqb_refl, Bool-cases, Option-cases,
}
use frostbite.Process.Load.{new_process, Uvm}
use frostbite.Process.{unused, Kernel, State, set_proc, is, init, ready, sleeping, stopped, killed}
use frostbite.Process.Load.Slot.{Allocated, alloc_new_process-Allocated}
use frostbite.Process.Invariant.{
  QueuesFit, states, change, states-set_proc, QueuesFit-states, set_proc-QueuesFit, enter, stay,
  ext,
}
use frostbite.Process.Signal.{init_handlers}
use frostbite.Fat.{Image}

-- A process goes from a state that no queue holds to another one.
idle_state-QueuesFit :
    {k : Kernel} (k' : Kernel) (i : ℕ) (s t : State)
    → QueuesFit k
    → (k.table i).state ≡ s
    → (is s ready || is s sleeping || is s stopped || is s killed) ≡ false
    → (is t ready || is t sleeping || is t stopped || is t killed) ≡ false
    → ((j : ℕ) → states k' j ≡ change i t (states k) j)
    → k'.ready_que ≡ k.ready_que
    → k'.wait_list ≡ k.wait_list
    → k'.suspended ≡ k.suspended
    → k'.zombies ≡ k.zombies
    → QueuesFit k'
idle_state-QueuesFit {k} k' i s t fit here was will same r w su z = record {
  fit_ready =
      rw r (ext (stay fit.fit_ready i t (rw here (ground arith)) (ground arith)) (states k') same);
  fit_wait =
      rw w (ext (stay fit.fit_wait i t (rw here (ground arith)) (ground arith)) (states k') same);
  fit_suspended =
      rw su
        (ext (stay fit.fit_suspended i t (rw here (ground arith)) (ground arith)) (states k') same);
  fit_zombies =
      rw z
        (ext (stay fit.fit_zombies i t (rw here (ground arith)) (ground arith)) (states k') same);
}

module _ (i : ℕ) (k : Kernel) where
  start_child-states : (j : ℕ) → states (start_child i k).1 j ≡ change i ready (states k) j
  unfolding start_child init_handlers set_proc
  start_child-states j = states-set_proc i (twin (k.table k.curr) (k.table i)) k j

  start_child-QueuesFit :
      i ≢ 0 → (k.table i).state ≡ init → QueuesFit k → QueuesFit (start_child i k).1
  unfolding start_child set_proc
  start_child-QueuesFit ne here fit = record {
    fit_ready = ext (enter fit.fit_ready i ne (rw here refl)) _ start_child-states;
    fit_wait = ext (stay fit.fit_wait i ready (rw here refl) refl) _ start_child-states;
    fit_suspended = ext (stay fit.fit_suspended i ready (rw here refl) refl) _ start_child-states;
    fit_zombies = ext (stay fit.fit_zombies i ready (rw here refl) refl) _ start_child-states;
  }

-- Giving up the foreground changes nothing else.
pub yield_to_child-fg : (k : Kernel) → (f : Option ℕ) × (yield_to_child k ≡ record k { fg = f })
unfolding yield_to_child
yield_to_child-fg k = elim (Option-cases k.fg) [
  | inl e ↦ (none, rw e refl)
  | inr (f, e) ↦ elim (Bool-cases ((k.table k.curr).pid == (k.table f).pid)) [
    | inl same ↦ (none, rw (e, same) refl)
    | inr other ↦ (some f, rw (e, other) refl)
  ]
]

name_child-QueuesFit : (i : ℕ) (k : Kernel) → QueuesFit k → QueuesFit (name_child i k)
unfolding name_child
name_child-QueuesFit i k fit =
    let k1 = set_proc i (named (k.table k.curr) (k.table i)) k in
    let (f, e) = yield_to_child-fg k1 in
    let fit1 = set_proc-QueuesFit i (named (k.table k.curr) (k.table i)) fit refl in
    rw e (QueuesFit-states (record k1 { fg = f }) fit1 (λ j. refl) refl refl refl refl)

put_uvm-QueuesFit : (i : ℕ) (u : Uvm) (k : Kernel) → QueuesFit k → QueuesFit (put_uvm i u k)
unfolding put_uvm
put_uvm-QueuesFit i u k fit =
    let p = record (k.table i) { fd_table = u.fds; env = u.env } in
    QueuesFit-states (put_uvm i u k) (set_proc-QueuesFit i p fit refl) (λ j. refl) refl refl refl
      refl

-- The child in slot `i` before it is started.
child_before : Image → ℕ → Kernel → Kernel
child_before img i k = put_uvm i (copy_parent img i (name_child i k)) (name_child i k)

pub name_child-table :
    (i : ℕ) (k : Kernel) (j : ℕ)
    → (name_child i k).table j ≡ (if j == i then named (k.table k.curr) (k.table i) else k.table j)
unfolding name_child set_proc
name_child-table i k j =
    let k1 = set_proc i (named (k.table k.curr) (k.table i)) k in
    let (f, e) = yield_to_child-fg k1 in rw e refl

fork_child-QueuesFit :
    (img : Image) (i : ℕ) (k : Kernel)
    → i ≢ 0
    → (k.table i).state ≡ init
    → QueuesFit k
    → QueuesFit (fork_child img i k).1
unfolding fork_child put_uvm set_proc
fork_child-QueuesFit img i k ne here fit =
    let u = copy_parent img i (name_child i k) in
    let k2 = put_uvm i u (name_child i k) in
    let fit2 = put_uvm-QueuesFit i u (name_child i k) (name_child-QueuesFit i k fit) in
    let still : (k2.table i).state ≡ init =
      rw (eqb_refl i, name_child-table i k i, eqb_refl i) here in
    elim (Bool-cases u.ok) [
      | inl copied ↦ rw copied (start_child-QueuesFit i k2 ne still fit2)
      | inr failed ↦ rw failed fit2
    ]

-- With the new process in it the queues fit, since no queue holds free or new processes.
place_new-QueuesFit :
    {k : Kernel} {i : ℕ} {k1 : Kernel} → Allocated k i k1 → QueuesFit k → QueuesFit k1
place_new-QueuesFit {k} {i} {k1} a fit =
    let (page_map, env, e) = a.fresh in
    let moved : (j : ℕ) → states k1 j ≡ change i init (states k) j =
      λ j. ap (λ t. (t j).state) e ∙ states-set_proc i (new_process k.pid_num page_map env) k j in
    idle_state-QueuesFit k1 i unused init fit a.free refl refl moved a.rest.1 a.rest.2 a.rest.3
      a.rest.4

-- fork keeps the queues right on every path: where there is no free slot, where the copy of the
-- memory fails, and where the child becomes ready.
pub fork-QueuesFit :
    (img : Image) (trap_return : ℕ) (k : Kernel)
    → QueuesFit k
    → QueuesFit (fork img trap_return k).1
unfolding fork
fork-QueuesFit img trap_return k fit = elim (Option-cases (alloc_new_process trap_return k)) [
  | inl full ↦ rw (full, fork) fit
  | inr ((i, k1), e) ↦
      let a = alloc_new_process-Allocated trap_return k i k1 e in
      let (page_map, env, table) = a.fresh in
      let own : change i init (states k) i ≡ init = rw (eqb_refl i) refl in
      let new : (k1.table i).state ≡ init =
        ap (λ t. (t i).state) table
        ∙ states-set_proc i (new_process k.pid_num page_map env) k i
        ∙ own in
      rw (e, fork)
        (fork_child-QueuesFit img i k1 (λ z. omega (arith, a.range.0)) new
          (place_new-QueuesFit a fit))
]
