-- ===== src/Process/Wait/Child.antt =====
-- `wait` returns the PID and the status of a dead child, and reaps it.
use frostbite.Base.{
  eqb→eq, eqb_refl, Bool-cases, ℕ, ◌%◌, ◌≡◌, refl, sym, ap, ◌∙◌, ◌≢◌, inl, inr, false, some, arith,
  ◌==◌, has, ℤ, pos,
}
use mathlib.Core.Path.{ap₂, subst}
use frostbite.Process.{Kernel, Process, unused, running, set_proc}
use frostbite.Process.Invariant.{QueuesFit}
use frostbite.Process.Wait.{
  choose, set_wpid, collect, wait_zombie, wait_round, bad_pid, wait, returns,
}
use frostbite.Process.Wait.Zombie.{Busy, set_wpid-Busy, collect-Reaped}
use frostbite.Process.Wait.Choice.{
  Named, AskedFor, DeadChild, zombie-found, choose-Chooses, no_stopped,
}
use frostbite.Memory.{free_uvm}

-- What is left when `wait` has reaped the process in slot `i`: a free slot that is on no queue, its user
-- memory freed, no other process changed but for what the caller waits for, and the queues right.
pub record Buried (pid : ℤ) (k : Kernel) (i : ℕ) (k' : Kernel) : Type 0 where
  pub free : (k'.table i).state ≡ unused
  pub off : has i k'.zombies ≡ false
  pub others : (j : ℕ) → (j == i) ≡ false → k'.table j ≡ (set_wpid pid k).table j
  pub memory : k'.memory ≡ free_uvm (k.table i).page_map k.memory
  pub queues : QueuesFit k'

module _ (pid : ℤ) (k : Kernel) where
  abbrev asking : Kernel
  asking = set_wpid pid k

  -- The caller's `wpid` is all that changes before the search.
  same_field :
      {A : Type 0} (f : Process → A) (j : ℕ)
      → ((p : Process) → f (record p { wpid = pid }) ≡ f p)
      → f (asking.table j) ≡ f (k.table j)
  unfolding set_wpid set_proc
  same_field f j blind = elim (Bool-cases (j == k.curr)) [
    | inl e ↦ rw (e, eqb→eq j k.curr e) (blind (k.table k.curr))
    | inr ne ↦ rw ne refl
  ]

  same_curr : asking.curr ≡ k.curr
  unfolding set_wpid set_proc
  same_curr = refl

  same_memory : asking.memory ≡ k.memory
  unfolding set_wpid set_proc
  same_memory = refl

  own_wpid : (asking.table asking.curr).wpid ≡ pid
  unfolding set_wpid set_proc
  own_wpid = rw (eqb_refl k.curr) refl

  pid_same : (j : ℕ) → (asking.table j).pid ≡ (k.table j).pid
  pid_same j = same_field (λ p. p.pid) j (λ p. refl)

  state_same : (j : ℕ) → (asking.table j).state ≡ (k.table j).state
  state_same j = same_field (λ p. p.state) j (λ p. refl)

  ppid_same : (j : ℕ) → (asking.table j).ppid ≡ (k.table j).ppid
  ppid_same j = same_field (λ p. p.ppid) j (λ p. refl)

  event_same : (j : ℕ) → (asking.table j).event ≡ (k.table j).event
  event_same j = same_field (λ p. p.event) j (λ p. refl)

  asking-Named : Named k → Named asking
  asking-Named named = record {
    distinct = λ i j a b same.
        named.distinct i j (rw (state_same i) at a) (rw (state_same j) at b)
          (sym (pid_same i) ∙ same ∙ pid_same j);
    own_event = λ i dead.
        event_same i ∙ named.own_event i (sym (state_same i) ∙ dead) ∙ sym (ap pos (pid_same i));
  }

  status_same : (j : ℕ) → (asking.table j).status ≡ (k.table j).status
  status_same j = same_field (λ p. p.status) j (λ p. refl)

  -- The dead children are the same.
  to_asking : (i : ℕ) → DeadChild pid k i → DeadChild pid asking i
  to_asking i d = record {
    low = d.low;
    high = d.high;
    dead = state_same i ∙ d.dead;
    child = rw same_curr (ppid_same i ∙ d.child ∙ sym (pid_same k.curr));
    asked = subst (AskedFor pid) (sym (pid_same i)) d.asked;
  }

  from_asking : (i : ℕ) → DeadChild pid asking i → DeadChild pid k i
  from_asking i d = record {
    low = d.low;
    high = d.high;
    dead = sym (state_same i) ∙ d.dead;
    child = sym (ppid_same i) ∙ rw (same_curr) at d.child ∙ pid_same k.curr;
    asked = subst (AskedFor pid) (pid_same i) d.asked;
  }

  -- With a dead child, the call comes to the search of the zombies.
  wait-collect :
      (options c : ℕ)
      → QueuesFit asking
      → Named asking
      → (k.table k.curr).pid ≢ 1
      → bad_pid pid ≡ false
      → DeadChild pid asking c
      → wait pid options k ≡ collect (choose pid asking) (options % 2 == 1) asking
  unfolding wait wait_round wait_zombie
  wait-collect options c fit named not_init good d =
      let user : ((asking.table asking.curr).pid == 1) ≡ false =
        rw (same_curr, pid_same k.curr) (ground (arith, not_init)) in
      rw (good, wait_round, no_stopped asking fit named pid c own_wpid d, wait_zombie, user) refl

  -- For a caller that is RUNNING and neither the idle process nor init, when the queues fit, no two
  -- processes have the same PID, and each dead one waits on its own PID: if the caller has a dead child
  -- that the argument asks for, by its PID or as any child, then `wait` returns at once, whatever the
  -- options are, the PID and the status of such a child, and reaps it.
  pub wait-DeadChild :
      (options c : ℕ)
      → QueuesFit k
      → Named k
      → k.curr ≢ 0
      → (k.table k.curr).state ≡ running
      → (k.table k.curr).pid ≢ 1
      → bad_pid pid ≡ false
      → DeadChild pid k c
      → (i : ℕ) × (k' : Kernel) × DeadChild pid k i
        × (wait pid options k ≡ returns (pos (k.table i).pid) (some (k.table i).status) k')
        × Buried pid k i k'
  wait-DeadChild options c fit named user runs not_init good d =
      let busy : Busy asking = set_wpid-Busy pid (record { fit = fit; user = user; runs = runs }) in
      let named1 = asking-Named named in
      let d1 = to_asking c d in
      let (i, di, chosen) = choose-Chooses asking busy.fit named1 pid c d1 in
      let found = zombie-found asking busy.fit named1 i di.low di.dead in
      let (k', done, reaped) = collect-Reaped asking _ i busy.fit found (options % 2 == 1) in
      (
        i,
        k',
        from_asking i di,
        wait-collect options c busy.fit named1 not_init good d1
            ∙ ap (λ t. collect t (options % 2 == 1) asking) chosen
            ∙ done
            ∙ ap₂ (λ (p s : ℕ). returns (pos p) (some s) k') (pid_same i) (status_same i),
        record {
          free = reaped.free;
          off = reaped.off;
          others = reaped.others;
          memory =
              reaped.memory ∙ ap₂ free_uvm (same_field (λ p. p.page_map) i (λ p. refl)) same_memory;
          queues = reaped.queues;
        },
      )
