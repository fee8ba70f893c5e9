-- ===== src/Process/Wait/Zombie.antt =====
-- What `wait` makes of the queues, and how it reaps a zombie.
use mathlib.Core.Path.{subst}
use frostbite.Process.Wait.{
  untraced_bit, Outcome, returns, sleeps, stopped_child, set_wpid, abandoned, foster, release_files,
  clean_up, reap, collect, wait_zombie, wait_round, bad_pid, wait,
}
use frostbite.Base.{
  has-erase_self, Option-cases, eqb_refl, Bool-cases, and_right, ℕ, ◌≡◌, refl, sym, ◌∙◌, ◌≢◌, inl,
  inr, Bool, true, false, not, some, List, [], ◌∷◌, arith, ◌==◌, if◌then◌else◌, has, ℤ,
}
use frostbite.Memory.{free_uvm}
use frostbite.Process.{Kernel, Process, State, is, unused, killed, running, set_proc, state_change}
use frostbite.Process.Invariant.{
  QueuesFit, states, change, ext, leave, stay, states-set_proc, set_proc-QueuesFit, same_state,
}
use frostbite.Queue.Search.{first_evt}
use frostbite.Queue.Event.{erase_evt}
use frostbite.Process.Wake.{events}
use frostbite.Process.Wake.Split.{First, first_evt-some}
use frostbite.Process.Schedule.Sleep.{fall_asleep-QueuesFit}

-- The kernel that a round of `wait` leaves.
abbrev pub final : Outcome → Kernel
final (returns r status k) = k
final (sleeps k) = k

-- The queues fit, and a process other than the idle one runs.
pub record Busy (k : Kernel) : Type 0 where
  pub fit : QueuesFit k
  pub user : k.curr ≢ 0
  pub runs : (k.table k.curr).state ≡ running

set_proc-Busy :
    {k : Kernel} (i : ℕ) (p : Process)
    → Busy k
    → p.state ≡ (k.table i).state
    → Busy (set_proc i p k)
set_proc-Busy {k} i p busy e = record {
  fit = set_proc-QueuesFit i p busy.fit e;
  user = unfold set_proc in busy.user;
  runs = unfold set_proc in (unfold set_proc in same_state i p k e k.curr) ∙ busy.runs;
}

pub set_wpid-Busy : {k : Kernel} (pid : ℤ) → Busy k → Busy (set_wpid pid k)
unfolding set_wpid
set_wpid-Busy {k} pid busy = set_proc-Busy k.curr _ busy refl

foster-Busy : (js : List ℕ) (k : Kernel) → Busy k → Busy (foster js k)
unfolding foster
foster-Busy [] k busy = busy
foster-Busy (j ∷ js) k busy = foster-Busy js _ next
  where
    next : Busy (if abandoned j k then set_proc j (record (k.table j) { ppid = 1 }) k else k)
    next = elim (Bool-cases (abandoned j k)) [
      | inl out ↦ rw out (set_proc-Busy j (record (k.table j) { ppid = 1 }) busy refl)
      | inr fine ↦ rw fine busy
    ]

pub killed-eq : (s : State) → is s killed ≡ true → s ≡ killed
killed-eq s h = ground arith

module _ (k : Kernel) (wpid : ℤ) (i : ℕ) (fit : QueuesFit k)
    (found : first_evt (events k) wpid k.zombies ≡ some i) where
  hit : First wpid (events k) k.zombies i
  hit = first_evt-some wpid (events k) k.zombies i found

  is_dead : (k.table i).state ≡ killed
  is_dead =
      killed-eq (k.table i).state
        (and_right (not (i == 0)) _ (sym (fit.fit_zombies.members i) ∙ hit.here))

  abbrev reaped : Kernel
  reaped = clean_up i (record k { zombies = erase_evt (events k) wpid k.zombies })

  reaped-QueuesFit : QueuesFit reaped
  unfolding clean_up release_files set_proc
  reaped-QueuesFit = record {
    fit_ready = ext (stay fit.fit_ready i State.unused (rw is_dead refl) refl) _ moved;
    fit_wait = ext (stay fit.fit_wait i State.unused (rw is_dead refl) refl) _ moved;
    fit_suspended = ext (stay fit.fit_suspended i State.unused (rw is_dead refl) refl) _ moved;
    fit_zombies = rw hit.rest (ext (leave fit.fit_zombies i State.unused refl) _ moved);
  }
    where
      moved : (j : ℕ) → states reaped j ≡ change i State.unused (states k) j
      moved j = states-set_proc i (record (k.table i) { state = State.unused }) k j

  -- What reaping the zombie in slot `i` leaves: a free slot that is on no queue, its user memory
  -- freed, and no other process changed.
  pub record Reaped (k' : Kernel) : Type 0 where
    pub free : (k'.table i).state ≡ unused
    pub off : has i k'.zombies ≡ false
    pub others : (j : ℕ) → (j == i) ≡ false → k'.table j ≡ k.table j
    pub memory : k'.memory ≡ free_uvm (k.table i).page_map k.memory
    pub queues : QueuesFit k'

  -- When the queues fit and the PID to wait for is the event of a zombie, the search returns that
  -- PID and the status of the first such zombie, with or without WNOHANG, and reaps it.
  pub collect-Reaped :
      (no_hang : Bool)
      → (k' : Kernel) × (collect (true, wpid) no_hang k ≡ returns wpid (some (k.table i).status) k')
        × Reaped k'
  unfolding collect reap
  collect-Reaped no_hang = (
    reaped,
    rw (found, collect, is_dead),
    record {
      free = unfold clean_up release_files set_proc in rw (eqb_refl i);
      off =
          unfold clean_up release_files set_proc in
          rw hit.rest (has-erase_self i k.zombies fit.fit_zombies.nodup);
      others = λ j ne. unfold clean_up release_files set_proc in rw ne;
      memory = unfold clean_up release_files set_proc in refl;
      queues = reaped-QueuesFit;
    },
  )

collect-QueuesFit :
    (pair : Bool × ℤ) (no_hang : Bool) (k : Kernel)
    → Busy k
    → QueuesFit (final (collect pair no_hang k))
unfolding collect
collect-QueuesFit (false, wpid) no_hang k busy = busy.fit
collect-QueuesFit (true, wpid) no_hang k busy =
    elim (Option-cases (first_evt (events k) wpid k.zombies)) [
      | inl e ↦
          rw (e, collect)
            (elim (Bool-cases no_hang) [
              | inl now ↦ rw now busy.fit
              | inr later ↦
                  rw later (fall_asleep-QueuesFit state_change k busy.fit busy.user busy.runs)
            ])
      | inr (i, e) ↦
          let (k', same, reaped) = collect-Reaped k wpid i busy.fit e no_hang in
          subst (λ o. QueuesFit (final o)) (sym same) reaped.queues
    ]

wait_zombie-QueuesFit :
    (pid : ℤ) (options : ℕ) (k : Kernel) → Busy k → QueuesFit (final (wait_zombie pid options k))
unfolding wait_zombie
wait_zombie-QueuesFit pid options k busy =
    let next : Busy (if (k.table k.curr).pid == 1 then foster k.zombies k else k) =
      elim (Bool-cases ((k.table k.curr).pid == 1)) [
        | inl init ↦ rw init (foster-Busy k.zombies k busy)
        | inr user ↦ rw user busy
      ] in
    collect-QueuesFit _ _ _ next

wait_round-QueuesFit :
    (pid : ℤ) (options : ℕ) (k : Kernel) → Busy k → QueuesFit (final (wait_round pid options k))
unfolding wait_round
wait_round-QueuesFit pid options k busy = elim (Option-cases (stopped_child k)) [
  | inl e ↦ rw (e, wait_round) (wait_zombie-QueuesFit pid options k busy)
  | inr (i, e) ↦
      let next = set_wpid-Busy pid busy in
      rw (e, wait_round)
        (elim (Bool-cases (untraced_bit options)) [
          | inl traced ↦ rw traced next.fit
          | inr untraced ↦ rw untraced (wait_zombie-QueuesFit pid options (set_wpid pid k) next)
        ])
]

-- A round of `wait`, called by a process that is RUNNING and not the idle one, keeps the queues
-- right on every branch: an error, a stopped child, a reaped zombie, WNOHANG, or falling asleep.
pub wait-QueuesFit :
    (pid : ℤ) (options : ℕ) (k : Kernel)
    → QueuesFit k
    → k.curr ≢ 0
    → (k.table k.curr).state ≡ running
    → QueuesFit (final (wait pid options k))
unfolding wait
wait-QueuesFit pid options k fit user runs = elim (Bool-cases (bad_pid pid)) [
  | inl bad ↦ rw bad fit
  | inr good ↦
      let busy : Busy k = record { fit = fit; user = user; runs = runs } in
      let next = set_wpid-Busy pid busy in
      rw good (wait_round-QueuesFit pid options (set_wpid pid k) next)
]
