-- ===== src/Process/Kill/Post.antt =====
-- The invariant of the queues under `kill`.
use frostbite.Base.{
  eqb_of_ne, ℕ, zero, suc, ◌≡◌, refl, ap, ◌∙◌, ◌≢◌, inl, inr, true, false, [], ◌∷◌, ◌++◌, arith,
  ◌==◌, ltb, ℤ, pos, negsuc, for_slots_inv, Option-cases, erase, Bool-cases,
}
use frostbite.Process.Invariant.{
  and-false, QueuesFit, states, change, ext, enter, leave, stay, states-set_proc,
  set_proc-QueuesFit,
}
use frostbite.Process.{sighup, sigterm, Process, Kernel, State, is, ready, sleeping, set_proc}
use frostbite.Process.Table.{get_process-some, get_process}
use frostbite.Process.Kill.{
  note_signal, post, broadcast_to, group_to, kill_children, broadcast, kill_one, kill_pid, kill,
  gone,
}

-- A sleeping process goes from the wait list to the ready queue.
pub wake-QueuesFit :
    {k : Kernel} (i : ℕ) (p : Process)
    → QueuesFit k
    → i ≢ 0
    → (k.table i).state ≡ sleeping
    → p.state ≡ ready
    → QueuesFit (record (set_proc i p k) {
      wait_list = erase i k.wait_list;
      ready_que = k.ready_que ++ (i ∷ []);
    })
unfolding set_proc
wake-QueuesFit {k} i p fit ne asleep e = record {
  fit_ready = ext (enter fit.fit_ready i ne (rw asleep refl)) _ moved;
  fit_wait = ext (leave fit.fit_wait i ready refl) _ moved;
  fit_suspended = ext (stay fit.fit_suspended i ready (rw asleep refl) refl) _ moved;
  fit_zombies = ext (stay fit.fit_zombies i ready (rw asleep refl) refl) _ moved;
}
  where
    moved : (j : ℕ) → states (set_proc i p k) j ≡ change i ready (states k) j
    moved j = states-set_proc i p k j ∙ rw e

pub sleeping-eq : (s : State) → is s sleeping ≡ true → s ≡ sleeping
sleeping-eq s h = ground arith

post-QueuesFit : {k : Kernel} (signal i : ℕ) → i ≢ 0 → QueuesFit k → QueuesFit (post signal i k)
unfolding post
post-QueuesFit {k} signal i ne fit = elim (Bool-cases (is (k.table i).state sleeping)) [
  | inl asleep ↦ rw asleep (wake-QueuesFit i _ fit ne (sleeping-eq _ asleep) refl)
  | inr awake ↦ rw awake (set_proc-QueuesFit i _ fit refl)
]

-- `kill` of one process, and of the children of the sender, keeps the queues right.
pub kill_one-QueuesFit :
    {k : Kernel} (pid signal : ℕ) → QueuesFit k → QueuesFit (kill_one pid signal k).1
unfolding kill_one
kill_one-QueuesFit {k} pid signal fit = elim (Option-cases (get_process pid k)) [
  | inl e ↦ rw (e, kill_one) fit
  | inr (i, e) ↦
      let (lo, hi, same, used) = get_process-some pid k i e in
      rw (e, kill_one) (post-QueuesFit signal i (omega arith) fit)
]

group_to-QueuesFit :
    (sender signal i : ℕ) (k : Kernel)
    → i ≢ 0
    → QueuesFit k
    → QueuesFit (group_to sender signal i k)
unfolding group_to
group_to-QueuesFit sender signal i k ne fit = ground (arith, post-QueuesFit {k = k} signal i ne fit)

pub kill_children-QueuesFit :
    {k : Kernel} (sender signal : ℕ) → QueuesFit k → QueuesFit (kill_children sender signal k)
unfolding kill_children
kill_children-QueuesFit {k} sender signal fit =
    for_slots_inv QueuesFit (group_to sender signal) 2 100
      (λ j s lo hi f. group_to-QueuesFit sender signal j s (omega arith) f) 98 2 k (omega arith)
      (omega arith) fit

broadcast_to-QueuesFit :
    (sender signal i : ℕ) (k : Kernel)
    → signal ≢ sighup
    → i ≢ 0
    → QueuesFit k
    → QueuesFit (broadcast_to sender signal i k)
unfolding broadcast_to
broadcast_to-QueuesFit sender signal i k other ne fit =
    elim (Bool-cases ((k.table i).pid == sender)) [
      | inl self ↦ rw self fit
      | inr not_self ↦ rw not_self (elim (Bool-cases (gone (k.table i).state)) [
        | inl dead ↦ rw (dead, not_sighup, and-false) fit
        | inr alive ↦ rw alive (post-QueuesFit signal i ne fit)
      ])
    ]
  where
    not_sighup : (signal == sighup) ≡ false
    not_sighup = eqb_of_ne signal sighup other

note_signal-QueuesFit :
    {k : Kernel} (signal i : ℕ) → QueuesFit k → QueuesFit (note_signal signal i k)
unfolding note_signal
note_signal-QueuesFit signal i fit = set_proc-QueuesFit i _ fit refl

broadcast-QueuesFit :
    {k : Kernel} (sender signal : ℕ)
    → signal ≢ sighup
    → QueuesFit k
    → QueuesFit (broadcast sender signal k)
unfolding broadcast
broadcast-QueuesFit {k} sender signal other fit =
    let looped =
      for_slots_inv QueuesFit (broadcast_to sender signal) 2 100
        (λ j s lo hi f. broadcast_to-QueuesFit sender signal j s other (omega arith) f) 98 2 k
        (omega arith) (omega arith) fit in
    let not_hup : (signal == sighup) ≡ false = ground arith in
    rw not_hup (elim (Bool-cases (signal == sigterm)) [
      | inl e ↦ rw e (note_signal-QueuesFit signal 0 (note_signal-QueuesFit signal 1 looped))
      | inr ne ↦ rw ne looped
    ])

kill_pid-QueuesFit :
    {k : Kernel} (sender : ℕ) (pid : ℤ) (signal : ℕ)
    → signal ≢ sighup
    → QueuesFit k
    → QueuesFit (kill_pid sender pid signal k).1
unfolding kill_pid
kill_pid-QueuesFit sender (negsuc zero) signal other fit =
    broadcast-QueuesFit sender signal other fit
kill_pid-QueuesFit sender (negsuc (suc n)) signal other fit = fit
kill_pid-QueuesFit sender (pos zero) signal other fit = kill_children-QueuesFit sender signal fit
kill_pid-QueuesFit sender (pos (suc n)) signal other fit = kill_one-QueuesFit (suc n) signal fit

-- A call of `kill` with any signal but SIGHUP keeps the queues right, whatever the PID: if each
-- process was on exactly the queue that its state names, it is so afterwards.
pub kill-QueuesFit :
    {k : Kernel} (sender : ℕ) (pid signal : ℤ)
    → signal ≢ pos sighup
    → QueuesFit k
    → QueuesFit (kill sender pid signal k).1
unfolding kill
kill-QueuesFit sender pid (negsuc n) other fit = fit
kill-QueuesFit sender pid (pos signal) other fit = elim (Bool-cases (ltb 31 signal)) [
  | inl big ↦ rw big fit
  | inr small ↦ rw small (kill_pid-QueuesFit sender pid signal (λ e. other (ap pos e)) fit)
]
