-- ===== src/Process/Signal/Stop.antt =====
-- What `resume`, the core of the SIGCONT handler, does to the queues.
use frostbite.Base.{
  eqb_refl, Bool-cases, erase, has-erase_self, ℕ, ◌≡◌, refl, ◌∙◌, ◌≢◌, inl, inr, false, not, ◌&&◌,
  [], ◌∷◌, ◌++◌, ◌==◌, if◌then◌else◌, has, ℤ, eqb_ℤ,
}
use frostbite.Process.{
  Kernel, Process, ready, sleeping, stopped, set_proc, no_event, keyboard_input, daemon_input,
}
use frostbite.Process.Invariant.{
  QueuesFit, states, change, ext, enter, leave, stay, states-set_proc,
}
use frostbite.Process.Signal.{resume}

-- The event of a process after it was resumed.
abbrev pub resumed_event : Process → ℤ
resumed_event p = if not p.daemon && eqb_ℤ p.event daemon_input then keyboard_input else p.event

-- What resuming the process in slot `i` leaves.
pub record Resumed (i : ℕ) (k k' : Kernel) : Type 0 where
  pub state : (k'.table i).state ≡ (if eqb_ℤ (k.table i).event no_event then ready else sleeping)
  pub suspended : has i k'.suspended ≡ false
  pub others : (j : ℕ) → (j == i) ≡ false → k'.table j ≡ k.table j
  pub fit : QueuesFit k'

module _ (k : Kernel) (i : ℕ) (fit : QueuesFit k) (ne : i ≢ 0)
    (halted : (k.table i).state ≡ stopped) where
  to_ready :
      (p : Process)
      → p.state ≡ ready
      → QueuesFit (record (set_proc i p (record k { suspended = erase i k.suspended })) {
        ready_que = k.ready_que ++ (i ∷ []);
      })
  unfolding set_proc
  to_ready p e = record {
    fit_ready = ext (enter fit.fit_ready i ne (rw halted refl)) _ moved;
    fit_wait = ext (stay fit.fit_wait i ready (rw halted refl) refl) _ moved;
    fit_suspended = ext (leave fit.fit_suspended i ready refl) _ moved;
    fit_zombies = ext (stay fit.fit_zombies i ready (rw halted refl) refl) _ moved;
  }
    where
      moved : (j : ℕ) → states (set_proc i p k) j ≡ change i ready (states k) j
      moved j = states-set_proc i p k j ∙ rw e

  to_wait :
      (p : Process)
      → p.state ≡ sleeping
      → QueuesFit (record (set_proc i p (record k { suspended = erase i k.suspended })) {
        wait_list = k.wait_list ++ (i ∷ []);
      })
  unfolding set_proc
  to_wait p e = record {
    fit_ready = ext (stay fit.fit_ready i sleeping (rw halted refl) refl) _ moved;
    fit_wait = ext (enter fit.fit_wait i ne (rw halted refl)) _ moved;
    fit_suspended = ext (leave fit.fit_suspended i sleeping refl) _ moved;
    fit_zombies = ext (stay fit.fit_zombies i sleeping (rw halted refl) refl) _ moved;
  }
    where
      moved : (j : ℕ) → states (set_proc i p k) j ≡ change i sleeping (states k) j
      moved j = states-set_proc i p k j ∙ rw e

  -- SIGCONT takes a stopped process off the suspended list and puts it on the ready queue if it
  -- waits for no event, else back on the wait list; no other process changes and the queues fit.
  pub resume-Resumed : Resumed i k (resume i k)
  unfolding resume set_proc
  resume-Resumed =
      let out = has-erase_self i k.suspended fit.fit_suspended.nodup in
      elim (Bool-cases (eqb_ℤ (k.table i).event no_event)) [
        | inl free ↦ rw free (record {
          state = rw (eqb_refl i, free);
          suspended = out;
          others = λ j d. rw d;
          fit = to_ready _ refl;
        })
        | inr waits ↦ rw waits (record {
          state = rw (eqb_refl i, waits);
          suspended = out;
          others = λ j d. rw d;
          fit = to_wait _ refl;
        })
      ]
