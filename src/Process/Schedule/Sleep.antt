-- ===== src/Process/Schedule/Sleep.antt =====
-- The queues when the current process falls asleep.
use frostbite.Base.{ℕ, ◌≡◌, refl, ◌≢◌, ℤ}
use frostbite.Process.{Kernel, sleeping, running, set_proc}
use frostbite.Process.Invariant.{QueuesFit, states, change, ext, enter, stay, states-set_proc}
use frostbite.Process.Schedule.{fall_asleep}

-- When the current process, RUNNING and not the idle one, falls asleep, it goes behind the wait list
-- and the queues fit.
pub fall_asleep-QueuesFit :
    (event : ℤ) (k : Kernel)
    → QueuesFit k
    → k.curr ≢ 0
    → (k.table k.curr).state ≡ running
    → QueuesFit (fall_asleep event k)
unfolding fall_asleep set_proc
fall_asleep-QueuesFit event k fit ne busy = record {
  fit_ready = ext (stay fit.fit_ready k.curr sleeping (rw busy refl) refl) _ moved;
  fit_wait = ext (enter fit.fit_wait k.curr ne (rw busy refl)) _ moved;
  fit_suspended = ext (stay fit.fit_suspended k.curr sleeping (rw busy refl) refl) _ moved;
  fit_zombies = ext (stay fit.fit_zombies k.curr sleeping (rw busy refl) refl) _ moved;
}
  where
    moved : (j : ℕ) → states (fall_asleep event k) j ≡ change k.curr sleeping (states k) j
    moved j =
        states-set_proc k.curr (record (k.table k.curr) { state = sleeping; event = event }) k j
