-- ===== src/Process/Kill/Signals.antt =====
-- What `kill` does to each process.
use frostbite.Base.{
  eqb_refl, Option-cases, Bool-cases, for_slots-view, ℕ, zero, suc, ◌≤◌, ◌≡◌, refl, ◌∙◌, ◌⊎◌, inl,
  inr, Bool, true, false, not, ◌&&◌, none, some, arith, ◌==◌, if◌then◌else◌, ltb, leb, ℤ, pos,
  negsuc,
}
use frostbite.Process.{Kernel, Process, is, ready, sleeping, set_proc, raise}
use frostbite.Process.Invariant.{and-false}
use frostbite.Process.Table.{get_process}
use frostbite.Process.Kill.{discard, post, gone, group_to, kill_children, kill_one, kill_pid, kill}

and-true : (b : Bool) → (b && true) ≡ b
and-true true = refl
and-true false = refl

if_and {ℓ} :
    {A : Type ℓ} (a b c : Bool) (x y : A)
    → (if a && b then (if c then x else y) else y) ≡ (if a && (b && c) then x else y)
if_and true true c x y = refl
if_and true false c x y = refl
if_and false b c x y = refl

-- A process that was sent a signal: the signal is pending, one that it contradicts is not, and the
-- process no longer sleeps.
abbrev pub signalled : ℕ → Process → Process
signalled signal p = record p {
  signals = raise signal (discard signal p.signals);
  state = if is p.state sleeping then ready else p.state;
}

post-table :
    (signal i j : ℕ) (k : Kernel)
    → (post signal i k).table j ≡ (if j == i then signalled signal (k.table i) else k.table j)
unfolding post set_proc
post-table signal i j k = elim (Bool-cases (is (k.table i).state sleeping)) [
  | inl asleep ↦ rw asleep
  | inr awake ↦ rw awake
]

-- A child of the sender that still runs.
abbrev pub is_target : ℕ → Process → Bool
is_target sender p = not (p.pid == sender) && (not (gone p.state) && (sender == p.ppid))

group_to-table :
    (sender signal i j : ℕ) (k : Kernel)
    → (group_to sender signal i k).table j ≡ (
        if (j == i) && is_target sender (k.table i)
        then signalled signal (k.table i)
        else k.table j)
unfolding group_to
group_to-table sender signal i j k = elim (Bool-cases ((k.table i).pid == sender)) [
  | inl self ↦ rw (self, and-false (j == i))
  | inr other ↦
      rw other (elim (Bool-cases (not (gone (k.table i).state) && (sender == (k.table i).ppid))) [
        | inl child ↦ rw (child, and-true (j == i)) (post-table signal i j k)
        | inr not_child ↦ rw (not_child, and-false (j == i))
      ])
]

-- `kill(0)` sends the signal to all living children of the sender in slots 2 to 99, other than the
-- sender itself, and changes no other process.
pub kill_children-table :
    (sender signal j : ℕ) (k : Kernel)
    → (kill_children sender signal k).table j ≡ (
        if leb 2 j && (ltb j 100 && is_target sender (k.table j))
        then signalled signal (k.table j)
        else k.table j)
unfolding kill_children
kill_children-table sender signal j k =
    for_slots-view (λ (s : Kernel) i. s.table i) (group_to sender signal)
      (λ i p. if is_target sender p then signalled signal p else p)
      (λ i s. group_to-table sender signal i i s ∙ rw (eqb_refl i))
      (λ i j' s ne. group_to-table sender signal i j' s ∙ rw ne) 98 2 j k
    ∙ if_and (leb 2 j) (ltb j 100) _ _ _

-- The outcome of a call: 0, or -1 with the kernel as it was.
abbrev Sound : Kernel → ℤ × Kernel → Type 0
Sound k r = (r.0 ≡ pos 0) ⊎ ((r.0 ≡ negsuc 0) × (r.1 ≡ k))

kill_pid-error :
    (sender : ℕ) (pid : ℤ) (signal : ℕ) (k : Kernel) → Sound k (kill_pid sender pid signal k)
unfolding kill_pid kill_one
kill_pid-error sender (negsuc zero) signal k = inl refl
kill_pid-error sender (negsuc (suc n)) signal k = inr (refl, refl)
kill_pid-error sender (pos zero) signal k = inl refl
kill_pid-error sender (pos (suc n)) signal k = elim (Option-cases (get_process (suc n) k)) [
  | inl e ↦ rw (e, kill_one) (inr (refl, refl))
  | inr (i, e) ↦ rw (e, kill_one) (inl refl)
]

-- A call of `kill` returns 0 or -1, and one that returns -1 leaves the whole kernel as it was.
pub kill-error :
    (sender : ℕ) (pid signal : ℤ) (k : Kernel)
    → ((kill sender pid signal k).0 ≡ pos 0)
      ⊎ (((kill sender pid signal k).0 ≡ negsuc 0) × ((kill sender pid signal k).1 ≡ k))
unfolding kill
kill-error sender pid (negsuc n) k = inr (refl, refl)
kill-error sender pid (pos signal) k = elim (Bool-cases (ltb 31 signal)) [
  | inl big ↦ rw big (inr (refl, refl))
  | inr small ↦ rw small (kill_pid-error sender pid signal k)
]

-- A signal for one PID fails exactly if no process in use has it; else the process that
-- `get_process` finds gets the signal, and no other process changes.
pub kill-get_process :
    (sender n signal : ℕ) (k : Kernel)
    → signal ≤ 31
    → ((get_process (suc n) k ≡ none) × ((kill sender (pos (suc n)) (pos signal) k).0 ≡ negsuc 0))
      ⊎ ((i : ℕ) × (get_process (suc n) k ≡ some i)
          × ((kill sender (pos (suc n)) (pos signal) k).0 ≡ pos 0)
          × ((j : ℕ)
              → (kill sender (pos (suc n)) (pos signal) k).1.table j
                ≡ (if j == i then signalled signal (k.table i) else k.table j)))
unfolding kill kill_pid kill_one
kill-get_process sender n signal k valid =
    let small : ltb 31 signal ≡ false = ground arith in
    elim (Option-cases (get_process (suc n) k)) [
      | inl e ↦ rw small (inl (e, rw (e, kill_one)))
      | inr (i, e) ↦
          rw small (inr (i, e, rw (e, kill_one), λ j. rw (e, kill_one) (post-table signal i j k)))
    ]
