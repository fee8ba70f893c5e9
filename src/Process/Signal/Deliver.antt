-- ===== src/Process/Signal/Deliver.antt =====
-- The delivery loop of `check_pending_signals` on a stopped process, and the frame by which a
-- process enters the handler that it registered.
use frostbite.Base.{
  ℕ, zero, suc, ◌+◌, ◌-◌, ◌%◌, ◌^◌, ◌≤◌, ◌<◌, ◌≡◌, refl, sym, ◌∙◌, ◌≢◌, ◌⊎◌, inl, inr, Bool, true,
  false, ◌||◌, arith, ◌==◌, eqb→eq, Bool-cases,
}
use frostbite.Process.{is, State, Kernel, stopped, sigkill, sigcont, Frame}
use frostbite.Process.Signal.{any_pending, deliver, deliver_from, check_pending_signals, redirect}

-- Neither SIGKILL nor SIGCONT is pending.
abbrev NoWaker : Kernel → ℕ → Type 0
NoWaker k i = ((k.table i).signals sigkill ≡ false) × ((k.table i).signals sigcont ≡ false)

-- What the loop makes of a stopped process in slot `i`: first it delivers SIGKILL, which is nothing if
-- it is not pending, and only then come the signals behind it; if the process is stopped still, the
-- next thing is SIGCONT; if it is stopped even then, that was all. Without either nothing changes.
abbrev pub HeldBack : Kernel → ℕ → Kernel → Type 0
HeldBack k i k' =
    let after_kill = deliver i sigkill k in
    let after_cont = deliver i sigcont after_kill in
    (k' ≡ deliver_from 22 10 i after_kill)
    × (((after_kill.table i).state ≢ stopped)
        ⊎ ((k' ≡ deliver_from 13 19 i after_cont)
            × (((after_cont.table i).state ≢ stopped) ⊎ (k' ≡ after_cont))))
    × (((k.table i).signals sigkill ≡ true) ⊎ (((k.table i).signals sigcont ≡ true) ⊎ (k' ≡ k)))

stopped_cases : (s : State) → (s ≡ stopped) ⊎ (s ≢ stopped)
stopped_cases s = elim (Bool-cases (is s stopped)) [
  | inl yes_ ↦ inl (ground (arith, yes_))
  | inr no_ ↦ inr (λ e. let same : is s stopped ≡ true = rw e refl in cc)
]

any_pending-false :
    (n : ℕ) (bits : ℕ → Bool) → any_pending n bits ≡ false → (s : ℕ) → s < n → bits s ≡ false
unfolding any_pending
any_pending-false zero bits none_pending s lt = absurd (omega arith)
any_pending-false (suc n) bits none_pending s lt = elim (Bool-cases (s == n)) [
  | inl e ↦ rw (eqb→eq s n e) (ground (arith, none_pending))
  | inr ne ↦ any_pending-false n bits (ground (arith, none_pending)) s (ground (arith, ne))
]

-- A stopped process takes no step on another signal, whatever is pending.
deliver-stopped :
    (i signal : ℕ) (k : Kernel)
    → (k.table i).state ≡ stopped
    → ((signal == sigkill) || (signal == sigcont)) ≡ false
    → deliver i signal k ≡ k
unfolding deliver
deliver-stopped i signal k halted other = elim (Bool-cases ((k.table i).signals signal)) [
  | inl pending ↦ rw (pending, halted, other)
  | inr absent ↦ rw absent
]

deliver-absent :
    (i signal : ℕ) (k : Kernel) → (k.table i).signals signal ≡ false → deliver i signal k ≡ k
unfolding deliver
deliver-absent i signal k absent = rw absent

-- The loop passes over the other signals.
deliver_from-stopped :
    (m n signal i : ℕ) (k : Kernel)
    → (k.table i).state ≡ stopped
    → ((s : ℕ) → signal ≤ s → s < signal + m → ((s == sigkill) || (s == sigcont)) ≡ false)
    → deliver_from (m + n) signal i k ≡ deliver_from n (signal + m) i k
unfolding deliver_from
deliver_from-stopped zero n signal i k halted others =
    let e : signal + 0 ≡ signal = omega arith in let z : 0 + n ≡ n = omega arith in rw (e, z) refl
deliver_from-stopped (suc m) n signal i k halted others =
    let e : signal + suc m ≡ signal + 1 + m = omega arith in
    let z : suc m + n ≡ suc (m + n) = omega arith in
    rw (z, e, halted, deliver-stopped i signal k halted (others signal (omega arith) (omega arith)))
      (deliver_from-stopped m n (signal + 1) i k halted
        (λ s lo hi. others s (omega arith) (omega arith)))

-- One round for a process that is alive.
deliver_from-next :
    (n signal i : ℕ) (k : Kernel)
    → (k.table i).state ≡ stopped
    → deliver_from (suc n) signal i k ≡ deliver_from n (signal + 1) i (deliver i signal k)
unfolding deliver_from
deliver_from-next n signal i k halted = rw halted refl

module _ (k : Kernel) (i : ℕ) (halted : (k.table i).state ≡ stopped) where
  abbrev after_kill : Kernel
  after_kill = deliver i sigkill k

  abbrev after_cont : Kernel
  after_cont = deliver i sigcont after_kill

  from_kill : deliver_from 32 0 i k ≡ deliver_from 22 10 i after_kill
  from_kill =
      deliver_from-stopped 9 23 0 i k halted (λ s lo hi. ground arith)
      ∙ deliver_from-next 22 9 i k halted

  from_cont :
      (after_kill.table i).state ≡ stopped
      → deliver_from 22 10 i after_kill ≡ deliver_from 13 19 i after_cont
  from_cont still =
      deliver_from-stopped 8 14 10 i after_kill still (λ s lo hi. ground arith)
      ∙ deliver_from-next 13 18 i after_kill still

  at_end : (after_cont.table i).state ≡ stopped → deliver_from 13 19 i after_cont ≡ after_cont
  unfolding deliver_from
  at_end still = deliver_from-stopped 13 0 19 i after_cont still (λ s lo hi. ground arith)

  abbrev checked : Kernel
  checked = check_pending_signals i k

  no_waker : NoWaker k i → deliver_from 32 0 i k ≡ k
  no_waker (no_kill, no_cont) =
      let e : after_kill ≡ k = deliver-absent i sigkill k no_kill in
      let f : after_cont ≡ k = rw e (deliver-absent i sigcont k no_cont) in
      from_kill ∙ from_cont (rw e halted) ∙ at_end (rw f halted) ∙ f

  loops : checked ≡ deliver_from 32 0 i k
  unfolding check_pending_signals
  loops = elim (Bool-cases (any_pending 32 (k.table i).signals)) [
    | inl some_one ↦ rw some_one refl
    | inr nobody ↦
        let absent = any_pending-false 32 (k.table i).signals nobody in
        rw nobody (sym (no_waker (absent sigkill (omega arith), absent sigcont (omega arith))))
  ]

  -- A stopped process acts on no signal but SIGKILL and SIGCONT, whatever else is pending:
  -- `check_pending_signals` acts on SIGKILL before all others, on SIGCONT next if the process is
  -- stopped still, and on nothing more as long as it stays stopped. If neither is pending, the whole
  -- kernel stays as it is, the pending signals included.
  pub check_pending_signals-HeldBack : HeldBack k i (check_pending_signals i k)
  check_pending_signals-HeldBack = (
    loops ∙ from_kill,
    elim (stopped_cases (after_kill.table i).state) [
      | inr other ↦ inl other
      | inl still ↦ inr (
        loops ∙ from_kill ∙ from_cont still,
        elim (stopped_cases (after_cont.table i).state) [
          | inr other ↦ inl other
          | inl there ↦ inr (loops ∙ from_kill ∙ from_cont still ∙ at_end there)
        ],
      )
    ],
    elim (Bool-cases ((k.table i).signals sigkill)) [
      | inl kill ↦ inl kill
      | inr no_kill ↦ inr (elim (Bool-cases ((k.table i).signals sigcont)) [
        | inl cont ↦ inl cont
        | inr no_cont ↦ inr (loops ∙ no_waker (no_kill, no_cont))
      ])
    ],
  )

-- The frame and the stack with which a process enters its handler: the proxy is called with three
-- words on the stack, the signal, the handler and the interrupted program counter, in 24 bytes
-- below the old stack pointer; no other word of the stack changes.
pub redirect-stack :
    (proxy signal handler : ℕ) (f : Frame)
    → 24 ≤ f.sp0
    → f.sp0 < 2 ^ 64
    → ((redirect proxy signal handler f).elr ≡ proxy)
      × ((redirect proxy signal handler f).sp0 + 24 ≡ f.sp0)
      × ((redirect proxy signal handler f).stack (f.sp0 - 24) ≡ signal)
      × ((redirect proxy signal handler f).stack (f.sp0 - 16) ≡ handler)
      × ((redirect proxy signal handler f).stack (f.sp0 - 8) ≡ f.elr)
      × ((a : ℕ)
          → a ≢ f.sp0 - 24
          → a ≢ f.sp0 - 16
          → a ≢ f.sp0 - 8
          → (redirect proxy signal handler f).stack a ≡ f.stack a)
unfolding redirect
redirect-stack proxy signal handler f room fits =
    rw (at_sp, at_8, at_16)
      (refl, omega arith, ground arith, ground arith, ground arith, λ a x y z. ground arith)
  where
    at_sp : (f.sp0 + 2 ^ 64 - 24) % 2 ^ 64 ≡ f.sp0 - 24
    at_sp = omega arith

    at_8 : (f.sp0 - 24 + 8) % 2 ^ 64 ≡ f.sp0 - 16
    at_8 = omega arith

    at_16 : (f.sp0 - 24 + 16) % 2 ^ 64 ≡ f.sp0 - 8
    at_16 = omega arith
