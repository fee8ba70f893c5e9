-- ===== src/Syscall/Restore.antt =====
-- The return from a signal handler.
use frostbite.Base.{ℕ, ◌+◌, ◌-◌, ◌%◌, ◌^◌, ◌≤◌, ◌<◌, ◌≡◌, refl, arith, ◌==◌, if◌then◌else◌}
use frostbite.Process.{Frame}
use frostbite.Process.Signal.{redirect}
use frostbite.Syscall.{sigproxy_restore}

-- The stack when the proxy handler asks for the way back: it has put its x1 and x8 in place of the
-- first two words, and the user code has kept the third.
abbrev pub with_registers : (x1 x8 : ℕ) → Frame → Frame
with_registers x1 x8 f = record f {
  stack = λ a. if a == f.sp0 then x1 else if a == (f.sp0 + 8) % 2 ^ 64 then x8 else f.stack a;
}

-- The way to a signal handler and back: the interrupted program counter and the stack pointer are
-- restored, and so are the registers that the proxy handler has saved.
pub sigproxy_restore-redirect :
    (proxy signal handler x1 x8 : ℕ) (f : Frame)
    → 24 ≤ f.sp0
    → f.sp0 < 2 ^ 64
    → let r = sigproxy_restore (with_registers x1 x8 (redirect proxy signal handler f)) in
      (r.frame.elr ≡ f.elr) × (r.frame.sp0 ≡ f.sp0) × (r.x1 ≡ x1) × (r.x8 ≡ x8)
unfolding sigproxy_restore redirect
sigproxy_restore-redirect proxy signal handler x1 x8 f room fits =
    rw (at_sp, at_8, at_16, at_24) (ground arith, refl, ground arith, ground arith)
  where
    at_sp : (f.sp0 + 2 ^ 64 - 24) % 2 ^ 64 ≡ f.sp0 - 24
    at_sp = omega arith

    at_8 : (f.sp0 - 24 + 8) % 2 ^ 64 ≡ f.sp0 - 16
    at_8 = omega arith

    at_16 : (f.sp0 - 24 + 16) % 2 ^ 64 ≡ f.sp0 - 8
    at_16 = omega arith

    at_24 : (f.sp0 - 24 + 24) % 2 ^ 64 ≡ f.sp0
    at_24 = omega arith
