-- ===== src/Syscall/Tests.antt =====
-- The theorems on system calls at the sample system.
use frostbite.Base.{
  find_slot, ◌≡◌, refl, arith, pos, ℕ, ◌+◌, ◌*◌, ◌≤◌, ◌≢◌, ◌⊎◌, inr, true, none, some, [], ◌∷◌,
}
use frostbite.Env.{Map, has_hash}
use frostbite.Process.{Kernel}
use frostbite.Syscall.Sleep.{sys_sleep, Wakes, sys_sleep-Wakes}
use frostbite.Syscall.Dispatch.{route, proxy_restore, Serves, Refuses, route-cases}
use frostbite.Syscall.Environment.{Envs, env_in_use, sys_setenv, sys_getenv, sys_getenv-sys_setenv}
use frostbite.Process.Sample.{quiet_frame, system}
use frostbite.Process.Signal.{redirect}
use frostbite.Syscall.{sigproxy_restore}
use frostbite.Syscall.Restore.{with_registers, sigproxy_restore-redirect}

sigproxy_restore-redirect_example :
    let r = sigproxy_restore (with_registers 5 6 (redirect 64 15 4100 quiet_frame)) in
    (r.frame.elr ≡ quiet_frame.elr) × (r.frame.sp0 ≡ quiet_frame.sp0) × (r.x1 ≡ 5) × (r.x8 ≡ 6)
sigproxy_restore-redirect_example =
    sigproxy_restore-redirect 64 15 4100 5 6 quiet_frame (omega arith) (omega arith)

-- A clock that reads ten more after each sleep.
abbrev clock : ℕ → ℕ
clock r = 100 + 10 * r

sys_sleep-Wakes_example :
    (n : ℕ) × (sys_sleep clock 25 ≡ some n) × ((n ≤ 25) × Wakes clock (λ r. omega arith) 125 0 n)
sys_sleep-Wakes_example = sys_sleep-Wakes clock (λ r. omega arith) 25 (omega arith)

route-cases_example :
    ((pos 8 ≡ pos 101) × (route (pos 8) (pos 0) ≡ proxy_restore))
    ⊎ (Serves (pos 8) (pos 0) (route (pos 8) (pos 0))
        ⊎ Refuses (pos 8) (pos 0) (route (pos 8) (pos 0)))
route-cases_example = route-cases (pos 8) (pos 0)

-- The sample system with an environment, which is empty.
abbrev with_env : Kernel
with_env = record system { table = λ j. record (system.table j) { env = 5 } }

abbrev no_env : Map
no_env j = record { key = []; value = []; key_hash = 0 }

first_free : find_slot 101 0 (has_hash 0 no_env) ≢ none
unfolding find_slot
first_free e = cc

env_of_system : env_in_use with_env ≡ some 5
unfolding env_in_use
env_of_system = refl

sys_getenv-sys_setenv_example :
    (envs' : Envs) × (sys_setenv (some (80 ∷ [])) (some (65 ∷ [])) true with_env (λ a. no_env)
      ≡ some (pos 0, envs'))
    × (sys_getenv (80 ∷ []) with_env envs' ≡ some (some (65 ∷ [])))
sys_getenv-sys_setenv_example =
    sys_getenv-sys_setenv 80 [] (65 ∷ []) with_env (λ a. no_env) 5 env_of_system (λ e. omega arith)
      (omega arith) (omega arith) (inr first_free)
