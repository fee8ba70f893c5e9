-- ===== src/Syscall/Environment.antt =====
-- The system calls on the environment, irq/syscall.c. Environments are kept by their address.
use frostbite.Base.{
  eqb_refl, eqb_of_ne, find_slot, ℕ, ◌-◌, ◌≤◌, ◌<◌, ◌≡◌, refl, ap, ◌≢◌, ◌⊎◌, Bool, true, false, not,
  ◌&&◌, Option, none, some, List, ◌∷◌, arith, ◌==◌, if◌then◌else◌, leb, length, ℤ, pos, negsuc,
}
use frostbite.Env
use frostbite.Env.{CString, Map}
use frostbite.Env.Insert.{at-insert}
use frostbite.Process.{Kernel}
use frostbite.Process.Table.{get_process}
use frostbite.Syscall.{current}

abbrev pub Envs : Type 0
Envs = ℕ → Map

abbrev pub max_key_len : ℕ
max_key_len = 64

abbrev pub max_val_len : ℕ
max_val_len = 128

unfoldable pub set_env : ℕ → Map → Envs → Envs
set_env e map envs = λ a. if a == e then map else envs a

-- The address of the environment in use: the process' own, or its parent's. `none` is the NULL
-- dereference where the process has neither an environment nor a parent, `some 0` that there is none.
unfoldable pub env_in_use : Kernel → Option ℕ
env_in_use k =
    let own = (current k).env in
    let inherited : Option ℕ = elim (get_process (current k).ppid k) [
      | none ↦ none
      | some i ↦ some (k.table i).env
    ] in
    if own == 0 then inherited else some own

-- Whether the checks of the arguments pass.
unfoldable pub good_pair : (key value : Option CString) → Bool
good_pair none value = false
good_pair (some key) none = not (length key == 0) && leb (length key) (max_key_len - 1)
good_pair (some key) (some value) =
    leb (length value) (max_val_len - 1)
    && (not (length key == 0) && leb (length key) (max_key_len - 1))

-- The insertion; a NULL value is dereferenced.
unfoldable pub put_env : ℕ → (key value : Option CString) → Envs → Option Envs
put_env e none value envs = none
put_env e (some key) none envs = none
put_env e (some key) (some value) envs = some (set_env e (Env.insert key value (envs e)) envs)

-- The arguments are NULL or strings; `none` is a NULL dereference.
unfoldable pub sys_setenv :
    (key value : Option CString) → (overwrite : Bool) → Kernel → Envs → Option (ℤ × Envs)
sys_setenv key value overwrite k envs =
    if not (good_pair key value) then some (negsuc 0, envs) else elim (env_in_use k) [
      | none ↦ none
      | some e ↦
          let put : Option (ℤ × Envs) = elim (put_env e key value envs) [
            | none ↦ none
            | some envs' ↦ some (pos 0, envs')
          ] in
          if e == 0 then some (negsuc 0, envs) else if overwrite then put else some (pos 0, envs)
    ]

-- What the returned pointer reads: the value, or NULL.
unfoldable pub sys_getenv : CString → Kernel → Envs → Option (Option CString)
sys_getenv key k envs = elim (env_in_use k) [
  | none ↦ none
  | some e ↦
      let found : Option CString = elim (Env.at key (envs e)) [
        | none ↦ none
        | some i ↦ some (envs e i).value
      ] in
      if e == 0 then some none else some found
]

-- The entries whose keys are stored, or -1.
unfoldable pub sys_getfullenv : Kernel → Envs → Option (Option (List ℕ))
sys_getfullenv k envs = elim (env_in_use k) [
  | none ↦ none
  | some e ↦ if e == 0 then some none else some (some (Env.keys (envs e)))
]

unfoldable pub sys_unsetenv : CString → Kernel → Envs → Option (ℤ × Envs)
sys_unsetenv key k envs = elim (env_in_use k) [
  | none ↦ none
  | some e ↦
      if e == 0
      then some (negsuc 0, envs)
      else some (pos 0, set_env e (Env.erase key (envs e)) envs)
]

-- A variable that a process has set is what it reads: sys_setenv of a key of 1 to 63 characters and a
-- value of at most 127 in the environment in use, which has the key or a free entry, succeeds, and
-- sys_getenv then returns the value.
pub sys_getenv-sys_setenv :
    (c : ℕ) (cs value : CString) (k : Kernel) (envs : Envs) (e : ℕ)
    → env_in_use k ≡ some e
    → e ≢ 0
    → length cs < 63
    → length value ≤ 127
    → (Env.at (c ∷ cs) (envs e) ≢ none) ⊎ (find_slot 101 0 (Env.has_hash 0 (envs e)) ≢ none)
    → (envs' : Envs) × (sys_setenv (some (c ∷ cs)) (some value) true k envs ≡ some (pos 0, envs'))
      × (sys_getenv (c ∷ cs) k envs' ≡ some (some value))
unfolding sys_setenv sys_getenv good_pair put_env set_env
sys_getenv-sys_setenv c cs value k envs e place ne short fits room =
    let (i, found, same) = at-insert c cs value (envs e) room in
    let some_env : (e == 0) ≡ false = eqb_of_ne e 0 ne in
    let own : set_env e (Env.insert (c ∷ cs) value (envs e)) envs e
        ≡ Env.insert (c ∷ cs) value (envs e) =
      rw (eqb_refl e) refl in
    let good : good_pair (some (c ∷ cs)) (some value) ≡ true = ground arith in
    (
      set_env e (Env.insert (c ∷ cs) value (envs e)) envs,
      rw (good, place, sys_setenv, some_env) refl,
      rw (place, sys_getenv, some_env, own, found, own) (ap (λ v. some (some v)) same),
    )
