-- ===== src/Process/Arguments.antt =====
-- The arguments of a program in process/process.c: what exec keeps of them on the kernel heap of the
-- process, and get_proc_data, which reads them and the other data of a process.
pub mod Stored
use frostbite.Base.{
  take, drop, eqb_list, ℕ, zero, suc, ◌+◌, ◌-◌, ◌*◌, ◌/◌, ◌%◌, ◌^◌, ◌≤◌, ◌<◌, ◌≡◌, refl, sym, ap,
  ◌∙◌, ◌≢◌, ◌⊎◌, inl, inr, Bool, true, false, not, ◌&&◌, ◌||◌, Option, none, some, List, [], ◌∷◌,
  ◌++◌, arith, ◌==◌, if◌then◌else◌, ltb, leb, has, length, ℤ, pos, negsuc, eqb_ℤ,
}
use frostbite.Text.{poke}
use frostbite.Text.Str.{str_at, put_chars}
use frostbite.Process.{Process, Kernel, State, set_proc, is, killed}
use frostbite.Process.Table.{get_process}

-- `argc`, and the characters that `args` points to, for one process.
pub record ArgArea : Type 0 where
  pub argc : ℕ
  pub args : ℕ → ℕ

-- The size of the heap of a process, which bounds every string on it.
abbrev pub heap_size : ℕ
heap_size = 2 ^ 21

-- The loop over the arguments from `args[argc]` on: the count, the size with the NULs, and whether it
-- ended at `&`.
unfoldable pub count_args : List (List ℕ) → (argc arg_size : ℕ) → ℕ × (ℕ × Bool)
count_args [] argc arg_size = (argc, (arg_size, false))
count_args (arg ∷ args) argc arg_size =
    let rest = count_args args (argc + 1) (arg_size + (length arg + 1)) in
    if eqb_list arg (b'&' ∷ []) then (argc, (arg_size, true)) else rest

-- The loop that copies the arguments to the heap.
unfoldable pub store_args : ℕ → List (List ℕ) → (ℕ → ℕ) → ℕ → ℕ
store_args place [] heap = heap
store_args place (arg ∷ args) heap =
    store_args (place + (length arg + 1)) args
      (poke (place + length arg) 0 (put_chars place arg heap))

-- `&`: the process in slot `i` becomes a job of its parent, and yields the foreground.
unfoldable pub to_background : ℕ → Kernel → Kernel
to_background i k =
    let p = k.table i in
    let k1 : Kernel = elim (get_process p.ppid k) [
      | none ↦ k
      | some j ↦
          let parent = k.table j in
          if is parent.state killed
          then k
          else let k' = set_proc j (record parent { jobs = parent.jobs + 1 }) k in
            set_proc i (record (k'.table i) { job_spec = parent.jobs + 1 }) k'
    ] in
    let k2 = set_proc i (record (k1.table i) { daemon = true }) k1 in
    elim k2.fg [
      | none ↦ k2
      | some f ↦ if p.pid == (k2.table f).pid then record k2 { fg = none } else k2
    ]

-- The part of exec from the arguments that it is given to the heap, which has `before` on it; the size of
-- the arguments is its last component.
unfoldable pub take_args :
    ℕ → List (List ℕ) → ArgArea → (before : ℕ → ℕ) → Kernel → Kernel × (ArgArea × ℕ)
take_args i args a before k =
    let (argc, (arg_size, amp)) = count_args (drop a.argc args) a.argc 0 in
    (
      if amp then to_background i k else k,
      (record { argc = argc; args = store_args 0 (take argc args) before }, arg_size),
    )

-- The loop of get_proc_data over the arguments, into `args_buf`.
unfoldable pub copy_args : ℕ → (ℕ → ℕ) → ℕ → (ℕ → ℕ) → ℕ × (ℕ → ℕ)
copy_args zero args args_size args_buf = (args_size, args_buf)
copy_args (suc n) args args_size args_buf =
    let arg = str_at heap_size args args_size in
    copy_args n args (args_size + (length arg + 1))
      (poke (args_size + length arg) 0 (put_chars args_size arg args_buf))

-- What is stored through the pointers of get_proc_data.
pub record ProcData : Type 0 where
  pub ppid : ℕ
  pub state : State
  pub job_spec : ℕ
  pub name : List ℕ

-- The data, if there is such a process, the size of the arguments and the buffer for them. None of the
-- pointers is NULL; behind a NULL pointer nothing is stored.
unfoldable pub get_proc_data :
    ℕ → Kernel → (ℕ → ArgArea) → (ℕ → ℕ) → Option ProcData × (ℕ × (ℕ → ℕ))
get_proc_data pid k areas args_buf = elim (get_process pid k) [
  | none ↦ (none, (0, args_buf))
  | some i ↦
      let p = k.table i in
      (
        some (record { ppid = p.ppid; state = p.state; job_spec = p.job_spec; name = p.name }),
        copy_args (areas i).argc (areas i).args 0 args_buf,
      )
]
