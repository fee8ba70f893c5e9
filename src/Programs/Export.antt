-- ===== src/Programs/Export.antt =====
-- The program `export`, user/export/main.c. The answers of the calls getppid, get_pstatus and getenv are
use frostbite.Base.{
  ℕ, zero, suc, ◌+◌, ◌-◌, ◌*◌, ◌/◌, ◌%◌, ◌^◌, ◌≤◌, ◌<◌, ◌≡◌, refl, sym, ap, ◌∙◌, ◌≢◌, ◌⊎◌, inl, inr,
  Bool, true, false, not, ◌&&◌, ◌||◌, Option, none, some, List, [], ◌∷◌, ◌++◌, arith, ◌==◌,
  if◌then◌else◌, ltb, leb, has, length, ℤ, pos, negsuc, eqb_ℤ, drop, take,
}
use frostbite.Text.{find, poke}
use frostbite.Text.Str.{char_at, put_chars, str_at}
-- arguments, the first two as the strings that itoa makes of them.
pub mod Bounds
pub mod Rounds
pub mod Plain

-- A letter, an underscore, or behind the first place a digit.
unfoldable pub is_env_valid : ℕ → ℕ → Bool
is_env_valid ch place =
    leb 48 ch && leb ch 57 && ltb 0 place
    || leb 97 ch && leb ch 122
    || leb 65 ch && leb ch 90
    || ch == b'_'

-- The locals of `evaluate_env`.
pub record Evaluation : Type 0 where
  pub in_pos : ℕ
  pub out_pos : ℕ
  pub out_env_str : ℕ → ℕ

-- The kernel's answers.
pub record Answers : Type 0 where
  pub pid_str : List ℕ
  pub status_str : List ℕ
  pub getenv : List ℕ → Option (List ℕ)

abbrev pub max_env_var_size : ℕ
max_env_var_size = 64

abbrev pub max_env_val_size : ℕ
max_env_val_size = 128

-- The loop over the name of a variable: whether all characters were valid, and how many were.
unfoldable pub nested_name : ℕ → (env_str : ℕ → ℕ) → (env_len in_pos nested_envlen : ℕ) → Bool × ℕ
nested_name zero env_str env_len in_pos nested_envlen = (true, nested_envlen)
nested_name (suc n) env_str env_len in_pos nested_envlen =
    let rest = nested_name n env_str env_len (in_pos + 1) (nested_envlen + 1) in
    if ltb in_pos env_len && not (env_str in_pos == b'$')
    then if is_env_valid (env_str in_pos) nested_envlen then rest else (false, nested_envlen)
    else (true, nested_envlen)

module _ (is_name : Bool) (env_str : ℕ → ℕ) (env_len : ℕ) (answers : Answers) where
  open answers use {pid_str, status_str, getenv}

  abbrev pub maxlen : ℕ
  maxlen = if is_name then max_env_var_size else max_env_val_size

  -- A string is copied as far as it leaves room.
  unfoldable pub paste : List ℕ → Evaluation → Evaluation
  paste str e =
      let len =
        if leb (maxlen - 1) (e.out_pos + length str) then maxlen - 2 - e.out_pos else length str in
      record e {
        out_env_str = put_chars e.out_pos (take len str) e.out_env_str;
        out_pos = e.out_pos + len;
      }

  -- A dollar at the end of the text.
  unfoldable pub last_dollar : Evaluation → Evaluation
  last_dollar e = if is_name then record e { out_pos = 0 } else record e {
    out_env_str = poke e.out_pos (env_str (e.in_pos - 1)) e.out_env_str;
    out_pos = e.out_pos + 1;
  }

  -- What follows a dollar, and whether the loop goes on.
  unfoldable pub nested : Evaluation → Bool × Evaluation
  nested e =
      let (valid, len) = nested_name (env_len - e.in_pos) env_str env_len e.in_pos 0 in
      let e1 : Evaluation = record e { in_pos = e.in_pos + len } in
      if valid
      then (
        true,
        elim (getenv (str_at len env_str e.in_pos)) [ none ↦ e1 | some val ↦ paste val e1 ],
      )
      else (false, record e1 { out_pos = 0 })

  unfoldable pub dollar : Evaluation → Bool × Evaluation
  dollar e0 =
      let e : Evaluation = record e0 { in_pos = e0.in_pos + 1 } in
      if e.in_pos == env_len
      then (false, last_dollar e)
      else if env_str e.in_pos == b'$'
      then (true, record (paste pid_str e) { in_pos = e.in_pos + 1 })
      else if env_str e.in_pos == b'?'
      then (true, record (paste status_str e) { in_pos = e.in_pos + 1 })
      else nested e

  -- One round of the loop.
  unfoldable pub evaluate_char : Evaluation → Bool × Evaluation
  evaluate_char e =
      if leb (maxlen - 1) e.out_pos
      then (false, record e { out_pos = maxlen - 1 })
      else if env_str e.in_pos == b'$'
      then dollar e
      else if is_name && not (is_env_valid (env_str e.in_pos) e.in_pos)
      then (false, record e { out_pos = 0 })
      else (
        true,
        record e {
          out_env_str = poke e.out_pos (env_str e.in_pos) e.out_env_str;
          out_pos = e.out_pos + 1;
          in_pos = e.in_pos + 1;
        },
      )

  -- The loop, and whether it ended: fuel that is used up with text left is a loop that goes on.
  unfoldable pub evaluate_from : ℕ → Evaluation → Bool × Evaluation
  evaluate_from zero e = (leb env_len e.in_pos, e)
  evaluate_from (suc n) e =
      let (more, e1) = evaluate_char e in
      let rest = evaluate_from n e1 in
      if ltb e.in_pos env_len then if more then rest else (true, e1) else (true, e)

  -- The output, ended by a NUL. Each round takes a character, so that `env_len` rounds are enough.
  unfoldable pub evaluate_env : (ℕ → ℕ) → ℕ → ℕ
  evaluate_env out_env_str =
      let start : Evaluation = record { in_pos = 0; out_pos = 0; out_env_str = out_env_str } in
      let e = (evaluate_from env_len start).1 in poke e.out_pos 0 e.out_env_str

-- A call of setenv: the name, the value, and whether it overwrites.
pub record Setting : Type 0 where
  pub name : List ℕ
  pub val : List ℕ
  pub overwrite : Bool

-- The two uses of `evaluate_env`: on the first characters of an argument, and on the text behind `=`.
abbrev pub name_of : Answers → (ℕ → ℕ) → List ℕ → ℕ → List ℕ
name_of answers env_name arg len =
    str_at max_env_var_size (evaluate_env true (char_at arg) len answers env_name) 0

abbrev pub val_of : Answers → (ℕ → ℕ) → List ℕ → List ℕ
val_of answers env_val str =
    str_at max_env_val_size (evaluate_env false (char_at str) (length str) answers env_val) 0

-- What the program does with an argument that is no option; `none` for an invalid identifier. The two
-- local buffers, with what they hold before, are arguments.
unfoldable pub export_name :
    (answers : Answers) (env_name env_val : ℕ → ℕ) → List ℕ → Option Setting
export_name answers env_name env_val arg = elim (find b'=' arg) [
  | pos i ↦
      let name = name_of answers env_name arg i in
      if i == 0
      then none
      else if char_at name 0 == 0
      then none
      else some (record {
        name = name;
        val = val_of answers env_val (drop (i + 1) arg);
        overwrite = true;
      })
  | negsuc m ↦
      let name = name_of answers env_name arg (length arg) in
      if char_at name 0 == 0
      then none
      else some (record { name = name; val = []; overwrite = false })
]

-- Whether the program ends on an option, and its result.
abbrev pub export_option : List ℕ → Option ℕ
export_option [] = none
export_option (c ∷ cs) = if c == b'h' then some 0 else some 1

-- The loop over the arguments: the result, and the calls of setenv; `fails` tells which of them fail.
unfoldable pub export_args :
    (answers : Answers) (env_name env_val : ℕ → ℕ) (fails : Setting → Bool)
    → List (List ℕ)
    → ℕ
    → ℕ × List Setting
export_args answers env_name env_val fails [] ret = (ret, [])
export_args answers env_name env_val fails ([] ∷ args) ret =
    elim (export_name answers env_name env_val []) [
      | none ↦ export_args answers env_name env_val fails args 1
      | some set ↦
          let (result, sets) =
            export_args answers env_name env_val fails args (if fails set then 1 else ret) in
          (result, set ∷ sets)
    ]
export_args answers env_name env_val fails ((c ∷ arg) ∷ args) ret =
    if c == b'-'
    then elim (export_option arg) [
      | some result ↦ (result, [])
      | none ↦ export_args answers env_name env_val fails args ret
    ]
    else elim (export_name answers env_name env_val (c ∷ arg)) [
      | none ↦ export_args answers env_name env_val fails args 1
      | some set ↦
          let (result, sets) =
            export_args answers env_name env_val fails args (if fails set then 1 else ret) in
          (result, set ∷ sets)
    ]
