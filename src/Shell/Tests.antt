-- ===== src/Shell/Tests.antt =====
-- The theorems on the shell at small inputs.
use frostbite.Base.{
  ℕ, ◌+◌, ◌-◌, ◌≤◌, ◌<◌, ◌≡◌, refl, ◌⊎◌, true, false, none, some, List, [], ◌∷◌, arith, ◌==◌,
  length,
}
use frostbite.Shell.Start.{start_line}
use frostbite.Shell.Start.Allowed.{Allowed, start_line-Allowed}
use frostbite.Text.Str.{char_at, str_at}
use frostbite.Shell.Command.{get_cmd_info}
use frostbite.Shell.Command.Words.{strings}
use frostbite.Shell.Command.Given.{command_line, Given, get_cmd_info-words}
use frostbite.Text.{to_upper}
use frostbite.Shell.{Key, max_cmd_buf_size, read_cmd}
use frostbite.Shell.Line.{type_key, type_keys, text}
use frostbite.Shell.Typing.{read_cmd-typed}

abbrev press : ℕ → Key
press c = record { ch = c; interrupted = false }

-- `x`, an interrupt before `c`, `t`, the left arrow, `a`, `b`, a backspace, enter.
abbrev typed_keys : List Key
typed_keys =
    press b'x'
    ∷ record { ch = b'c'; interrupted = true }
    ∷ press b't'
    ∷ press 27
    ∷ press b'['
    ∷ press b'D'
    ∷ press b'a'
    ∷ press b'b'
    ∷ press 127
    ∷ press 13
    ∷ []

read_cmd-typed_example :
    let e = (read_cmd typed_keys).1 in
    ((read_cmd typed_keys).0 ≡ true)
    × (str_at max_cmd_buf_size e.echo_buf 0 ≡ b'c' ∷ b'a' ∷ b't' ∷ [])
    × (str_at max_cmd_buf_size e.buf 0 ≡ b'C' ∷ b'A' ∷ b'T' ∷ [])
    × (e.buf_size ≡ 3)
    × (e.cursor ≡ 2)
unfolding type_keys text type_key to_upper
read_cmd-typed_example = read_cmd-typed typed_keys refl (omega arith)

-- ` ls.bin -l  x`
abbrev line_rest : List ℕ
line_rest = b' ' ∷ b'-' ∷ b'l' ∷ b' ' ∷ b' ' ∷ b'x' ∷ []

abbrev line_word : List ℕ
line_word = b'l' ∷ b's' ∷ b'.' ∷ b'b' ∷ []

abbrev line_echo : ℕ → ℕ
line_echo j = char_at (command_line 1 line_word line_rest) j

abbrev line_cmd : ℕ → ℕ
line_cmd j = to_upper (line_echo j)

line-Given : Given line_cmd line_echo 1 line_word line_rest
line-Given = record {
  typed = λ j. refl;
  upper = λ j. refl;
  whole = refl;
  gap = refl;
  real = refl;
  begins = refl;
  fits = omega arith;
}

get_cmd_info-words_example :
    let r = get_cmd_info line_cmd line_echo in
    (r.cmd_pos ≡ 1)
    × (str_at max_cmd_buf_size r.cmd 1 ≡ b'L' ∷ b'S' ∷ b'.' ∷ b'B' ∷ [])
    × (strings max_cmd_buf_size r.echo r.echo_args ≡ (b'-' ∷ b'l' ∷ []) ∷ (b'x' ∷ []) ∷ [])
    × (((r.ext ≡ none) × ((j : ℕ) → 1 ≤ j → j < 1 + length line_word → (r.cmd j == b'.') ≡ false))
        ⊎ ((e : ℕ) × (r.ext ≡ some e)
            × (r.cmd (e - 1) ≡ b'.')
            × (1 < e)
            × (e ≤ 1 + length line_word)
            × ((j : ℕ) → e ≤ j → j < 1 + length line_word → (r.cmd j == b'.') ≡ false)))
unfolding to_upper
get_cmd_info-words_example = get_cmd_info-words line-Given

-- `fg` with no arguments.
abbrev fg_text : List ℕ
fg_text = b'f' ∷ b'g' ∷ []

abbrev fg_echo : ℕ → ℕ
fg_echo j = char_at fg_text j

abbrev fg_cmd : ℕ → ℕ
fg_cmd j = to_upper (fg_echo j)

start_line-Allowed_example : Allowed (start_line fg_cmd fg_echo)
start_line-Allowed_example = start_line-Allowed fg_cmd fg_echo
