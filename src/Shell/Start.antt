-- ===== src/Shell/Start.antt =====
-- The main loop of the shell, user/shell/main.c, from a command line that was read to the program that is
-- started for it.
pub mod Allowed
use frostbite.Base.{
  eqb_list, take, ℕ, zero, suc, ◌+◌, ◌-◌, ◌*◌, ◌/◌, ◌%◌, ◌^◌, ◌≤◌, ◌<◌, ◌≡◌, refl, sym, ap, ◌∙◌,
  ◌≢◌, ◌⊎◌, inl, inr, Bool, true, false, not, ◌&&◌, ◌||◌, Option, none, some, List, [], ◌∷◌, ◌++◌,
  arith, ◌==◌, if◌then◌else◌, ltb, leb, has, length, ℤ, pos, negsuc, eqb_ℤ,
}
use frostbite.Text.{poke}
use frostbite.Text.Str.{str_at, char_at, put_chars}
use frostbite.Shell.{max_cmd_buf_size}
use frostbite.Shell.Command.{Command, get_cmd_info}

-- `memcmp` of the characters from `i` on with those of a string from `j` on is 0.
unfoldable pub same_chars : ℕ → (ℕ → ℕ) → ℕ → List ℕ → ℕ → Bool
same_chars zero chars i str j = true
same_chars (suc n) chars i str j =
    chars i == char_at str j && same_chars n chars (i + 1) str (j + 1)

abbrev pub dot_bin : List ℕ
dot_bin = b'.' ∷ b'B' ∷ b'I' ∷ b'N' ∷ []

abbrev pub bin : List ℕ
bin = b'B' ∷ b'I' ∷ b'N' ∷ []

abbrev pub init_bin : List ℕ
init_bin = b'I' ∷ b'N' ∷ b'I' ∷ b'T' ∷ dot_bin

abbrev pub login_bin : List ℕ
login_bin = b'L' ∷ b'O' ∷ b'G' ∷ b'I' ∷ b'N' ∷ dot_bin

abbrev pub fg_bin : List ℕ
fg_bin = b'F' ∷ b'G' ∷ dot_bin

abbrev pub bg_bin : List ℕ
bg_bin = b'B' ∷ b'G' ∷ dot_bin

abbrev pub jobctl_bin : List ℕ
jobctl_bin = b'J' ∷ b'O' ∷ b'B' ∷ b'C' ∷ b'T' ∷ b'L' ∷ dot_bin

-- What becomes of the line: an error message, or the name of the program to open, fork and run, with its
-- arguments as places in the echo buffer, and whether it runs in the background.
pub data Start : Type 0 where
  not_executable : Start
  not_permitted : Start
  starts : (name : List ℕ) (args : List ℕ) (background : Bool) → Start

abbrev pub command_at : (ℕ → ℕ) → ℕ → List ℕ
command_at cmd cmd_pos = str_at max_cmd_buf_size cmd cmd_pos

-- A command without extension gets `.BIN` and a NUL, which the code writes behind the buffer if the command
-- line ends with its command and has more than 1019 characters.
unfoldable pub add_ext : (ℕ → ℕ) → ℕ → ℕ → ℕ
add_ext cmd cmd_pos =
    let cmd_end = cmd_pos + length (command_at cmd cmd_pos) in
    poke (cmd_end + 4) 0 (put_chars cmd_end dot_bin cmd)

unfoldable pub forbidden : (ℕ → ℕ) → ℕ → Bool
forbidden cmd cmd_pos =
    let n = length (command_at cmd cmd_pos) in
    same_chars n cmd cmd_pos init_bin 0 || same_chars n cmd cmd_pos login_bin 0

unfoldable pub is_job_control : (ℕ → ℕ) → ℕ → Bool
is_job_control cmd cmd_pos = same_chars 6 cmd cmd_pos fg_bin 0 || same_chars 6 cmd cmd_pos bg_bin 0

-- `args[1]` becomes the command itself, and `args[0]` too if there are no arguments.
abbrev pub control_args : ℕ → List ℕ → List ℕ
control_args cmd_pos [] = cmd_pos ∷ cmd_pos ∷ []
control_args cmd_pos (a ∷ []) = a ∷ cmd_pos ∷ []
control_args cmd_pos (a ∷ b ∷ args) = a ∷ cmd_pos ∷ args

-- The last argument is `&`.
unfoldable pub in_background : (ℕ → ℕ) → List ℕ → Bool
in_background echo [] = false
in_background echo (a ∷ []) = eqb_list (str_at max_cmd_buf_size echo a) (b'&' ∷ [])
in_background echo (a ∷ b ∷ args) = in_background echo (b ∷ args)

-- The checks on a command with its extension, and the command that stands for `fg` and `bg`.
unfoldable pub start_command : (cmd echo : ℕ → ℕ) → (cmd_pos : ℕ) → List ℕ → Start
start_command cmd echo cmd_pos args =
    let jobctl = poke (cmd_pos + 10) 0 (put_chars cmd_pos jobctl_bin cmd) in
    let control = control_args cmd_pos args in
    let n = length args in
    if forbidden cmd cmd_pos
    then not_permitted
    else if is_job_control cmd cmd_pos
    then starts (command_at jobctl cmd_pos) control (in_background echo (take n control))
    else starts (command_at cmd cmd_pos) args (in_background echo args)

unfoldable pub start_line : (cmd echo : ℕ → ℕ) → Start
start_line cmd echo =
    let c = get_cmd_info cmd echo in
    elim c.ext [
      | none ↦ start_command (add_ext c.cmd c.cmd_pos) c.echo c.cmd_pos c.echo_args
      | some ext ↦
          if same_chars 3 c.cmd ext bin 0
          then start_command c.cmd c.echo c.cmd_pos c.echo_args
          else not_executable
    ]
