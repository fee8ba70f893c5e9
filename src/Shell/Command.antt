-- ===== src/Shell/Command.antt =====
-- The parts of a command line, `get_cmd_info` of user/shell/shell.c.
pub mod Words
pub mod Parts
pub mod Given
use frostbite.Base.{
  ℕ, zero, suc, ◌+◌, ◌-◌, ◌*◌, ◌/◌, ◌%◌, ◌^◌, ◌≤◌, ◌<◌, ◌≡◌, refl, sym, ap, ◌∙◌, ◌≢◌, ◌⊎◌, inl, inr,
  Bool, true, false, not, ◌&&◌, ◌||◌, Option, none, some, List, [], ◌∷◌, ◌++◌, arith, ◌==◌,
  if◌then◌else◌, ltb, leb, has, length, ℤ, pos, negsuc, eqb_ℤ,
}
use frostbite.Text.{poke}
use frostbite.Shell.{max_cmd_buf_size}

-- The loop over the leading spaces, and the one to the end of the command.
unfoldable pub skip_spaces : ℕ → (ℕ → ℕ) → ℕ → ℕ
skip_spaces zero cmd i = i
skip_spaces (suc n) cmd i =
    let rest = skip_spaces n cmd (i + 1) in if cmd i == b' ' then rest else i

unfoldable pub find_end : ℕ → (ℕ → ℕ) → ℕ → ℕ
find_end zero cmd i = i
find_end (suc n) cmd i =
    let rest = find_end n cmd (i + 1) in if cmd i == b' ' || cmd i == 0 then i else rest

-- The search backwards for the last dot, down to `start`.
unfoldable pub find_ext : (ℕ → ℕ) → ℕ → ℕ → ℕ
find_ext cmd start zero = zero
find_ext cmd start (suc i) =
    let rest = find_ext cmd start i in
    if suc i == start then suc i else if cmd i == b'.' then suc i else rest

-- The loop that ends the arguments with a NUL and collects where they begin.
unfoldable pub split_args : ℕ → (ℕ → ℕ) → ℕ → Bool → (ℕ → ℕ) × List ℕ
split_args zero echo i new_arg = (echo, [])
split_args (suc n) echo i new_arg =
    let gap = split_args n (if new_arg then poke i 0 echo else echo) (i + 1) false in
    let (echo1, args) = split_args n echo (i + 1) true in
    if echo i == 0
    then (echo, [])
    else if echo i == b' '
    then gap
    else (echo1, if new_arg then args else i ∷ args)

-- What `get_cmd_info` leaves in the two buffers and behind its pointers; its result is the number of
-- arguments. Pointers into a buffer are indices. The caller has room for 100 arguments, and the code does not
-- compare their number with it: the list stands for the array as far as there is room.
pub record Command : Type 0 where
  pub cmd : ℕ → ℕ
  pub echo : ℕ → ℕ
  pub cmd_pos : ℕ
  pub ext : Option ℕ
  pub echo_args : List ℕ

-- The buffers and the pointers are not NULL. A string in a buffer is shorter than the buffer, which
-- bounds every loop.
unfoldable pub get_cmd_info : (cmd echo : ℕ → ℕ) → Command
get_cmd_info cmd echo =
    let cmd_pos = skip_spaces max_cmd_buf_size cmd 0 in
    let arg_ptr = find_end max_cmd_buf_size cmd cmd_pos in
    let cmd1 = poke arg_ptr 0 cmd in
    let ext = find_ext cmd1 cmd_pos arg_ptr in
    let (echo1, args) = split_args max_cmd_buf_size (poke arg_ptr 0 echo) (arg_ptr + 1) false in
    record {
      cmd = cmd1;
      echo = echo1;
      cmd_pos = cmd_pos;
      ext = if ext == cmd_pos then none else some ext;
      echo_args = args;
    }
