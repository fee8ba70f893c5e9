-- ===== src/Shell.antt =====
-- The line editor of the shell, `read_cmd` of user/shell/shell.c.
pub mod Line
pub mod Edit
pub mod Keys
pub mod Sequence
pub mod Typing
pub mod Command
pub mod Start
mod Tests
use frostbite.Base.{
  replicate, ℕ, zero, suc, ◌+◌, ◌-◌, ◌*◌, ◌/◌, ◌%◌, ◌^◌, ◌≤◌, ◌<◌, ◌≡◌, refl, sym, ap, ◌∙◌, ◌≢◌,
  ◌⊎◌, inl, inr, Bool, true, false, not, ◌&&◌, ◌||◌, Option, none, some, List, [], ◌∷◌, ◌++◌, arith,
  ◌==◌, if◌then◌else◌, ltb, leb, has, length, ℤ, pos, negsuc, eqb_ℤ,
}
use frostbite.Keyboard.Capture.{ascii_ctrl_c, ascii_ctrl_z}
use frostbite.Text.{poke, to_upper}
use frostbite.Text.Str.{move_chars, fill, str_at}

abbrev pub max_cmd_buf_size : ℕ
max_cmd_buf_size = 1024

-- The value without RPI4.
abbrev pub ascii_delete : ℕ
ascii_delete = 127

abbrev pub ascii_escape : ℕ
ascii_escape = 27

-- What `getchar` returns, and whether SIGINT had come before it did.
pub record Key : Type 0 where
  pub ch : ℕ
  pub interrupted : Bool

-- The two buffers of the caller and the locals; `out` is what was printed so far.
pub record Editor : Type 0 where
  pub buf : ℕ → ℕ
  pub echo_buf : ℕ → ℕ
  pub shell_echo : ℕ → ℕ
  pub key_acc : ℕ → ℕ
  pub buf_size : ℕ
  pub cursor : ℕ
  pub out : List ℕ

-- `printf("%s", str)`
abbrev pub say : List ℕ → Editor → Editor
say str e = record e { out = e.out ++ str }

-- The string that begins at the cursor.
abbrev pub cursor_string : Editor → List ℕ
cursor_string e = str_at (max_cmd_buf_size - e.cursor) e.echo_buf e.cursor

-- The first `n` characters of the small buffer for the screen.
abbrev pub set_echo : ℕ → ℕ → ℕ → (ℕ → ℕ) → ℕ → ℕ
set_echo a b c echo = poke 2 c (poke 1 b (poke 0 a echo))

abbrev pub say_echo : Editor → Editor
say_echo e = say (str_at 4 e.shell_echo 0) e

-- The flush when an interrupt has come.
unfoldable pub flush : Editor → Editor
flush e = record e {
  buf = fill 0 e.buf_size 0 e.buf;
  echo_buf = fill 0 e.buf_size 0 e.echo_buf;
  buf_size = 0;
  cursor = 0;
}

-- The rest of the line moves one place to the left, on the screen and in the buffers.
unfoldable pub close_gap : Editor → Editor
close_gap e0 =
    let e : Editor = record e0 { shell_echo = set_echo 32 8 0 e0.shell_echo } in
    let split_len = length (cursor_string e) in
    record e {
      out = ((e.out ++ cursor_string e) ++ str_at 4 e.shell_echo 0) ++ replicate split_len 8;
      buf = move_chars (e.cursor - 1) e.cursor split_len e.buf;
      echo_buf = move_chars (e.cursor - 1) e.cursor split_len e.echo_buf;
    }

unfoldable pub erase_last : Editor → Editor
erase_last e = record e {
  shell_echo = poke 1 0 e.shell_echo;
  buf = poke (e.buf_size - 1) 0 e.buf;
  echo_buf = poke (e.buf_size - 1) 0 e.echo_buf;
  buf_size = e.buf_size - 1;
  cursor = e.cursor - 1;
}

-- The backspace key drops a key sequence, and wipes the last character from the screen.
abbrev pub drop_sequence : Editor → Editor
drop_sequence e = record e {
  key_acc = if e.key_acc 0 == 0 then e.key_acc else fill 0 3 0 e.key_acc;
}

abbrev pub wipe : Editor → Editor
wipe e = say_echo (record e { shell_echo = set_echo 8 32 8 e.shell_echo })

unfoldable pub delete_key : Editor → Editor
delete_key e0 =
    let e = drop_sequence e0 in
    let e1 = wipe e in
    if e.cursor == 0 then e else erase_last (if ltb e1.cursor e1.buf_size then close_gap e1 else e1)

-- The switch on the last character of a key sequence.
unfoldable pub arrow : ℕ → Editor → Bool × Editor
arrow ch e =
    if ch == b'C' && ltb e.cursor e.buf_size
    then (true, record e { cursor = e.cursor + 1 })
    else if ch == b'D' && ltb 0 e.cursor
    then (true, record e { cursor = e.cursor - 1 })
    else (false, e)

unfoldable pub end_sequence : Bool → Editor → Editor
end_sequence echo e =
    let e1 : Editor =
      say_echo (record e {
        shell_echo = λ j. if leb 0 j && ltb j 3 then e.key_acc j else e.shell_echo j;
      }) in
    let e2 : Editor = if echo then record e1 { shell_echo = poke 1 0 e1.shell_echo } else e in
    record e2 { key_acc = fill 0 3 0 e.key_acc }

-- A character after an escape.
unfoldable pub sequence_key : ℕ → Editor → Editor
sequence_key ch e =
    let i = if e.key_acc 1 == 0 then 1 else if e.key_acc 2 == 0 then 2 else 3 in
    let e1 : Editor = if ltb i 3 then record e { key_acc = poke i ch e.key_acc } else e in
    let (echo, e2) = arrow (e1.key_acc 2) e1 in
    if ltb i 2
    then e1
    else if e1.key_acc 1 == b'['
    then end_sequence echo e2
    else record e1 { key_acc = fill 0 3 0 e1.key_acc }

-- The rest of the line moves one place to the right.
unfoldable pub make_room : Editor → Editor
make_room e =
    let split_len = length (cursor_string e) in
    record e {
      out = (e.out ++ cursor_string e) ++ replicate split_len 8;
      buf = move_chars (e.cursor + 1) e.cursor split_len e.buf;
      echo_buf = move_chars (e.cursor + 1) e.cursor split_len e.echo_buf;
    }

-- An ordinary character.
unfoldable pub insert_key : ℕ → Editor → Editor
insert_key ch e0 =
    let e : Editor = say_echo (record e0 { shell_echo = poke 0 ch e0.shell_echo }) in
    let e1 = if ltb e.cursor e.buf_size then make_room e else e in
    record e1 {
      buf = poke e1.cursor (to_upper ch) e1.buf;
      echo_buf = poke e1.cursor ch e1.echo_buf;
      buf_size = e1.buf_size + 1;
      cursor = e1.cursor + 1;
    }

-- All keys but the enter key.
unfoldable pub edit_key : ℕ → Editor → Editor
edit_key ch e =
    if ch == ascii_delete
    then delete_key e
    else if ch == ascii_escape
    then record e { key_acc = poke 0 ch e.key_acc }
    else if ch == ascii_ctrl_c || ch == ascii_ctrl_z
    then e
    else if e.key_acc 0 == ascii_escape
    then sequence_key ch e
    else insert_key ch e

unfoldable pub enter_key : Editor → Editor
enter_key e =
    let e1 : Editor = say_echo (record e { shell_echo = set_echo 13 10 0 e.shell_echo }) in
    record e1 { shell_echo = poke 1 0 e1.shell_echo }

-- The loop over the keys, and whether the enter key ended it; otherwise it waits for more keys.
unfoldable pub read_keys : List Key → Editor → Bool × Editor
read_keys [] e = (false, e)
read_keys (k ∷ ks) e0 =
    let e = if k.interrupted then flush e0 else e0 in
    let rest = read_keys ks (edit_key k.ch e) in if k.ch == 13 then (true, enter_key e) else rest

abbrev pub new_editor : Editor
new_editor = record {
  buf = λ j. 0;
  echo_buf = λ j. 0;
  shell_echo = λ j. 0;
  key_acc = λ j. 0;
  buf_size = 0;
  cursor = 0;
  out = [];
}

-- On the cleared buffers that the loop of the shell passes.
unfoldable pub read_cmd : List Key → Bool × Editor
read_cmd keys = read_keys keys new_editor
