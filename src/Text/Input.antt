-- ===== src/Text/Input.antt =====
-- read_input and scanf of user/lib/flib.c.
pub mod Typed
use frostbite.Base.{
  ℕ, zero, suc, ◌+◌, ◌-◌, ◌*◌, ◌/◌, ◌%◌, ◌^◌, ◌≤◌, ◌<◌, ◌≡◌, refl, sym, ap, ◌∙◌, ◌≢◌, ◌⊎◌, inl, inr,
  Bool, true, false, not, ◌&&◌, ◌||◌, Option, none, some, List, [], ◌∷◌, ◌++◌, arith, ◌==◌,
  if◌then◌else◌, ltb, leb, has, length, ℤ, pos, negsuc, eqb_ℤ,
}
use frostbite.Text.{poke}
use frostbite.Text.Str.{str_at}

abbrev pub max_scan_buf_size : ℕ
max_scan_buf_size = 1024

-- The caller's buffer and the locals of read_input; `out` is what it printed.
pub record Reader : Type 0 where
  pub buf : ℕ → ℕ
  pub shell_echo : ℕ → ℕ
  pub write_count : ℕ
  pub out : List ℕ

abbrev pub show_echo : Reader → Reader
show_echo r = record r { out = r.out ++ str_at 4 r.shell_echo 0 }

abbrev pub echo_char : ℕ → Reader → Reader
echo_char c r = show_echo (record r { shell_echo = poke 0 c r.shell_echo })

abbrev pub echo_chars : (a b c : ℕ) → Reader → Reader
echo_chars a b c r =
    show_echo (record r { shell_echo = poke 2 c (poke 1 b (poke 0 a r.shell_echo)) })

-- The echo buffer gets its NUL back.
abbrev pub end_echo : Reader → Reader
end_echo r = record r { shell_echo = poke 1 0 r.shell_echo }

-- `buf[write_count++] = c`
abbrev pub append : ℕ → Reader → Reader
append c r = record r { buf = poke r.write_count c r.buf; write_count = r.write_count + 1 }

unfoldable pub delete_char : Reader → Reader
delete_char r =
    let r1 = echo_chars 8 32 8 r in
    let r2 = end_echo (if r1.buf (r1.write_count - 1) == 27 then show_echo r1 else r1) in
    if r.write_count == 0
    then r
    else record r2 { buf = poke (r2.write_count - 1) 0 r2.buf; write_count = r2.write_count - 1 }

-- All keys but the enter key. The delete key is 127, as without RPI4.
unfoldable pub read_key : ℕ → Reader → Reader
read_key ch r =
    if ch == b' '
    then (if ltb 0 r.write_count then append 0 (echo_char ch r) else echo_char ch r)
    else if ch == 127
    then delete_char r
    else if ch == 27
    then append ch (end_echo (echo_chars b'^' b'[' 0 r))
    else if ch == 3 || ch == 26
    then r
    else append ch (echo_char ch r)

unfoldable pub enter : Reader → Reader
enter r =
    let r1 = end_echo (echo_chars 13 10 0 r) in record r1 { buf = poke r1.write_count 0 r1.buf }

-- The loop over the keys, on a buffer of `max_size` places: whether it ended, what it left, and the keys
-- that it left. Without more keys it waits.
unfoldable pub read_loop_keys : (max_size : ℕ) → List ℕ → Reader → Bool × (Reader × List ℕ)
read_loop_keys max_size [] r =
    if leb (max_size - 1) r.write_count
    then (true, (record r { buf = poke (max_size - 1) 0 r.buf }, []))
    else (false, (r, []))
read_loop_keys max_size (ch ∷ chs) r =
    let rest = read_loop_keys max_size chs (read_key ch r) in
    if leb (max_size - 1) r.write_count
    then (true, (record r { buf = poke (max_size - 1) 0 r.buf }, ch ∷ chs))
    else if ch == 13
    then (true, (enter r, chs))
    else rest

unfoldable pub read_input : (max_size : ℕ) → List ℕ → (ℕ → ℕ) → Bool × (Reader × List ℕ)
read_input max_size keys buf =
    read_loop_keys max_size keys
      (record { buf = buf; shell_echo = λ j. 0; write_count = 0; out = [] })
