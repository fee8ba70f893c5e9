-- ===== src/Shell/Typing.antt =====
-- Whole runs of `read_cmd`.
use frostbite.Base.{
  ℕ, zero, suc, ◌+◌, ◌≤◌, ◌<◌, ◌≡◌, refl, sym, ap, ◌∙◌, inl, inr, Bool, true, false, not, ◌&&◌,
  ◌||◌, List, [], ◌∷◌, arith, ◌==◌, if◌then◌else◌, ltb, leb, length, if_elim, and_right, Bool-cases,
}
use frostbite.Keyboard.Capture.{ascii_ctrl_c, ascii_ctrl_z}
use frostbite.Shell.{
  read_cmd, new_editor, ascii_delete, ascii_escape, Key, Editor, max_cmd_buf_size, flush, enter_key,
  read_keys,
}
use frostbite.Shell.Line.{
  text, length-text, backspace, type_on, go, go_left, go_right, escaped, escaped_with, idle, Line,
  Pending, line, type_key, type_keys, interrupt,
}
use frostbite.Text.Str.{char_at, str_at, str_at-start, no_nul, fill}
use frostbite.Text.{to_upper}
use frostbite.Shell.Edit.{past_text}
use frostbite.Shell.Keys.{Shows}
use frostbite.Shell.Sequence.{edit_key-Shows}

-- No key is a NUL.
abbrev pub real_keys : List Key → Bool
real_keys [] = true
real_keys (k ∷ ks) = not (k.ch == 0) && real_keys ks

abbrev pub size : Line → ℕ
size l = length l.before + length l.after

flush-Shows :
    (e : Editor) (b a : List ℕ) (p : Pending)
    → Shows e (line b a p)
    → Shows (flush e) (line [] [] p)
unfolding flush fill text to_upper
flush-Shows e b a p s = record {
  held = record {
    chars = λ j. elim (Bool-cases (leb 0 j && ltb j (0 + e.buf_size))) [
      | inl inside ↦ rw inside refl
      | inr out ↦ rw out (s.held.chars j ∙ past_text b a j (ground (arith, s.held.full)))
    ];
    upper = λ j. elim (Bool-cases (leb 0 j && ltb j (0 + e.buf_size))) [
      | inl inside ↦ rw inside to_upper-nul
      | inr out ↦ rw out (s.held.upper j)
    ];
    at_cursor = refl;
    full = refl;
    real = refl;
  };
  typed = s.typed;
}
  where
    to_upper-nul : 0 ≡ to_upper 0
    to_upper-nul = refl

interrupt-Shows :
    (i : Bool) (e : Editor) (l : Line)
    → Shows e l
    → Shows (if i then flush e else e) (interrupt i l)
interrupt-Shows true e l s = flush-Shows e l.before l.after l.pending s
interrupt-Shows false e l s = s

interrupt-size : (i : Bool) (l : Line) → size (interrupt i l) ≤ size l
interrupt-size true l = omega arith
interrupt-size false l = omega arith

enter_key-Shows : (e : Editor) (l : Line) → Shows e l → Shows (enter_key e) l
unfolding enter_key
enter_key-Shows e l s = record { held = s.held; typed = s.typed }

backspace-size : (b a : List ℕ) → size (backspace b a) ≤ length b + length a + 1
backspace-size [] a = omega arith
backspace-size (c ∷ b) a = omega arith

go-size : (ch : ℕ) (b a : List ℕ) → size (go ch b a) ≤ length b + length a + 1
go-size ch b a =
    if_elim (λ r. size r ≤ length b + length a + 1) (ch == b'C') _ _ (λ _. right b a)
      (λ _.
        if_elim (λ r. size r ≤ length b + length a + 1) (ch == b'D') _ _ (λ _. left b a)
          (λ _. omega arith))
  where
    right : (b a : List ℕ) → size (go_right b a) ≤ length b + length a + 1
    right b [] = omega arith
    right b (c ∷ a) = omega arith

    left : (b a : List ℕ) → size (go_left b a) ≤ length b + length a + 1
    left [] a = omega arith
    left (c ∷ b) a = omega arith

type_on-size :
    (ch : ℕ) (b a : List ℕ) (p : Pending) → size (type_on ch b a p) ≤ length b + length a + 1
type_on-size ch b a idle = omega arith
type_on-size ch b a escaped = omega arith
type_on-size ch b a (escaped_with c) =
    if_elim (λ r. size r ≤ length b + length a + 1) (c == b'[') _ _ (λ _. go-size ch b a)
      (λ _. omega arith)

-- A key adds a character at most.
type_key-size : (ch : ℕ) (l : Line) → size (type_key ch l) ≤ size l + 1
unfolding type_key
type_key-size ch l = elim (Bool-cases (ch == ascii_delete)) [
  | inl delete ↦ rw delete (backspace-size l.before l.after)
  | inr d ↦ elim (Bool-cases (ch == ascii_escape)) [
    | inl esc ↦ rw (d, esc) (omega arith)
    | inr n ↦ elim (Bool-cases (ch == ascii_ctrl_c || ch == ascii_ctrl_z)) [
      | inl ctrl ↦ rw (d, n, ctrl) (omega arith)
      | inr plain ↦ rw (d, n, plain) (type_on-size ch l.before l.after l.pending)
    ]
  ]
]

pub read_keys-Shows :
    (keys : List Key) (e : Editor) (l : Line)
    → real_keys keys ≡ true
    → size l + length keys < max_cmd_buf_size
    → Shows e l
    → ((read_keys keys e).0 ≡ (type_keys keys l).0)
      × Shows (read_keys keys e).1 (type_keys keys l).1
      × (size (type_keys keys l).1 < max_cmd_buf_size)
unfolding read_keys type_keys
read_keys-Shows [] e l real fits s = (refl, s, omega arith)
read_keys-Shows (k ∷ ks) e l real fits s =
    let shown = interrupt-Shows k.interrupted e l s in
    let less = interrupt-size k.interrupted l in
    let l0 = interrupt k.interrupted l in
    elim (Bool-cases (k.ch == 13)) [
      | inl enter ↦ rw enter (refl, enter_key-Shows _ _ shown, omega arith)
      | inr other ↦
          let room : (if k.interrupted then flush e else e).buf_size < max_cmd_buf_size =
            omega (arith, shown.held.full, fits) in
          let good : (k.ch == 0) ≡ false = ground arith in
          rw other (
            read_keys-Shows ks _ (type_key k.ch l0) (and_right _ _ real)
              (omega (arith, fits, type_key-size k.ch l0))
              (edit_key-Shows k.ch _ l0 good shown room))
    ]

abbrev pub upper_case : List ℕ → List ℕ
upper_case [] = []
upper_case (c ∷ cs) = to_upper c ∷ upper_case cs

pub char_at-upper_case : (t : List ℕ) (j : ℕ) → char_at (upper_case t) j ≡ to_upper (char_at t j)
unfolding to_upper
char_at-upper_case [] j = refl
char_at-upper_case (c ∷ cs) zero = refl
char_at-upper_case (c ∷ cs) (suc j) = char_at-upper_case cs j

pub no_nul-upper_case : (t : List ℕ) → no_nul t ≡ true → no_nul (upper_case t) ≡ true
unfolding to_upper
no_nul-upper_case [] h = refl
no_nul-upper_case (c ∷ cs) h = ground (arith, no_nul-upper_case cs)

pub length-upper_case : (t : List ℕ) → length (upper_case t) ≡ length t
length-upper_case [] = refl
length-upper_case (c ∷ cs) = ap suc (length-upper_case cs)

new_editor-Shows : Shows new_editor (line [] [] idle)
unfolding text to_upper
new_editor-Shows = record {
  held = record {
    chars = λ j. refl;
    upper = λ j. refl;
    at_cursor = refl;
    full = refl;
    real = refl;
  };
  typed = (refl, refl, refl);
}

-- For fewer than 1024 keys, none of them a NUL, `read_cmd` ends exactly if the keys end the line, and
-- then or while it waits for more keys: the string in the echo buffer is the text of the line that the
-- keys spell on a line with a cursor, the string in the command buffer is that text in upper case, and
-- its size and cursor are those of the line.
pub read_cmd-typed :
    (keys : List Key)
    → real_keys keys ≡ true
    → length keys < max_cmd_buf_size
    → (let e = (read_cmd keys).1 in
        let l = (type_keys keys (line [] [] idle)).1 in
        let spelled = text l.before l.after in
        ((read_cmd keys).0 ≡ (type_keys keys (line [] [] idle)).0)
        × (str_at max_cmd_buf_size e.echo_buf 0 ≡ spelled)
        × (str_at max_cmd_buf_size e.buf 0 ≡ upper_case spelled)
        × (e.buf_size ≡ length spelled)
        × (e.cursor ≡ length l.before))
unfolding read_cmd
read_cmd-typed keys real fits =
    let (done, shown, room) =
      read_keys-Shows keys new_editor (line [] [] idle) real (omega arith) new_editor-Shows in
    let e = (read_keys keys new_editor).1 in
    let l = (type_keys keys (line [] [] idle)).1 in
    let t = text l.before l.after in
    let h = shown.held in
    let short : length t < max_cmd_buf_size = rw (length-text l.before l.after) room in
    (
      done,
      str_at-start t max_cmd_buf_size e.echo_buf h.real h.chars short,
      str_at-start (upper_case t) max_cmd_buf_size e.buf (no_nul-upper_case t h.real)
          (λ j. h.upper j ∙ ap to_upper (h.chars j) ∙ sym (char_at-upper_case t j))
          (rw (length-upper_case t) short),
      rw (length-text l.before l.after) (h.full),
      h.at_cursor,
    )
