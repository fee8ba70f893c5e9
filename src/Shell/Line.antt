-- ===== src/Shell/Line.antt =====
-- A line of text with a cursor, and what the keys mean on it: the specification of `read_cmd`.
use frostbite.Base.{
  length-append, ℕ, ◌+◌, ◌≡◌, refl, Bool, true, false, ◌||◌, List, [], ◌∷◌, ◌++◌, arith, ◌==◌,
  if◌then◌else◌, length,
}
use frostbite.Keyboard.Capture.{ascii_ctrl_c, ascii_ctrl_z}
use frostbite.Shell.{Key, ascii_delete, ascii_escape}
use mathlib.Core.List.{reverse, reverse-cons, append_assoc}

-- A key sequence of which nothing, the escape, or also the character after it was typed.
pub data Pending : Type 0 where
  idle : Pending
  escaped : Pending
  escaped_with : ℕ → Pending

-- The characters before the cursor, the nearest first, and those after it.
pub record Line : Type 0 where
  pub before : List ℕ
  pub after : List ℕ
  pub pending : Pending

unfoldable pub text : List ℕ → List ℕ → List ℕ
text before after = reverse before ++ after

abbrev pub line : List ℕ → List ℕ → Pending → Line
line b a p = record { before = b; after = a; pending = p }

abbrev pub go_right : List ℕ → List ℕ → Line
go_right b [] = line b [] idle
go_right b (c ∷ a) = line (c ∷ b) a idle

abbrev pub go_left : List ℕ → List ℕ → Line
go_left [] a = line [] a idle
go_left (c ∷ b) a = line b (c ∷ a) idle

abbrev pub go : ℕ → List ℕ → List ℕ → Line
go ch b a = if ch == b'C' then go_right b a else if ch == b'D' then go_left b a else line b a idle

abbrev pub backspace : List ℕ → List ℕ → Line
backspace [] a = line [] a idle
backspace (c ∷ b) a = line b a idle

abbrev pub escape : Pending → Pending
escape idle = escaped
escape escaped = escaped
escape (escaped_with c) = escaped_with c

abbrev pub type_on : ℕ → List ℕ → List ℕ → Pending → Line
type_on ch b a idle = line (ch ∷ b) a idle
type_on ch b a escaped = line b a (escaped_with ch)
type_on ch b a (escaped_with c) = if c == b'[' then go ch b a else line b a idle

unfoldable pub type_key : ℕ → Line → Line
type_key ch l =
    if ch == ascii_delete
    then backspace l.before l.after
    else if ch == ascii_escape
    then line l.before l.after (escape l.pending)
    else if ch == ascii_ctrl_c || ch == ascii_ctrl_z
    then l
    else type_on ch l.before l.after l.pending

-- An interrupt empties the line.
abbrev pub interrupt : Bool → Line → Line
interrupt true l = line [] [] l.pending
interrupt false l = l

unfoldable pub type_keys : List Key → Line → Bool × Line
type_keys [] l = (false, l)
type_keys (k ∷ ks) l =
    let rest = type_keys ks (type_key k.ch (interrupt k.interrupted l)) in
    if k.ch == 13 then (true, interrupt k.interrupted l) else rest

pub text-cons : (c : ℕ) (b a : List ℕ) → text (c ∷ b) a ≡ text b (c ∷ a)
unfolding text
text-cons c b a = simp (reverse-cons, append_assoc)

pub length-reverse : (b : List ℕ) → length (reverse b) ≡ length b
length-reverse [] = refl
length-reverse (c ∷ b) =
    rw (reverse-cons c b) (omega (arith, length-append (reverse b) (c ∷ []), length-reverse b))

pub length-text : (b a : List ℕ) → length (text b a) ≡ length b + length a
unfolding text
length-text b a = omega (arith, length-append (reverse b) a, length-reverse b)
