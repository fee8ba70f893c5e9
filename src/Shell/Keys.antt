-- ===== src/Shell/Keys.antt =====
-- Insertion and deletion in the buffers of `read_cmd`.
use frostbite.Base.{
  ℕ, ◌+◌, ◌-◌, ◌<◌, ◌≡◌, refl, inl, inr, true, false, ◌&&◌, List, [], ◌∷◌, arith, ◌==◌,
  if◌then◌else◌, ltb, leb, length, Bool-cases, and_right,
}
use frostbite.Shell.{
  wipe, drop_sequence, Editor, max_cmd_buf_size, ascii_escape, cursor_string, make_room, insert_key,
  close_gap, erase_last, delete_key,
}
use frostbite.Text.{poke, to_upper}
use frostbite.Text.Str.{move_chars, fill}
use mathlib.Core.Path.{fun_ext}
use frostbite.Shell.Line.{Line, Pending, idle, escaped, escaped_with, line, backspace}
use frostbite.Shell.Edit.{
  Holds, upper-move, upper-poke, no_nul-text_cons, tail-after, insert-chars, delete-chars,
}

move_chars-none : (to from : ℕ) (chars : ℕ → ℕ) → move_chars to from 0 chars ≡ chars
unfolding move_chars
move_chars-none to from chars =
    fun_ext (λ j. let out : (leb to j && ltb j (to + 0)) ≡ false = ground arith in rw out refl)

module _ {buf echo : ℕ → ℕ} {cursor size : ℕ} {b a : List ℕ} where
  Holds-inserted :
      Holds buf echo cursor size b a
      → (c : ℕ) → (c == 0) ≡ false
      → Holds
          (poke cursor (to_upper c) (move_chars (cursor + 1) cursor (length a) buf))
          (poke cursor c (move_chars (cursor + 1) cursor (length a) echo))
          (cursor + 1)
          (size + 1)
          (c ∷ b)
          a
  Holds-inserted h c good = record {
    chars = λ j. rw (h.at_cursor) (insert-chars echo b a c h.chars j);
    upper = upper-poke cursor c _ _ (upper-move (cursor + 1) cursor (length a) buf echo h.upper);
    at_cursor = omega (arith, h.at_cursor);
    full = omega (arith, h.full);
    real = rw (no_nul-text_cons c b a, good) (h.real);
  }

  Holds-deleted :
      (c : ℕ)
      → Holds buf echo cursor size (c ∷ b) a
      → Holds
          (poke (size - 1) 0 (move_chars (cursor - 1) cursor (length a) buf))
          (poke (size - 1) 0 (move_chars (cursor - 1) cursor (length a) echo))
          (cursor - 1)
          (size - 1)
          b
          a
  unfolding to_upper
  Holds-deleted c h =
      let from : cursor ≡ length b + 1 = omega (arith, h.at_cursor) in
      let to : cursor - 1 ≡ length b = omega (arith, h.at_cursor) in
      let last : size - 1 ≡ length b + length a = omega (arith, h.full) in
      record {
        chars = λ j. rw (to, last, from) (delete-chars echo b a c h.chars j);
        upper =
            upper-poke (size - 1) 0 _ _
              (upper-move (cursor - 1) cursor (length a) buf echo h.upper);
        at_cursor = to;
        full = last;
        real = and_right _ _ (rw (no_nul-text_cons c b a) at (h.real));
      }

-- The cells of `key_acc` for the key sequence that was begun.
abbrev pub Typed : Pending → (ℕ → ℕ) → Type 0
Typed idle acc = (acc 0 ≡ 0) × (acc 1 ≡ 0) × (acc 2 ≡ 0)
Typed escaped acc = (acc 0 ≡ ascii_escape) × (acc 1 ≡ 0) × (acc 2 ≡ 0)
Typed (escaped_with c) acc = (acc 0 ≡ ascii_escape) × (acc 1 ≡ c) × (acc 2 ≡ 0) × ((c == 0) ≡ false)

pub record Shows (e : Editor) (l : Line) : Type 0 where
  pub held : Holds e.buf e.echo_buf e.cursor e.buf_size l.before l.after
  pub typed : Typed l.pending e.key_acc

pub cleared-Typed : (acc : ℕ → ℕ) → Typed idle (fill 0 3 0 acc)
unfolding fill
cleared-Typed acc = (refl, refl, refl)

pub insert_key-Holds :
    (ch : ℕ) (e : Editor) (b a : List ℕ)
    → (ch == 0) ≡ false
    → Holds e.buf e.echo_buf e.cursor e.buf_size b a
    → e.buf_size < max_cmd_buf_size
    → (let r = insert_key ch e in
        Holds r.buf r.echo_buf r.cursor r.buf_size (ch ∷ b) a × (r.key_acc ≡ e.key_acc))
unfolding insert_key make_room
insert_key-Holds ch e b a good h lt = elim (Bool-cases (ltb e.cursor e.buf_size)) [
  | inl inside ↦
      let own : cursor_string e ≡ a =
        rw (h.at_cursor) (tail-after e.echo_buf b a h.chars h.real (omega (arith, h.full))) in
      rw (inside, own) (Holds-inserted h ch good, refl)
  | inr at_end ↦
      let empty : length a ≡ 0 = ground (arith, h.at_cursor, h.full) in
      let same = Holds-inserted h ch good in
      rw at_end (rw (empty, move_chars-none, move_chars-none) at same, refl)
]

erase_in-Holds :
    (e : Editor) (c : ℕ) (b a : List ℕ)
    → Holds e.buf e.echo_buf e.cursor e.buf_size (c ∷ b) a
    → e.buf_size < max_cmd_buf_size
    → (let r = erase_last (if ltb e.cursor e.buf_size then close_gap e else e) in
        Holds r.buf r.echo_buf r.cursor r.buf_size b a × (r.key_acc ≡ e.key_acc))
unfolding erase_last close_gap
erase_in-Holds e c b a h lt = elim (Bool-cases (ltb e.cursor e.buf_size)) [
  | inl inside ↦
      let own : cursor_string e ≡ a =
        rw (h.at_cursor) (tail-after e.echo_buf (c ∷ b) a h.chars h.real (omega (arith, h.full))) in
      rw (inside, own) (Holds-deleted c h, refl)
  | inr at_end ↦
      let empty : length a ≡ 0 = ground (arith, h.at_cursor, h.full) in
      let same = Holds-deleted c h in
      rw (at_end) (rw (empty, move_chars-none, move_chars-none) at same, refl)
]

pub kept_Typed : (p : Pending) (f g : ℕ → ℕ) → g ≡ f → Typed p f → Typed p g
kept_Typed p f g e t = rw e t

cleared_by_delete :
    (p : Pending) (acc : ℕ → ℕ)
    → Typed p acc
    → Typed idle (if acc 0 == 0 then acc else fill 0 3 0 acc)
cleared_by_delete idle acc t = rw (t.0) t
cleared_by_delete escaped acc t = rw (t.0) (cleared-Typed acc)
cleared_by_delete (escaped_with c) acc t = rw (t.0) (cleared-Typed acc)

pub delete_key-Shows :
    (e : Editor) (b a : List ℕ) (p : Pending)
    → Shows e (line b a p)
    → e.buf_size < max_cmd_buf_size
    → Shows (delete_key e) (backspace b a)
unfolding delete_key
delete_key-Shows e [] a p s lt =
    let start : (e.cursor == 0) ≡ true = ground (arith, s.held.at_cursor) in
    rw start (record { held = s.held; typed = cleared_by_delete p e.key_acc s.typed })
delete_key-Shows e (c ∷ b) a p s lt =
    let inner : (e.cursor == 0) ≡ false = ground (arith, s.held.at_cursor) in
    let (held, kept) = erase_in-Holds (wipe (drop_sequence e)) c b a s.held lt in
    rw inner (record {
      held = held;
      typed = kept_Typed idle _ _ kept (cleared_by_delete p e.key_acc s.typed);
    })
