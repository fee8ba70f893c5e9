-- ===== src/Shell/Sequence.antt =====
-- Key sequences, and every key: what they do to the buffers of `read_cmd` is what they mean on the line.
use frostbite.Base.{
  eqb→eq, ℕ, ◌+◌, ◌-◌, ◌<◌, ◌≡◌, refl, inl, inr, Bool, true, false, ◌||◌, List, [], ◌∷◌, arith,
  ◌==◌, if◌then◌else◌, ltb, if_elim, Bool-cases,
}
use frostbite.Shell.Keys.{
  Typed, Shows, kept_Typed, delete_key-Shows, insert_key-Holds, cleared-Typed,
}
use frostbite.Keyboard.Capture.{ascii_ctrl_c, ascii_ctrl_z}
use frostbite.Shell.{
  Editor, max_cmd_buf_size, ascii_delete, ascii_escape, insert_key, arrow, end_sequence,
  sequence_key, edit_key,
}
use frostbite.Text.{poke}
use frostbite.Shell.Line.{
  Line, Pending, idle, escaped, escaped_with, line, go, go_left, go_right, escape, type_on,
  type_key, text-cons,
}
use frostbite.Shell.Edit.{Holds}

module _ {buf echo : ℕ → ℕ} {cursor size : ℕ} where
  Holds-right :
      (c : ℕ) (b a : List ℕ)
      → Holds buf echo cursor size b (c ∷ a)
      → Holds buf echo (cursor + 1) size (c ∷ b) a
  Holds-right c b a h = record {
    chars = λ j. rw (text-cons c b a) (h.chars j);
    upper = h.upper;
    at_cursor = omega (arith, h.at_cursor);
    full = omega (arith, h.full);
    real = rw (text-cons c b a) (h.real);
  }

  Holds-left :
      (c : ℕ) (b a : List ℕ)
      → Holds buf echo cursor size (c ∷ b) a
      → Holds buf echo (cursor - 1) size b (c ∷ a)
  Holds-left c b a h = record {
    chars = λ j. rw (text-cons c b a) at (h.chars j);
    upper = h.upper;
    at_cursor = omega (arith, h.at_cursor);
    full = omega (arith, h.full);
    real = rw (text-cons c b a) at (h.real);
  }

module _ (ch : ℕ) (e : Editor) where
  -- The state after an arrow key holds `l`, and has its key sequence still.
  abbrev Moved : Line → Type 0
  Moved l =
      let r = (arrow ch e).1 in
      Holds r.buf r.echo_buf r.cursor r.buf_size l.before l.after × (r.key_acc ≡ e.key_acc)

  right-Moved :
      (b a : List ℕ)
      → Holds e.buf e.echo_buf e.cursor e.buf_size b a
      → (ch == b'C') ≡ true
      → Moved (go_right b a)
  unfolding arrow
  right-Moved b [] h right =
      let at_end : ltb e.cursor e.buf_size ≡ false = ground (arith, h.at_cursor, h.full) in
      let no_left : (ch == b'D') ≡ false = ground arith in rw (right, at_end, no_left) (h, refl)
  right-Moved b (c ∷ a) h right =
      let inside : ltb e.cursor e.buf_size ≡ true = ground (arith, h.at_cursor, h.full) in
      rw (right, inside) (Holds-right c b a h, refl)

  left-Moved :
      (b a : List ℕ)
      → Holds e.buf e.echo_buf e.cursor e.buf_size b a
      → (ch == b'C') ≡ false
      → (ch == b'D') ≡ true
      → Moved (go_left b a)
  unfolding arrow
  left-Moved [] a h other left =
      let start : ltb 0 e.cursor ≡ false = ground (arith, h.at_cursor) in
      rw (other, left, start) (h, refl)
  left-Moved (c ∷ b) a h other left =
      let inside : ltb 0 e.cursor ≡ true = ground (arith, h.at_cursor) in
      rw (other, left, inside) (Holds-left c b a h, refl)

  still-Moved :
      (b a : List ℕ)
      → Holds e.buf e.echo_buf e.cursor e.buf_size b a
      → (ch == b'C') ≡ false
      → (ch == b'D') ≡ false
      → Moved (line b a idle)
  unfolding arrow
  still-Moved b a h other neither = rw (other, neither) (h, refl)

  arrow-Moved : (b a : List ℕ) → Holds e.buf e.echo_buf e.cursor e.buf_size b a → Moved (go ch b a)
  arrow-Moved b a h = elim (Bool-cases (ch == b'C')) [
    | inl right ↦ rw right (right-Moved b a h right)
    | inr other ↦ elim (Bool-cases (ch == b'D')) [
      | inl left ↦ rw (other, left) (left-Moved b a h other left)
      | inr neither ↦ rw (other, neither) (still-Moved b a h other neither)
    ]
  ]

end_sequence-Shows :
    (echo : Bool) (e : Editor) (b a : List ℕ)
    → Holds e.buf e.echo_buf e.cursor e.buf_size b a
    → Shows (end_sequence echo e) (line b a idle)
unfolding end_sequence
end_sequence-Shows true e b a h = record { held = h; typed = cleared-Typed e.key_acc }
end_sequence-Shows false e b a h = record { held = h; typed = cleared-Typed e.key_acc }

go-idle : (ch : ℕ) (b a : List ℕ) → go ch b a ≡ line (go ch b a).before (go ch b a).after idle
go-idle ch b a = elim (Bool-cases (ch == b'C')) [
  | inl right ↦ rw right (go_right-idle b a)
  | inr other ↦ elim (Bool-cases (ch == b'D')) [
    | inl left ↦ rw (other, left) (go_left-idle b a)
    | inr neither ↦ rw (other, neither) refl
  ]
]
  where
    go_right-idle :
        (b a : List ℕ) → go_right b a ≡ line (go_right b a).before (go_right b a).after idle
    go_right-idle b [] = refl
    go_right-idle b (c ∷ a) = refl

    go_left-idle : (b a : List ℕ) → go_left b a ≡ line (go_left b a).before (go_left b a).after idle
    go_left-idle [] a = refl
    go_left-idle (c ∷ b) a = refl

sequence_key-Shows :
    (ch : ℕ) (e : Editor) (b a : List ℕ) (p : Pending)
    → (ch == 0) ≡ false
    → Shows e (line b a p)
    → (e.key_acc 0 == ascii_escape) ≡ true
    → Shows (sequence_key ch e) (type_on ch b a p)
unfolding sequence_key poke
sequence_key-Shows ch e b a idle good s begun = absurd (ground (arith, s.typed.0))
sequence_key-Shows ch e b a escaped good s begun =
    rw (s.typed.1) (record { held = s.held; typed = (s.typed.0, refl, s.typed.2, good) })
sequence_key-Shows ch e b a (escaped_with c) good s begun =
    let e1 : Editor = record e { key_acc = poke 2 ch e.key_acc } in
    let (moved, kept) = arrow-Moved ch e1 b a s.held in
    rw (s.typed.1, s.typed.3, s.typed.2)
      (elim (Bool-cases (c == b'[')) [
        | inl bracket ↦
            rw (bracket, go-idle ch b a)
              (if_elim (λ r. Shows r (line (go ch b a).before (go ch b a).after idle))
                (e.key_acc 1 == b'[') _ _
                (λ same.
                  end_sequence-Shows (arrow ch e1).0 (arrow ch e1).1 (go ch b a).before
                    (go ch b a).after moved)
                (λ differs. absurd (ground (arith, s.typed.1))))
        | inr other ↦ rw other (
            if_elim (λ r. Shows r (line b a idle)) (e.key_acc 1 == b'[') _ _
              (λ same. absurd (ground (arith, s.typed.1)))
              (λ differs. record { held = s.held; typed = cleared-Typed _ }))
      ])

keep_key-Shows :
    (ch : ℕ) (e : Editor) (l : Line)
    → ch ≡ ascii_escape
    → Shows e l
    → Shows (record e { key_acc = poke 0 ch e.key_acc }) (line l.before l.after (escape l.pending))
unfolding poke
keep_key-Shows ch e l eq s = record {
  held = s.held;
  typed = escape-Typed l.pending e.key_acc ch eq s.typed;
}
  where
    escape-Typed :
        (p : Pending) (acc : ℕ → ℕ) (ch : ℕ)
        → ch ≡ ascii_escape
        → Typed p acc
        → Typed (escape p) (poke 0 ch acc)
    escape-Typed idle acc ch eq t = (eq, t.1, t.2)
    escape-Typed escaped acc ch eq t = (eq, t.1, t.2)
    escape-Typed (escaped_with c) acc ch eq t = (eq, t.1, t.2, t.3)

pub edit_key-Shows :
    (ch : ℕ) (e : Editor) (l : Line)
    → (ch == 0) ≡ false
    → Shows e l
    → e.buf_size < max_cmd_buf_size
    → Shows (edit_key ch e) (type_key ch l)
unfolding edit_key type_key
edit_key-Shows ch e l good s lt = elim (Bool-cases (ch == ascii_delete)) [
  | inl delete ↦ rw delete (delete_key-Shows e l.before l.after l.pending s lt)
  | inr d ↦ elim (Bool-cases (ch == ascii_escape)) [
    | inl esc ↦ rw (d, esc) (keep_key-Shows ch e l (eqb→eq ch ascii_escape esc) s)
    | inr n ↦ elim (Bool-cases (ch == ascii_ctrl_c || ch == ascii_ctrl_z)) [
      | inl ctrl ↦ rw (d, n, ctrl) s
      | inr plain ↦ rw (d, n, plain) (plain_key-Shows ch e l.before l.after l.pending good s lt)
    ]
  ]
]
  where
    plain_key-Shows :
        (ch : ℕ) (e : Editor) (b a : List ℕ) (p : Pending)
        → (ch == 0) ≡ false
        → Shows e (line b a p)
        → e.buf_size < max_cmd_buf_size
        → Shows
            (if e.key_acc 0 == ascii_escape then sequence_key ch e else insert_key ch e)
            (type_on ch b a p)
    plain_key-Shows ch e b a idle good s lt =
        let (held, kept) = insert_key-Holds ch e b a good s.held lt in
        rw (s.typed.0) (record { held = held; typed = kept_Typed idle _ _ kept s.typed })
    plain_key-Shows ch e b a escaped good s lt =
        let begun : (e.key_acc 0 == ascii_escape) ≡ true = ground (arith, s.typed.0) in
        rw begun (sequence_key-Shows ch e b a escaped good s begun)
    plain_key-Shows ch e b a (escaped_with c) good s lt =
        let begun : (e.key_acc 0 == ascii_escape) ≡ true = ground (arith, s.typed.0) in
        rw begun (sequence_key-Shows ch e b a (escaped_with c) good s begun)
