-- ===== src/Shell/Edit.antt =====
-- The buffers of `read_cmd` hold the line that the keys spell.
use frostbite.Base.{
  ℕ, ◌+◌, ◌-◌, ◌≤◌, ◌<◌, ◌≡◌, refl, sym, ◌∙◌, inl, inr, Bool, true, false, not, ◌&&◌, List, ◌∷◌,
  arith, ◌==◌, if◌then◌else◌, ltb, leb, length, and_right, Bool-cases,
}
use frostbite.Text.{poke, to_upper}
use frostbite.Text.Str.{
  move_chars, str_at, char_at, char_at-past, char_at-append, char_at-inserted, no_nul,
  no_nul-append, str_at-text,
}
use mathlib.Core.List.{reverse}
use frostbite.Shell.{max_cmd_buf_size}
use frostbite.Shell.Line.{text, text-cons, length-text, length-reverse}

-- The buffers with the text before and after the cursor: the echo buffer has the characters as typed and
-- zeros behind them, the command buffer the same in upper case.
pub record Holds (buf echo : ℕ → ℕ) (cursor size : ℕ) (b a : List ℕ) : Type 0 where
  pub chars : (j : ℕ) → echo j ≡ char_at (text b a) j
  pub upper : (j : ℕ) → buf j ≡ to_upper (echo j)
  pub at_cursor : cursor ≡ length b
  pub full : size ≡ length b + length a
  pub real : no_nul (text b a) ≡ true

pub upper-move :
    (to from n : ℕ) (buf echo : ℕ → ℕ)
    → ((j : ℕ) → buf j ≡ to_upper (echo j))
    → (j : ℕ) → move_chars to from n buf j ≡ to_upper (move_chars to from n echo j)
unfolding move_chars
upper-move to from n buf echo h j = elim (Bool-cases (leb to j && ltb j (to + n))) [
  | inl e ↦ rw e (h (from + (j - to)))
  | inr e ↦ rw e (h j)
]

pub upper-poke :
    (i c : ℕ) (buf echo : ℕ → ℕ)
    → ((j : ℕ) → buf j ≡ to_upper (echo j))
    → (j : ℕ) → poke i (to_upper c) buf j ≡ to_upper (poke i c echo j)
unfolding poke
upper-poke i c buf echo h j = elim (Bool-cases (j == i)) [ inl e ↦ rw e refl | inr e ↦ rw e (h j) ]

pub no_nul-text_cons :
    (c : ℕ) (b a : List ℕ) → no_nul (text (c ∷ b) a) ≡ (not (c == 0) && no_nul (text b a))
unfolding text
no_nul-text_cons c b a =
    rw (text-cons c b a, no_nul-append (reverse b) (c ∷ a), no_nul-append (reverse b) a)
      (swap (no_nul (reverse b)) (not (c == 0)) (no_nul a))
  where
    swap : (p q r : Bool) → (p && (q && r)) ≡ (q && (p && r))
    swap p q r = ground arith

-- The string from the cursor on is the text after it.
pub tail-after :
    (echo : ℕ → ℕ) (b a : List ℕ)
    → ((j : ℕ) → echo j ≡ char_at (text b a) j)
    → no_nul (text b a) ≡ true
    → length b + length a < max_cmd_buf_size
    → str_at (max_cmd_buf_size - length b) echo (length b) ≡ a
unfolding text
tail-after echo b a chars real lt =
    let good : no_nul a ≡ true = and_right _ _ (rw (no_nul-append (reverse b) a) at real) in
    let same : (j : ℕ) → j ≤ length a → echo (length b + j) ≡ char_at a j =
      λ j le. chars (length b + j) ∙ (rw (length-reverse b) at (char_at-append (reverse b) a j)) in
    str_at-text a (max_cmd_buf_size - length b) echo (length b) good same (omega arith)

-- The text with `c` put at the cursor, character by character.
char_at-text_cons :
    (b a : List ℕ) (c j : ℕ)
    → char_at (text (c ∷ b) a) j ≡ (
        if ltb j (length b)
        then char_at (text b a) j
        else if j == length b
        then c
        else char_at (text b a) (j - 1))
unfolding text
char_at-text_cons b a c j =
    rw (← text-cons c b a) at (rw (length-reverse b) at (char_at-inserted (reverse b) a c j))

pub past_text : (b a : List ℕ) (j : ℕ) → length b + length a ≤ j → char_at (text b a) j ≡ 0
past_text b a j le = char_at-past (text b a) j (rw (length-text b a) le)

pub insert-chars :
    (echo : ℕ → ℕ) (b a : List ℕ) (c : ℕ)
    → ((j : ℕ) → echo j ≡ char_at (text b a) j)
    → (j : ℕ)
    → poke (length b) c (move_chars (length b + 1) (length b) (length a) echo) j
      ≡ char_at (text (c ∷ b) a) j
unfolding poke move_chars
insert-chars echo b a c chars j = elim (Bool-cases (ltb j (length b))) [
  | inl lt ↦
      let here : (j == length b) ≡ false = ground arith in
      let out : (leb (length b + 1) j && ltb j (length b + 1 + length a)) ≡ false = ground arith in
      rw (char_at-text_cons b a c j, here, out, lt) (chars j)
  | inr ge ↦ elim (Bool-cases (j == length b)) [
    | inl e ↦ rw (char_at-text_cons b a c j, ge, e) refl
    | inr ne ↦ elim (Bool-cases (leb (length b + 1) j && ltb j (length b + 1 + length a))) [
      | inl moved ↦
          let from : length b + (j - (length b + 1)) ≡ j - 1 = ground arith in
          rw (char_at-text_cons b a c j, ge, ne, moved, from) (chars (j - 1))
      | inr out ↦
          let zero_here = chars j ∙ past_text b a j (ground arith) in
          rw (char_at-text_cons b a c j, ge, ne, out)
            (zero_here ∙ sym (past_text b a (j - 1) (ground arith)))
    ]
  ]
]

pub delete-chars :
    (echo : ℕ → ℕ) (b a : List ℕ) (c : ℕ)
    → ((j : ℕ) → echo j ≡ char_at (text (c ∷ b) a) j)
    → (j : ℕ)
    → poke (length b + length a) 0 (move_chars (length b) (length b + 1) (length a) echo) j
      ≡ char_at (text b a) j
unfolding poke move_chars
delete-chars echo b a c chars j = elim (Bool-cases (j == length b + length a)) [
  | inl e ↦ rw e (sym (past_text b a j (ground arith)))
  | inr ne ↦ elim (Bool-cases (leb (length b) j && ltb j (length b + length a))) [
    | inl moved ↦
        let from : length b + 1 + (j - length b) ≡ j + 1 = ground arith in
        let back : j + 1 - 1 ≡ j = omega arith in
        let lt : ltb (j + 1) (length b) ≡ false = ground arith in
        let at : (j + 1 == length b) ≡ false = ground arith in
        rw (ne, moved, from)
          (chars (j + 1) ∙ (rw (lt, at, back) at (char_at-text_cons b a c (j + 1))))
    | inr out ↦ rw (ne, out) (chars j ∙ kept j ne out)
  ]
]
  where
    kept :
        (j : ℕ)
        → (j == length b + length a) ≡ false
        → (leb (length b) j && ltb j (length b + length a)) ≡ false
        → char_at (text (c ∷ b) a) j ≡ char_at (text b a) j
    kept j ne out = elim (Bool-cases (ltb j (length b))) [
      | inl lt ↦ char_at-text_cons b a c j ∙ rw lt refl
      | inr ge ↦
          let size : length (c ∷ b) + length a ≤ j = ground arith in
          past_text (c ∷ b) a j size ∙ sym (past_text b a j (ground arith))
    ]
