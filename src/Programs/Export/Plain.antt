-- ===== src/Programs/Export/Plain.antt =====
-- `evaluate_env` copies a text without variables, as far as its output has room.
use frostbite.Base.{
  ℕ, zero, suc, ◌+◌, ◌-◌, ◌≤◌, ◌<◌, ◌≡◌, refl, sym, ap, ◌∙◌, inl, inr, Bool, true, false, not, ◌&&◌,
  List, [], ◌∷◌, arith, ◌==◌, if◌then◌else◌, ltb, leb, length, and_right, eqb→eq, Bool-cases,
  and_left, take,
}
use frostbite.Programs.Export.Bounds.{length-take_le}
use frostbite.Text.{poke}
use frostbite.Text.Str.{char_at, char_at-past, no_nul, str_at, str_at-text}
use frostbite.Programs.Export.{
  Evaluation, Answers, maxlen, is_env_valid, evaluate_char, evaluate_from, evaluate_env,
}

abbrev plain_char : Bool → ℕ → ℕ → Bool
plain_char is_name c place =
    not (c == b'$') && (if is_name then is_env_valid c place else not (c == 0))

-- A text without dollar and NUL; for a name, of characters that are valid at their place.
abbrev pub plain_from : Bool → ℕ → List ℕ → Bool
plain_from is_name place [] = true
plain_from is_name place (c ∷ cs) = plain_char is_name c place && plain_from is_name (place + 1) cs

plain_char-nul :
    (is_name : Bool) (c place : ℕ) → plain_char is_name c place ≡ true → (c == 0) ≡ false
unfolding is_env_valid
plain_char-nul true c place h = ground arith
plain_char-nul false c place h = ground arith

plain_char-not_dollar :
    (is_name : Bool) (c place : ℕ) → plain_char is_name c place ≡ true → (c == b'$') ≡ false
plain_char-not_dollar is_name c place h = ground arith

plain_char-valid :
    (is_name : Bool) (c place : ℕ)
    → plain_char is_name c place ≡ true
    → (is_name && not (is_env_valid c place)) ≡ false
plain_char-valid true c place h = ground arith
plain_char-valid false c place h = refl

plain_from-no_nul :
    (is_name : Bool) (place : ℕ) (t : List ℕ) → plain_from is_name place t ≡ true → no_nul t ≡ true
plain_from-no_nul is_name place [] h = refl
plain_from-no_nul is_name place (c ∷ cs) h =
    rw (plain_char-nul is_name c place (and_left (plain_char is_name c place) _ h))
      (plain_from-no_nul is_name (place + 1) cs (and_right (plain_char is_name c place) _ h))

plain_from-char_at :
    (is_name : Bool) (place : ℕ) (t : List ℕ) (j : ℕ)
    → plain_from is_name place t ≡ true
    → j < length t
    → plain_char is_name (char_at t j) (place + j) ≡ true
plain_from-char_at is_name place [] j h lt = absurd (omega arith)
plain_from-char_at is_name place (c ∷ cs) zero h lt =
    let e : place + 0 ≡ place = omega arith in rw e (and_left (plain_char is_name c place) _ h)
plain_from-char_at is_name place (c ∷ cs) (suc j) h lt =
    let e : place + suc j ≡ place + 1 + j = omega arith in
    rw e (
      plain_from-char_at is_name (place + 1) cs j (and_right (plain_char is_name c place) _ h)
        (omega arith))

length-take : (n : ℕ) (t : List ℕ) → n ≤ length t → length (take n t) ≡ n
length-take zero t le = refl
length-take (suc n) [] le = absurd (omega arith)
length-take (suc n) (c ∷ cs) le = ap suc (length-take n cs (omega arith))

take-all : (n : ℕ) (t : List ℕ) → length t ≤ n → take n t ≡ t
take-all zero [] le = refl
take-all zero (c ∷ cs) le = absurd (omega arith)
take-all (suc n) [] le = refl
take-all (suc n) (c ∷ cs) le = ap (λ u. c ∷ u) (take-all n cs (omega arith))

char_at-take : (n : ℕ) (t : List ℕ) (j : ℕ) → j < n → char_at (take n t) j ≡ char_at t j
char_at-take zero t j lt = absurd (omega arith)
char_at-take (suc n) [] j lt = refl
char_at-take (suc n) (c ∷ cs) zero lt = refl
char_at-take (suc n) (c ∷ cs) (suc j) lt = char_at-take n cs j (omega arith)

no_nul-take : (n : ℕ) (t : List ℕ) → no_nul t ≡ true → no_nul (take n t) ≡ true
no_nul-take zero t h = refl
no_nul-take (suc n) [] h = refl
no_nul-take (suc n) (c ∷ cs) h = ground (arith, no_nul-take n cs)

module _ (is_name : Bool) (t : List ℕ) (answers : Answers) where
  abbrev last : ℕ
  last = maxlen is_name (char_at t) (length t) answers - 1

  -- The first characters were copied.
  record Copied (e : Evaluation) : Type 0 where
    level : e.in_pos ≡ e.out_pos
    in_text : e.out_pos ≤ length t
    in_room : e.out_pos ≤ last
    chars : (j : ℕ) → j < e.out_pos → e.out_env_str j ≡ char_at t j

  -- As many were copied as the text has and the output takes.
  abbrev Ended : Evaluation → Type 0
  Ended e =
      (e.out_pos ≡ length (take last t)) × ((j : ℕ) → j < e.out_pos → e.out_env_str j ≡ char_at t j)

  Copied-all : (e : Evaluation) → Copied e → length t ≤ e.in_pos → Ended e
  Copied-all e c le =
      let whole : take last t ≡ t = take-all last t (omega (arith, c.level, c.in_room)) in
      (rw whole (omega (arith, c.level, c.in_text)), c.chars)

  evaluate_char-plain :
      (e : Evaluation)
      → plain_char is_name (char_at t e.in_pos) e.in_pos ≡ true
      → leb last e.out_pos ≡ false
      → evaluate_char is_name (char_at t) (length t) answers e ≡ (
        true,
        record e {
          out_env_str = poke e.out_pos (char_at t e.in_pos) e.out_env_str;
          out_pos = e.out_pos + 1;
          in_pos = e.in_pos + 1;
        },
      )
  unfolding evaluate_char
  evaluate_char-plain e plain room =
      let no_dollar : (char_at t e.in_pos == b'$') ≡ false =
        plain_char-not_dollar is_name _ e.in_pos plain in
      let valid : (is_name && not (is_env_valid (char_at t e.in_pos) e.in_pos)) ≡ false =
        plain_char-valid is_name _ e.in_pos plain in
      rw (room, no_dollar, valid) refl

  next-Copied :
      (e : Evaluation)
      → Copied e
      → e.in_pos < length t
      → leb last e.out_pos ≡ false
      → Copied (record e {
        out_env_str = poke e.out_pos (char_at t e.in_pos) e.out_env_str;
        out_pos = e.out_pos + 1;
        in_pos = e.in_pos + 1;
      })
  unfolding poke
  next-Copied e c lt room = record {
    level = omega (arith, c.level);
    in_text = omega (arith, c.level);
    in_room = ground (arith, room);
    chars = λ j less. elim (Bool-cases (j == e.out_pos)) [
      | inl here ↦ rw (here, c.level) (ap (char_at t) (sym (eqb→eq j e.out_pos here)))
      | inr before ↦ rw before (c.chars j (ground arith))
    ];
  }

  evaluate_char-full :
      (e : Evaluation)
      → leb last e.out_pos ≡ true
      → evaluate_char is_name (char_at t) (length t) answers e
        ≡ (false, record e { out_pos = last })
  unfolding evaluate_char
  evaluate_char-full e full = rw full refl

  full-Ended :
      (e : Evaluation) → Copied e → leb last e.out_pos ≡ true → Ended (record e { out_pos = last })
  full-Ended e c full =
      let reached : last ≤ e.out_pos = ground arith in
      (sym (length-take last t (omega (arith, c.in_text))), λ j lt. c.chars j (omega arith))

  evaluate_from-Ended :
      (n : ℕ) (e : Evaluation)
      → plain_from is_name 0 t ≡ true
      → Copied e
      → length t ≤ e.in_pos + n
      → Ended (evaluate_from is_name (char_at t) (length t) answers n e).1
  unfolding evaluate_from
  evaluate_from-Ended zero e plain c enough = Copied-all e c (omega arith)
  evaluate_from-Ended (suc n) e plain c enough = elim (Bool-cases (ltb e.in_pos (length t))) [
    | inr past ↦ rw past (Copied-all e c (ground arith))
    | inl left ↦ elim (Bool-cases (leb last e.out_pos)) [
      | inl full ↦ rw (left, evaluate_char-full e full) (full-Ended e c full)
      | inr room ↦
          let here : 0 + e.in_pos ≡ e.in_pos = omega arith in
          let ok = rw (here) at (plain_from-char_at is_name 0 t e.in_pos plain (ground arith)) in
          rw (left, evaluate_char-plain e ok room)
            (evaluate_from-Ended n _ plain (next-Copied e c (ground arith) room) (omega arith))
    ]
  ]

  -- A text without dollar and NUL, which for a name has only characters that are valid at their place, is
  -- copied by `evaluate_env`, and cut to 63 characters for a name and to 127 for a value.
  pub evaluate_env-plain :
      (out0 : ℕ → ℕ)
      → plain_from is_name 0 t ≡ true
      → str_at (last + 1) (evaluate_env is_name (char_at t) (length t) answers out0) 0 ≡ take last t
  unfolding evaluate_env poke
  evaluate_env-plain out0 plain =
      let start : Evaluation = record { in_pos = 0; out_pos = 0; out_env_str = out0 } in
      let e = (evaluate_from is_name (char_at t) (length t) answers (length t) start).1 in
      let copied : Copied start = record {
        level = refl;
        in_text = omega arith;
        in_room = omega arith;
        chars = λ j lt. absurd (omega arith);
      } in
      let (size, chars) = evaluate_from-Ended (length t) start plain copied (omega arith) in
      let short : length (take last t) ≤ last = length-take_le last t in
      str_at-text (take last t) (last + 1) _ 0
        (no_nul-take last t (plain_from-no_nul is_name 0 t plain))
        (λ j le.
          let here : 0 + j ≡ j = omega arith in
          rw here (elim (Bool-cases (j == e.out_pos)) [
            | inl end ↦ rw end (sym (char_at-past (take last t) j (ground (arith, size))))
            | inr before ↦ rw before (
                chars j (ground (arith, size))
                ∙ sym (char_at-take last t j (ground (arith, size, short))))
          ]))
        (omega arith)
