-- ===== src/Programs/Export/Bounds.antt =====
-- `evaluate_env` stays within its output buffer, and its loop ends.
use frostbite.Base.{
  eqb_refl, ℕ, zero, suc, ◌+◌, ◌-◌, ◌≤◌, ◌<◌, ◌≡◌, refl, inl, inr, Bool, false, ◌&&◌, Option, none,
  some, List, [], ◌∷◌, arith, ◌==◌, ltb, leb, length, Bool-cases, if_elim, take,
}
use frostbite.Text.{poke}
use frostbite.Text.Str.{put_chars}
use frostbite.Programs.Export.{
  Evaluation, Answers, maxlen, nested_name, paste, last_dollar, nested, dollar, evaluate_char,
  evaluate_from, evaluate_env,
}

pub length-take_le : (n : ℕ) (xs : List ℕ) → length (take n xs) ≤ n
length-take_le zero xs = omega arith
length-take_le (suc n) [] = omega arith
length-take_le (suc n) (x ∷ xs) = omega (arith, length-take_le n xs)

module _ (is_name : Bool) (env_str : ℕ → ℕ) (env_len : ℕ) (answers : Answers) (out0 : ℕ → ℕ) where
  abbrev last : ℕ
  last = maxlen is_name env_str env_len answers - 1

  -- The output ends within the buffer, and nothing was written to its last place or behind it.
  record Safe (e : Evaluation) : Type 0 where
    ends : e.out_pos ≤ last
    kept : (j : ℕ) → last ≤ j → e.out_env_str j ≡ out0 j

  poke-Safe :
      (e : Evaluation) (c k : ℕ)
      → Safe e
      → e.out_pos < last
      → Safe (record e {
        out_env_str = poke e.out_pos c e.out_env_str;
        out_pos = e.out_pos + 1;
        in_pos = k;
      })
  unfolding poke
  poke-Safe e c k s room = record {
    ends = omega arith;
    kept = λ j le. let other : (j == e.out_pos) ≡ false = ground arith in rw other (s.kept j le);
  }

  moved-Safe : (e : Evaluation) (k : ℕ) → Safe e → Safe (record e { in_pos = k })
  moved-Safe e k s = record { ends = s.ends; kept = s.kept }

  emptied-Safe : (e : Evaluation) (k : ℕ) → Safe e → Safe (record e { in_pos = k; out_pos = 0 })
  emptied-Safe e k s = record { ends = omega arith; kept = s.kept }

  room_left : 1 < maxlen is_name env_str env_len answers
  room_left = if_elim (λ n. 1 < n) is_name _ _ (λ _. omega arith) (λ _. omega arith)

  taken-Safe :
      (n : ℕ) (str : List ℕ) (e : Evaluation)
      → Safe e
      → e.out_pos + n ≤ last
      → Safe (record e {
        out_env_str = put_chars e.out_pos (take n str) e.out_env_str;
        out_pos = e.out_pos + n;
      })
  unfolding put_chars
  taken-Safe n str e s room = record {
    ends = room;
    kept = λ j le.
        let short = length-take_le n str in
        let out : (leb e.out_pos j && ltb j (e.out_pos + length (take n str))) ≡ false =
          ground (arith, short, room, le) in
        rw out (s.kept j le);
  }

  paste-Safe :
      (str : List ℕ) (e : Evaluation)
      → Safe e
      → e.out_pos < last
      → Safe (paste is_name env_str env_len answers str e)
  unfolding paste
  paste-Safe str e s room = elim (Bool-cases (leb last (e.out_pos + length str))) [
    | inl long ↦
        rw long
          (taken-Safe (maxlen is_name env_str env_len answers - 2 - e.out_pos) str e s (cut room))
    | inr short ↦ rw short (taken-Safe (length str) str e s (ground arith))
  ]
    where
      cut :
          e.out_pos < last
          → e.out_pos + (maxlen is_name env_str env_len answers - 2 - e.out_pos) ≤ last
      cut room = omega (arith, room_left)

  last_dollar-Safe :
      (e : Evaluation)
      → Safe e
      → e.out_pos < last
      → Safe (last_dollar is_name env_str env_len answers e)
  unfolding last_dollar
  last_dollar-Safe e s room =
      if_elim Safe is_name _ _ (λ _. emptied-Safe e e.in_pos s) (λ _. poke-Safe e _ e.in_pos s room)

  nested-Safe :
      (e : Evaluation)
      → Safe e
      → e.out_pos < last
      → Safe (nested is_name env_str env_len answers e).1
  unfolding nested
  nested-Safe e s room =
      if_elim (λ (r : Bool × Evaluation). Safe r.1)
        (nested_name (env_len - e.in_pos) env_str env_len e.in_pos 0).0 _ _
        (λ _. pasted (answers.getenv _) _ s) (λ _. emptied-Safe e _ s)
    where
      pasted :
          (val : Option (List ℕ)) (k : ℕ)
          → Safe e
          → Safe (elim val [
            | none ↦ record e { in_pos = k }
            | some v ↦ paste is_name env_str env_len answers v (record e { in_pos = k })
          ])
      pasted none k s = moved-Safe e k s
      pasted (some v) k s = paste-Safe v (record e { in_pos = k }) (moved-Safe e k s) room

  dollar-Safe :
      (e : Evaluation)
      → Safe e
      → e.out_pos < last
      → Safe (dollar is_name env_str env_len answers e).1
  unfolding dollar
  dollar-Safe e s room =
      let e1 : Evaluation = record e { in_pos = e.in_pos + 1 } in
      let s1 : Safe e1 = moved-Safe e (e.in_pos + 1) s in
      if_elim (λ (r : Bool × Evaluation). Safe r.1) (e.in_pos + 1 == env_len) _ _
        (λ _. last_dollar-Safe e1 s1 room)
        (λ _.
          if_elim (λ (r : Bool × Evaluation). Safe r.1) (env_str (e.in_pos + 1) == b'$') _ _
            (λ _. moved-Safe _ _ (paste-Safe answers.pid_str e1 s1 room))
            (λ _.
              if_elim (λ (r : Bool × Evaluation). Safe r.1) (env_str (e.in_pos + 1) == b'?') _ _
                (λ _. moved-Safe _ _ (paste-Safe answers.status_str e1 s1 room))
                (λ _. nested-Safe e1 s1 room)))

  evaluate_char-Safe :
      (e : Evaluation) → Safe e → Safe (evaluate_char is_name env_str env_len answers e).1
  unfolding evaluate_char
  evaluate_char-Safe e s =
      if_elim (λ (r : Bool × Evaluation). Safe r.1) (leb last e.out_pos) _ _
        (λ _. record { ends = omega arith; kept = s.kept })
        (λ room.
          if_elim (λ (r : Bool × Evaluation). Safe r.1) (env_str e.in_pos == b'$') _ _
            (λ _. dollar-Safe e s (ground arith))
            (λ _.
              if_elim (λ (r : Bool × Evaluation). Safe r.1) _ _ _ (λ _. emptied-Safe e e.in_pos s)
                (λ _. poke-Safe e (env_str e.in_pos) (e.in_pos + 1) s (ground arith))))

  evaluate_from-Safe :
      (n : ℕ) (e : Evaluation) → Safe e → Safe (evaluate_from is_name env_str env_len answers n e).1
  unfolding evaluate_from
  evaluate_from-Safe zero e s = s
  evaluate_from-Safe (suc n) e s =
      let next = evaluate_char is_name env_str env_len answers e in
      let s1 = evaluate_char-Safe e s in
      if_elim (λ (r : Bool × Evaluation). Safe r.1) (ltb e.in_pos env_len) _ _
        (λ _.
          if_elim (λ (r : Bool × Evaluation). Safe r.1) next.0 _ _
            (λ _. evaluate_from-Safe n next.1 s1) (λ _. s1))
        (λ _. s)

  -- For every text, the kernel's answers whatever they are: `evaluate_env` puts a NUL into the first 64
  -- places of its output for a name, the first 128 for a value, and changes nothing behind them.
  pub evaluate_env-kept :
      (let out = evaluate_env is_name env_str env_len answers out0 in
        ((k : ℕ) × (k < maxlen is_name env_str env_len answers) × (out k ≡ 0))
        × ((j : ℕ) → maxlen is_name env_str env_len answers ≤ j → out j ≡ out0 j))
  unfolding evaluate_env poke
  evaluate_env-kept =
      let e =
        (evaluate_from is_name env_str env_len answers env_len
          (record { in_pos = 0; out_pos = 0; out_env_str = out0 })).1 in
      let s : Safe e =
        evaluate_from-Safe env_len _ (record { ends = omega arith; kept = λ j le. refl }) in
      (
        (e.out_pos, omega (arith, s.ends, room_left), rw (eqb_refl e.out_pos) refl),
        λ j le.
            let other : (j == e.out_pos) ≡ false = ground (arith, s.ends, room_left) in
            rw other (s.kept j (omega arith)),
      )
