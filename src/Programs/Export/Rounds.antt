-- ===== src/Programs/Export/Rounds.antt =====
-- The loop of `evaluate_env` ends.
use frostbite.Base.{
  ℕ, zero, suc, ◌+◌, ◌-◌, ◌≤◌, ◌<◌, ◌≡◌, refl, sym, ap, ◌∙◌, inl, inr, Bool, true, false, not, ◌&&◌,
  Option, none, some, List, arith, ◌==◌, ltb, leb, Bool-cases, if_elim,
}
use frostbite.Programs.Export.{
  is_env_valid, Evaluation, Answers, maxlen, nested_name, paste, nested, dollar, evaluate_char,
  evaluate_from,
}

module _ (is_name : Bool) (env_str : ℕ → ℕ) (env_len : ℕ) (answers : Answers) where
  -- A round that is followed by another has gone on in the text.
  abbrev GoesOn : Evaluation → Bool × Evaluation → Type 0
  GoesOn e r = r.0 ≡ true → e.in_pos < r.1.in_pos

  paste-in_pos :
      (str : List ℕ) (e : Evaluation)
      → (paste is_name env_str env_len answers str e).in_pos ≡ e.in_pos
  unfolding paste
  paste-in_pos str e = refl

  nested-GoesOn :
      (e0 e : Evaluation)
      → e0.in_pos < e.in_pos
      → GoesOn e0 (nested is_name env_str env_len answers e)
  unfolding nested
  nested-GoesOn e0 e lt =
      let name = nested_name (env_len - e.in_pos) env_str env_len e.in_pos 0 in
      if_elim (GoesOn e0) name.0 _ _ (λ _ go. pasted (answers.getenv _) name.1) (λ _ go. cc)
    where
      pasted :
          (val : Option (List ℕ)) (k : ℕ)
          → (let r : Evaluation = elim val [
            | none ↦ record e { in_pos = e.in_pos + k }
            | some v ↦ paste is_name env_str env_len answers v (record e { in_pos = e.in_pos + k })
          ] in
              e0.in_pos < r.in_pos)
      pasted none k = omega arith
      pasted (some v) k = rw (paste-in_pos v (record e { in_pos = e.in_pos + k })) (omega arith)

  evaluate_char-GoesOn :
      (e : Evaluation) → GoesOn e (evaluate_char is_name env_str env_len answers e)
  unfolding evaluate_char dollar
  evaluate_char-GoesOn e =
      if_elim (GoesOn e) (leb (maxlen is_name env_str env_len answers - 1) e.out_pos) _ _
        (λ _ go. cc)
        (λ _.
          if_elim (GoesOn e) (env_str e.in_pos == b'$') _ _
            (λ _.
              if_elim (GoesOn e) (e.in_pos + 1 == env_len) _ _ (λ _ go. cc)
                (λ _.
                  if_elim (GoesOn e) (env_str (e.in_pos + 1) == b'$') _ _ (λ _ go. omega arith)
                    (λ _.
                      if_elim (GoesOn e) (env_str (e.in_pos + 1) == b'?') _ _ (λ _ go. omega arith)
                        (λ _. nested-GoesOn e (record e { in_pos = e.in_pos + 1 }) (omega arith)))))
            (λ _.
              if_elim (GoesOn e) (is_name && not (is_env_valid (env_str e.in_pos) e.in_pos))
                (false, record e { out_pos = 0 }) _ (λ _ go. cc) (λ _ go. omega arith)))

  abbrev loop : ℕ → Evaluation → Bool × Evaluation
  loop = evaluate_from is_name env_str env_len answers

  evaluate_from-end : (n : ℕ) (e : Evaluation) → env_len ≤ e.in_pos → loop n e ≡ (true, e)
  unfolding evaluate_from
  evaluate_from-end zero e le =
      let past : leb env_len e.in_pos ≡ true = ground arith in rw past refl
  evaluate_from-end (suc n) e le =
      let past : ltb e.in_pos env_len ≡ false = ground arith in rw past refl

  -- The loop of `evaluate_env` ends: with as many rounds as characters are left, or more, it has ended,
  -- and it has then taken no round more, so that the result is the same. In particular it ends from
  -- its start within as many rounds as the text has characters.
  pub evaluate_from-rounds :
      (n k : ℕ) (e : Evaluation)
      → env_len ≤ e.in_pos + n
      → ((evaluate_from is_name env_str env_len answers n e).0 ≡ true)
        × (evaluate_from is_name env_str env_len answers (n + k) e
            ≡ evaluate_from is_name env_str env_len answers n e)
  unfolding evaluate_from
  evaluate_from-rounds zero k e enough =
      let ended : env_len ≤ e.in_pos = omega arith in
      let now = evaluate_from-end zero e ended in
      (ap (λ r. r.0) now, evaluate_from-end (0 + k) e ended ∙ sym now)
  evaluate_from-rounds (suc n) k e enough =
      let next = evaluate_char is_name env_str env_len answers e in
      let more_fuel : suc n + k ≡ suc (n + k) = omega arith in
      rw more_fuel (elim (Bool-cases (ltb e.in_pos env_len)) [
        | inl left ↦ elim (Bool-cases next.0) [
          | inl more ↦
              let on : e.in_pos < next.1.in_pos = evaluate_char-GoesOn e more in
              rw (left, more) (evaluate_from-rounds n k next.1 (omega arith))
          | inr broken ↦ rw (left, broken) (refl, refl)
        ]
        | inr past ↦ rw past (refl, refl)
      ])
