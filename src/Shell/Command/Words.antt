-- ===== src/Shell/Command/Words.antt =====
-- The arguments that `get_cmd_info` finds are the words of the text.
use frostbite.Base.{
  eqb_refl, ℕ, zero, suc, ◌+◌, ◌≤◌, ◌<◌, ◌≡◌, refl, ap, ◌∙◌, Bool, true, false, not, List, [], ◌∷◌,
  arith, ◌==◌, if◌then◌else◌, length, and_right, if_elim,
}
use frostbite.Text.Str.{str_at-nul, str_at-char, str_at, char_at, no_nul}
use frostbite.Text.{poke}
use frostbite.Shell.Command.{split_args}

abbrev pub cons_word : List ℕ → List (List ℕ) → List (List ℕ)
cons_word [] ws = ws
cons_word (c ∷ cs) ws = (c ∷ cs) ∷ ws

-- The word that a text begins with, if any, and the words after it.
abbrev pub split_words : List ℕ → List ℕ × List (List ℕ)
split_words [] = ([], [])
split_words (c ∷ cs) =
    let (w, ws) = split_words cs in if c == b' ' then ([], cons_word w ws) else (c ∷ w, ws)

-- The words of a text, in their order: the longest parts without a space.
abbrev pub words : List ℕ → List (List ℕ)
words ys = let (w, ws) = split_words ys in cons_word w ws

-- The strings at some places.
abbrev pub strings : ℕ → (ℕ → ℕ) → List ℕ → List (List ℕ)
strings n chars [] = []
strings n chars (i ∷ is) = str_at n chars i ∷ strings n chars is

-- Nothing before the place that the loop has reached is changed.
pub split_args-before :
    (n : ℕ) (echo : ℕ → ℕ) (i : ℕ) (new_arg : Bool) (j : ℕ)
    → j < i
    → (split_args n echo i new_arg).0 j ≡ echo j
unfolding split_args poke
split_args-before zero echo i new_arg j lt = refl
split_args-before (suc n) echo i new_arg j lt =
    if_elim (λ (r : (ℕ → ℕ) × List ℕ). r.0 j ≡ echo j) (echo i == 0) _ _ (λ _. refl)
      (λ _.
        if_elim (λ (r : (ℕ → ℕ) × List ℕ). r.0 j ≡ echo j) (echo i == b' ') _ _
          (λ _. split_args-before n _ (i + 1) false j (omega arith) ∙ kept new_arg)
          (λ _. split_args-before n echo (i + 1) true j (omega arith)))
  where
    kept : (b : Bool) → (if b then poke i 0 echo else echo) j ≡ echo j
    kept true = let ne : (j == i) ≡ false = ground arith in rw ne refl
    kept false = refl

-- The text `ys` stands at `i`, with a NUL behind it.
abbrev pub At : (ℕ → ℕ) → ℕ → List ℕ → Type 0
At chars i ys = (j : ℕ) → j ≤ length ys → chars (i + j) ≡ char_at ys j

At-first : (chars : ℕ → ℕ) (i : ℕ) (ys : List ℕ) → At chars i ys → chars i ≡ char_at ys 0
At-first chars i ys h = let e : i + 0 ≡ i = omega arith in rw (e) at (h 0 (omega arith))

At-next : (chars : ℕ → ℕ) (i y : ℕ) (ys : List ℕ) → At chars i (y ∷ ys) → At chars (i + 1) ys
At-next chars i y ys h j le =
    let e : i + suc j ≡ i + 1 + j = omega arith in rw (e) at (h (suc j) (omega arith))

pub At-poke :
    (chars : ℕ → ℕ) (i y : ℕ) (ys : List ℕ) → At chars (i + 1) ys → At (poke i y chars) (i + 1) ys
unfolding poke
At-poke chars i y ys h j le = let ne : (i + 1 + j == i) ≡ false = ground arith in rw ne (h j le)

pub split_words-space :
    (y : ℕ) (ys : List ℕ) → (y == b' ') ≡ true → split_words (y ∷ ys) ≡ ([], words ys)
split_words-space y ys space = rw space refl

split_words-solid :
    (y : ℕ) (ys : List ℕ)
    → (y == b' ') ≡ false
    → split_words (y ∷ ys) ≡ (y ∷ (split_words ys).0, (split_words ys).1)
split_words-solid y ys solid = rw solid refl

-- What the loop gives on the text `ys` at `i`: in a word, the rest of it is read there and the later
-- words are the arguments; between words, all words are.
abbrev Reads : Bool → List ℕ → ℕ → ℕ → (ℕ → ℕ) × List ℕ → Type 0
Reads true ys m i r =
    ((k : ℕ) → length ys < k → str_at k r.0 i ≡ (split_words ys).0)
    × (strings m r.0 r.1 ≡ (split_words ys).1)
Reads false ys m i r = strings m r.0 r.1 ≡ words ys

ended-Reads :
    (new_arg : Bool) (m : ℕ) (echo : ℕ → ℕ) (i : ℕ) → echo i ≡ 0 → Reads new_arg [] m i (echo, [])
ended-Reads true m echo i nul = (λ k lt. str_at-nul k echo i nul, refl)
ended-Reads false m echo i nul = refl

module _ (n m : ℕ) (echo : ℕ → ℕ) (i : ℕ) where
  gap_At :
      (new_arg : Bool) (ys : List ℕ)
      → At echo (i + 1) ys
      → At (if new_arg then poke i 0 echo else echo) (i + 1) ys
  gap_At true ys at = At-poke echo i 0 ys at
  gap_At false ys at = at

  space_Reads :
      (new_arg : Bool) (y : ℕ) (ys : List ℕ)
      → (y == b' ') ≡ true
      → Reads false ys m
          (i + 1)
          (split_args n (if new_arg then poke i 0 echo else echo) (i + 1) false)
      → Reads new_arg
          (y ∷ ys)
          m
          i
          (split_args n (if new_arg then poke i 0 echo else echo) (i + 1) false)
  unfolding poke
  space_Reads true y ys space r =
      let own : poke i 0 echo i ≡ 0 = rw (eqb_refl i) refl in
      let nul = split_args-before n (poke i 0 echo) (i + 1) false i (omega arith) ∙ own in
      rw (split_words-space y ys space) (λ k lt. str_at-nul k _ i nul, r)
  space_Reads false y ys space r = rw (split_words-space y ys space) r

  solid_Reads :
      (new_arg : Bool) (y : ℕ) (ys : List ℕ)
      → echo i ≡ y
      → (y == b' ') ≡ false
      → (y == 0) ≡ false
      → length (y ∷ ys) < m
      → Reads true ys m (i + 1) (split_args n echo (i + 1) true)
      → (let r = split_args n echo (i + 1) true in
          Reads new_arg (y ∷ ys) m i (r.0, if new_arg then r.1 else i ∷ r.1))
  solid_Reads new_arg y ys first solid char room r = with_char new_arg
    where
      own : (split_args n echo (i + 1) true).0 i ≡ y
      own = split_args-before n echo (i + 1) true i (omega arith) ∙ first

      read :
          (k : ℕ)
          → length (y ∷ ys) < k
          → str_at k (split_args n echo (i + 1) true).0 i ≡ y ∷ (split_words ys).0
      read zero lt = absurd (omega arith)
      read (suc k) lt =
          str_at-char k _ i (rw own char) ∙ rw own (ap (λ t. y ∷ t) (r.0 k (omega arith)))

      with_char :
          (b : Bool)
          → (let r = split_args n echo (i + 1) true in
              Reads b (y ∷ ys) m i (r.0, if b then r.1 else i ∷ r.1))
      with_char true = rw (split_words-solid y ys solid) (read, r.1)
      with_char false = rw (split_words-solid y ys solid, read m room, r.1) refl

pub split_args-Reads :
    (ys : List ℕ) (n m : ℕ) (echo : ℕ → ℕ) (i : ℕ) (new_arg : Bool)
    → no_nul ys ≡ true
    → At echo i ys
    → length ys < n
    → length ys < m
    → Reads new_arg ys m i (split_args n echo i new_arg)
unfolding split_args
split_args-Reads ys zero m echo i new_arg good at fuel room = absurd (omega arith)
split_args-Reads [] (suc n) m echo i new_arg good at fuel room =
    let nul = At-first echo i [] at in
    if_elim (Reads new_arg [] m i) (echo i == 0) _ _ (λ _. ended-Reads new_arg m echo i nul)
      (λ more. absurd (ground arith))
split_args-Reads (y ∷ ys) (suc n) m echo i new_arg good at fuel room =
    let first = At-first echo i (y ∷ ys) at in
    let next = At-next echo i y ys at in
    let later : no_nul ys ≡ true = and_right (not (y == 0)) (no_nul ys) good in
    if_elim (Reads new_arg (y ∷ ys) m i) (echo i == 0) _ _ (λ nul. absurd (ground arith))
      (λ char.
        if_elim (Reads new_arg (y ∷ ys) m i) (echo i == b' ') _ _
          (λ space. space_Reads n m echo i new_arg y ys (ground arith) (
            split_args-Reads ys n m _ (i + 1) false later (gap_At n m echo i new_arg ys next)
              (omega arith) (omega arith)))
          (λ solid.
            solid_Reads n m echo i new_arg y ys first (ground arith) (ground arith) room
              (split_args-Reads ys n m echo (i + 1) true later next (omega arith) (omega arith))))
