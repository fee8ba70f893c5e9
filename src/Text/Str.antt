-- ===== src/Text/Str.antt =====
-- Characters in memory: C strings, memset, memcpy and memmove, as the programs of user use them.
use frostbite.Base.{
  if_elim, ℕ, zero, suc, ◌+◌, ◌-◌, ◌≤◌, ◌<◌, ◌≡◌, refl, ap, ◌∙◌, inl, inr, Bool, true, false, not,
  ◌&&◌, List, [], ◌∷◌, ◌++◌, arith, ◌==◌, if◌then◌else◌, ltb, leb, length, replicate, Bool-cases,
  and_right,
}

-- `memmove` and `memcpy` within a block of characters.
unfoldable pub move_chars : (to from n : ℕ) → (ℕ → ℕ) → ℕ → ℕ
move_chars to from n chars j =
    if leb to j && ltb j (to + n) then chars (from + (j - to)) else chars j

-- `memset`
unfoldable pub fill : (from n c : ℕ) → (ℕ → ℕ) → ℕ → ℕ
fill from n c chars j = if leb from j && ltb j (from + n) then c else chars j

-- The character at an index of a text, 0 past its end.
abbrev pub char_at : List ℕ → ℕ → ℕ
char_at [] j = 0
char_at (c ∷ cs) zero = c
char_at (c ∷ cs) (suc j) = char_at cs j

-- `memcpy` of a string, without its NUL.
unfoldable pub put_chars : ℕ → List ℕ → (ℕ → ℕ) → ℕ → ℕ
put_chars to str chars j =
    if leb to j && ltb j (to + length str) then char_at str (j - to) else chars j

-- The C string at an index, of at most `n` characters.
unfoldable pub str_at : ℕ → (ℕ → ℕ) → ℕ → List ℕ
str_at zero chars i = []
str_at (suc n) chars i =
    let rest = str_at n chars (i + 1) in if chars i == 0 then [] else chars i ∷ rest

-- No NUL is in the text.
abbrev pub no_nul : List ℕ → Bool
no_nul [] = true
no_nul (c ∷ cs) = not (c == 0) && no_nul cs

pub char_at-past : (str : List ℕ) (j : ℕ) → length str ≤ j → char_at str j ≡ 0
char_at-past [] j h = refl
char_at-past (c ∷ cs) zero h = absurd (omega arith)
char_at-past (c ∷ cs) (suc j) h = char_at-past cs j (omega arith)

pub char_at-append : (xs ys : List ℕ) (j : ℕ) → char_at (xs ++ ys) (length xs + j) ≡ char_at ys j
char_at-append [] ys j = let e : 0 + j ≡ j = omega arith in rw e refl
char_at-append (x ∷ xs) ys j =
    let e : suc (length xs) + j ≡ suc (length xs + j) = omega arith in rw e (char_at-append xs ys j)

pub no_nul-append : (xs ys : List ℕ) → no_nul (xs ++ ys) ≡ (no_nul xs && no_nul ys)
no_nul-append [] ys = refl
no_nul-append (x ∷ xs) ys = ground (arith, no_nul-append xs ys)

-- The characters of a text into which `c` was put after `xs`.
pub char_at-inserted :
    (xs ys : List ℕ) (c j : ℕ)
    → char_at (xs ++ c ∷ ys) j ≡ (
        if ltb j (length xs)
        then char_at (xs ++ ys) j
        else if j == length xs
        then c
        else char_at (xs ++ ys) (j - 1))
char_at-inserted [] ys c zero = refl
char_at-inserted [] ys c (suc j) =
    let e : suc j - 1 ≡ j = omega arith in
    let a : ltb (suc j) 0 ≡ false = ground arith in
    let b : (suc j == 0) ≡ false = ground arith in rw (a, b, e) refl
char_at-inserted (x ∷ xs) ys c zero =
    let a : ltb 0 (suc (length xs)) ≡ true = ground arith in rw a refl
char_at-inserted (x ∷ xs) ys c (suc j) = elim (Bool-cases (ltb j (length xs))) [
  | inl lt ↦
      let a : ltb (suc j) (suc (length xs)) ≡ true = ground arith in
      rw a (char_at-inserted xs ys c j ∙ rw lt refl)
  | inr ge ↦
      let a : ltb (suc j) (suc (length xs)) ≡ false = ground arith in
      elim (Bool-cases (j == length xs)) [
        | inl e ↦
            let b : (suc j == suc (length xs)) ≡ true = ground arith in
            rw (a, b) (char_at-inserted xs ys c j ∙ rw (ge, e) refl)
        | inr ne ↦
            let b : (suc j == suc (length xs)) ≡ false = ground arith in
            let d : suc j - 1 ≡ suc (j - 1) = ground arith in
            rw (a, b, d) (char_at-inserted xs ys c j ∙ rw (ge, ne) refl)
      ]
]

-- A text without NUL that stands at `i` with a NUL behind it is read back, if `n` leaves room for it.
pub str_at-text :
    (ys : List ℕ) (n : ℕ) (chars : ℕ → ℕ) (i : ℕ)
    → no_nul ys ≡ true
    → ((j : ℕ) → j ≤ length ys → chars (i + j) ≡ char_at ys j)
    → length ys < n
    → str_at n chars i ≡ ys
unfolding str_at
str_at-text [] zero chars i good same lt = refl
str_at-text [] (suc n) chars i good same lt =
    let e : i + 0 ≡ i = omega arith in
    let nul : chars i ≡ 0 = rw (e) at (same 0 (omega arith)) in rw nul refl
str_at-text (y ∷ ys) zero chars i good same lt = absurd (omega arith)
str_at-text (y ∷ ys) (suc n) chars i good same lt =
    let e : i + 0 ≡ i = omega arith in
    let first : chars i ≡ y = rw (e) at (same 0 (omega arith)) in
    let some_char : (y == 0) ≡ false = ground arith in
    let next : (j : ℕ) → j ≤ length ys → chars (i + 1 + j) ≡ char_at ys j = λ j le.
      let a : i + suc j ≡ i + 1 + j = omega arith in rw (a) at (same (suc j) (omega arith)) in
    rw (first, some_char)
      (ap (λ t. y ∷ t) (str_at-text ys n chars (i + 1) (and_right _ _ good) next (omega arith)))

-- The same at the start of the block.
pub str_at-start :
    (ys : List ℕ) (n : ℕ) (chars : ℕ → ℕ)
    → no_nul ys ≡ true
    → ((j : ℕ) → chars j ≡ char_at ys j)
    → length ys < n
    → str_at n chars 0 ≡ ys
str_at-start ys n chars good same lt =
    str_at-text ys n chars 0 good (λ j le. let e : 0 + j ≡ j = omega arith in rw e (same j)) lt

pub str_at-nul : (n : ℕ) (chars : ℕ → ℕ) (i : ℕ) → chars i ≡ 0 → str_at n chars i ≡ []
unfolding str_at
str_at-nul zero chars i nul = refl
str_at-nul (suc n) chars i nul = rw nul refl

pub str_at-char :
    (n : ℕ) (chars : ℕ → ℕ) (i : ℕ)
    → (chars i == 0) ≡ false
    → str_at (suc n) chars i ≡ chars i ∷ str_at n chars (i + 1)
unfolding str_at
str_at-char n chars i char = rw char refl

pub char_at-append_before :
    (xs ys : List ℕ) (j : ℕ) → j < length xs → char_at (xs ++ ys) j ≡ char_at xs j
char_at-append_before [] ys j lt = absurd (omega arith)
char_at-append_before (x ∷ xs) ys zero lt = refl
char_at-append_before (x ∷ xs) ys (suc j) lt = char_at-append_before xs ys j (omega arith)

pub char_at-replicate : (n c j : ℕ) → j < n → char_at (replicate n c) j ≡ c
char_at-replicate zero c j lt = absurd (omega arith)
char_at-replicate (suc n) c zero lt = refl
char_at-replicate (suc n) c (suc j) lt = char_at-replicate n c j (omega arith)

pub length-replicate : (n c : ℕ) → length (replicate n c) ≡ n
length-replicate zero c = refl
length-replicate (suc n) c = ap suc (length-replicate n c)

pub no_nul-str_at : (n : ℕ) (chars : ℕ → ℕ) (i : ℕ) → no_nul (str_at n chars i) ≡ true
unfolding str_at
no_nul-str_at zero chars i = refl
no_nul-str_at (suc n) chars i =
    if_elim (λ t. no_nul t ≡ true) (chars i == 0) _ _ (λ _. refl)
      (λ char. rw char (no_nul-str_at n chars (i + 1)))
