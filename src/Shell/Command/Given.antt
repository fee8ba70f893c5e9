-- ===== src/Shell/Command/Given.antt =====
-- `get_cmd_info` on a command line that is spaces, a command, and the rest that a space begins.
use frostbite.Base.{
  ℕ, zero, suc, ◌+◌, ◌-◌, ◌≤◌, ◌<◌, ◌≡◌, refl, sym, ap, ◌∙◌, ◌⊎◌, inl, inr, Bool, true, false, not,
  ◌&&◌, none, some, List, [], ◌∷◌, ◌++◌, arith, ◌==◌, if◌then◌else◌, length, length-append,
  and_right, replicate, Bool-cases,
}
use frostbite.Text.Str.{
  char_at-past, char_at-append_before, char_at-replicate, length-replicate, str_at, char_at,
  char_at-append, no_nul, str_at-text,
}
use frostbite.Shell.Command.Words.{split_words-space, words, strings, At, At-poke, split_args-Reads}
use frostbite.Shell.Command.Parts.{ends, skip_spaces-run, find_end-run, find_ext-last}
use frostbite.Text.{poke, to_upper}
use frostbite.Shell.{max_cmd_buf_size}
use frostbite.Shell.Typing.{upper_case, char_at-upper_case, no_nul-upper_case, length-upper_case}
use frostbite.Shell.Command.{skip_spaces, find_end, find_ext, split_args, get_cmd_info}

-- A text without space and NUL.
abbrev pub solid : List ℕ → Bool
solid [] = true
solid (c ∷ cs) = not (ends c) && solid cs

-- The text is empty or begins with a space.
abbrev pub gap_first : List ℕ → Bool
gap_first [] = true
gap_first (c ∷ cs) = c == b' '

-- A line: spaces, a command, and what follows it.
abbrev pub command_line : ℕ → List ℕ → List ℕ → List ℕ
command_line k word rest = replicate k b' ' ++ (word ++ rest)

solid-char_at :
    (word : List ℕ) (j : ℕ)
    → solid word ≡ true
    → j < length word
    → ends (to_upper (char_at word j)) ≡ false
unfolding to_upper
solid-char_at [] j good lt = absurd (omega arith)
solid-char_at (c ∷ cs) zero good lt = ground arith
solid-char_at (c ∷ cs) (suc j) good lt = solid-char_at cs j (and_right _ _ good) (omega arith)

solid-no_nul : (word : List ℕ) → solid word ≡ true → no_nul word ≡ true
solid-no_nul [] good = refl
solid-no_nul (c ∷ cs) good = ground (arith, solid-no_nul cs)

gap_first-ends : (rest : List ℕ) → gap_first rest ≡ true → ends (to_upper (char_at rest 0)) ≡ true
unfolding to_upper
gap_first-ends [] gap = refl
gap_first-ends (c ∷ cs) gap = ground arith

char_at-line :
    (k : ℕ) (word rest : List ℕ) (j : ℕ)
    → char_at (command_line k word rest) (k + j) ≡ char_at (word ++ rest) j
char_at-line k word rest j =
    rw (length-replicate k b' ') at (char_at-append (replicate k b' ') (word ++ rest) j)

char_at-line_gap :
    (k : ℕ) (word rest : List ℕ) (j : ℕ) → j < k → char_at (command_line k word rest) j ≡ b' '
char_at-line_gap k word rest j lt =
    char_at-append_before (replicate k b' ') (word ++ rest) j (rw (length-replicate k b' ') lt)
    ∙ char_at-replicate k b' ' j lt

char_at-line_word :
    (k : ℕ) (word rest : List ℕ) (j : ℕ)
    → j < length word
    → char_at (command_line k word rest) (k + j) ≡ char_at word j
char_at-line_word k word rest j lt =
    char_at-line k word rest j ∙ char_at-append_before word rest j lt

char_at-line_rest :
    (k : ℕ) (word rest : List ℕ) (j : ℕ)
    → char_at (command_line k word rest) (k + length word + j) ≡ char_at rest j
char_at-line_rest k word rest j =
    let e : k + length word + j ≡ k + (length word + j) = omega arith in
    rw e (char_at-line k word rest (length word + j) ∙ char_at-append word rest j)

length-line :
    (k : ℕ) (word rest : List ℕ) → length (command_line k word rest) ≡ k + length word + length rest
length-line k word rest = omega (
  arith,
  length-append (replicate k b' ') (word ++ rest),
  length-append word rest,
  length-replicate k b' ',
)

to_upper-space : to_upper b' ' ≡ b' '
unfolding to_upper
to_upper-space = refl

to_upper-not_space : (c : ℕ) → (c == b' ') ≡ false → (to_upper c == b' ') ≡ false
unfolding to_upper
to_upper-not_space c h = ground arith

abbrev after_gap : List ℕ → List ℕ
after_gap [] = []
after_gap (c ∷ cs) = cs

after_gap-length : (rest : List ℕ) → length (after_gap rest) ≤ length rest
after_gap-length [] = omega arith
after_gap-length (c ∷ cs) = omega arith

after_gap-no_nul : (rest : List ℕ) → no_nul rest ≡ true → no_nul (after_gap rest) ≡ true
after_gap-no_nul [] h = refl
after_gap-no_nul (c ∷ cs) h = and_right _ _ h

after_gap-words : (rest : List ℕ) → gap_first rest ≡ true → words (after_gap rest) ≡ words rest
after_gap-words [] h = refl
after_gap-words (c ∷ cs) h = rw (split_words-space c cs h) refl

-- The result of the search is an extension, or it is the start and there is no dot.
ext_cases :
    (cmd : ℕ → ℕ) (e k hi : ℕ)
    → e ≤ hi
    → ((j : ℕ) → e ≤ j → j < hi → (cmd j == b'.') ≡ false)
    → (e ≡ k) ⊎ ((cmd (e - 1) ≡ b'.') × (k < e))
    → (((if e == k then none else some e) ≡ none)
        × ((j : ℕ) → k ≤ j → j < hi → (cmd j == b'.') ≡ false))
      ⊎ ((x : ℕ) × ((if e == k then none else some e) ≡ some x)
          × (cmd (x - 1) ≡ b'.')
          × (k < x)
          × (x ≤ hi)
          × ((j : ℕ) → x ≤ j → j < hi → (cmd j == b'.') ≡ false))
ext_cases cmd e k hi le clear (inl eq) =
    let same : (e == k) ≡ true = ground arith in
    rw same (inl (refl, λ j a b. clear j (omega arith) b))
ext_cases cmd e k hi le clear (inr (dot, lt)) =
    let other : (e == k) ≡ false = ground arith in rw other (inr (e, refl, dot, lt, le, clear))

-- The two buffers hold a command line, the one of the command in upper case.
pub record Given (cmd echo : ℕ → ℕ) (k : ℕ) (word rest : List ℕ) : Type 0 where
  pub typed : (j : ℕ) → echo j ≡ char_at (command_line k word rest) j
  pub upper : (j : ℕ) → cmd j ≡ to_upper (char_at (command_line k word rest) j)
  pub whole : solid word ≡ true
  pub gap : gap_first rest ≡ true
  pub real : no_nul rest ≡ true
  pub begins : (char_at (word ++ rest) 0 == b' ') ≡ false
  pub fits : length (command_line k word rest) < max_cmd_buf_size

module _ {cmd echo : ℕ → ℕ} {k : ℕ} {word rest : List ℕ} (g : Given cmd echo k word rest) where
  command_start : skip_spaces max_cmd_buf_size cmd 0 ≡ k
  command_start =
      let here : 0 + k ≡ k = omega arith in
      let nul : k + 0 ≡ k = omega arith in
      let first : char_at (command_line k word rest) k ≡ char_at (word ++ rest) 0 =
        rw (nul) at (char_at-line k word rest 0) in
      skip_spaces-run k max_cmd_buf_size cmd 0
        (λ j lt.
          let e : 0 + j ≡ j = omega arith in
          rw e (g.upper j ∙ ap to_upper (char_at-line_gap k word rest j lt) ∙ to_upper-space))
        (rw (here, g.upper k, first) (to_upper-not_space (char_at (word ++ rest) 0) g.begins))
        (omega (arith, g.fits, length-line k word rest))
      ∙ here

  command_end : find_end max_cmd_buf_size cmd k ≡ k + length word
  command_end =
      let nul : k + length word + 0 ≡ k + length word = omega arith in
      find_end-run (length word) max_cmd_buf_size cmd k
        (λ j lt.
          rw (g.upper (k + j), char_at-line_word k word rest j lt)
            (solid-char_at word j g.whole lt))
        (rw (g.upper (k + length word), rw (nul) at (char_at-line_rest k word rest 0))
          (gap_first-ends rest g.gap))
        (omega (arith, g.fits, length-line k word rest))

  -- The command, with the NUL that is put behind it.
  command_text : str_at max_cmd_buf_size (poke (k + length word) 0 cmd) k ≡ upper_case word
  unfolding poke
  command_text =
      let len = length-upper_case word in
      str_at-text (upper_case word) max_cmd_buf_size (poke (k + length word) 0 cmd) k
        (no_nul-upper_case word (solid-no_nul word g.whole))
        (λ j le. elim (Bool-cases (k + j == k + length word)) [
          | inl e ↦ rw e (sym (char_at-past (upper_case word) j (ground (arith, len))))
          | inr ne ↦
              rw (ne, g.upper (k + j), char_at-line_word k word rest j (ground (arith, len)))
                (sym (char_at-upper_case word j))
        ])
        (omega (arith, len, g.fits, length-line k word rest))

  arguments-At : At (poke (k + length word) 0 echo) (k + length word + 1) (after_gap rest)
  arguments-At = At-poke echo (k + length word) 0 (after_gap rest) (λ j le.
      let e : k + length word + 1 + j ≡ k + length word + (1 + j) = omega arith in
      rw e (
        g.typed (k + length word + (1 + j)) ∙ char_at-line_rest k word rest (1 + j) ∙ later rest j))
    where
      later : (ys : List ℕ) (j : ℕ) → char_at ys (1 + j) ≡ char_at (after_gap ys) j
      later [] j = refl
      later (c ∷ cs) j = let e : 1 + j ≡ suc j = omega arith in rw e refl

  arguments_text :
      (let r =
          split_args max_cmd_buf_size (poke (k + length word) 0 echo) (k + length word + 1) false in
        strings max_cmd_buf_size r.0 r.1 ≡ words rest)
  arguments_text =
      let short : length (after_gap rest) < max_cmd_buf_size =
        omega (arith, after_gap-length rest, g.fits, length-line k word rest) in
      split_args-Reads (after_gap rest) max_cmd_buf_size max_cmd_buf_size
        (poke (k + length word) 0 echo) (k + length word + 1) false (after_gap-no_nul rest g.real)
        arguments-At short short
      ∙ after_gap-words rest g.gap

  -- On a line of at most 1023 characters that is `k` spaces, a command without a space, and nothing or a
  -- space and more, `get_cmd_info` finds the command behind the spaces; as strings, what it leaves in
  -- the command buffer is the command, and the arguments are the words of the rest, in their order. The
  -- extension begins behind the last dot of the command, and there is none if the command has no dot.
  pub get_cmd_info-words :
      let r = get_cmd_info cmd echo in
      (r.cmd_pos ≡ k)
      × (str_at max_cmd_buf_size r.cmd k ≡ upper_case word)
      × (strings max_cmd_buf_size r.echo r.echo_args ≡ words rest)
      × (((r.ext ≡ none) × ((j : ℕ) → k ≤ j → j < k + length word → (r.cmd j == b'.') ≡ false))
          ⊎ ((e : ℕ) × (r.ext ≡ some e)
              × (r.cmd (e - 1) ≡ b'.')
              × (k < e)
              × (e ≤ k + length word)
              × ((j : ℕ) → e ≤ j → j < k + length word → (r.cmd j == b'.') ≡ false)))
  unfolding get_cmd_info
  get_cmd_info-words =
      let e = find_ext (poke (k + length word) 0 cmd) k (k + length word) in
      let (lo, hi, clear, end) =
        find_ext-last (k + length word) (poke (k + length word) 0 cmd) k (omega arith) in
      rw (command_start, command_end)
        (
          refl,
          command_text,
          arguments_text,
          ext_cases (poke (k + length word) 0 cmd) e k (k + length word) hi clear end,
        )
