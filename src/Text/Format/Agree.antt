-- ===== src/Text/Format/Agree.antt =====
-- printf prints the text of its format, printk too.
use mathlib.Core.Path.{ap₂}
use frostbite.Base.{
  ℕ, ◌%◌, ◌^◌, ◌≡◌, refl, ap, inl, inr, Bool, true, not, ◌&&◌, Option, none, some, List, [], ◌∷◌,
  ◌++◌, arith, ◌==◌, ltb, length, and_left, if_elim, and_right, Bool-cases,
}
use frostbite.Text.Format.Batches.{flushed_string, Printed, put_char-Printed, put_string-Printed}
use frostbite.Text.Format.{
  finish, take_unsigned, take_signed, take_string, char_string, Arg, unsigned, signed, string,
  Batch, write_string, sys_write, flush_uart, put_char, put_string, print_on, new_batch, printf,
  format, fmt_spec,
}
use frostbite.Text.Str.{no_nul-str_at, no_nul}
use mathlib.Core.List.{append-nil, append_assoc}

-- The strings among the arguments end with their first NUL.
abbrev real_arg : Arg → Bool
real_arg (unsigned v) = true
real_arg (signed neg v) = true
real_arg (string str) = no_nul str

abbrev pub real_args : List Arg → Bool
real_args [] = true
real_args (a ∷ rest) = real_arg a && real_args rest

abbrev TakesReal : Option (List ℕ × List Arg) → Type 0
TakesReal none = Unit {0}
TakesReal (some taken) = (no_nul taken.0 ≡ true) × (real_args taken.1 ≡ true)

take_unsigned-TakesReal :
    (f : ℕ → List ℕ) (args : List Arg)
    → ((v : ℕ) → no_nul (f v) ≡ true)
    → real_args args ≡ true
    → TakesReal (take_unsigned f args)
take_unsigned-TakesReal f [] real h = tt
take_unsigned-TakesReal f (unsigned v ∷ args) real h = (real v, h)
take_unsigned-TakesReal f (signed neg v ∷ args) real h = tt
take_unsigned-TakesReal f (string str ∷ args) real h = tt

take_signed-TakesReal :
    (f : Bool → ℕ → List ℕ) (args : List Arg)
    → ((neg : Bool) (v : ℕ) → no_nul (f neg v) ≡ true)
    → real_args args ≡ true
    → TakesReal (take_signed f args)
take_signed-TakesReal f [] real h = tt
take_signed-TakesReal f (unsigned v ∷ args) real h = tt
take_signed-TakesReal f (signed neg v ∷ args) real h = (real neg v, h)
take_signed-TakesReal f (string str ∷ args) real h = tt

take_string-TakesReal : (args : List Arg) → real_args args ≡ true → TakesReal (take_string args)
take_string-TakesReal [] h = tt
take_string-TakesReal (unsigned v ∷ args) h = tt
take_string-TakesReal (signed neg v ∷ args) h = tt
take_string-TakesReal (string str ∷ args) h =
    (and_left _ (real_args args) h, and_right (no_nul str) _ h)

no_nul-char_string : (v : ℕ) → no_nul (char_string v) ≡ true
no_nul-char_string v =
    if_elim (λ t. no_nul t ≡ true) (v % 256 == 0) _ _ (λ _. refl) (λ char. rw char refl)

fmt_spec-TakesReal : (s : ℕ) (args : List Arg) → real_args args ≡ true → TakesReal (fmt_spec s args)
unfolding fmt_spec
fmt_spec-TakesReal s args h =
    if_elim TakesReal (s == b'c') _ _
      (λ _. take_unsigned-TakesReal char_string args no_nul-char_string h)
      (λ _.
        if_elim TakesReal (s == b'x') _ _
          (λ _. take_unsigned-TakesReal _ args (λ v. no_nul-str_at 50 _ 0) h)
          (λ _.
            if_elim TakesReal (s == b'd') _ _
              (λ _. take_signed-TakesReal _ args (λ neg v. no_nul-str_at 50 _ 0) h)
              (λ _.
                if_elim TakesReal (s == b's') _ _ (λ _. take_string-TakesReal args h)
                  (λ _.
                    if_elim TakesReal (s == b'u') _ _
                      (λ _. take_unsigned-TakesReal _ args (λ v. no_nul-str_at 50 _ 0) h)
                      (λ _. (refl, h))))))

-- Both are undefined, or the text of the format was printed behind `t`.
abbrev Agrees : List ℕ → Option Batch → Option (List ℕ) → Type 0
Agrees t none none = Unit {0}
Agrees t none (some u) = ⊥
Agrees t (some o) none = ⊥
Agrees t (some o) (some u) = Printed o (t ++ u)

print_on-Agrees :
    (fmt : List ℕ) (args : List Arg) (o : Batch) (t : List ℕ)
    → no_nul fmt ≡ true
    → real_args args ≡ true
    → Printed o t
    → Agrees t (print_on fmt args o) (format fmt args)
unfolding print_on format
print_on-Agrees [] args o t real good p = rw append-nil p
print_on-Agrees (c ∷ []) args o t real good p = elim (Bool-cases (c == b'%')) [
  | inl percent ↦ rw percent tt
  | inr plain ↦ rw plain (put_char-Printed c o t (ground arith) p)
]
print_on-Agrees (c ∷ s ∷ fmt) args o t real good p = elim (Bool-cases (c == b'%')) [
  | inl percent ↦ rw percent (
      after_spec (fmt_spec s args) (fmt_spec-TakesReal s args good) (λ taken a b.
        print_on-Agrees fmt taken.1 (put_string taken.0 o) (t ++ taken.0)
          (and_right (not (s == 0)) (no_nul fmt) (and_right (not (c == 0)) _ real)) b
          (put_string-Printed taken.0 o t a p)))
  | inr plain ↦ rw plain (
      after_char (print_on (s ∷ fmt) args (put_char c o)) (format (s ∷ fmt) args) (
        print_on-Agrees (s ∷ fmt) args (put_char c o) (t ++ c ∷ [])
          (and_right (not (c == 0)) _ real) good (put_char-Printed c o t (ground arith) p)))
]
  where
    after_char :
        (r : Option Batch) (u : Option (List ℕ))
        → Agrees (t ++ c ∷ []) r u
        → Agrees t r (elim u [ none ↦ none | some v ↦ some (c ∷ v) ])
    after_char none none h = tt
    after_char none (some u) h = elim h [ ]
    after_char (some r) none h = elim h [ ]
    after_char (some r) (some u) h = rw (append_assoc t (c ∷ []) u) at h

    after_string :
        (str : List ℕ) (r : Option Batch) (u : Option (List ℕ))
        → Agrees (t ++ str) r u
        → Agrees t r (elim u [ none ↦ none | some v ↦ some (str ++ v) ])
    after_string str none none h = tt
    after_string str none (some u) h = elim h [ ]
    after_string str (some r) none h = elim h [ ]
    after_string str (some r) (some u) h = rw (append_assoc t str u) at h

    after_spec :
        (x : Option (List ℕ × List Arg))
        → TakesReal x
        → ((taken : List ℕ × List Arg)
            → no_nul taken.0 ≡ true
            → real_args taken.1 ≡ true
            → Agrees
                (t ++ taken.0)
                (print_on fmt taken.1 (put_string taken.0 o))
                (format fmt taken.1))
        → Agrees t
            (elim x [ none ↦ none | some taken ↦ print_on fmt taken.1 (put_string taken.0 o) ])
            (elim x [
              | none ↦ none
              | some taken ↦ elim (format fmt taken.1) [
                | none ↦ none
                | some v ↦ some (taken.0 ++ v)
              ]
            ])
    after_spec none h next = tt
    after_spec (some taken) h next =
        after_string taken.0 (print_on fmt taken.1 (put_string taken.0 o)) (format fmt taken.1)
          (next taken h.0 h.1)

new_batch-Printed : Printed new_batch []
unfolding write_string
new_batch-Printed = record {
  pending = [];
  chars = λ j lt. absurd (omega arith);
  size = refl;
  short = omega arith;
  real = refl;
  shown = refl;
  word = omega arith;
  counted = refl;
}

-- The result of printf for a text.
abbrev pub printed : List ℕ → ℕ × List ℕ
printed t = (length t % 2 ^ 16, write_string t)

abbrev pub outcome : Option (List ℕ) → Option (ℕ × List ℕ)
outcome none = none
outcome (some t) = some (printed t)

finish-printed : (o : Batch) (t : List ℕ) → Printed o t → finish o ≡ printed t
unfolding finish flush_uart sys_write write_string
finish-printed o t p = elim (Bool-cases (ltb 0 o.pos)) [
  | inl some_left ↦
      rw (some_left, flushed_string o t p) (ap₂ (λ (n : ℕ) (u : List ℕ). (n, u)) p.counted p.shown)
  | inr none_left ↦
      let at_start : o.pos ≡ 0 = ground arith in
      let empty : p.pending ≡ [] = nil_of_length p.pending (omega (arith, p.size)) in
      let all : o.console ≡ write_string t = rw (empty, append-nil) at (p.shown) in
      rw none_left (ap₂ (λ (n : ℕ) (u : List ℕ). (n, u)) (omega (arith, p.counted, p.word)) all)
]
  where
    nil_of_length : (xs : List ℕ) → length xs ≡ 0 → xs ≡ []
    nil_of_length [] e = refl
    nil_of_length (x ∷ xs) e = absurd (omega arith)

-- On a format and strings without NUL inside, printf is undefined exactly if its format is; otherwise the
-- console gets the text that the format and its arguments mean, whole and in its order, whatever its
-- length, and the result is the length of that text, by 16 bits.
pub printf-format :
    (fmt : List ℕ) (args : List Arg)
    → no_nul fmt ≡ true
    → real_args args ≡ true
    → printf fmt args ≡ elim (format fmt args) [ none ↦ none | some t ↦ some (printed t) ]
unfolding printf
printf-format fmt args real good =
    at_end (print_on fmt args new_batch) (format fmt args)
      (print_on-Agrees fmt args new_batch [] real good new_batch-Printed)
  where
    at_end :
        (r : Option Batch) (u : Option (List ℕ))
        → Agrees [] r u
        → elim r [ none ↦ none | some o ↦ some (finish o) ]
          ≡ elim u [ none ↦ none | some t ↦ some (printed t) ]
    at_end none none h = refl
    at_end none (some t) h = elim h [ ]
    at_end (some o) none h = elim h [ ]
    at_end (some o) (some t) p = ap some (finish-printed o t p)
