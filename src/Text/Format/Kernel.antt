-- ===== src/Text/Format/Kernel.antt =====
-- printk and printf print the same on the formats that both know.
use frostbite.Base.{
  and_right, and_left, ℕ, ◌%◌, ◌^◌, ◌≡◌, refl, sym, ap, ◌∙◌, inl, inr, Bool, true, false, ◌&&◌,
  ◌||◌, Option, none, some, List, [], ◌∷◌, ◌++◌, arith, ◌==◌, if◌then◌else◌, Bool-cases,
}
use frostbite.Text.{itoa, uitoa, xtoa}
use frostbite.Text.Str.{no_nul}
use frostbite.Text.Format.{
  Arg, unsigned, signed, string, write_string, fmt_spec, spec_console, number_string, take_unsigned,
  take_signed, take_string, format, printf, printk,
}
use frostbite.Text.Format.Batches.{write_string-append}
use frostbite.Text.Format.Agree.{real_args, outcome, printf-format}

abbrev plain_spec : ℕ → Bool
plain_spec s = s == b'x' || s == b'd' || s == b's' || s == b'u'

-- Every `%` of the format begins one of `%x`, `%d`, `%s` and `%u`.
abbrev pub plain_specs : List ℕ → Bool
plain_specs [] = true
plain_specs (c ∷ []) = true
plain_specs (c ∷ s ∷ fmt) =
    let rest = plain_specs fmt in
    let after = plain_specs (s ∷ fmt) in if c == b'%' then plain_spec s && rest else after

abbrev written : Option (List ℕ × List Arg) → Option (List ℕ × List Arg)
written none = none
written (some taken) = some (write_string taken.0, taken.1)

take_unsigned-written :
    (f : ℕ → List ℕ) (args : List Arg)
    → take_unsigned (λ v. write_string (f v)) args ≡ written (take_unsigned f args)
take_unsigned-written f [] = refl
take_unsigned-written f (unsigned v ∷ args) = refl
take_unsigned-written f (signed neg v ∷ args) = refl
take_unsigned-written f (string str ∷ args) = refl

take_signed-written :
    (f : Bool → ℕ → List ℕ) (args : List Arg)
    → take_signed (λ neg v. write_string (f neg v)) args ≡ written (take_signed f args)
take_signed-written f [] = refl
take_signed-written f (unsigned v ∷ args) = refl
take_signed-written f (signed neg v ∷ args) = refl
take_signed-written f (string str ∷ args) = refl

take_string-written :
    (args : List Arg)
    → elim (take_string args) [ none ↦ none | some taken ↦ some (write_string taken.0, taken.1) ]
      ≡ written (take_string args)
take_string-written [] = refl
take_string-written (unsigned v ∷ args) = refl
take_string-written (signed neg v ∷ args) = refl
take_string-written (string str ∷ args) = refl

spec_console-written :
    (s : ℕ) (args : List Arg)
    → plain_spec s ≡ true
    → spec_console s args ≡ written (fmt_spec s args)
unfolding spec_console fmt_spec
spec_console-written s args ok =
    let no_char : (s == b'c') ≡ false = ground arith in
    elim (Bool-cases (s == b'x')) [
      | inl x ↦ rw (no_char, x) (take_unsigned-written (λ v. number_string (xtoa v)) args)
      | inr nx ↦ elim (Bool-cases (s == b'd')) [
        | inl d ↦
            rw (no_char, nx, d) (take_signed-written (λ neg v. number_string (itoa neg v)) args)
        | inr nd ↦ elim (Bool-cases (s == b's')) [
          | inl str ↦ rw (no_char, nx, nd, str) (take_string-written args)
          | inr ns ↦
              let u : (s == b'u') ≡ true = ground arith in
              rw (no_char, nx, nd, ns, u)
                (take_unsigned-written (λ v. number_string (uitoa (v % 2 ^ 32))) args)
        ]
      ]
    ]

abbrev shown : Option (List ℕ) → Option (List ℕ)
shown none = none
shown (some t) = some (write_string t)

printk-format :
    (fmt : List ℕ) (args : List Arg)
    → plain_specs fmt ≡ true
    → printk fmt args ≡ shown (format fmt args)
unfolding printk format write_string
printk-format [] args ok = refl
printk-format (c ∷ []) args ok = elim (Bool-cases (c == b'%')) [
  | inl percent ↦ rw percent refl
  | inr plain ↦ rw plain refl
]
printk-format (c ∷ s ∷ fmt) args ok = elim (Bool-cases (c == b'%')) [
  | inl percent ↦
      let known : (plain_spec s && plain_specs fmt) ≡ true = rw (percent) at ok in
      rw (percent, spec_console-written s args (and_left (plain_spec s) _ known))
        (after_spec (fmt_spec s args)
          (λ left. printk-format fmt left (and_right (plain_spec s) (plain_specs fmt) known)))
  | inr plain ↦
      let later : plain_specs (s ∷ fmt) ≡ true = rw (plain) at ok in
      rw (plain, printk-format (s ∷ fmt) args later) (after_char (format (s ∷ fmt) args))
]
  where
    joined :
        (str : List ℕ) (u : Option (List ℕ))
        → elim (shown u) [ none ↦ none | some t ↦ some (write_string str ++ t) ]
          ≡ shown (elim u [ none ↦ none | some t ↦ some (str ++ t) ])
    joined str none = refl
    joined str (some t) = ap some (sym (write_string-append str t))

    after_char :
        (u : Option (List ℕ))
        → elim (shown u) [ none ↦ none | some t ↦ some (write_string (c ∷ []) ++ t) ]
          ≡ shown (elim u [ none ↦ none | some t ↦ some (c ∷ t) ])
    after_char none = refl
    after_char (some t) = ap some (sym (write_string-append (c ∷ []) t))

    after_spec :
        (x : Option (List ℕ × List Arg))
        → ((left : List Arg) → printk fmt left ≡ shown (format fmt left))
        → elim (written x) [
          | none ↦ none
          | some taken ↦ elim (printk fmt taken.1) [ none ↦ none | some t ↦ some (taken.0 ++ t) ]
        ]
          ≡ shown (elim x [
            | none ↦ none
            | some taken ↦ elim (format fmt taken.1) [ none ↦ none | some t ↦ some (taken.0 ++ t) ]
          ])
    after_spec none next = refl
    after_spec (some taken) next = rw (next taken.1) (joined taken.0 (format fmt taken.1))

-- What printf puts on the console.
abbrev pub console : Option (ℕ × List ℕ) → Option (List ℕ)
console none = none
console (some r) = some r.1

-- On a format without NUL whose only specifications are `%x`, `%d`, `%s` and `%u`, and with strings
-- without NUL inside, the kernel's printk gives the UART the characters that a program's printf, with its
-- batches and write calls, puts on the console, and is undefined exactly if printf is.
pub printk-printf :
    (fmt : List ℕ) (args : List Arg)
    → no_nul fmt ≡ true
    → real_args args ≡ true
    → plain_specs fmt ≡ true
    → printk fmt args ≡ console (printf fmt args)
printk-printf fmt args real good ok =
    rw (printf-format fmt args real good) (printk-format fmt args ok ∙ same (format fmt args))
  where
    same : (u : Option (List ℕ)) → shown u ≡ console (outcome u)
    same none = refl
    same (some t) = refl
