-- ===== src/Text/Format/Meaning.antt =====
-- What a format and its arguments mean, and that printf prints it.
use frostbite.Base.{
  eqb→eq, Bool-cases, ℕ, ◌%◌, ◌^◌, ◌≡◌, refl, ap, inl, inr, Bool, true, false, not, ◌&&◌, ◌||◌,
  Option, none, some, List, [], ◌∷◌, ◌++◌, ◌==◌, if◌then◌else◌, ltb,
}
use frostbite.Text.{itoa, uitoa, xtoa}
use frostbite.Text.Numeral.{numeral, uitoa-numeral, itoa-numeral, xtoa-numeral}
use frostbite.Text.Str.{no_nul}
use frostbite.Text.Format.{
  Arg, unsigned, signed, string, number_string, char_string, take_unsigned, take_signed,
  take_string, fmt_spec, format, printf,
}
use frostbite.Text.Format.Agree.{real_args, printed, printf-format}

-- The text of one argument; none for an argument of the wrong type. A 32-bit number has at most 10
-- decimal digits, a 64-bit number at most 16 hexadecimal ones.
abbrev pub shown_as : ℕ → Arg → Option (List ℕ)
shown_as s (unsigned v) =
    if s == b'u'
    then some (numeral 10 10 (v % 2 ^ 32))
    else if s == b'x'
    then some (b'0' ∷ b'x' ∷ numeral 16 16 v)
    else if s == b'c'
    then some (if v % 256 == 0 then [] else v % 256 ∷ [])
    else none
shown_as s (signed neg v) =
    if s == b'd' then some (if neg then b'-' ∷ numeral 10 10 v else numeral 10 10 v) else none
shown_as s (string str) = if s == b's' then some str else none

-- The specifications that take an argument.
abbrev pub takes_arg : ℕ → Bool
takes_arg s = s == b'c' || s == b'x' || s == b'd' || s == b's' || s == b'u'

-- A text before another, if it has a meaning.
abbrev pub before : Option (List ℕ) → Option (List ℕ) → Option (List ℕ)
before none u = none
before (some t) none = none
before (some t) (some u) = some (t ++ u)

-- The text of a format: each specification that takes an argument is replaced by the text of the next
-- argument, another one by nothing.
unfoldable pub meaning : List ℕ → List Arg → Option (List ℕ)
meaning [] args = some []
meaning (c ∷ []) args = if c == b'%' then none else some (c ∷ [])
meaning (c ∷ s ∷ fmt) [] =
    let plain = meaning (s ∷ fmt) [] in
    let later = meaning fmt [] in
    if not (c == b'%') then before (some (c ∷ [])) plain else if takes_arg s then none else later
meaning (c ∷ s ∷ fmt) (a ∷ args) =
    let plain = meaning (s ∷ fmt) (a ∷ args) in
    let later = meaning fmt (a ∷ args) in
    let next = meaning fmt args in
    if not (c == b'%')
    then before (some (c ∷ [])) plain
    else if takes_arg s
    then before (shown_as s a) next
    else later

-- The numbers that the conversions print as they should: below 16^15, as a longer one is written behind
-- the buffer of xtoa, and above -2^31.
abbrev in_range : Arg → Bool
in_range (unsigned v) = ltb v (16 ^ 15)
in_range (signed neg v) = ltb v (2 ^ 31)
in_range (string str) = true

abbrev pub all_in_range : List Arg → Bool
all_in_range [] = true
all_in_range (a ∷ args) = in_range a && all_in_range args

-- What the switch takes, by the meaning.
abbrev spec_of : ℕ → List Arg → Option (List ℕ × List Arg)
spec_of s [] = if takes_arg s then none else some ([], [])
spec_of s (a ∷ args) =
    if takes_arg s
    then elim (shown_as s a) [ none ↦ none | some t ↦ some (t, args) ]
    else some ([], a ∷ args)

fmt_spec-spec_of : (s : ℕ) (args : List Arg) → fmt_spec s args ≡ spec_of s args
unfolding fmt_spec
fmt_spec-spec_of s args = elim (Bool-cases (s == b'c')) [
  | inl e ↦ rw (eqb→eq s b'c' e) (char args)
  | inr nc ↦ elim (Bool-cases (s == b'x')) [
    | inl e ↦ rw (eqb→eq s b'x' e) (hex args)
    | inr nx ↦ elim (Bool-cases (s == b'd')) [
      | inl e ↦ rw (eqb→eq s b'd' e) (decimal args)
      | inr nd ↦ elim (Bool-cases (s == b's')) [
        | inl e ↦ rw (eqb→eq s b's' e) (str args)
        | inr ns ↦ elim (Bool-cases (s == b'u')) [
          | inl e ↦ rw (eqb→eq s b'u' e) (number args)
          | inr nu ↦ rw (nc, nx, nd, ns, nu) (other args (rw (nc, nx, nd, ns, nu) refl))
        ]
      ]
    ]
  ]
]
  where
    char : (args : List Arg) → take_unsigned char_string args ≡ spec_of b'c' args
    char [] = refl
    char (unsigned v ∷ args) = refl
    char (signed neg v ∷ args) = refl
    char (string str ∷ args) = refl

    hex : (args : List Arg) → take_unsigned (λ v. number_string (xtoa v)) args ≡ spec_of b'x' args
    hex [] = refl
    hex (unsigned v ∷ args) = rw (xtoa-numeral v) refl
    hex (signed neg v ∷ args) = refl
    hex (string str ∷ args) = refl

    decimal :
        (args : List Arg)
        → take_signed (λ neg v. number_string (itoa neg v)) args ≡ spec_of b'd' args
    decimal [] = refl
    decimal (unsigned v ∷ args) = refl
    decimal (signed neg v ∷ args) = rw (itoa-numeral neg v) refl
    decimal (string str ∷ args) = refl

    str : (args : List Arg) → take_string args ≡ spec_of b's' args
    str [] = refl
    str (unsigned v ∷ args) = refl
    str (signed neg v ∷ args) = refl
    str (string t ∷ args) = refl

    number :
        (args : List Arg)
        → take_unsigned (λ v. number_string (uitoa (v % 2 ^ 32))) args ≡ spec_of b'u' args
    number [] = refl
    number (unsigned v ∷ args) = rw (uitoa-numeral (v % 2 ^ 32)) refl
    number (signed neg v ∷ args) = refl
    number (string str ∷ args) = refl

    other : (args : List Arg) → takes_arg s ≡ false → some ([], args) ≡ spec_of s args
    other [] no_arg = rw no_arg refl
    other (a ∷ args) no_arg = rw no_arg refl

skipped : (u : Option (List ℕ)) → before (some []) u ≡ u
skipped none = refl
skipped (some t) = refl

one :
    (c : ℕ) (u : Option (List ℕ))
    → elim u [ none ↦ none | some t ↦ some (c ∷ t) ] ≡ before (some (c ∷ [])) u
one c none = refl
one c (some t) = refl

format-meaning : (fmt : List ℕ) (args : List Arg) → format fmt args ≡ meaning fmt args
unfolding format meaning
format-meaning [] args = refl
format-meaning (c ∷ []) args = refl
format-meaning (c ∷ s ∷ fmt) [] = elim (Bool-cases (c == b'%')) [
  | inl percent ↦
      rw (percent, fmt_spec-spec_of s [])
        (elim (Bool-cases (takes_arg s)) [
          | inl arg ↦ rw arg refl
          | inr no_arg ↦ rw (no_arg, format-meaning fmt []) (skipped (meaning fmt []))
        ])
  | inr plain ↦ rw (plain, format-meaning (s ∷ fmt) []) (one c (meaning (s ∷ fmt) []))
]
format-meaning (c ∷ s ∷ fmt) (a ∷ args) = elim (Bool-cases (c == b'%')) [
  | inl percent ↦
      rw (percent, fmt_spec-spec_of s (a ∷ args))
        (elim (Bool-cases (takes_arg s)) [
          | inl arg ↦ rw arg (next (format-meaning fmt args) (shown_as s a))
          | inr no_arg ↦
              rw (no_arg, format-meaning fmt (a ∷ args)) (skipped (meaning fmt (a ∷ args)))
        ])
  | inr plain ↦
      rw (plain, format-meaning (s ∷ fmt) (a ∷ args)) (one c (meaning (s ∷ fmt) (a ∷ args)))
]
  where
    next :
        format fmt args ≡ meaning fmt args
        → (x : Option (List ℕ))
        → (let taken : Option (List ℕ × List Arg) = elim x [
          | none ↦ none
          | some t ↦ some (t, args)
        ] in
            let r : Option (List ℕ) = elim taken [
              | none ↦ none
              | some y ↦ elim (format fmt y.1) [ none ↦ none | some t ↦ some (y.0 ++ t) ]
            ] in
            r ≡ before x (meaning fmt args))
    next ih none = refl
    next ih (some t) = ap (before (some t)) ih

-- For a format and strings without NUL inside, and numbers in the range that the conversions can print:
-- printf is undefined exactly if the format has no meaning, for want of an argument of the right type or
-- for a percent sign at its end. Otherwise the console gets what the format and its arguments mean, whole
-- and in its order, whatever its length, and the result is the length of that text, by 16 bits.
pub printf-meaning :
    (fmt : List ℕ) (args : List Arg)
    → no_nul fmt ≡ true
    → real_args args ≡ true
    → all_in_range args ≡ true
    → printf fmt args ≡ elim (meaning fmt args) [ none ↦ none | some t ↦ some (printed t) ]
printf-meaning fmt args real good small =
    rw (← format-meaning fmt args) (printf-format fmt args real good)
