-- ===== src/Text/Scan.antt =====
-- scanf of user/lib/flib.c.
use frostbite.Base.{
  ℕ, zero, suc, ◌+◌, ◌-◌, Bool, not, ◌||◌, Option, none, some, List, [], ◌∷◌, ◌==◌, if◌then◌else◌,
  leb, length, ℤ, pos, negsuc,
}
use frostbite.Text.{atoi, atoui, atox}
use frostbite.Text.Str.{str_at, fill}
use frostbite.Text.Input.{max_scan_buf_size, read_input}

-- What is stored through a pointer: a character, a string without its NUL, or a number.
pub data Field : Type 0 where
  char_field : ℕ → Field
  string_field : List ℕ → Field
  number_field : ℕ → Field

-- scanf waits for more keys, is undefined for want of an argument, or ends with its result and what it
-- stored.
pub data Scanned : Type 0 where
  waits : Scanned
  undefined : Scanned
  scanned : ℤ → List Field → Scanned

-- The input buffer, the length of the input, the place in it, and the keys to come.
pub record Scanner : Type 0 where
  pub buf : ℕ → ℕ
  pub written : ℕ
  pub place : ℕ
  pub keys : List ℕ

-- `while (!(written = read_input(...)))`: each round that ends takes a key, so the number of keys and one
-- more is enough fuel.
unfoldable pub refill : ℕ → Scanner → Option Scanner
refill zero s = none
refill (suc n) s =
    let (done, (r, left)) = read_input max_scan_buf_size s.keys s.buf in
    let next : Scanner = record { buf = r.buf; written = r.write_count; place = 0; keys = left } in
    let again = refill n next in
    if not done then none else if r.write_count == 0 then again else some next

-- A place behind the input has the buffer cleared and read again.
unfoldable pub ready : Scanner → Option Scanner
ready s =
    if leb s.written s.place
    then refill (length s.keys + 1) (record s { buf = fill 0 s.written 0 s.buf })
    else some s

-- One more field.
abbrev pub with_field : Field → Scanned → Scanned
with_field f waits = waits
with_field f undefined = undefined
with_field f (scanned (pos n) fs) = scanned (pos (suc n)) (f ∷ fs)
with_field f (scanned (negsuc n) fs) = scanned (negsuc n) (f ∷ fs)

abbrev pub word_at : Scanner → List ℕ
word_at s = str_at (max_scan_buf_size - s.place) s.buf s.place

-- What the switch stores for a specification, and where it goes on; `none` for one that it does not know.
unfoldable pub scan_spec : ℕ → Scanner → Option (Field × Scanner)
scan_spec c s =
    let str = word_at s in
    let next : Scanner = record s { place = s.place + (length str + 1) } in
    if c == b'c'
    then some (char_field (s.buf s.place), record s { place = s.place + 2 })
    else if c == b's'
    then some (string_field str, next)
    else if c == b'd'
    then some (number_field (atoi str), next)
    else if c == b'u'
    then some (number_field (atoui str), next)
    else if c == b'x'
    then some (number_field (atox str), next)
    else none

abbrev pub is_blank : ℕ → Bool
is_blank c = c == 13 || c == 10 || c == 9 || c == b' '

-- The loop over the format. An argument says whether the pointer is not NULL. The default case of the
-- switch sets the result to -1.
unfoldable pub scan_on : List ℕ → List Bool → Scanner → Scanned
scan_on [] args s = scanned (pos 0) []
scan_on (c ∷ []) args s =
    if c == b'%'
    then elim (ready s) [ none ↦ waits | some s1 ↦ scanned (negsuc 0) [] ]
    else scanned (pos 0) []
scan_on (c ∷ spec ∷ fmt) args s =
    let plain = scan_on (spec ∷ fmt) args s in
    if not (c == b'%') then if is_blank c then plain else scanned (pos 0) [] else elim (ready s) [
      | none ↦ waits
      | some s1 ↦ elim (scan_spec spec s1) [
        | none ↦ scanned (negsuc 0) []
        | some taken ↦ elim args [
          | [] ↦ undefined
          | valid ∷ rest ↦
              if valid then with_field taken.0 (scan_on fmt rest taken.1) else scanned (pos 0) []
        ]
      ]
    ]

unfoldable pub scanf : List ℕ → List Bool → List ℕ → Scanned
scanf fmt args keys =
    let (done, (r, left)) = read_input max_scan_buf_size keys (λ j. 0) in
    let s : Scanner = record { buf = r.buf; written = r.write_count; place = 0; keys = left } in
    if done then scan_on fmt args s else waits
