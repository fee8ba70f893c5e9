-- ===== src/Text.antt =====
-- Numbers and characters as text: itoa, uitoa and xtoa of io/print.c, and the functions on strings of
-- user/lib/flib.c.
use frostbite.Base.{
  ℕ, zero, suc, ◌+◌, ◌-◌, ◌*◌, ◌/◌, ◌%◌, ◌^◌, Bool, true, false, ◌&&◌, Option, none, some, List, [],
  ◌∷◌, ◌==◌, if◌then◌else◌, ltb, leb, length, ℤ, pos, negsuc, for_slots,
}
pub mod Power
pub mod Digits
pub mod Print
pub mod Reverse
pub mod Round
pub mod Numeral
pub mod Sort
pub mod Str
pub mod Format
pub mod Input
pub mod Scan
mod Tests

abbrev pub base_numeric_ascii : ℕ
base_numeric_ascii = 48

-- A buffer, by index, and the number of characters in it.
pub record Buffer : Type 0 where
  pub chars : ℕ → ℕ
  pub count : ℕ

unfoldable pub poke : ℕ → ℕ → (ℕ → ℕ) → ℕ → ℕ
poke i c chars j = if j == i then c else chars j

-- A digit of a hexadecimal number.
abbrev pub hex_char : ℕ → ℕ
hex_char d = if ltb d 10 then d + base_numeric_ascii else d % 10 + 65

-- The `do … while` loops of the three conversions: the digits, the lowest first, from `start` on. A
-- number below `base ^ n` has no more than `n` digits.
unfoldable pub put_digits : ℕ → (base start v : ℕ) → Buffer → Buffer
put_digits zero base start v b = b
put_digits (suc n) base start v b =
    let b1 : Buffer = record {
      chars = poke (start + b.count) (hex_char (v % base)) b.chars;
      count = b.count + 1;
    } in
    let rest = put_digits n base start (v / base) b1 in if v / base == 0 then b1 else rest

-- The body of the loops that reverse the digits.
unfoldable pub swap_digits : (start count i : ℕ) → (ℕ → ℕ) → ℕ → ℕ
swap_digits start count i chars =
    poke (count - i - 1 + start) (chars (i + start))
      (poke (i + start) (chars (count - i - 1 + start)) chars)

unfoldable pub reverse_digits : ℕ → Buffer → ℕ → ℕ
reverse_digits start b = for_slots (b.count / 2) 0 (swap_digits start b.count) b.chars

abbrev pub no_chars : Buffer
no_chars = record { chars = λ j. 0; count = 0 }

-- The buffer that each conversion returns a pointer to, and the number of its characters.
unfoldable pub uitoa : ℕ → Buffer
uitoa v =
    let b = put_digits 10 10 0 v no_chars in
    record { chars = poke b.count 0 (reverse_digits 0 b); count = b.count }

-- The absolute value and the sign of the argument.
unfoldable pub itoa : Bool → ℕ → Buffer
itoa neg v =
    let start = if neg then 1 else 0 in
    let b = put_digits 10 10 start v no_chars in
    let chars = poke (b.count + start) 0 (reverse_digits start b) in
    record { chars = if neg then poke 0 45 chars else chars; count = b.count + start }

unfoldable pub xtoa : ℕ → Buffer
xtoa v =
    let b = put_digits 16 16 2 v no_chars in
    record {
      chars = poke (b.count + 2) 0 (poke 1 120 (poke 0 48 (reverse_digits 2 b)));
      count = b.count + 2;
    }

-- A C string is the list of its characters before the NUL.
abbrev pub strlen : List ℕ → ℕ
strlen str = length str

unfoldable pub to_upper : ℕ → ℕ
to_upper ch = if leb 97 ch && leb ch 122 then ch - 32 else ch

unfoldable pub to_lower : ℕ → ℕ
to_lower ch = if leb 65 ch && leb ch 90 then ch + 32 else ch

unfoldable pub find_from : ℕ → ℕ → List ℕ → ℤ
find_from i ch [] = negsuc 0
find_from i ch (c ∷ cs) = if c == ch then pos i else find_from (i + 1) ch cs

unfoldable pub find : ℕ → List ℕ → ℤ
find ch str = find_from 0 ch str

-- The result is the bit pattern of the int64_t. The exponent halves in each call, so it is enough fuel.
unfoldable pub power_on : ℕ → ℕ → ℕ → ℕ
power_on zero base exp = 1
power_on (suc n) base exp =
    let half_pow = power_on n base (exp / 2) in
    let pow = (half_pow * half_pow) % 2 ^ 64 in
    if exp == 0 then 1 else if exp % 2 == 1 then (base * pow) % 2 ^ 64 else pow

unfoldable pub power : ℕ → ℕ → ℕ
power base exp = power_on exp base exp

abbrev pub is_digit : ℕ → Bool
is_digit c = leb 48 c && leb c 57

-- The loops of atoi, atoui and atox on a type of `w` bits; `none` at a character that is no digit.
-- `order` is the number of characters that follow.
unfoldable pub sum_digits : ℕ → List ℕ → ℕ → Option ℕ
sum_digits w [] num = some num
sum_digits w (c ∷ cs) num =
    let rest = sum_digits w cs ((num + (c - 48) * power 10 (length cs)) % 2 ^ w) in
    if is_digit c then rest else none

abbrev pub or_zero : Option ℕ → ℕ
or_zero none = 0
or_zero (some n) = n

-- The characters after a sign, and whether it is a minus.
abbrev pub after_sign : List ℕ → Bool × List ℕ
after_sign [] = (false, [])
after_sign (c ∷ cs) =
    if c == 45 then (true, cs) else if c == 43 then (false, cs) else (false, c ∷ cs)

-- The bit pattern of the int.
unfoldable pub atoi : List ℕ → ℕ
atoi str =
    let (neg, digits) = after_sign str in
    let num = or_zero (sum_digits 32 digits 0) in if neg then (2 ^ 32 - num) % 2 ^ 32 else num

unfoldable pub parse_unsigned : ℕ → List ℕ → ℕ
parse_unsigned w str =
    let (neg, digits) = after_sign str in if neg then 0 else or_zero (sum_digits w digits 0)

unfoldable pub atoui : List ℕ → ℕ
atoui str = parse_unsigned 32 str

unfoldable pub atox : List ℕ → ℕ
atox str = parse_unsigned 64 str
