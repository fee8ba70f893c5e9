-- ===== src/Text/Format.antt =====
-- printk of io/print.c and printf of user/lib/print.c, which collects its output in batches of at most
-- 99 characters, with write_string of io/uart.c and the write call of irq/syscall.c behind them.
pub mod Batches
pub mod Agree
pub mod Kernel
pub mod Meaning
use frostbite.Base.{
  ℕ, zero, suc, ◌+◌, ◌-◌, ◌*◌, ◌/◌, ◌%◌, ◌^◌, ◌≤◌, ◌<◌, ◌≡◌, refl, sym, ap, ◌∙◌, ◌≢◌, ◌⊎◌, inl, inr,
  Bool, true, false, not, ◌&&◌, ◌||◌, Option, none, some, List, [], ◌∷◌, ◌++◌, arith, ◌==◌,
  if◌then◌else◌, ltb, leb, has, length, ℤ, pos, negsuc, eqb_ℤ,
}
use frostbite.Text.{Buffer, poke, itoa, uitoa, xtoa}
use frostbite.Text.Str.{str_at}

-- An argument as va_arg takes it: a number without sign, one with its sign, and a string.
pub data Arg : Type 0 where
  unsigned : ℕ → Arg
  signed : Bool → ℕ → Arg
  string : List ℕ → Arg

-- The characters that write_string gives to the UART: a carriage return before each line feed.
unfoldable pub write_string : List ℕ → List ℕ
write_string [] = []
write_string (c ∷ cs) = if c == 10 then 13 ∷ c ∷ write_string cs else c ∷ write_string cs

-- The string in the buffer of a number, of less than 50 characters.
abbrev pub number_string : Buffer → List ℕ
number_string b = str_at 50 b.chars 0

abbrev pub char_string : ℕ → List ℕ
char_string v = if v % 256 == 0 then [] else v % 256 ∷ []

-- The next argument, as a string by `f`; one of another type is undefined.
abbrev pub take_unsigned : (ℕ → List ℕ) → List Arg → Option (List ℕ × List Arg)
take_unsigned f (unsigned v ∷ args) = some (f v, args)
take_unsigned f _ = none

abbrev pub take_signed : (Bool → ℕ → List ℕ) → List Arg → Option (List ℕ × List Arg)
take_signed f (signed neg v ∷ args) = some (f neg v, args)
take_signed f _ = none

abbrev pub take_string : List Arg → Option (List ℕ × List Arg)
take_string (string str ∷ args) = some (str, args)
take_string _ = none

-- The library of the programs has copies of the three conversions, which are the same line by line.
abbrev pub user_itoa : Bool → ℕ → Buffer
user_itoa neg v = itoa neg v

abbrev pub user_uitoa : ℕ → Buffer
user_uitoa v = uitoa v

abbrev pub user_xtoa : ℕ → Buffer
user_xtoa v = xtoa v

-- The switch of printf on the character after `%`; `%u` takes 32 bits.
unfoldable pub fmt_spec : ℕ → List Arg → Option (List ℕ × List Arg)
fmt_spec s args =
    if s == b'c'
    then take_unsigned char_string args
    else if s == b'x'
    then take_unsigned (λ v. number_string (user_xtoa v)) args
    else if s == b'd'
    then take_signed (λ neg v. number_string (user_itoa neg v)) args
    else if s == b's'
    then take_string args
    else if s == b'u'
    then take_unsigned (λ v. number_string (user_uitoa (v % 2 ^ 32))) args
    else some ([], args)

abbrev pub print_batch_buf_size : ℕ
print_batch_buf_size = 100

-- The locals of printf, and what the console has got.
pub record Batch : Type 0 where
  pub buf : ℕ → ℕ
  pub pos : ℕ
  pub count : ℕ
  pub console : List ℕ

-- The write call: what it prints, and the count that it returns.
unfoldable pub sys_write : List ℕ → ℕ → List ℕ × ℕ
sys_write str count = (write_string str, count)

-- `count += flush_uart(buf, pos)`, and `pos = 0`.
unfoldable pub flush_uart : Batch → Batch
flush_uart o =
    let buf = poke o.pos 0 o.buf in
    let (shown, written) = sys_write (str_at print_batch_buf_size buf 0) o.pos in
    record {
      buf = buf;
      pos = 0;
      count = (o.count + written) % 2 ^ 16;
      console = o.console ++ shown;
    }

unfoldable pub put_char : ℕ → Batch → Batch
put_char c o0 =
    let o = if o0.pos == print_batch_buf_size - 1 then flush_uart o0 else o0 in
    record o { buf = poke o.pos c o.buf; pos = o.pos + 1 }

unfoldable pub put_string : List ℕ → Batch → Batch
put_string [] o = o
put_string (c ∷ cs) o = put_string cs (put_char c o)

-- The loop over the format; undefined is a `%` at its end, behind which the code reads on.
unfoldable pub print_on : List ℕ → List Arg → Batch → Option Batch
print_on [] args o = some o
print_on (c ∷ []) args o = if c == b'%' then none else some (put_char c o)
print_on (c ∷ s ∷ fmt) args o =
    let plain = print_on (s ∷ fmt) args (put_char c o) in
    if c == b'%'
    then elim (fmt_spec s args) [
      | none ↦ none
      | some taken ↦ print_on fmt taken.1 (put_string taken.0 o)
    ]
    else plain

abbrev pub new_batch : Batch
new_batch = record { buf = λ j. 0; pos = 0; count = 0; console = [] }

-- The last batch.
unfoldable pub finish : Batch → ℕ × List ℕ
finish o = let last = if ltb 0 o.pos then flush_uart o else o in (last.count, last.console)

-- The result and what the console has got.
unfoldable pub printf : List ℕ → List Arg → Option (ℕ × List ℕ)
printf fmt args = elim (print_on fmt args new_batch) [ none ↦ none | some o ↦ some (finish o) ]

-- What the loop prints, as one text.
unfoldable pub format : List ℕ → List Arg → Option (List ℕ)
format [] args = some []
format (c ∷ []) args = if c == b'%' then none else some (c ∷ [])
format (c ∷ s ∷ fmt) args =
    let plain = format (s ∷ fmt) args in
    if c == b'%'
    then elim (fmt_spec s args) [
      | none ↦ none
      | some taken ↦ elim (format fmt taken.1) [ none ↦ none | some t ↦ some (taken.0 ++ t) ]
    ]
    else elim plain [ none ↦ none | some t ↦ some (c ∷ t) ]

-- The switch of printk, which prints a character as it is, and one that it does not know.
unfoldable pub spec_console : ℕ → List Arg → Option (List ℕ × List Arg)
spec_console s args =
    if s == b'c'
    then take_unsigned (λ v. v % 256 ∷ []) args
    else if s == b'x'
    then take_unsigned (λ v. write_string (number_string (xtoa v))) args
    else if s == b'd'
    then take_signed (λ neg v. write_string (number_string (itoa neg v))) args
    else if s == b's'
    then elim (take_string args) [ none ↦ none | some taken ↦ some (write_string taken.0, taken.1) ]
    else if s == b'u'
    then take_unsigned (λ v. write_string (number_string (uitoa (v % 2 ^ 32)))) args
    else some (s ∷ [], args)

-- What printk gives to the UART.
unfoldable pub printk : List ℕ → List Arg → Option (List ℕ)
printk [] args = some []
printk (c ∷ []) args = if c == b'%' then none else some (write_string (c ∷ []))
printk (c ∷ s ∷ fmt) args =
    let plain = printk (s ∷ fmt) args in
    if c == b'%'
    then elim (spec_console s args) [
      | none ↦ none
      | some taken ↦ elim (printk fmt taken.1) [ none ↦ none | some t ↦ some (taken.0 ++ t) ]
    ]
    else elim plain [ none ↦ none | some t ↦ some (write_string (c ∷ []) ++ t) ]
