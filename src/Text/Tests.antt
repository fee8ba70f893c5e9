-- ===== src/Text/Tests.antt =====
-- The theorems on numbers as text, at small numbers.
use frostbite.Base.{
  ℕ, ◌-◌, ◌^◌, ◌≤◌, ◌<◌, ◌≡◌, refl, ◌⊎◌, true, false, some, List, [], ◌∷◌, arith, ◌==◌,
  if◌then◌else◌,
}
use frostbite.Text.Input
use frostbite.Text.Input.Typed.{read_input-typed}
use frostbite.Text
use frostbite.Text.Format
use frostbite.Text.Str
use frostbite.Text.Format.Meaning.{meaning, printf-meaning}
use frostbite.Text.Numeral.{numeral}
use frostbite.Text.Format.Kernel.{console, printk-printf}
use frostbite.Text.Sort.{sort, signed_key}
use frostbite.Text.Sort.Swap.{count}
use frostbite.Text.Sort.Loops.{sort-ordered}
use frostbite.Text.Digits.{value, atoi-value}
use frostbite.Text.Power.{power-pow}
use frostbite.Text.Round.{text, atoui-uitoa}

power-pow_example : Text.power 7 3 ≡ 343
power-pow_example = power-pow 7 3

atoui-uitoa_example :
    (Text.atoui (text (Text.uitoa 305)) ≡ 305)
    × (Text.Digits.all_digits (text (Text.uitoa 305)) ≡ true)
    × ((Text.uitoa 305).chars (Text.uitoa 305).count ≡ 0)
    × (0 < (Text.uitoa 305).count)
    × ((Text.uitoa 305).count ≤ 10)
atoui-uitoa_example = atoui-uitoa 305 (omega arith)

-- The patterns of 3, -1 and 2.
abbrev three_cells : ℕ → ℕ
three_cells j = if j == 0 then 3 else if j == 1 then 2 ^ 32 - 1 else 2

three_cells-words : (k : ℕ) → three_cells k < 2 ^ 32
three_cells-words k = ground arith

sort-ordered_example :
    ((p q : ℕ)
      → p < q
      → q < 3
      → signed_key (sort 3 three_cells p) ≤ signed_key (sort 3 three_cells q))
    × ((v : ℕ) → count v 3 (sort 3 three_cells) ≡ count v 3 three_cells)
sort-ordered_example = sort-ordered 3 three_cells three_cells-words

-- `n: %u%s` with 42 and `!`.
abbrev sample_format : List ℕ
sample_format = b'n' ∷ b':' ∷ b'%' ∷ b'u' ∷ b'%' ∷ b's' ∷ []

abbrev sample_args : List Text.Format.Arg
sample_args = Text.Format.unsigned 42 ∷ Text.Format.string (b'!' ∷ []) ∷ []

printf-meaning_example :
    Text.Format.printf sample_format sample_args ≡ some (5, b'n' ∷ b':' ∷ b'4' ∷ b'2' ∷ b'!' ∷ [])
unfolding meaning numeral Text.Format.write_string
printf-meaning_example = printf-meaning sample_format sample_args refl refl refl

printk-printf_example :
    Text.Format.printk sample_format sample_args
    ≡ console (Text.Format.printf sample_format sample_args)
printk-printf_example = printk-printf sample_format sample_args refl refl refl

-- `a`, a space, `b`, `c`, a backspace, enter.
abbrev input_keys : List ℕ
input_keys = b'a' ∷ b' ' ∷ b'b' ∷ b'c' ∷ 127 ∷ 13 ∷ []

abbrev no_chars_yet : ℕ → ℕ
no_chars_yet j = 0

read_input-typed_example :
    (let r = Text.Input.read_input 1024 input_keys no_chars_yet in
      (r.0 ≡ true)
      × (r.1.0.write_count ≡ 3)
      × (3 ≤ 1024 - 1)
      × ((k : ℕ) → k < 3 → r.1.0.buf (3 - 1 - k) ≡ Text.Str.char_at (b'b' ∷ 0 ∷ b'a' ∷ []) k)
      × ((r.0 ≡ false) ⊎ ((r.0 ≡ true) × (r.1.0.buf 3 ≡ 0)))
      × ((j : ℕ) → 1024 ≤ j → r.1.0.buf j ≡ 0))
read_input-typed_example = read_input-typed 1024 no_chars_yet input_keys (omega arith)
