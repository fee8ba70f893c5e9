-- ===== src/Keyboard.antt =====
-- The ring buffer of key strokes, io/keyboard.c.
pub mod Ring
pub mod Capture
mod Tests
use frostbite.Base.{
  ℕ, zero, suc, ◌+◌, ◌-◌, ◌*◌, ◌/◌, ◌%◌, ◌^◌, ◌≤◌, ◌<◌, ◌≡◌, refl, sym, ap, ◌∙◌, ◌≢◌, ◌⊎◌, inl, inr,
  Bool, true, false, not, ◌&&◌, ◌||◌, Option, none, some, List, [], ◌∷◌, ◌++◌, arith, ◌==◌,
  if◌then◌else◌, ltb, leb, has, length, ℤ, pos, negsuc, eqb_ℤ,
}

-- `struct KeyBuffer`
pub record KeyBuffer : Type 0 where
  pub buf : ℕ → ℕ
  pub front : ℕ
  pub end : ℕ

abbrev pub max_key_buf_size : ℕ
max_key_buf_size = 500

-- A character is dropped if the buffer is full.
unfoldable pub write_key_buffer : ℕ → KeyBuffer → KeyBuffer
write_key_buffer ch b =
    let next_write_pos = (b.end + 1) % max_key_buf_size in
    if next_write_pos == b.front
    then b
    else record b { buf = λ j. if j == b.end then ch else b.buf j; end = next_write_pos }

-- Whether the reader sleeps on KEYBOARD_INPUT first.
unfoldable pub must_sleep : KeyBuffer → Bool
must_sleep b = b.front == b.end

-- The read, which follows the sleep if there was one.
unfoldable pub read_key_buffer : KeyBuffer → ℕ × KeyBuffer
read_key_buffer b = (b.buf b.front, record b { front = (b.front + 1) % max_key_buf_size })
