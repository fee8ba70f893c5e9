-- ===== src/Memory/Bytes.antt =====
-- `memcpy` and `memset` on the words of kernel memory.
use frostbite.Base.{
  ℕ, zero, suc, ◌+◌, ◌*◌, ◌/◌, ◌%◌, ◌^◌, ◌&&◌, List, [], ◌∷◌, if◌then◌else◌, ltb, leb,
}
use frostbite.Memory.{Memory, store}

unfoldable pub read_byte : ℕ → Memory → ℕ
read_byte a m = m.word (a / 8 * 8) / 256 ^ (a % 8) % 256

-- The byte of a word is replaced, the lower and the higher ones stay.
unfoldable pub write_byte : ℕ → ℕ → Memory → Memory
write_byte a c m =
    let v = m.word (a / 8 * 8) in
    let low = v % 256 ^ (a % 8) in
    let high = v / 256 ^ (a % 8 + 1) * 256 ^ (a % 8 + 1) in
    store (a / 8 * 8) (high + c * 256 ^ (a % 8) + low) m

-- `memcpy(dst, src, n)` for `src` outside the memory, with its bytes.
unfoldable pub put_bytes : ℕ → List ℕ → Memory → Memory
put_bytes dst [] m = m
put_bytes dst (c ∷ cs) m = put_bytes (dst + 1) cs (write_byte dst c m)

-- `memcpy(dst, src, n)`
unfoldable pub copy_bytes : (n dst src : ℕ) → Memory → Memory
copy_bytes zero dst src m = m
copy_bytes (suc n) dst src m = copy_bytes n (dst + 1) (src + 1) (write_byte dst (read_byte src m) m)

-- `memset(dst, 0, n)` for whole words.
unfoldable pub clear_words : (n dst : ℕ) → Memory → Memory
clear_words n dst m = record m { word = λ b. if leb dst b && ltb b (dst + n) then 0 else m.word b }
