-- ===== src/Env.antt =====
-- The environment of a process: `struct Map` and its functions in lib/lib.c.
pub mod Insert
mod Tests
use frostbite.Base.{
  ℕ, zero, suc, ◌+◌, ◌-◌, ◌*◌, ◌/◌, ◌%◌, ◌^◌, ◌≤◌, ◌<◌, ◌≡◌, refl, sym, ap, ◌∙◌, ◌≢◌, ◌⊎◌, inl, inr,
  Bool, true, false, not, ◌&&◌, ◌||◌, Option, none, some, List, [], ◌∷◌, ◌++◌, arith, ◌==◌,
  if◌then◌else◌, ltb, leb, has, length, ℤ, pos, negsuc, eqb_ℤ, bit_xor, find_slot, for_slots,
}

-- A C string is the list of its bytes before the NUL.
abbrev pub CString : Type 0
CString = List ℕ

-- `key_hash` is 0 in a free entry.
pub record MapEntry : Type 0 where
  pub key : CString
  pub value : CString
  pub key_hash : ℕ

abbrev pub Map : Type 0
Map = ℕ → MapEntry

abbrev pub hash_table_size : ℕ
hash_table_size = 101

-- The loop of `hash`, on size_t.
unfoldable pub hash_loop : CString → ℕ → ℕ
hash_loop [] h = h
hash_loop (c ∷ cs) h = hash_loop cs (bit_xor ((h * 54059) % 2 ^ 64) (c * 76963))

unfoldable pub hash : CString → ℕ
hash str = hash_loop str 37

abbrev pub has_hash : ℕ → Map → ℕ → Bool
has_hash h map i = h == (map i).key_hash

-- The entry whose value `at` points to; `none` for NULL.
unfoldable pub at : CString → Map → Option ℕ
at [] map = none
at (c ∷ cs) map = find_slot hash_table_size 0 (has_hash (hash (c ∷ cs)) map)

unfoldable pub put_entry : ℕ → MapEntry → Map → Map
put_entry i e map j = if j == i then e else map j

-- The strings fit their buffers: the system call refuses longer ones.
unfoldable pub insert : (key value : CString) → Map → Map
insert key value map = elim (at key map) [
  | some i ↦ put_entry i (record (map i) { value = value }) map
  | none ↦ elim (find_slot hash_table_size 0 (has_hash 0 map)) [
    | none ↦ map
    | some i ↦ put_entry i (record { key = key; value = value; key_hash = hash key }) map
  ]
]

unfoldable pub erase : CString → Map → Map
erase key map = elim (find_slot hash_table_size 0 (has_hash (hash key) map)) [
  | none ↦ map
  | some i ↦ put_entry i (record (map i) { key_hash = 0 }) map
]

-- The entries whose keys are stored through `key_list`; the result of the function is their number.
unfoldable pub keys : Map → List ℕ
keys map =
    for_slots hash_table_size 0 (λ i found. if has_hash 0 map i then found else found ++ (i ∷ []))
      []
