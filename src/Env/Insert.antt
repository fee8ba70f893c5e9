-- ===== src/Env/Insert.antt =====
-- What `at` finds after `insert`.
use frostbite.Base.{
  eqb→eq, eqb_refl, Bool-cases, ℕ, ◌≤◌, ◌<◌, ◌≡◌, refl, ap, ◌∙◌, ◌≢◌, ◌⊎◌, inl, inr, true, false,
  none, some, ◌∷◌, arith, ◌==◌, find_slot, find_slot-some, find_slot-none, Option-cases,
}
use frostbite.Env.{CString, MapEntry, Map, hash, at, insert, put_entry, has_hash}
use mathlib.Core.Path.{fun_ext}

module _ (map : Map) (i h : ℕ) where
  -- A new value leaves the hashes alone.
  same_hash :
      (v : CString) → has_hash h (put_entry i (record (map i) { value = v }) map) ≡ has_hash h map
  unfolding put_entry
  same_hash v = fun_ext (λ j. ground arith)

  put_here : (e : MapEntry) → e.key_hash ≡ h → has_hash h (put_entry i e map) i ≡ true
  unfolding put_entry
  put_here e same = rw (eqb_refl i, same, eqb_refl h)

  put_there :
      (e : MapEntry) (j : ℕ)
      → (j == i) ≡ false
      → has_hash h (put_entry i e map) j ≡ has_hash h map j
  unfolding put_entry
  put_there e j other = rw other

  -- In a map without the hash, the new entry is the only one that has it.
  only_hit :
      (e : MapEntry)
      → i < 101
      → e.key_hash ≡ h
      → ((j : ℕ) → 0 ≤ j → j < 101 → has_hash h map j ≡ false)
      → find_slot 101 0 (has_hash h (put_entry i e map)) ≡ some i
  only_hit e lt same none_before =
      elim (Option-cases (find_slot 101 0 (has_hash h (put_entry i e map)))) [
        | inl missed ↦
            let out =
              find_slot-none 101 0 (has_hash h (put_entry i e map)) missed i (omega arith)
                (omega arith) in
            (let here = put_here e same in cc)
        | inr (j, found) ↦
            let (lo, hi, t, before) =
              find_slot-some 101 0 (has_hash h (put_entry i e map)) j found in
            found
            ∙ ap some (elim (Bool-cases (j == i)) [
              | inl hit ↦ eqb→eq j i hit
              | inr other ↦
                  let a = put_there e j other in
                  let b = none_before j (omega arith) (omega arith) in cc
            ])
      ]

-- What `at` finds for a key after `insert` is an entry with the inserted value, if the map had the
-- key or an entry of hash 0, which is a free one.
pub at-insert :
    (c : ℕ) (cs value : CString) (map : Map)
    → (at (c ∷ cs) map ≢ none) ⊎ (find_slot 101 0 (has_hash 0 map) ≢ none)
    → (i : ℕ) × (at (c ∷ cs) (insert (c ∷ cs) value map) ≡ some i)
      × ((insert (c ∷ cs) value map i).value ≡ value)
unfolding at insert put_entry
at-insert c cs value map room = elim (Option-cases (at (c ∷ cs) map)) [
  | inr (i, e) ↦ present i e
  | inl e ↦ elim (Option-cases (find_slot 101 0 (has_hash 0 map))) [
    | inl full ↦ (elim room [ inl a ↦ absurd (a e) | inr b ↦ absurd (b full) ])
    | inr (i, free) ↦ absent e i free
  ]
]
  where
    present :
        (i : ℕ)
        → at (c ∷ cs) map ≡ some i
        → (i : ℕ) × (at (c ∷ cs) (insert (c ∷ cs) value map) ≡ some i)
          × ((insert (c ∷ cs) value map i).value ≡ value)
    present i e =
        (i, rw (e, insert, same_hash map i (hash (c ∷ cs)) value) e, rw (e, insert, eqb_refl i))

    absent :
        at (c ∷ cs) map ≡ none
        → (i : ℕ) → find_slot 101 0 (has_hash 0 map) ≡ some i
        → (i : ℕ) × (at (c ∷ cs) (insert (c ∷ cs) value map) ≡ some i)
          × ((insert (c ∷ cs) value map i).value ≡ value)
    absent e i free =
        let (lo, hi, t, before) = find_slot-some 101 0 (has_hash 0 map) i free in
        let entry : MapEntry = record { key = c ∷ cs; value = value; key_hash = hash (c ∷ cs) } in
        let none_before = find_slot-none 101 0 (has_hash (hash (c ∷ cs)) map) e in
        (
          i,
          rw (e, insert, free) (only_hit map i (hash (c ∷ cs)) entry hi refl none_before),
          rw (e, insert, free, insert, eqb_refl i),
        )
