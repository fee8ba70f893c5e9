-- ===== src/Fat/Read.antt =====
-- `read_raw_data` against the contents of a chain of clusters.
use frostbite.Fat.{
  skip_clusters, Image, bytes, get_next_cluster_index, get_cluster_size, get_cluster_offset,
  get_fs_bpb, end_of_data, read_loop, read_raw_data, min,
}
use frostbite.Base.{
  ℕ, zero, suc, ◌+◌, ◌-◌, ◌/◌, ◌%◌, ◌≤◌, ◌<◌, ◌≡◌, refl, sym, ap, ◌∙◌, inl, inr, true, false, some,
  List, [], ◌∷◌, ◌++◌, arith, ◌==◌, ltb, leb, length, eqb_of_ne, Bool-cases, take, drop,
  take-append, take-append_past,
}
use native.Mathlib.Nat.{mod-lt, div-eq_of_lt}
use mathlib.Core.List.{append-nil, append_assoc}
use frostbite.Fat.Chain.{
  length-bytes, take-bytes, IsChain, cluster_start, contents, span, get_cluster_offset-some, begins,
  next_cluster_of,
}

-- What is taken from a block of bytes and what follows.
take_block :
    (img : Image) (s n a : ℕ) (rest : List ℕ)
    → s ≤ n
    → take s (bytes img n a ++ rest) ≡ bytes img s a
take_block img s n a rest h =
    take-append s (bytes img n a) rest (rw length-bytes h) ∙ take-bytes img s n a h

take_blocks :
    (img : Image) (s n a : ℕ) (rest : List ℕ)
    → n ≤ s
    → take s (bytes img n a ++ rest) ≡ bytes img n a ++ take (s - n) rest
take_blocks img s n a rest h =
    let e : s ≡ length (bytes img n a) + (s - n) = rw length-bytes (omega arith) in
    ap (λ t. take t (bytes img n a ++ rest)) e ∙ take-append_past (s - n) (bytes img n a) rest

module _ (img : Image) where
  -- The end of the loop: everything was read.
  done :
      (f : ℕ) (out : List ℕ) (rs size from copy_size index : ℕ)
      → 0 < f
      → rs ≡ size
      → read_loop img f out rs size from copy_size index ≡ some (size, out)
  unfolding read_loop
  done zero out rs size from copy_size index some_f e = absurd (omega arith)
  done (suc f) out rs size from copy_size index some_f e =
      let full : leb size rs ≡ true = ground arith in rw (full, e)

  module _ (f : ℕ) (out : List ℕ) (rs size from copy c : ℕ) (lt : rs < size) where
    last_round :
        get_next_cluster_index img c ≡ end_of_data
        → rs + copy ≡ size
        → read_loop img (suc f) out rs size from copy c ≡ some (size, out ++ bytes img copy from)
    unfolding read_loop bytes
    last_round e whole =
        let more : leb size rs ≡ false = ground arith in
        let none_left : size - (rs + copy) ≡ 0 = omega arith in
        let all : rs + copy + 0 ≡ size = omega arith in rw (more, e, none_left, all, append-nil)

    next_round :
        (offset : ℕ)
        → (get_next_cluster_index img c == end_of_data) ≡ false
        → get_cluster_offset img (get_next_cluster_index img c) ≡ some offset
        → read_loop img (suc f) out rs size from copy c
          ≡ read_loop img f
              (out ++ bytes img copy from)
              (rs + copy)
              size
              (get_fs_bpb img + offset)
              (min (size - (rs + copy)) (get_cluster_size img))
              (get_next_cluster_index img c)
    unfolding read_loop
    next_round offset other e =
        let more : leb size rs ≡ false = ground arith in rw (more, other, e, read_loop)

  -- What is still to come is read from the block of `n` bytes at `from` and the chain behind it.
  abbrev wanted : (cs : List ℕ) (rs size from n : ℕ) → List ℕ
  wanted cs rs size from n = take (size - rs) (bytes img n from ++ contents img cs)

  -- A block, and what is wanted after it.
  joined :
      (out : List ℕ) (rs size from n start c : ℕ) (cs : List ℕ)
      → start ≡ cluster_start img c
      → n < size - rs
      → (out ++ bytes img n from) ++ wanted cs (rs + n) size start (get_cluster_size img)
        ≡ out ++ wanted (c ∷ cs) rs size from n
  joined out rs size from n start c cs e big =
      let left : size - rs - n ≡ size - (rs + n) = omega arith in
      let split = take_blocks img (size - rs) n from (contents img (c ∷ cs)) (omega arith) in
      rw e (append_assoc out (bytes img n from) _ ∙ ap (λ t. out ++ t) (sym (rw left at split)))

  min_le : (a b : ℕ) → a ≤ b → min a b ≡ a
  min_le a b h = let e : ltb b a ≡ false = ground arith in rw e

  min_ge : (a b : ℕ) → b < a → min a b ≡ b
  min_ge a b h = let e : ltb b a ≡ true = ground arith in rw e

  -- The next cluster of a chain that goes on.
  step_to :
      (index c : ℕ) (cs : List ℕ)
      → IsChain img index (c ∷ cs)
      → ((index == end_of_data) ≡ false)
        × ((offset : ℕ) × (get_cluster_offset img index ≡ some offset)
            × (cluster_start img c ≡ get_fs_bpb img + offset))
  step_to index c cs (same, two, other, chain) =
      let (offset, e, start) = get_cluster_offset-some img c two in
      (rw same (eqb_of_ne c end_of_data other), (offset, rw same e, start))

  -- The loop from a position in the cluster `c` on, with `n` bytes left in it.
  read_loop-take :
      (cs : List ℕ) (fuel : ℕ) (out : List ℕ) (rs size from n c : ℕ)
      → 0 < n
      → 0 < get_cluster_size img
      → IsChain img (get_next_cluster_index img c) cs
      → rs < size
      → size - rs ≤ n + span img cs
      → size - rs < fuel
      → read_loop img fuel out rs size from (min (size - rs) n) c
        ≡ some (size, out ++ wanted cs rs size from n)
  read_loop-take cs zero out rs size from n c some_n some_cs chain lt fits enough =
      absurd (omega arith)
  read_loop-take [] (suc f) out rs size from n c some_n some_cs chain lt fits enough =
      let short : size - rs ≤ n = omega arith in
      rw (min_le (size - rs) n short, take_block img (size - rs) n from [] short)
        (last_round f out rs size from (size - rs) c lt chain (omega arith))
  read_loop-take (c' ∷ cs) (suc f) out rs size from n c some_n some_cs chain lt fits enough =
      let (other, (offset, e, start)) = step_to (get_next_cluster_index img c) c' cs chain in
      elim (Bool-cases (ltb n (size - rs))) [
        | inl long ↦
            let big : n < size - rs = ground arith in
            let ih =
              read_loop-take cs f (out ++ bytes img n from) (rs + n) size (get_fs_bpb img + offset)
                (get_cluster_size img) (get_next_cluster_index img c) some_cs some_cs
                (rw chain.0 chain.3) (omega arith) (omega arith) (omega arith) in
            rw (min_ge (size - rs) n big) (
              next_round f out rs size from n c lt offset other e
              ∙ ih
              ∙ ap (λ t. some (size, t))
                  (joined out rs size from n (get_fs_bpb img + offset) c' cs (sym start) big))
        | inr fits_in ↦
            let short : size - rs ≤ n = ground arith in
            rw
              (
                min_le (size - rs) n short,
                take_block img (size - rs) n from (contents img (c' ∷ cs)) short,
              )
              (next_round f out rs size from (size - rs) c lt offset other e
                ∙ done f _ (rs + (size - rs)) size _ _ _ (omega arith) (omega arith))
      ]

  -- The loop from the start of a read.
  whole_read :
      (cs : List ℕ) (size from n c : ℕ)
      → 0 < n
      → 0 < get_cluster_size img
      → IsChain img (get_next_cluster_index img c) cs
      → size ≤ n + span img cs
      → read_loop img (size + 1) [] 0 size from (min size n) c
        ≡ some (size, take size (bytes img n from ++ contents img cs))
  whole_read cs zero from n c some_n some_cs chain fits =
      done (0 + 1) [] 0 0 from _ c (omega arith) refl
  whole_read cs (suc m) from n c some_n some_cs chain fits =
      let e : suc m - 0 ≡ suc m = omega arith in
      let taken =
        read_loop-take cs (suc m + 1) [] 0 (suc m) from n c some_n some_cs chain (omega arith)
          (omega arith) (omega arith) in
      rw e at taken

  -- A read within the chain of a file ends, trips no assertion, and copies exactly the bytes of the
  -- file's contents from the offset on; it returns their number.
  pub read_raw_data-contents :
      (cs : List ℕ) (cluster_index offset size : ℕ)
      → 0 < get_cluster_size img
      → IsChain img cluster_index cs
      → offset < span img cs
      → offset + size ≤ span img cs
      → read_raw_data img cluster_index offset size
        ≡ some (size, take size (drop offset (contents img cs)))
  unfolding read_raw_data
  read_raw_data-contents cs cluster_index offset size some_cs chain lt fits =
      let (c, rest, b) = begins img cs cluster_index offset some_cs chain lt in
      let (same, two, other, more) = b.chain in
      let (base, e, start) = get_cluster_offset-some img c two in
      let low : ltb c 2 ≡ false = ground arith in
      let some_left : 0 < get_cluster_size img - offset % get_cluster_size img =
        omega (arith, mod-lt offset some_cs) in
      rw (same, low, e, b.left, ← start, same)
        (whole_read rest size (cluster_start img c + offset % get_cluster_size img)
          (get_cluster_size img - offset % get_cluster_size img) c some_left some_cs more
          (omega (arith, b.size)))

  skipped_low :
      (cs : List ℕ) (index offset : ℕ)
      → 0 < get_cluster_size img
      → IsChain img index cs
      → offset ≤ span img cs
      → 2 ≤ skip_clusters img (offset / get_cluster_size img) index
  unfolding skip_clusters
  skipped_low [] index offset some_size chain le =
      let e : offset ≡ 0 = omega arith in
      let q : 0 / get_cluster_size img ≡ 0 = div-eq_of_lt some_size in
      rw (e, q, skip_clusters, chain) (omega arith)
  skipped_low (c ∷ cs) index offset some_size chain le =
      elim (Bool-cases (ltb offset (get_cluster_size img))) [
        | inl here ↦
            let q : offset / get_cluster_size img ≡ 0 = div-eq_of_lt (ground arith) in
            rw (q, skip_clusters, chain.0) chain.1
        | inr past ↦
            let (q, r) = next_cluster_of offset (get_cluster_size img) some_size (ground arith) in
            rw (q, skip_clusters, chain.0)
              (skipped_low cs (get_next_cluster_index img c) (offset - get_cluster_size img)
                some_size chain.3 (omega arith))
      ]

  -- A read of nothing, up to the end of the clusters.
  pub read_raw_data-nothing :
      (cs : List ℕ) (cluster_index offset : ℕ)
      → 0 < get_cluster_size img
      → IsChain img cluster_index cs
      → offset ≤ span img cs
      → read_raw_data img cluster_index offset 0 ≡ some (0, [])
  unfolding read_raw_data
  read_raw_data-nothing cs cluster_index offset some_cs chain le =
      let index = skip_clusters img (offset / get_cluster_size img) cluster_index in
      let two = skipped_low cs cluster_index offset some_cs chain le in
      let low : ltb index 2 ≡ false = ground arith in
      let (base, e, start) = get_cluster_offset-some img index two in
      rw (low, e) (done (0 + 1) [] 0 0 _ _ index (omega arith) refl)
