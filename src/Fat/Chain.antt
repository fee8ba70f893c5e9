-- ===== src/Fat/Chain.antt =====
-- The clusters of a file, in the order in which the table links them, and the bytes in them.
use frostbite.Base.{
  ℕ, zero, suc, ◌+◌, ◌-◌, ◌/◌, ◌%◌, ◌≤◌, ◌<◌, ◌≡◌, refl, ap, ◌∙◌, ◌≢◌, inl, inr, false, none, some,
  List, [], ◌∷◌, ◌++◌, arith, ltb, length, Option-cases, Bool-cases, take, drop,
}
use native.Mathlib.Nat.{div-eq_of_lt, mod-eq_of_lt, div-eq-sub-div, mod-eq-sub-mod}
use frostbite.Fat.{
  Image, bytes, get_next_cluster_index, get_cluster_size, get_cluster_offset, get_fs_bpb,
  skip_clusters, end_of_data,
}

pub length-bytes : (img : Image) (n a : ℕ) → length (bytes img n a) ≡ n
unfolding bytes
length-bytes img zero a = refl
length-bytes img (suc n) a = ap suc (length-bytes img n (a + 1))

pub take-bytes : (img : Image) (m n a : ℕ) → m ≤ n → take m (bytes img n a) ≡ bytes img m a
unfolding bytes
take-bytes img zero n a h = refl
take-bytes img (suc m) zero a h = absurd (omega arith)
take-bytes img (suc m) (suc n) a h = ap (λ t. img a ∷ t) (take-bytes img m n (a + 1) (omega arith))

-- Past the first `m` bytes of a block.
pub drop-bytes :
    (img : Image) (m n a : ℕ) (rest : List ℕ)
    → drop m (bytes img (m + n) a ++ rest) ≡ bytes img n (a + m) ++ rest
unfolding bytes
drop-bytes img zero n a rest =
    let e : 0 + n ≡ n = omega arith in let e' : a + 0 ≡ a = omega arith in rw (e, e')
drop-bytes img (suc m) n a rest =
    let e : suc m + n ≡ suc (m + n) = omega arith in
    let e' : a + suc m ≡ a + 1 + m = omega arith in rw (e, e') (drop-bytes img m n (a + 1) rest)

pub drop-bytes_all :
    (img : Image) (m n a : ℕ) (rest : List ℕ) → drop (n + m) (bytes img n a ++ rest) ≡ drop m rest
unfolding bytes
drop-bytes_all img m zero a rest = let e : 0 + m ≡ m = omega arith in rw e
drop-bytes_all img m (suc n) a rest =
    let e : suc n + m ≡ suc (n + m) = omega arith in rw e (drop-bytes_all img m n (a + 1) rest)

drop-bytes_some :
    (img : Image) (m n a : ℕ) (rest : List ℕ)
    → m ≤ n
    → drop m (bytes img n a ++ rest) ≡ bytes img (n - m) (a + m) ++ rest
drop-bytes_some img m n a rest h =
    let e : n ≡ m + (n - m) = omega arith in
    ap (λ t. drop m (bytes img t a ++ rest)) e ∙ drop-bytes img m (n - m) a rest

drop-bytes_past :
    (img : Image) (m n a : ℕ) (rest : List ℕ)
    → n ≤ m
    → drop m (bytes img n a ++ rest) ≡ drop (m - n) rest
drop-bytes_past img m n a rest h =
    let e : m ≡ n + (m - n) = omega arith in
    ap (λ t. drop t (bytes img n a ++ rest)) e ∙ drop-bytes_all img (m - n) n a rest

first_cluster_of : (o s : ℕ) → o < s → (o / s ≡ 0) × (o % s ≡ o)
first_cluster_of o s h = (div-eq_of_lt h, mod-eq_of_lt h)

shift_size : (o s x r t : ℕ) → s ≤ o → o - s + (s - x) + r ≡ t → o + (s - x) + r ≡ s + t
shift_size o s x r t h e = omega arith

pub next_cluster_of :
    (o s : ℕ) → 0 < s → s ≤ o → (o / s ≡ suc ((o - s) / s)) × (o % s ≡ (o - s) % s)
next_cluster_of o s some_size h =
    let e = div-eq-sub-div some_size h in (omega (arith, e), mod-eq-sub-mod h)

module _ (img : Image) where
  -- From cluster `index` the table leads through these clusters to the end.
  abbrev pub IsChain : ℕ → List ℕ → Type 0
  IsChain index [] = index ≡ end_of_data
  IsChain index (c ∷ cs) =
      (index ≡ c) × (2 ≤ c) × (c ≢ end_of_data) × IsChain (get_next_cluster_index img c) cs

  -- The address of a cluster's data.
  abbrev pub cluster_start : ℕ → ℕ
  cluster_start c = elim (get_cluster_offset img c) [
    | none ↦ 0
    | some offset ↦ get_fs_bpb img + offset
  ]

  -- The contents of a chain of clusters.
  abbrev pub contents : List ℕ → List ℕ
  contents [] = []
  contents (c ∷ cs) = bytes img (get_cluster_size img) (cluster_start c) ++ contents cs

  abbrev pub span : List ℕ → ℕ
  span [] = 0
  span (c ∷ cs) = get_cluster_size img + span cs

  accepted : (c : ℕ) → 2 ≤ c → get_cluster_offset img c ≢ none
  unfolding get_cluster_offset
  accepted c h e = let fine : ltb c 2 ≡ false = ground arith in let bad = rw fine at e in cc

  pub get_cluster_offset-some :
      (c : ℕ)
      → 2 ≤ c
      → (offset : ℕ) × (get_cluster_offset img c ≡ some offset)
        × (cluster_start c ≡ get_fs_bpb img + offset)
  get_cluster_offset-some c h = elim (Option-cases (get_cluster_offset img c)) [
    | inl none_found ↦ absurd (accepted c h none_found)
    | inr (offset, e) ↦ (offset, e, rw (e, cluster_start) refl)
  ]

  -- Where a read begins: so many clusters on, in a part of the chain, which holds the contents from
  -- the offset on.
  pub record Begins (index : ℕ) (cs : List ℕ) (offset : ℕ) (c : ℕ) (rest : List ℕ) : Type 0 where
    pub chain : IsChain (skip_clusters img (offset / get_cluster_size img) index) (c ∷ rest)
    pub left :
        drop offset (contents cs)
        ≡ bytes img
            (get_cluster_size img - offset % get_cluster_size img)
            (cluster_start c + offset % get_cluster_size img)
          ++ contents rest
    pub size : offset + (get_cluster_size img - offset % get_cluster_size img) + span rest ≡ span cs

  pub begins :
      (cs : List ℕ) (index offset : ℕ)
      → 0 < get_cluster_size img
      → IsChain index cs
      → offset < span cs
      → (c : ℕ) × (rest : List ℕ) × Begins index cs offset c rest
  unfolding skip_clusters
  begins [] index offset some_size chain lt = absurd (omega arith)
  begins (c ∷ cs) index offset some_size chain lt =
      elim (Bool-cases (ltb offset (get_cluster_size img))) [
        | inl here ↦
            let low : offset < get_cluster_size img = ground arith in
            let (q, r) = first_cluster_of offset (get_cluster_size img) low in
            (
              c,
              cs,
              record {
                chain = rw (q, skip_clusters) chain;
                left = rw r (
                    drop-bytes_some img offset (get_cluster_size img) (cluster_start c)
                      (contents cs) (omega arith));
                size = rw r (omega arith);
              },
            )
        | inr past ↦
            let high : get_cluster_size img ≤ offset = ground arith in
            let (q, r) = next_cluster_of offset (get_cluster_size img) some_size high in
            let (c', rest, b) =
              begins cs (get_next_cluster_index img c) (offset - get_cluster_size img) some_size
                chain.3 (omega arith) in
            (
              c',
              rest,
              record {
                chain = rw (q, skip_clusters, chain.0) b.chain;
                left =
                    drop-bytes_past img offset (get_cluster_size img) (cluster_start c)
                      (contents cs) high
                    ∙ rw r b.left;
                size =
                    rw r (
                      shift_size offset (get_cluster_size img) _ (span rest) (span cs) high b.size);
              },
            )
      ]
