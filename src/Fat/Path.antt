-- ===== src/Fat/Path.antt =====
-- Which names `split_path` accepts, and the parts that it makes of them.
use frostbite.Base.{
  Bool-cases, ℕ, zero, suc, ◌≤◌, ◌≡◌, refl, sym, ap, ◌∙◌, inl, inr, Bool, true, false, not, ◌&&◌,
  Option, some, List, [], ◌∷◌, ◌++◌, arith, ◌==◌, length, Option-cases,
}
use mathlib.Core.List.{append-nil}
use frostbite.Fat.{FileName, copy_name, copy_ext, pad, finish_path, after_name, split_path}

-- No slash in a text, and no dot.
abbrev pub no_slash : List ℕ → Bool
no_slash [] = true
no_slash (c ∷ cs) = not (c == b'/') && no_slash cs

abbrev pub no_dot : List ℕ → Bool
no_dot [] = true
no_dot (c ∷ cs) = not (c == b'.') && no_dot cs

-- The text begins like the rest of a path after the name: it is empty or begins with a dot.
abbrev ends_name : List ℕ → Bool
ends_name [] = true
ends_name (c ∷ cs) = c == b'.'

copy_name-append :
    (n : ℕ) (name rest : List ℕ)
    → length name ≤ n
    → (no_slash name && no_dot name) ≡ true
    → ends_name rest ≡ true
    → copy_name n (name ++ rest) ≡ some (name, rest)
unfolding copy_name
copy_name-append zero [] rest fits good end = refl
copy_name-append zero (c ∷ cs) rest fits good end = absurd (omega arith)
copy_name-append (suc n) [] [] fits good end = refl
copy_name-append (suc n) [] (c ∷ cs) fits good end = rw end
copy_name-append (suc n) (c ∷ cs) rest fits good end =
    let plain : ((c == b'.') ≡ false)
        × ((c == b'/') ≡ false)
        × ((no_slash cs && no_dot cs) ≡ true) =
      ground arith in
    let ih = copy_name-append n cs rest (omega arith) plain.2 end in rw (plain.0, plain.1, ih)

copy_ext-all :
    (n : ℕ) (ext : List ℕ) → length ext ≤ n → no_slash ext ≡ true → copy_ext n ext ≡ some (ext, [])
unfolding copy_ext
copy_ext-all zero [] fits good = refl
copy_ext-all zero (c ∷ cs) fits good = absurd (omega arith)
copy_ext-all (suc n) [] fits good = refl
copy_ext-all (suc n) (c ∷ cs) fits good =
    let plain : ((c == b'/') ≡ false) × (no_slash cs ≡ true) = ground arith in
    rw (plain.0, copy_ext-all n cs (omega arith) plain.1)

-- A name of at most 8 characters without dots and an extension of at most 3, none of them a slash,
-- joined by a dot, are split into these parts, filled up with spaces; so is a name alone.
pub split_path-append :
    (name ext : List ℕ)
    → length name ≤ 8
    → length ext ≤ 3
    → (no_slash name && no_dot name) ≡ true
    → no_slash ext ≡ true
    → (split_path (name ++ b'.' ∷ ext) ≡ some (record { name = pad 8 name; ext = pad 3 ext }))
      × (split_path name ≡ some (record { name = pad 8 name; ext = pad 3 [] }))
unfolding split_path after_name finish_path
split_path-append name ext short few good plain = (
  rw (copy_name-append 8 name (b'.' ∷ ext) short good refl, copy_ext-all 3 ext few plain) refl,
  ap after_name (alone name short good),
)
  where
    alone :
        (name : List ℕ)
        → length name ≤ 8
        → (no_slash name && no_dot name) ≡ true
        → copy_name 8 name ≡ some (name, [])
    alone name short good =
        ap (copy_name 8) (sym (append-nil name)) ∙ copy_name-append 8 name [] short good refl

-- What the loops have read and what they leave make up the path, and they read no slash.
abbrev Reads : (ℕ → List ℕ → Option (List ℕ × List ℕ)) → Type 0
Reads copy =
    (n : ℕ) (path part rest : List ℕ)
    → copy n path ≡ some (part, rest)
    → (length part ≤ n) × (no_slash part ≡ true) × (path ≡ part ++ rest)

copy_ext-Reads : Reads copy_ext
unfolding copy_ext
copy_ext-Reads zero path part rest h =
    let e : [] ≡ part = cc in let e' : path ≡ rest = cc in rw (← e, ← e') (omega arith, refl, refl)
copy_ext-Reads (suc n) [] part rest h =
    let e : [] ≡ part = cc in let e' : [] ≡ rest = cc in rw (← e, ← e') (omega arith, refl, refl)
copy_ext-Reads (suc n) (c ∷ cs) part rest h = elim (Bool-cases (c == b'/')) [
  | inl slash ↦ (let bad = rw slash at h in cc)
  | inr plain ↦ elim (Option-cases (copy_ext n cs)) [
    | inl e ↦ (let bad = rw (plain, e, copy_ext) at h in cc)
    | inr ((ext, left), e) ↦
        let (few, good, whole) = copy_ext-Reads n cs ext left e in
        let same = rw (plain, e, copy_ext) at h in
        let e1 : c ∷ ext ≡ part = cc in
        let e2 : left ≡ rest = cc in
        rw (← e1, ← e2) (omega arith, rw (plain, good) refl, ap (λ t. c ∷ t) whole)
  ]
]

copy_name-Reads : Reads copy_name
unfolding copy_name
copy_name-Reads zero path part rest h =
    let e : [] ≡ part = cc in let e' : path ≡ rest = cc in rw (← e, ← e') (omega arith, refl, refl)
copy_name-Reads (suc n) [] part rest h =
    let e : [] ≡ part = cc in let e' : [] ≡ rest = cc in rw (← e, ← e') (omega arith, refl, refl)
copy_name-Reads (suc n) (c ∷ cs) part rest h = elim (Bool-cases (c == b'.')) [
  | inl dot ↦
      let same = rw dot at h in
      let e : [] ≡ part = cc in
      let e' : c ∷ cs ≡ rest = cc in rw (← e, ← e') (omega arith, refl, refl)
  | inr other ↦ elim (Bool-cases (c == b'/')) [
    | inl slash ↦ (let bad = rw (other, slash) at h in cc)
    | inr plain ↦ elim (Option-cases (copy_name n cs)) [
      | inl e ↦ (let bad = rw (other, plain, e, copy_name) at h in cc)
      | inr ((name, left), e) ↦
          let (few, good, whole) = copy_name-Reads n cs name left e in
          let same = rw (other, plain, e, copy_name) at h in
          let e1 : c ∷ name ≡ part = cc in
          let e2 : left ≡ rest = cc in
          rw (← e1, ← e2) (omega arith, rw (plain, good) refl, ap (λ t. c ∷ t) whole)
    ]
  ]
]

no_slash-append : (a b : List ℕ) → no_slash (a ++ b) ≡ (no_slash a && no_slash b)
no_slash-append [] b = refl
no_slash-append (c ∷ cs) b = ground (arith, no_slash-append cs b)

finished :
    (name cs : List ℕ) (f : FileName)
    → finish_path name (copy_ext 3 cs) ≡ some f
    → no_slash cs ≡ true
unfolding finish_path
finished name cs f h = elim (Option-cases (copy_ext 3 cs)) [
  | inl e ↦ (let bad = rw (e, finish_path) at h in cc)
  | inr ((ext, []), e) ↦
      let (few, good, whole) = copy_ext-Reads 3 cs ext [] e in
      rw (whole, no_slash-append, good) refl
  | inr ((ext, c ∷ left), e) ↦ (let bad = rw (e, finish_path) at h in cc)
]

after_name-rest :
    (name rest : List ℕ) (f : FileName)
    → after_name (some (name, rest)) ≡ some f
    → no_slash rest ≡ true
unfolding after_name
after_name-rest name [] f h = refl
after_name-rest name (c ∷ cs) f h = elim (Bool-cases (c == b'.')) [
  | inl dot ↦
      let plain : (c == b'/') ≡ false = ground arith in
      let h' = rw dot at h in rw (plain, finished name cs f h') refl
  | inr other ↦ (let bad = rw other at h in cc)
]

-- `split_path` accepts no path with a slash anywhere.
pub split_path-no_slash :
    (path : List ℕ) (f : FileName) → split_path path ≡ some f → no_slash path ≡ true
unfolding split_path after_name
split_path-no_slash path f h = elim (Option-cases (copy_name 8 path)) [
  | inl e ↦ (let bad = rw (e, after_name) at h in cc)
  | inr ((name, rest), e) ↦
      let (few, good, whole) = copy_name-Reads 8 path name rest e in
      rw (whole, no_slash-append, good) (after_name-rest name rest f (rw e at h))
]
