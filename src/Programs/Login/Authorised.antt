-- ===== src/Programs/Login/Authorised.antt =====
-- Who gets the shell from login.
use frostbite.Base.{
  leb, Option-cases, and_right, Bool-cases, if_elim, and_left, ℕ, zero, suc, ◌+◌, ◌-◌, ◌%◌, ◌^◌,
  ◌<◌, ◌≡◌, refl, ◌≢◌, ◌⊎◌, inl, inr, true, not, ◌&&◌, Option, none, some, List, [], ◌∷◌, arith,
  ◌==◌, length,
}
use frostbite.Text.{poke}
use frostbite.Text.Str.{char_at}
use frostbite.Programs.Login.{
  bump, getline, read_passwd, same_bytes, find_colon, skip_newlines, Try, Verdict, check_password,
  search_entry, Ending, runs_shell, locks_out, still_waits, leaves_buffer, login_loop, login_main,
}
use frostbite.Programs.Login.Verdict.{shell, waiting, fails, overrun}

-- A colon ends the field, and none is in it.
abbrev pub FieldAt : (ℕ → ℕ) → (p len : ℕ) → Type 0
FieldAt chars p len = (chars (p + len) ≡ b':') × ((j : ℕ) → j < len → chars (p + j) ≢ b':')

abbrev pub LineStart : (ℕ → ℕ) → ℕ → Type 0
LineStart chars p = (p ≡ 0) ⊎ (chars (p - 1) ≡ 10)

-- The password field of this length is `x`, or what was typed.
abbrev pub Passed : (ℕ → ℕ) → List ℕ → (p len : ℕ) → Type 0
Passed chars keys p len =
    let typed = read_passwd keys (λ j. 0) in
    ((len ≡ 1) × (chars p ≡ b'x'))
    ⊎ ((typed.ended ≡ true)
        × (typed.buf_size ≡ len)
        × ((j : ℕ) → j < len → chars (p + j) ≡ typed.buf j))

-- The file has an entry whose name is the one of the try, and whose password the try gives.
pub record Proved (chars : ℕ → ℕ) (t : Try) : Type 0 where
  place : ℕ
  passlen : ℕ
  line : LineStart chars place
  name : (j : ℕ) → j < length t.username → chars (place + j) ≡ char_at t.username j
  name_end : FieldAt chars place (length t.username)
  password_end : FieldAt chars (place + (length t.username + 1)) passlen
  passed : Passed chars t.keys (place + (length t.username + 1)) passlen

-- The user that gets the shell is the one of a try that proved itself.
abbrev pub ByTry : (ℕ → ℕ) → List ℕ → List Try → Type 0
ByTry chars user [] = ⊥
ByTry chars user (t ∷ ts) = ((user ≡ t.username) × Proved chars t) ⊎ ByTry chars user ts

abbrev pub Authorised : (ℕ → ℕ) → List Try → Ending → Type 0
Authorised chars tries (runs_shell user) = ByTry chars user tries
Authorised chars tries locks_out = Unit {0}
Authorised chars tries still_waits = Unit {0}
Authorised chars tries leaves_buffer = Unit {0}

bump-some : (o : Option ℕ) (k : ℕ) → bump o ≡ some k → (m : ℕ) × (o ≡ some m) × (k ≡ suc m)
bump-some none k h = cc
bump-some (some m) k h = (m, refl, cc)

find_colon-FieldAt :
    (n : ℕ) (chars : ℕ → ℕ) (p len : ℕ) → find_colon n chars p ≡ some len → FieldAt chars p len
unfolding find_colon
find_colon-FieldAt zero chars p len h = cc
find_colon-FieldAt (suc n) chars p len h = elim (Bool-cases (chars p == b':')) [
  | inl hit ↦
      let here : some 0 ≡ some len = rw (hit) at h in
      let e : len ≡ 0 = cc in
      let z : p + 0 ≡ p = omega arith in
      rw (e, z) (ground (arith, hit), λ j lt. absurd (omega arith))
  | inr miss ↦
      let later : bump (find_colon n chars (p + 1)) ≡ some len = rw (miss) at h in
      let (m, found, e) = bump-some (find_colon n chars (p + 1)) len later in
      let (colon, before) = find_colon-FieldAt n chars (p + 1) m found in
      let f : (j : ℕ) → p + suc j ≡ p + 1 + j = λ j. omega arith in
      rw (e, f m) (colon, inside chars p m (ground (arith, miss)) before)
]
  where
    inside :
        (chars : ℕ → ℕ) (p m : ℕ)
        → chars p ≢ b':'
        → ((j : ℕ) → j < m → chars (p + 1 + j) ≢ b':')
        → (j : ℕ) → j < suc m
        → chars (p + j) ≢ b':'
    inside chars p m first before zero lt = let z : p + 0 ≡ p = omega arith in rw z first
    inside chars p m first before (suc j) lt =
        let f : p + suc j ≡ p + 1 + j = omega arith in rw f (before j (omega arith))

getline-newline :
    (n : ℕ) (chars : ℕ → ℕ) (p off : ℕ) → getline n chars p ≡ some off → chars (p + off) ≡ 10
unfolding getline
getline-newline zero chars p off h = cc
getline-newline (suc n) chars p off h = elim (Bool-cases (chars p == 10)) [
  | inl hit ↦
      let here : some 0 ≡ some off = rw (hit) at h in
      let e : off ≡ 0 = cc in let z : p + 0 ≡ p = omega arith in rw (e, z) (ground (arith, hit))
  | inr miss ↦ elim (Bool-cases (chars p == 0)) [
    | inl nul ↦ let none_left : none ≡ some off = rw (miss, nul) at h in cc
    | inr char ↦
        let later : bump (getline n chars (p + 1)) ≡ some off = rw (miss, char) at h in
        let (m, found, e) = bump-some (getline n chars (p + 1)) off later in
        let f : p + suc m ≡ p + 1 + m = omega arith in
        rw (e, f) (getline-newline n chars (p + 1) m found)
  ]
]

skip_newlines-LineStart :
    (n : ℕ) (chars : ℕ → ℕ) (p : ℕ) → LineStart chars p → LineStart chars (skip_newlines n chars p)
unfolding skip_newlines
skip_newlines-LineStart zero chars p h = h
skip_newlines-LineStart (suc n) chars p h =
    if_elim (LineStart chars) (chars p == 10) _ _
      (λ nl.
        skip_newlines-LineStart n chars (p + 1)
          (inr (let e : p + 1 - 1 ≡ p = omega arith in rw e (ground (arith, nl)))))
      (λ _. h)

same_bytes-true :
    (n : ℕ) (a : ℕ → ℕ) (i : ℕ) (b : ℕ → ℕ) (j : ℕ)
    → same_bytes n a i b j ≡ true
    → (k : ℕ) → k < n
    → a (i + k) ≡ b (j + k)
unfolding same_bytes
same_bytes-true zero a i b j h k lt = absurd (omega arith)
same_bytes-true (suc n) a i b j h zero lt =
    let e : (m : ℕ) → m + 0 ≡ m = λ m. omega arith in
    let first = and_left (a i == b j) _ h in rw (e i, e j) (ground (arith, first))
same_bytes-true (suc n) a i b j h (suc k) lt =
    let f : (m : ℕ) → m + suc k ≡ m + 1 + k = λ m. omega arith in
    rw (f i, f j)
      (same_bytes-true n a (i + 1) b (j + 1) (and_right (a i == b j) _ h) k (omega arith))

-- The verdict gives the shell only to the name of a try that proved itself.
abbrev Sound : (ℕ → ℕ) → Try → Verdict → Type 0
Sound chars t (shell user) = (user ≡ t.username) × Proved chars t
Sound chars t waiting = Unit {0}
Sound chars t (fails lost) = Unit {0}
Sound chars t overrun = Unit {0}

module _ (size : ℕ) (chars : ℕ → ℕ) where
  check_password-Sound :
      (t : Try) (p : ℕ)
      → LineStart chars p
      → ((j : ℕ) → j < length t.username → chars (p + j) ≡ char_at t.username j)
      → FieldAt chars p (length t.username)
      → Sound chars t (check_password size chars t (p + (length t.username + 1)))
  unfolding check_password
  check_password-Sound t p line name ended =
      let q = p + (length t.username + 1) in
      elim (Option-cases (find_colon (suc size - q) chars q)) [
        | inl e ↦ rw (Sound, e) tt
        | inr found ↦
            let (passlen, e) = found in
            let prove : Passed chars t.keys q passlen → Proved chars t = λ passed. record {
              place = p;
              passlen = passlen;
              line = line;
              name = name;
              name_end = ended;
              password_end = find_colon-FieldAt (suc size - q) chars q passlen e;
              passed = passed;
            } in
            let typed = read_passwd t.keys (λ j. 0) in
            rw (Sound, e)
              (if_elim (Sound chars t) (passlen == 1 && chars q == b'x') _ _
                (λ free. (refl, prove (inl (ground (arith, free)))))
                (λ _.
                  if_elim (Sound chars t) (not typed.ended) _ _ (λ _. tt)
                    (λ ended.
                      if_elim (Sound chars t)
                        (not (typed.buf_size == passlen && same_bytes passlen chars q typed.buf 0))
                        _ _ (λ _. tt)
                        (λ right. (
                          refl,
                          prove (
                              inr (
                                typed_right t q passlen (ground (arith, ended))
                                  (ground (arith, right)))),
                        )))))
      ]
    where
      typed_right :
          (t : Try) (q passlen : ℕ)
          → (read_passwd t.keys (λ j. 0)).ended ≡ true
          → ((read_passwd t.keys (λ j. 0)).buf_size == passlen
              && same_bytes passlen chars q (read_passwd t.keys (λ j. 0)).buf 0)
            ≡ true
          → (let typed = read_passwd t.keys (λ j. 0) in
              (typed.ended ≡ true)
              × (typed.buf_size ≡ passlen)
              × ((j : ℕ) → j < passlen → chars (q + j) ≡ typed.buf j))
      typed_right t q passlen ended right =
          let typed = read_passwd t.keys (λ j. 0) in
          let size = and_left (typed.buf_size == passlen) _ right in
          let same = and_right (typed.buf_size == passlen) _ right in
          (
            ended,
            ground (arith, size),
            λ j lt.
                let z : 0 + j ≡ j = omega arith in
                rw (z) at (same_bytes-true passlen chars q typed.buf 0 same j lt),
          )

  search_entry-Sound :
      (n : ℕ) (t : Try) (p : ℕ) → LineStart chars p → Sound chars t (search_entry n size chars t p)
  unfolding search_entry
  search_entry-Sound zero t p line = tt
  search_entry-Sound (suc n) t p line =
      if_elim (Sound chars t) (chars p == 0) _ _ (λ _. tt)
        (λ _. elim (Option-cases (find_colon (suc size - p) chars p)) [
          | inl e ↦ rw e tt
          | inr found ↦
              let (namelen, e) = found in
              rw e (
                if_elim (Sound chars t)
                  (length t.username == namelen
                    && same_bytes namelen chars p (char_at t.username) 0)
                  _ _ (λ own. named t p namelen line e own)
                  (λ _. elim (Option-cases (getline (suc size - p) chars p)) [
                    | inl last ↦ rw (Sound, last) tt
                    | inr more ↦
                        rw (Sound, more.1)
                          (search_entry-Sound n t _ (
                            skip_newlines-LineStart size chars _ (
                              inr (
                                let e : p + (more.0 + 1) - 1 ≡ p + more.0 = omega arith in
                                rw e (getline-newline (suc size - p) chars p more.0 more.1)))))
                  ]))
        ])
    where
      named :
          (t : Try) (p namelen : ℕ)
          → LineStart chars p
          → find_colon (suc size - p) chars p ≡ some namelen
          → (length t.username == namelen && same_bytes namelen chars p (char_at t.username) 0)
            ≡ true
          → Sound chars t (check_password size chars t (p + (namelen + 1)))
      named t p namelen line e own =
          let same : namelen ≡ length t.username =
            ground (arith, and_left (length t.username == namelen) _ own) in
          let chars_same = and_right (length t.username == namelen) _ own in
          let field = find_colon-FieldAt (suc size - p) chars p namelen e in
          let z : (j : ℕ) → 0 + j ≡ j = λ j. omega arith in
          rw same (
            check_password-Sound t p line
              (λ j lt. rw (z j) at (
                same_bytes-true namelen chars p (char_at t.username) 0 chars_same j
                  (omega (arith, same, lt))))
              (rw (same) at field))

  login_loop-Authorised :
      (attempts : ℕ) (tries : List Try)
      → Authorised chars tries (login_loop size chars attempts tries)
  unfolding login_loop
  login_loop-Authorised attempts [] =
      if_elim (Authorised chars []) (attempts == 0) _ _ (λ _. tt) (λ _. tt)
  login_loop-Authorised attempts (t ∷ ts) =
      if_elim (Authorised chars (t ∷ ts)) (attempts == 0) _ _ (λ _. tt)
        (λ _.
          if_elim (Authorised chars (t ∷ ts)) (leb 50 (length t.username)) _ _ (λ _. tt)
            (λ _.
              if_elim (Authorised chars (t ∷ ts)) (char_at t.username 0 == 0) _ _
                (λ _. later t ts _ (login_loop-Authorised attempts ts))
                (λ _.
                  by_verdict t ts (search_entry (suc size) size chars t 0)
                    (search_entry-Sound (suc size) t 0 (inl refl))
                    (λ lost. login_loop size chars ((attempts + 2 ^ 32 - lost) % 2 ^ 32) ts)
                    (λ lost. login_loop-Authorised ((attempts + 2 ^ 32 - lost) % 2 ^ 32) ts))))
    where
      later :
          (t : Try) (ts : List Try) (r : Ending)
          → Authorised chars ts r
          → Authorised chars (t ∷ ts) r
      later t ts (runs_shell user) h = inr h
      later t ts locks_out h = tt
      later t ts still_waits h = tt
      later t ts leaves_buffer h = tt

      by_verdict :
          (t : Try) (ts : List Try) (v : Verdict)
          → Sound chars t v
          → (again : ℕ → Ending) → ((lost : ℕ) → Authorised chars ts (again lost))
          → (let r : Ending = elim v [
            | shell user ↦ runs_shell user
            | waiting ↦ still_waits
            | fails lost ↦ again lost
            | overrun ↦ leaves_buffer
          ] in
              Authorised chars (t ∷ ts) r)
      by_verdict t ts (shell user) h again later_ones = inl h
      by_verdict t ts waiting h again later_ones = tt
      by_verdict t ts (fails lost) h again later_ones = later t ts (again lost) (later_ones lost)
      by_verdict t ts overrun h again later_ones = tt

-- Whatever the file PASSWD holds and whatever is tried, where a user name that does not fit its buffer
-- ends the model without the shell: if login runs the shell, then for the user name of a try for which the
-- file, ended by a NUL, has a line that starts with this name and a colon, and whose next field, up to the
-- colon behind it, is `x` or the password that was typed in that try.
pub login_main-Authorised :
    (size : ℕ) (file : ℕ → ℕ) (tries : List Try)
    → Authorised (poke size 0 file) tries (login_main size file tries)
unfolding login_main
login_main-Authorised size file tries = login_loop-Authorised size (poke size 0 file) 5 tries
