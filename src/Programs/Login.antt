-- ===== src/Programs/Login.antt =====
-- user/login/login.c and user/login/main.c: who gets the shell.
pub mod Authorised
use frostbite.Base.{
  ℕ, zero, suc, ◌+◌, ◌-◌, ◌*◌, ◌/◌, ◌%◌, ◌^◌, ◌≤◌, ◌<◌, ◌≡◌, refl, sym, ap, ◌∙◌, ◌≢◌, ◌⊎◌, inl, inr,
  Bool, true, false, not, ◌&&◌, ◌||◌, Option, none, some, List, [], ◌∷◌, ◌++◌, arith, ◌==◌,
  if◌then◌else◌, ltb, leb, has, length, ℤ, pos, negsuc, eqb_ℤ,
}
use frostbite.Text.{poke}
use frostbite.Text.Str.{char_at}

abbrev pub max_passwd_size : ℕ
max_passwd_size = 50

abbrev max_username_size : ℕ
max_username_size = 50

abbrev max_login_attempts : ℕ
max_login_attempts = 5

abbrev bump : Option ℕ → Option ℕ
bump none = none
bump (some k) = some (suc k)

-- getline: the distance to the next newline, unless a NUL comes first. The distance is at most the fuel.
unfoldable pub getline : ℕ → (ℕ → ℕ) → ℕ → Option ℕ
getline zero chars p = none
getline (suc n) chars p =
    let rest = getline n chars (p + 1) in
    if chars p == 10 then some 0 else if chars p == 0 then none else bump rest

-- What read_passwd left: whether it ended, the buffer and its result.
pub record Entered : Type 0 where
  pub ended : Bool
  pub buf : ℕ → ℕ
  pub buf_size : ℕ

-- The loop of read_passwd over the keys. Without more keys it waits.
unfoldable pub passwd_keys : List ℕ → (ℕ → ℕ) → ℕ → Entered
passwd_keys [] buf buf_size = record { ended = false; buf = buf; buf_size = buf_size }
passwd_keys (ch ∷ chs) buf buf_size =
    let size : ℕ = if ch == 127 then buf_size - 1 else buf_size + 1 in
    let buf' : ℕ → ℕ = if ch == 127 then poke size 0 buf else poke buf_size ch buf in
    let next = passwd_keys chs buf' size in
    let same = passwd_keys chs buf buf_size in
    if ch == 13
    then record { ended = true; buf = poke buf_size 0 buf; buf_size = buf_size }
    else if ch == 127 && buf_size == 0
    then same
    else if leb (max_passwd_size - 1) size
    then record { ended = true; buf = poke (max_passwd_size - 1) 0 buf'; buf_size = size }
    else next

unfoldable pub read_passwd : List ℕ → (ℕ → ℕ) → Entered
read_passwd keys buf = passwd_keys keys buf 0

-- `memcmp` of the characters from `i` on with those from `j` on is 0.
unfoldable pub same_bytes : ℕ → (ℕ → ℕ) → ℕ → (ℕ → ℕ) → ℕ → Bool
same_bytes zero a i b j = true
same_bytes (suc n) a i b j = a i == b j && same_bytes n a (i + 1) b (j + 1)

-- The number of characters before the next colon; `none` if the loop leaves the buffer.
unfoldable pub find_colon : ℕ → (ℕ → ℕ) → ℕ → Option ℕ
find_colon zero chars p = none
find_colon (suc n) chars p =
    let rest = find_colon n chars (p + 1) in if chars p == b':' then some 0 else bump rest

-- `while (*pbuf == '\n')`
unfoldable pub skip_newlines : ℕ → (ℕ → ℕ) → ℕ → ℕ
skip_newlines zero chars p = p
skip_newlines (suc n) chars p =
    let rest = skip_newlines n chars (p + 1) in if chars p == 10 then rest else p

-- The user name that scanf stores, and the keys to come, if the password is asked for.
pub record Try : Type 0 where
  pub username : List ℕ
  pub keys : List ℕ

-- What one try comes to: the shell runs, read_passwd waits, the attempts go down, or a loop leaves the
-- buffer.
pub data Verdict : Type 0 where
  shell : List ℕ → Verdict
  waiting : Verdict
  fails : (lost : ℕ) → Verdict
  overrun : Verdict

-- The password field at `p`, for a name that was found. After a wrong password, the attempts go down
-- again if `pbuf` is at a NUL. An exec that fails, which would come back, is left out.
unfoldable pub check_password : (size : ℕ) → (ℕ → ℕ) → Try → ℕ → Verdict
check_password size chars t p = elim (find_colon (suc size - p) chars p) [
  | none ↦ overrun
  | some passlen ↦
      let typed = read_passwd t.keys (λ j. 0) in
      if passlen == 1 && chars p == b'x'
      then shell t.username
      else if not typed.ended
      then waiting
      else if not (typed.buf_size == passlen && same_bytes passlen chars p typed.buf 0)
      then fails (if chars p == 0 then 2 else 1)
      else shell t.username
]

-- The search through the file of `size` characters, from the entry at `p` on. Each round passes a
-- newline, so the number of characters and one more is enough fuel.
unfoldable pub search_entry : ℕ → (size : ℕ) → (ℕ → ℕ) → Try → ℕ → Verdict
search_entry zero size chars t p = overrun
search_entry (suc n) size chars t p =
    let next : Verdict = elim (getline (suc size - p) chars p) [
      | none ↦ fails 1
      | some nloff ↦ search_entry n size chars t (skip_newlines size chars (p + (nloff + 1)))
    ] in
    if chars p == 0 then fails 1 else elim (find_colon (suc size - p) chars p) [
      | none ↦ overrun
      | some namelen ↦
          if length t.username == namelen && same_bytes namelen chars p (char_at t.username) 0
          then check_password size chars t (p + (namelen + 1))
          else next
    ]

-- How login ends: it runs the shell, kills all processes, goes on waiting, or leaves one of its buffers,
-- behind which C leaves all undefined.
pub data Ending : Type 0 where
  runs_shell : List ℕ → Ending
  locks_out : Ending
  still_waits : Ending
  leaves_buffer : Ending

-- The loop over the attempts, an `int` that wraps around. scanf does not bound the user name: with its
-- NUL, one of 50 characters or more is written behind its buffer. An empty one costs no attempt.
unfoldable pub login_loop : (size : ℕ) → (ℕ → ℕ) → ℕ → List Try → Ending
login_loop size chars attempts [] = if attempts == 0 then locks_out else still_waits
login_loop size chars attempts (t ∷ ts) =
    let again = login_loop size chars attempts ts in
    if attempts == 0
    then locks_out
    else if leb max_username_size (length t.username)
    then leaves_buffer
    else if char_at t.username 0 == 0
    then again
    else elim (search_entry (suc size) size chars t 0) [
      | shell user ↦ runs_shell user
      | waiting ↦ still_waits
      | fails lost ↦ login_loop size chars ((attempts + 2 ^ 32 - lost) % 2 ^ 32) ts
      | overrun ↦ leaves_buffer
    ]

-- main, once the file PASSWD has been read into a buffer of its size and a NUL.
unfoldable pub login_main : (size : ℕ) → (ℕ → ℕ) → List Try → Ending
login_main size file tries = login_loop size (poke size 0 file) max_login_attempts tries
