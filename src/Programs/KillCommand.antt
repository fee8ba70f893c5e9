-- ===== src/Programs/KillCommand.antt =====
-- The program `kill`, user/kill/main.c. The process table and the own PID are what the kernel's calls
-- answer, and are arguments; an int is its 32-bit pattern.
--SEED
use frostbite.Process.{sigterm}
use frostbite.Base.{
  if_elim, ℕ, ◌-◌, ◌^◌, ◌<◌, ◌≡◌, refl, Bool, true, false, not, ◌&&◌, ◌||◌, Option, none, some,
  List, [], ◌∷◌, arith, ◌==◌, if◌then◌else◌, ltb, leb,
}
use frostbite.Text.{atoi}

abbrev pub sigunused : ℕ
sigunused = 31

-- Tests on a pattern as a signed number.
abbrev pub positive_int : ℕ → Bool
positive_int v = ltb 0 v && ltb v (2 ^ 31)

abbrev pub exceeds : ℕ → ℕ → Bool
exceeds v bound = ltb bound v && ltb v (2 ^ 31)

-- The arguments, parsed so far; or the result with which the program ends.
pub data Parsed : Type 0 where
  exits : ℕ → Parsed
  parsed : (pid signal : ℕ) → Parsed

-- The loop over the characters of an option, whose first one behind the dash is `first`.
unfoldable pub option_chars : (first : ℕ) → (whole : List ℕ) → List ℕ → (pid signal : ℕ) → Parsed
option_chars first whole [] pid signal = parsed pid signal
option_chars first whole (c ∷ cs) pid signal =
    let rest = option_chars first whole cs pid (atoi whole) in
    if c == b'h' then exits 0 else if ltb 48 first && leb first 57 then rest else exits 1

abbrev pub read_option : List ℕ → (pid signal : ℕ) → Parsed
read_option [] pid signal = parsed pid signal
read_option (c ∷ cs) pid signal = option_chars c (c ∷ cs) (c ∷ cs) pid signal

-- The loop over the arguments, which are not empty.
unfoldable pub read_args : List (List ℕ) → (pid signal : ℕ) → Parsed
read_args [] pid signal = parsed pid signal
read_args ([] ∷ args) pid signal = exits 1
read_args ((c ∷ cs) ∷ args) pid signal =
    let number = read_args args (atoi (c ∷ cs)) signal in
    if not (c == b'-') && (leb 48 c && leb c 57) then number else elim (read_option cs pid signal) [
      | exits result ↦ exits result
      | parsed pid1 signal1 ↦ read_args args pid1 signal1
    ]

-- What the program does: it ends with a result, or sends a signal.
pub data KillOutcome : Type 0 where
  ends : ℕ → KillOutcome
  sends : (pid signal : ℕ) → KillOutcome

abbrev pub in_use : Option ℕ → Bool
in_use none = false
in_use (some st) = ltb 0 st

-- `state` is the state of a process, `none` if there is none, in which case the local stays -1.
unfoldable pub send_checked : (state : ℕ → Option ℕ) → (own pid signal : ℕ) → KillOutcome
send_checked state own pid signal =
    if not (positive_int pid) || pid == own || not (in_use (state pid))
    then ends 1
    else if exceeds signal sigunused
    then ends 1
    else sends pid signal

unfoldable pub kill_main : (state : ℕ → Option ℕ) → (own : ℕ) → List (List ℕ) → KillOutcome
kill_main state own [] = ends 1
kill_main state own (arg ∷ args) = elim (read_args (arg ∷ args) (2 ^ 32 - 1) sigterm) [
  | exits result ↦ ends result
  | parsed pid signal ↦ if pid == 2 ^ 32 - 1 then ends 1 else send_checked state own pid signal
]

-- A signal goes to another process, which is in use, and is no number above the last signal.
abbrev pub Checked : (state : ℕ → Option ℕ) → (own : ℕ) → KillOutcome → Type 0
Checked state own (ends result) = Unit {0}
Checked state own (sends pid signal) =
    (positive_int pid ≡ true)
    × ((pid == own) ≡ false)
    × (exceeds signal sigunused ≡ false)
    × ((st : ℕ) × (state pid ≡ some st) × (0 < st))

in_use-some : (o : Option ℕ) → in_use o ≡ true → (st : ℕ) × (o ≡ some st) × (0 < st)
in_use-some none h = cc
in_use-some (some st) h = (st, refl, ground arith)

send_checked-Checked :
    (state : ℕ → Option ℕ) (own pid signal : ℕ)
    → Checked state own (send_checked state own pid signal)
unfolding send_checked
send_checked-Checked state own pid signal =
    if_elim (Checked state own) (not (positive_int pid) || pid == own || not (in_use (state pid))) _
      _ (λ _. tt)
      (λ target.
        if_elim (Checked state own) (exceeds signal sigunused) _ _ (λ _. tt)
          (λ known.
            let (positive, other, used) =
              fine (positive_int pid) (pid == own) (in_use (state pid)) target in
            (positive, other, known, in_use-some (state pid) used)))
  where
    fine : (a b c : Bool) → (not a || b || not c) ≡ false → (a ≡ true) × (b ≡ false) × (c ≡ true)
    fine a b c h = ground arith

-- Whatever the arguments and the process table are, the program `kill` only sends a signal to a process
-- with a positive PID that is not its own and has a state above UNUSED, and no signal above SIGUNUSED.
pub kill_main-Checked :
    (state : ℕ → Option ℕ) (own : ℕ) (args : List (List ℕ))
    → Checked state own (kill_main state own args)
unfolding kill_main
kill_main-Checked state own [] = tt
kill_main-Checked state own (arg ∷ args) = after (read_args (arg ∷ args) (2 ^ 32 - 1) sigterm)
  where
    after :
        (p : Parsed)
        → (let r : KillOutcome = elim p [
          | exits result ↦ ends result
          | parsed pid signal ↦
              if pid == 2 ^ 32 - 1 then ends 1 else send_checked state own pid signal
        ] in
            Checked state own r)
    after (exits result) = tt
    after (parsed pid signal) =
        if_elim (Checked state own) (pid == 2 ^ 32 - 1) _ _ (λ _. tt)
          (λ _. send_checked-Checked state own pid signal)
