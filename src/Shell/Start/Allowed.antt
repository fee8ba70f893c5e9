-- ===== src/Shell/Start/Allowed.antt =====
-- The shell starts no program that the user may not run.
use frostbite.Base.{
  ℕ, zero, suc, ◌+◌, ◌-◌, ◌<◌, ◌≡◌, refl, ap, ◌∙◌, ◌≢◌, ◌⊎◌, inl, inr, Bool, true, false, ◌&&◌,
  ◌||◌, Option, none, some, List, arith, ◌==◌, if◌then◌else◌, ltb, leb, length, if_elim, eqb_refl,
  Bool-cases,
}
use frostbite.Shell.Start.{
  bin, Start, not_executable, not_permitted, starts, same_chars, init_bin, login_bin, jobctl_bin,
  command_at, add_ext, forbidden, is_job_control, start_command, start_line,
}
use frostbite.Text.{poke}
use frostbite.Text.Str.{str_at, char_at, put_chars}
use frostbite.Shell.{max_cmd_buf_size}
use frostbite.Shell.Command.{get_cmd_info}

same_chars-string :
    (n : ℕ) (chars : ℕ → ℕ) (i : ℕ) (str : List ℕ) (j : ℕ)
    → ((k : ℕ) → k < n → chars (i + k) ≡ char_at str (j + k))
    → same_chars n chars i str j ≡ true
unfolding same_chars
same_chars-string zero chars i str j h = refl
same_chars-string (suc n) chars i str j h =
    let e : (a : ℕ) → a + 0 ≡ a = λ a. omega arith in
    let f : (a k : ℕ) → a + suc k ≡ a + 1 + k = λ a k. omega arith in
    let first : chars i ≡ char_at str j = rw (e i, e j) at (h 0 (omega arith)) in
    rw (first, eqb_refl (char_at str j))
      (same_chars-string n chars (i + 1) str (j + 1)
        (λ k lt. rw (f i k, f j k) at (h (suc k) (omega arith))))

-- The characters of a string in memory.
str_at-char_at :
    (n : ℕ) (chars : ℕ → ℕ) (i k : ℕ)
    → k < length (str_at n chars i)
    → chars (i + k) ≡ char_at (str_at n chars i) k
unfolding str_at
str_at-char_at zero chars i k lt = absurd (omega arith)
str_at-char_at (suc n) chars i zero lt = elim (Bool-cases (chars i == 0)) [
  | inl nul ↦ absurd (nothing (rw (nul) at lt))
  | inr char ↦ let e : i + 0 ≡ i = omega arith in rw (char, e) refl
]
  where
    nothing : 0 < 0 → ⊥
    nothing lt = absurd (omega arith)
str_at-char_at (suc n) chars i (suc k) lt = elim (Bool-cases (chars i == 0)) [
  | inl nul ↦ absurd (nothing (rw (nul) at lt))
  | inr char ↦
      let e : i + suc k ≡ i + 1 + k = omega arith in
      let less : suc k < suc (length (str_at n chars (i + 1))) = rw (char) at lt in
      rw (char, e) (str_at-char_at n chars (i + 1) k (omega arith))
]
  where
    nothing : suc k < 0 → ⊥
    nothing lt = absurd (omega arith)

-- A program that is started is neither init nor login.
abbrev pub Allowed : Start → Type 0
Allowed not_executable = Unit {0}
Allowed not_permitted = Unit {0}
Allowed (starts name args background) = (name ≢ init_bin) × (name ≢ login_bin)

-- The comparison of a command with its own text succeeds.
same_chars_self :
    (cmd : ℕ → ℕ) (cmd_pos : ℕ) (name : List ℕ)
    → command_at cmd cmd_pos ≡ name
    → same_chars (length (command_at cmd cmd_pos)) cmd cmd_pos name 0 ≡ true
same_chars_self cmd cmd_pos name e =
    same_chars-string (length (command_at cmd cmd_pos)) cmd cmd_pos name 0 (λ k lt.
      let z : 0 + k ≡ k = omega arith in
      rw z (str_at-char_at max_cmd_buf_size cmd cmd_pos k lt ∙ ap (λ t. char_at t k) e))

forbidden-name :
    (cmd : ℕ → ℕ) (cmd_pos : ℕ)
    → forbidden cmd cmd_pos ≡ false
    → (command_at cmd cmd_pos ≢ init_bin) × (command_at cmd cmd_pos ≢ login_bin)
unfolding forbidden
forbidden-name cmd cmd_pos h =
    let n = length (command_at cmd cmd_pos) in
    (
      λ e. first (same_chars n cmd cmd_pos init_bin 0) _ (same_chars_self cmd cmd_pos init_bin e) h,
      λ e.
          second _ (same_chars n cmd cmd_pos login_bin 0) (same_chars_self cmd cmd_pos login_bin e)
            h,
    )
  where
    first : (a b : Bool) → a ≡ true → (a || b) ≡ false → ⊥
    first a b t h = ground arith

    second : (a b : Bool) → b ≡ true → (a || b) ≡ false → ⊥
    second a b t h = ground arith

-- A command that begins with `J`.
job_name :
    (cmd : ℕ → ℕ) (cmd_pos : ℕ)
    → cmd cmd_pos ≡ b'J'
    → (command_at cmd cmd_pos ≢ init_bin) × (command_at cmd cmd_pos ≢ login_bin)
unfolding str_at
job_name cmd cmd_pos j =
    let start : char_at (command_at cmd cmd_pos) 0 ≡ b'J' = rw j refl in
    (
      λ e.
          differ (char_at (command_at cmd cmd_pos) 0) b'I' start (ap (λ t. char_at t 0) e)
            (inr (omega arith)),
      λ e.
          differ (char_at (command_at cmd cmd_pos) 0) b'L' start (ap (λ t. char_at t 0) e)
            (inl (omega arith)),
    )
  where
    differ : (x c : ℕ) → x ≡ b'J' → x ≡ c → (b'J' < c) ⊎ (c < b'J') → ⊥
    differ x c e f (inl lt) = absurd (omega arith)
    differ x c e f (inr lt) = absurd (omega arith)

jobctl-first :
    (cmd : ℕ → ℕ) (cmd_pos : ℕ)
    → poke (cmd_pos + 10) 0 (put_chars cmd_pos jobctl_bin cmd) cmd_pos ≡ b'J'
unfolding poke put_chars
jobctl-first cmd cmd_pos =
    let a : (cmd_pos == cmd_pos + 10) ≡ false = ground arith in
    let b : (leb cmd_pos cmd_pos && ltb cmd_pos (cmd_pos + 10)) ≡ true = ground arith in
    let c : cmd_pos - cmd_pos ≡ 0 = omega arith in rw (a, b, c) refl

start_command-Allowed :
    (cmd echo : ℕ → ℕ) (cmd_pos : ℕ) (args : List ℕ) → Allowed (start_command cmd echo cmd_pos args)
unfolding start_command
start_command-Allowed cmd echo cmd_pos args =
    if_elim Allowed (forbidden cmd cmd_pos) _ _ (λ _. tt)
      (λ free.
        if_elim Allowed (is_job_control cmd cmd_pos) _ _
          (λ _. job_name _ cmd_pos (jobctl-first cmd cmd_pos))
          (λ _. forbidden-name cmd cmd_pos free))

-- Whatever the line in its buffers is, the shell refuses it, or starts a program whose name, as it is
-- opened and run, is neither INIT.BIN nor LOGIN.BIN.
pub start_line-Allowed : (cmd echo : ℕ → ℕ) → Allowed (start_line cmd echo)
unfolding start_line
start_line-Allowed cmd echo = by_ext (get_cmd_info cmd echo).ext
  where
    by_ext :
        (ext : Option ℕ)
        → (let c = get_cmd_info cmd echo in
            let r : Start = elim ext [
              | none ↦ start_command (add_ext c.cmd c.cmd_pos) c.echo c.cmd_pos c.echo_args
              | some ext ↦
                  if same_chars 3 c.cmd ext bin 0
                  then start_command c.cmd c.echo c.cmd_pos c.echo_args
                  else not_executable
            ] in
            Allowed r)
    by_ext none = start_command-Allowed _ _ _ _
    by_ext (some ext) =
        if_elim Allowed (same_chars 3 (get_cmd_info cmd echo).cmd ext bin 0) _ _
          (λ _. start_command-Allowed _ _ _ _) (λ _. tt)
