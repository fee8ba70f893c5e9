-- ===== src/Shell/Command/Parts.antt =====
-- Where the three searches of `get_cmd_info` stop.
use frostbite.Base.{
  ℕ, zero, suc, ◌+◌, ◌-◌, ◌≤◌, ◌<◌, ◌≡◌, refl, ◌⊎◌, inl, inr, Bool, true, false, ◌||◌, arith, ◌==◌,
  eqb→eq, Bool-cases,
}
use frostbite.Shell.Command.{skip_spaces, find_end, find_ext}

pub skip_spaces-run :
    (k n : ℕ) (cmd : ℕ → ℕ) (i : ℕ)
    → ((j : ℕ) → j < k → cmd (i + j) ≡ b' ')
    → (cmd (i + k) == b' ') ≡ false
    → k < n
    → skip_spaces n cmd i ≡ i + k
unfolding skip_spaces
skip_spaces-run k zero cmd i gap end lt = absurd (omega arith)
skip_spaces-run zero (suc n) cmd i gap end lt =
    let e : i + 0 ≡ i = omega arith in
    let end' : (cmd i == b' ') ≡ false = rw (e) at end in rw (end', e) refl
skip_spaces-run (suc k) (suc n) cmd i gap end lt =
    let e : i + 0 ≡ i = omega arith in
    let here : cmd i ≡ b' ' = rw (e) at (gap 0 (omega arith)) in
    let shift : (j : ℕ) → i + suc j ≡ i + 1 + j = λ j. omega arith in
    rw (here, shift k)
      (skip_spaces-run k n cmd (i + 1) (λ j l. rw (shift j) at (gap (suc j) (omega arith)))
        (rw (shift k) at end) (omega arith))

-- A space or a NUL ends the command.
abbrev pub ends : ℕ → Bool
ends c = c == b' ' || c == 0

pub find_end-run :
    (k n : ℕ) (cmd : ℕ → ℕ) (i : ℕ)
    → ((j : ℕ) → j < k → ends (cmd (i + j)) ≡ false)
    → ends (cmd (i + k)) ≡ true
    → k < n
    → find_end n cmd i ≡ i + k
unfolding find_end
find_end-run k zero cmd i solid end lt = absurd (omega arith)
find_end-run zero (suc n) cmd i solid end lt =
    let e : i + 0 ≡ i = omega arith in
    let end' : ends (cmd i) ≡ true = rw (e) at end in rw (end', e) refl
find_end-run (suc k) (suc n) cmd i solid end lt =
    let e : i + 0 ≡ i = omega arith in
    let here : ends (cmd i) ≡ false = rw (e) at (solid 0 (omega arith)) in
    let shift : (j : ℕ) → i + suc j ≡ i + 1 + j = λ j. omega arith in
    rw (here, shift k)
      (find_end-run k n cmd (i + 1) (λ j l. rw (shift j) at (solid (suc j) (omega arith)))
        (rw (shift k) at end) (omega arith))

-- The search for the extension stops at the start or behind a dot, and passes no dot.
pub find_ext-last :
    (i : ℕ) (cmd : ℕ → ℕ) (start : ℕ)
    → start ≤ i
    → (let e = find_ext cmd start i in
        (start ≤ e)
        × (e ≤ i)
        × ((j : ℕ) → e ≤ j → j < i → (cmd j == b'.') ≡ false)
        × ((e ≡ start) ⊎ ((cmd (e - 1) ≡ b'.') × (start < e))))
unfolding find_ext
find_ext-last zero cmd start le =
    (omega arith, omega arith, λ j a b. absurd (omega arith), inl (omega arith))
find_ext-last (suc i) cmd start le = elim (Bool-cases (suc i == start)) [
  | inl e ↦
      let eq : suc i ≡ start = ground arith in
      rw e (omega arith, omega arith, λ j a b. absurd (omega arith), inl eq)
  | inr ne ↦ elim (Bool-cases (cmd i == b'.')) [
    | inl dot ↦
        let back : suc i - 1 ≡ i = omega arith in
        rw (ne, dot, back)
          (
            omega arith,
            omega arith,
            λ j a b. absurd (omega arith),
            inr (ground arith, ground arith),
          )
    | inr other ↦
        let (lo, hi, clear, end) = find_ext-last i cmd start (ground arith) in
        rw (ne, other) (lo, omega arith, λ j a b. clear_to i cmd j other (clear j a) b, end)
  ]
]
  where
    clear_to :
        (i : ℕ) (cmd : ℕ → ℕ) (j : ℕ)
        → (cmd i == b'.') ≡ false
        → (j < i → (cmd j == b'.') ≡ false)
        → j < suc i
        → (cmd j == b'.') ≡ false
    clear_to i cmd j other before lt = elim (Bool-cases (j == i)) [
      | inl e ↦ rw (eqb→eq j i e) other
      | inr ne ↦ before (ground arith)
    ]
