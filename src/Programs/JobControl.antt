-- ===== src/Programs/JobControl.antt =====
-- The program `jobctl` behind `fg` and `bg`, user/jobctl/main.c. What the kernel's calls answer is an
-- argument; an int is its 32-bit pattern.
use frostbite.Base.{
  and_left, and_right, if_elim, ℕ, ◌≡◌, refl, ◌⊎◌, inl, inr, Bool, true, false, not, ◌&&◌, ◌||◌,
  Option, none, some, List, [], ◌∷◌, arith, ◌==◌, if◌then◌else◌,
}
use frostbite.Text.{atoi, to_lower}
use frostbite.Text.Str.{char_at}
use frostbite.Programs.KillCommand.{positive_int}

abbrev pub stopped : ℕ
stopped = 5

abbrev pub killed : ℕ
killed = 6

-- The PID of a job and the state of a process, and whether setjobctl and kill succeed.
pub record Replies : Type 0 where
  pub getjpid : ℕ → ℕ
  pub state : ℕ → ℕ
  pub setjobctl : ℕ → ℕ → Bool
  pub can_resume : ℕ → Bool

-- The state and the job of each active process, in the order of get_active_procs: the first job of a
-- live process.
unfoldable pub getdefjob : List (ℕ × ℕ) → Option ℕ
getdefjob [] = none
getdefjob ((state, js) ∷ procs) =
    let rest = getdefjob procs in if not (state == killed) && positive_int js then some js else rest

abbrev pub first_char : List ℕ → ℕ
first_char [] = 0
first_char (c ∷ cs) = c

abbrev pub is_control : ℕ → Bool
is_control c = to_lower c == b'f' || to_lower c == b'b'

-- What the program does: it ends with a result, or asks for a job to be moved, with 1 for the background,
-- and resumed; `control_failed` and `resume_failed` are its ends after these calls.
pub data JobOutcome : Type 0 where
  ends : ℕ → JobOutcome
  control_failed : (js type : ℕ) → JobOutcome
  resume_failed : (js type pid : ℕ) → JobOutcome
  resumes : (js type pid : ℕ) → JobOutcome

-- The checks on a job and the calls, for a control character in lower case.
unfoldable pub control_job : Replies → (req_js req_ctrl : ℕ) → JobOutcome
control_job k req_js req_ctrl =
    let jpid = k.getjpid req_js in
    let state = k.state jpid in
    let type = if req_ctrl == b'f' then 0 else 1 in
    if not (positive_int jpid)
    then ends 1
    else if not (state == stopped || state == killed) && req_ctrl == b'b'
    then ends 1
    else if not (k.setjobctl req_js type)
    then control_failed req_js type
    else if not (k.can_resume jpid)
    then resume_failed req_js type jpid
    else resumes req_js type jpid

-- The result with an option, and the control character behind a job.
abbrev pub option_result : List ℕ → List (List ℕ) → ℕ
option_result opt [] = 1
option_result opt (ctrl ∷ args) =
    if is_control (first_char ctrl) && char_at opt 1 == b'h' then 0 else 1

abbrev pub with_control : Replies → ℕ → List (List ℕ) → JobOutcome
with_control k req_js [] = ends 1
with_control k req_js (ctrl ∷ args) =
    if is_control (first_char ctrl) && positive_int req_js
    then control_job k req_js (to_lower (first_char ctrl))
    else ends 1

unfoldable pub jobctl_main : Replies → List (ℕ × ℕ) → List (List ℕ) → JobOutcome
jobctl_main k procs [] = ends 1
jobctl_main k procs (arg ∷ args) =
    if first_char arg == b'-'
    then ends (option_result arg args)
    else if is_control (first_char arg)
    then elim (getdefjob procs) [ none ↦ ends 1 | some js ↦ with_control k js args ]
    else with_control k (atoi arg) args

-- The calls were made for a job with a positive number and PID, to the background only if it is stopped
-- or killed.
abbrev Sound : Replies → (js type : ℕ) → Type 0
Sound k js type =
    (positive_int js ≡ true)
    × (positive_int (k.getjpid js) ≡ true)
    × ((type ≡ 0)
        ⊎ ((type ≡ 1)
            × ((k.state (k.getjpid js) == stopped || k.state (k.getjpid js) == killed) ≡ true)))

-- What the program did was sound, and what it says of the two calls is what they answered.
abbrev pub Honest : Replies → JobOutcome → Type 0
Honest k (ends result) = Unit {0}
Honest k (control_failed js type) = Sound k js type × (k.setjobctl js type ≡ false)
Honest k (resume_failed js type pid) =
    Sound k js type
    × (k.setjobctl js type ≡ true)
    × (pid ≡ k.getjpid js)
    × (k.can_resume pid ≡ false)
Honest k (resumes js type pid) =
    Sound k js type
    × (k.setjobctl js type ≡ true)
    × (pid ≡ k.getjpid js)
    × (k.can_resume pid ≡ true)

control_job-Honest :
    (k : Replies) (js ctrl : ℕ)
    → positive_int js ≡ true
    → (ctrl == b'f' || ctrl == b'b') ≡ true
    → Honest k (control_job k js ctrl)
unfolding control_job
control_job-Honest k js ctrl positive control =
    let jpid = k.getjpid js in
    let state = k.state jpid in
    let type = if ctrl == b'f' then 0 else 1 in
    if_elim (Honest k) (not (positive_int jpid)) _ _ (λ _. tt)
      (λ has_job.
        if_elim (Honest k) (not (state == stopped || state == killed) && ctrl == b'b') _ _ (λ _. tt)
          (λ may.
            let sound : Sound k js type = (
              positive,
              not_false (positive_int jpid) has_job,
              way (ctrl == b'f') (ctrl == b'b') (state == stopped || state == killed) control may,
            ) in
            if_elim (Honest k) (not (k.setjobctl js type)) _ _
              (λ failed. (sound, not_true (k.setjobctl js type) failed))
              (λ moved.
                if_elim (Honest k) (not (k.can_resume jpid)) _ _
                  (λ failed. (
                    sound,
                    not_false (k.setjobctl js type) moved,
                    refl,
                    not_true (k.can_resume jpid) failed,
                  ))
                  (λ woken. (
                    sound,
                    not_false (k.setjobctl js type) moved,
                    refl,
                    not_false (k.can_resume jpid) woken,
                  )))))
  where
    not_false : (b : Bool) → not b ≡ false → b ≡ true
    not_false b h = ground arith

    not_true : (b : Bool) → not b ≡ true → b ≡ false
    not_true b h = ground arith

    way :
        (f b s : Bool)
        → (f || b) ≡ true
        → (not s && b) ≡ false
        → (let n : ℕ = if f then 0 else 1 in (n ≡ 0) ⊎ ((n ≡ 1) × (s ≡ true)))
    way true b s control may = inl refl
    way false b s control may = inr (refl, ground arith)

with_control-Honest :
    (k : Replies) (js : ℕ) (args : List (List ℕ)) → Honest k (with_control k js args)
with_control-Honest k js [] = tt
with_control-Honest k js (ctrl ∷ args) =
    if_elim (Honest k) (is_control (first_char ctrl) && positive_int js) _ _
      (λ both.
        control_job-Honest k js (to_lower (first_char ctrl))
          (and_right (is_control (first_char ctrl)) _ both) (and_left _ (positive_int js) both))
      (λ _. tt)

-- Whatever the arguments and the processes are, the program `jobctl` asks only for a job with a positive
-- number and PID to be moved, to the background only if it is stopped or killed; it resumes the process
-- of that job if and only if the move succeeded, and ends as the two calls answer.
pub jobctl_main-Honest :
    (k : Replies) (procs : List (ℕ × ℕ)) (args : List (List ℕ))
    → Honest k (jobctl_main k procs args)
unfolding jobctl_main
jobctl_main-Honest k procs [] = tt
jobctl_main-Honest k procs (arg ∷ args) =
    if_elim (Honest k) (first_char arg == b'-') _ _ (λ _. tt)
      (λ _.
        if_elim (Honest k) (is_control (first_char arg)) _ _ (λ _. default_job (getdefjob procs))
          (λ _. with_control-Honest k (atoi arg) args))
  where
    default_job :
        (d : Option ℕ)
        → (let r : JobOutcome = elim d [ none ↦ ends 1 | some js ↦ with_control k js args ] in
            Honest k r)
    default_job none = tt
    default_job (some js) = with_control-Honest k js args
