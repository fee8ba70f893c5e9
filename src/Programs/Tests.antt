-- ===== src/Programs/Tests.antt =====
-- The theorems on the programs at small inputs.
use frostbite.Base.{
  ℕ, ◌+◌, ◌≤◌, ◌<◌, ◌≡◌, refl, true, false, Option, none, some, List, [], ◌∷◌, arith, ◌==◌,
  if◌then◌else◌,
}
use frostbite.Programs.JobControl
use frostbite.Programs.Login.{
  Try, runs_shell, login_main, login_loop, search_entry, find_colon, same_bytes, check_password,
  read_passwd, passwd_keys,
}
use frostbite.Programs.Login.Authorised.{Authorised, login_main-Authorised}
use frostbite.Text.{poke, to_lower}
use frostbite.Programs.JobControl.{jobctl_main, control_job, getdefjob, Honest, jobctl_main-Honest}
use frostbite.Programs.KillCommand.{Checked, kill_main, kill_main-Checked}
use frostbite.Programs.Export.{is_env_valid, Answers, Evaluation, evaluate_from, evaluate_env}
use frostbite.Text.Str.{char_at, str_at}
use frostbite.Programs.Export.Bounds.{evaluate_env-kept}
use frostbite.Programs.Export.Rounds.{evaluate_from-rounds}
use frostbite.Programs.Export.Plain.{evaluate_env-plain}

abbrev answers : Answers
answers = record { pid_str = b'4' ∷ []; status_str = b'0' ∷ []; getenv = λ name. some (b'v' ∷ []) }

-- `a$X`
abbrev nested_text : List ℕ
nested_text = b'a' ∷ b'$' ∷ b'X' ∷ []

abbrev zeros : ℕ → ℕ
zeros j = 0

evaluate_env-kept_example :
    (let out = evaluate_env false (char_at nested_text) 3 answers zeros in
      ((k : ℕ) × (k < 128) × (out k ≡ 0)) × ((j : ℕ) → 128 ≤ j → out j ≡ 0))
evaluate_env-kept_example = evaluate_env-kept false (char_at nested_text) 3 answers zeros

abbrev at_start : Evaluation
at_start = record { in_pos = 0; out_pos = 0; out_env_str = zeros }

evaluate_from-rounds_example :
    ((evaluate_from false (char_at nested_text) 3 answers 3 at_start).0 ≡ true)
    × (evaluate_from false (char_at nested_text) 3 answers (3 + 7) at_start
        ≡ evaluate_from false (char_at nested_text) 3 answers 3 at_start)
evaluate_from-rounds_example =
    evaluate_from-rounds false (char_at nested_text) 3 answers 3 7 at_start (omega arith)

abbrev plain_text : List ℕ
plain_text = b'P' ∷ b'S' ∷ b'1' ∷ []

evaluate_env-plain_example :
    str_at 64 (evaluate_env true (char_at plain_text) 3 answers zeros) 0 ≡ plain_text
unfolding is_env_valid
evaluate_env-plain_example = evaluate_env-plain true plain_text answers zeros refl

abbrev two_states : ℕ → Option ℕ
two_states pid = if pid == 5 then some 3 else none

-- `kill -9 5`
abbrev kill_args : List (List ℕ)
kill_args = (b'-' ∷ b'9' ∷ []) ∷ (b'5' ∷ []) ∷ []

kill_main-Checked_example : Checked two_states 7 (kill_main two_states 7 kill_args)
kill_main-Checked_example = kill_main-Checked two_states 7 kill_args

-- Job 1 is the stopped process 5.
abbrev one_job : JobControl.Replies
one_job = record {
  getjpid = λ js. if js == 1 then 5 else 0;
  state = λ pid. 5;
  setjobctl = λ js t. true;
  can_resume = λ pid. true;
}

-- `bg` without a job.
abbrev bg_args : List (List ℕ)
bg_args = (b'b' ∷ b'g' ∷ []) ∷ (b'b' ∷ b'g' ∷ []) ∷ []

bg_resumes : jobctl_main one_job ((5, 1) ∷ []) bg_args ≡ JobControl.resumes 1 1 5
unfolding jobctl_main control_job getdefjob to_lower
bg_resumes = refl

jobctl_main-Honest_example : Honest one_job (jobctl_main one_job ((5, 1) ∷ []) bg_args)
jobctl_main-Honest_example = jobctl_main-Honest one_job ((5, 1) ∷ []) bg_args

-- `root:pw:`
abbrev passwd_file : List ℕ
passwd_file = b'r' ∷ b'o' ∷ b'o' ∷ b't' ∷ b':' ∷ b'p' ∷ b'w' ∷ b':' ∷ []

-- A wrong password, corrected with the delete key, and the right one.
abbrev login_tries : List Try
login_tries =
    record { username = b'r' ∷ b'o' ∷ b'o' ∷ b't' ∷ []; keys = b'p' ∷ 127 ∷ b'q' ∷ 13 ∷ [] }
    ∷ record { username = b'r' ∷ b'o' ∷ b'o' ∷ b't' ∷ []; keys = b'p' ∷ b'w' ∷ 13 ∷ [] }
    ∷ []

login_runs :
    login_main 8 (char_at passwd_file) login_tries ≡ runs_shell (b'r' ∷ b'o' ∷ b'o' ∷ b't' ∷ [])
unfolding login_main poke login_loop search_entry find_colon same_bytes check_password read_passwd
    passwd_keys
login_runs = refl

login_main-Authorised_example :
    Authorised
      (poke 8 0 (char_at passwd_file))
      login_tries
      (login_main 8 (char_at passwd_file) login_tries)
login_main-Authorised_example = login_main-Authorised 8 (char_at passwd_file) login_tries
