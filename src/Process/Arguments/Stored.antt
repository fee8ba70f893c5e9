-- ===== src/Process/Arguments/Stored.antt =====
-- get_proc_data reads the arguments that exec has stored.
use frostbite.Base.{ℕ, Bool, true, ◌&&◌, List, [], ◌∷◌, ◌++◌, if◌then◌else◌, eqb_list}
use frostbite.Text.Str.{no_nul}

-- The arguments before `&`.
abbrev pub before_amp : List (List ℕ) → List (List ℕ)
before_amp [] = []
before_amp (arg ∷ args) =
    let rest = before_amp args in if eqb_list arg (b'&' ∷ []) then [] else arg ∷ rest

-- The strings one behind the other, each with its NUL.
abbrev pub flat : List (List ℕ) → List ℕ
flat [] = []
flat (arg ∷ args) = arg ++ 0 ∷ flat args

abbrev pub no_nuls : List (List ℕ) → Bool
no_nuls [] = true
no_nuls (arg ∷ args) = no_nul arg && no_nuls args
