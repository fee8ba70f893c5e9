-- ===== src/Env/Tests.antt =====
-- An empty environment, and the theorem at it.
use frostbite.Base.{ℕ, ◌≡◌, ◌≢◌, inr, none, some, [], ◌∷◌, find_slot}
use frostbite.Env.{Map, at, insert, has_hash}
use frostbite.Env.Insert.{at-insert}

abbrev no_env : Map
no_env j = record { key = []; value = []; key_hash = 0 }

first_free : find_slot 101 0 (has_hash 0 no_env) ≢ none
unfolding find_slot
first_free e = cc

at-insert_example :
    (i : ℕ) × (at (80 ∷ []) (insert (80 ∷ []) (65 ∷ []) no_env) ≡ some i)
    × ((insert (80 ∷ []) (65 ∷ []) no_env i).value ≡ 65 ∷ [])
at-insert_example = at-insert 80 [] (65 ∷ []) no_env (inr first_free)
