-- ===== src/Keyboard/Tests.antt =====
-- The ring buffer with two characters around its end, and the theorems at it.
use frostbite.Base.{ℕ, ◌≡◌, refl, false, [], ◌∷◌, ◌++◌, arith, ◌==◌, if◌then◌else◌, length}
use frostbite.Keyboard.{KeyBuffer, write_key_buffer, read_key_buffer, must_sleep}
use frostbite.Keyboard.Ring.{Holds, contents_from, read_key_buffer-Holds, write_key_buffer-Holds}

abbrev typed : KeyBuffer
typed = record { buf = λ j. if j == 499 then 104 else 105; front = 499; end = 1 }

typed-Holds : Holds typed (104 ∷ 105 ∷ [])
unfolding contents_from
typed-Holds = record { front_ok = omega arith; room = omega arith; end_at = refl; chars = refl }

read_key_buffer-Holds_example :
    (must_sleep typed ≡ false)
    × ((read_key_buffer typed).0 ≡ 104)
    × Holds (read_key_buffer typed).1 (105 ∷ [])
read_key_buffer-Holds_example = read_key_buffer-Holds typed 104 (105 ∷ []) typed-Holds

write_key_buffer-Holds_example : Holds (write_key_buffer 106 typed) (
    if length {A = ℕ} (104 ∷ 105 ∷ []) == 499
    then 104 ∷ 105 ∷ []
    else (104 ∷ 105 ∷ []) ++ (106 ∷ []))
write_key_buffer-Holds_example = write_key_buffer-Holds typed 106 (104 ∷ 105 ∷ []) typed-Holds
