-- ===== src/Fat/Tests.antt =====
-- The theorems on the image of a file system, at a small one.
use frostbite.Base.{◌≡◌, refl, some, [], ◌∷◌, arith}
use frostbite.Fat
use frostbite.Fat.Path.{split_path-append}

split_path-append_example :
    (Fat.split_path (b'a' ∷ b'b' ∷ b'.' ∷ b'c' ∷ [])
      ≡ some (record { name = Fat.pad 8 (b'a' ∷ b'b' ∷ []); ext = Fat.pad 3 (b'c' ∷ []) }))
    × (Fat.split_path (b'a' ∷ b'b' ∷ [])
        ≡ some (record { name = Fat.pad 8 (b'a' ∷ b'b' ∷ []); ext = Fat.pad 3 [] }))
split_path-append_example =
    split_path-append (b'a' ∷ b'b' ∷ []) (b'c' ∷ []) (omega arith) (omega arith) refl refl
