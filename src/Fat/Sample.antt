-- ===== src/Fat/Sample.antt =====
-- A small image of a file system with one file of two clusters.
use frostbite.Base.{ℕ, ◌-◌, List, [], ◌∷◌, ◌==◌, if◌then◌else◌}
use frostbite.Fat

abbrev byte_of : List (ℕ × ℕ) → ℕ → ℕ
byte_of [] a = 0
byte_of ((b, v) ∷ rest) a = if a == b then v else byte_of rest a

-- Sectors of two bytes; one table at byte 40, in which cluster 3 follows cluster 2; their data at
-- byte 56.
abbrev pub disk : Fat.Image
disk a =
    byte_of
      ((11, 2)
        ∷ (13, 1)
        ∷ (14, 20)
        ∷ (16, 1)
        ∷ (22, 8)
        ∷ (44, 3)
        ∷ (46, 255)
        ∷ (47, 255)
        ∷ (56, 7)
        ∷ (57, 8)
        ∷ (58, 9)
        ∷ (59, 10)
        ∷ [])
      (a - Fat.fs_base)
