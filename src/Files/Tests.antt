-- ===== src/Files/Tests.antt =====
-- The theorems on open files, at a file of a small image.
use frostbite.Base.{
  ℕ, zero, suc, ◌≡◌, refl, false, Option, none, some, [], ◌∷◌, arith, ◌==◌, if◌then◌else◌, pos,
}
use frostbite.Files
use frostbite.Fat
use frostbite.Fat.Sample.{disk}
use frostbite.Files.Open.{open_file, read_file}
use frostbite.Files.Open.Close.{Unchanged, open_file-close_file}
use frostbite.Files.Open.Contents.{IsFile, read_file-contents}

-- Descriptor 0 is entry 0, which stands at byte 1 of the file.
abbrev fd_table : ℕ → Option ℕ
fd_table zero = some 0
fd_table (suc n) = none

abbrev tables : Files.Files
tables = record {
  inode_table = λ i. record {
    name = [];
    ext = [];
    cluster_index = 2;
    dir_index = 0;
    file_size = 4;
    ref_count = pos 1;
  };
  file_table =
      λ e. record { inode = if e == 0 then some 0 else none; offset = 1; ref_count = pos 1 };
  crashed = false;
}

open_file-close_file_example : Unchanged fd_table tables (
    Files.close_file
      (open_file disk [] fd_table tables).0
      (open_file disk [] fd_table tables).1.0
      (open_file disk [] fd_table tables).1.1)
open_file-close_file_example = open_file-close_file disk [] fd_table tables (λ i. (1, refl))

two_clusters : IsFile disk (tables.inode_table 0) (2 ∷ 3 ∷ [])
unfolding Fat.get_cluster_size Fat.get_next_cluster_index Fat.get_fs_bpb Fat.get_fat_table
two_clusters = record {
  some_size = omega arith;
  chain = (refl, omega arith, (λ e. omega arith), (refl, omega arith, (λ e. omega arith), refl));
  size_fits = (omega arith, omega arith);
}

read_file-contents_example :
    read_file disk fd_table 0 10 tables
    ≡ some (
      (3, 8 ∷ 9 ∷ 10 ∷ []),
      Files.set_entry 0 (record { inode = some 0; offset = 4; ref_count = pos 1 }) tables,
    )
unfolding Fat.get_cluster_size Fat.get_fs_bpb Fat.bytes Fat.get_cluster_offset
read_file-contents_example =
    read_file-contents disk (2 ∷ 3 ∷ []) 0 0 0 10 fd_table tables refl refl two_clusters
      (omega arith) (omega arith)
