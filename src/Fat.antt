-- ===== src/Fat.antt =====
-- The FAT16 image behind the kernel's memory, as fs/file.c reads it: the parameter block, the table
-- of clusters, the root directory and the data of a file.
use frostbite.Base.{
  ℕ, zero, suc, ◌+◌, ◌-◌, ◌*◌, ◌/◌, ◌%◌, ◌^◌, ◌≤◌, ◌<◌, ◌≡◌, refl, sym, ap, ◌∙◌, ◌≢◌, ◌⊎◌, inl, inr,
  Bool, true, false, not, ◌&&◌, ◌||◌, Option, none, some, List, [], ◌∷◌, ◌++◌, arith, ◌==◌,
  if◌then◌else◌, ltb, leb, has, length, ℤ, pos, negsuc, eqb_ℤ, find_slot, eqb_list, take, drop,
  replicate,
}
pub mod Path
pub mod Chain
pub mod Read
pub mod Sample
mod Tests
use frostbite.Memory.{kernel_base}

-- The bytes of the image, by kernel virtual address. The kernel never writes to it.
abbrev pub Image : Type 0
Image = ℕ → ℕ

-- `FS_BASE`, where the page allocator's memory ends.
abbrev pub fs_base : ℕ
fs_base = 0xffff_0000_3000_0000

abbrev pub dir_entry_invalid : ℕ
dir_entry_invalid = 2 ^ 32 - 1

abbrev pub end_of_data : ℕ
end_of_data = 0xffff

-- The parts of a file's name: 8 and 3 characters, filled up with spaces.
pub record FileName : Type 0 where
  pub name : List ℕ
  pub ext : List ℕ

-- The loop of `split_path` over the name: it stops at a dot or the end, and fails at a slash. What
-- it has not read comes back too.
unfoldable pub copy_name : ℕ → List ℕ → Option (List ℕ × List ℕ)
copy_name zero path = some ([], path)
copy_name (suc n) [] = some ([], [])
copy_name (suc n) (c ∷ cs) =
    if c == b'.'
    then some ([], c ∷ cs)
    else if c == b'/'
    then none
    else elim (copy_name n cs) [ none ↦ none | some (name, rest) ↦ some (c ∷ name, rest) ]

-- The loop over the extension, which only the end stops.
unfoldable pub copy_ext : ℕ → List ℕ → Option (List ℕ × List ℕ)
copy_ext zero path = some ([], path)
copy_ext (suc n) [] = some ([], [])
copy_ext (suc n) (c ∷ cs) =
    if c == b'/'
    then none
    else elim (copy_ext n cs) [ none ↦ none | some (ext, rest) ↦ some (c ∷ ext, rest) ]

-- A buffer of `n` spaces into which the characters were copied.
abbrev pub pad : ℕ → List ℕ → List ℕ
pad n cs = cs ++ replicate (n - length cs) b' '

-- After the name and the extension the path must end.
unfoldable pub finish_path : List ℕ → Option (List ℕ × List ℕ) → Option FileName
finish_path name none = none
finish_path name (some (ext, [])) = some (record { name = pad 8 name; ext = pad 3 ext })
finish_path name (some (ext, c ∷ cs)) = none

unfoldable pub after_name : Option (List ℕ × List ℕ) → Option FileName
after_name none = none
after_name (some (name, [])) = finish_path name (some ([], []))
after_name (some (name, c ∷ cs)) = if c == b'.' then finish_path name (copy_ext 3 cs) else none

-- `split_path` on buffers of spaces; `none` for false.
unfoldable pub split_path : List ℕ → Option FileName
split_path path = after_name (copy_name 8 path)

abbrev pub min : ℕ → ℕ → ℕ
min a b = if ltb b a then b else a

module _ (img : Image) where
  abbrev pub read16 : ℕ → ℕ
  read16 a = img a + 256 * img (a + 1)

  abbrev pub read32 : ℕ → ℕ
  read32 a = read16 a + 2 ^ 16 * read16 (a + 2)

  -- The `n` bytes from an address on.
  unfoldable pub bytes : ℕ → ℕ → List ℕ
  bytes zero a = []
  bytes (suc n) a = img a ∷ bytes n (a + 1)

  -- The first sector of the partition, by the LBA of its entry.
  unfoldable pub get_fs_bpb : ℕ
  get_fs_bpb = fs_base + (read32 (fs_base + 0x1be + 8) * 512) % 2 ^ 32

  abbrev pub bytes_per_sector : ℕ
  bytes_per_sector = read16 (get_fs_bpb + 11)

  abbrev pub sectors_per_cluster : ℕ
  sectors_per_cluster = img (get_fs_bpb + 13)

  abbrev pub reserved_sector_count : ℕ
  reserved_sector_count = read16 (get_fs_bpb + 14)

  abbrev pub fat_count : ℕ
  fat_count = img (get_fs_bpb + 16)

  abbrev pub root_entry_count : ℕ
  root_entry_count = read16 (get_fs_bpb + 17)

  abbrev pub sectors_per_fat : ℕ
  sectors_per_fat = read16 (get_fs_bpb + 22)

  unfoldable pub get_fat_table : ℕ
  get_fat_table = get_fs_bpb + (reserved_sector_count * bytes_per_sector) % 2 ^ 32

  unfoldable pub get_next_cluster_index : ℕ → ℕ
  get_next_cluster_index cluster_index = read16 (get_fat_table + 2 * cluster_index)

  unfoldable pub get_cluster_size : ℕ
  get_cluster_size = (bytes_per_sector * sectors_per_cluster) % 2 ^ 32

  -- `none` is the failed ASSERT on a reserved index.
  unfoldable pub get_cluster_offset : ℕ → Option ℕ
  get_cluster_offset index =
      let bpb_size = (reserved_sector_count * bytes_per_sector) % 2 ^ 32 in
      let fat_size = (fat_count * sectors_per_fat * bytes_per_sector) % 2 ^ 32 in
      let dir_size = (root_entry_count * 32) % 2 ^ 32 in
      let data_size = ((index - 2) * get_cluster_size) % 2 ^ 32 in
      if ltb index 2 then none else some ((bpb_size + fat_size + dir_size + data_size) % 2 ^ 32)

  unfoldable pub get_root_dir_count : ℕ
  get_root_dir_count = root_entry_count

  unfoldable pub get_root_dir_section : ℕ
  get_root_dir_section =
      get_fs_bpb
      + ((reserved_sector_count + fat_count * sectors_per_fat) * bytes_per_sector) % 2 ^ 32

  -- The fields of the entry `i` of the root directory.
  abbrev pub dir_entry : ℕ → ℕ
  dir_entry i = get_root_dir_section + 32 * i

  abbrev pub attributes : ℕ → ℕ
  attributes i = img (dir_entry i + 11)

  abbrev pub first_cluster : ℕ → ℕ
  first_cluster i = read16 (dir_entry i + 26)

  abbrev pub dir_file_size : ℕ → ℕ
  dir_file_size i = read32 (dir_entry i + 28)

  unfoldable pub file_match : ℕ → FileName → Bool
  file_match i f =
      eqb_list (bytes 8 (dir_entry i)) f.name && eqb_list (bytes 3 (dir_entry i + 8)) f.ext

  -- Whether the loop of `search_file` stops at an entry: free, deleted and long-name ones are passed.
  unfoldable pub is_hit : FileName → ℕ → Bool
  is_hit f i =
      not ((img (dir_entry i) == 0) || (img (dir_entry i) == 0xe5))
      && (not (attributes i == 15) && file_match i f)

  unfoldable pub search_file : List ℕ → ℕ
  search_file path = elim (split_path path) [
    | none ↦ dir_entry_invalid
    | some f ↦ (elim (find_slot get_root_dir_count 0 (is_hit f)) [
      | none ↦ dir_entry_invalid
      | some i ↦ i
    ])
  ]

  -- `while (start_cluster)`
  unfoldable pub skip_clusters : ℕ → ℕ → ℕ
  skip_clusters zero index = index
  skip_clusters (suc n) index = skip_clusters n (get_next_cluster_index index)

  -- The loop of `read_raw_data`, with what was copied to the buffer so far. Each round but the last
  -- copies something, so the size is enough fuel. `none` is a failed ASSERT, or too little fuel.
  unfoldable pub read_loop :
      (fuel : ℕ) (out : List ℕ) (read_size size from copy_size index : ℕ) → Option (ℕ × List ℕ)
  read_loop zero out read_size size from copy_size index = none
  read_loop (suc n) out read_size size from copy_size index =
      let out' = out ++ bytes copy_size from in
      let bytes_remaining = size - (read_size + copy_size) in
      let next = get_next_cluster_index index in
      let rest : Option (ℕ × List ℕ) = elim (get_cluster_offset next) [
        | none ↦ none
        | some offset ↦
            read_loop n out' (read_size + copy_size) size (get_fs_bpb + offset)
              (min bytes_remaining get_cluster_size) next
      ] in
      if leb size read_size
      then some (read_size, out)
      else if next == end_of_data
      then some (read_size + copy_size + bytes_remaining, out' ++ bytes bytes_remaining from)
      else rest

  -- What `read_raw_data` returns, and what it copies to the buffer.
  unfoldable pub read_raw_data : (cluster_index offset size : ℕ) → Option (ℕ × List ℕ)
  read_raw_data cluster_index offset size =
      let index = skip_clusters (offset / get_cluster_size) cluster_index in
      let start_offset = offset % get_cluster_size in
      if ltb index 2 then some (2 ^ 32 - 1, []) else elim (get_cluster_offset index) [
        | none ↦ none
        | some base ↦
            read_loop (size + 1) [] 0 size (get_fs_bpb + base + start_offset)
              (min size (get_cluster_size - start_offset)) index
      ]
