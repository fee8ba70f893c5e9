-- ===== src/Files/Open.antt =====
-- Opening and reading files: open_file, get_inode_entry, get_file_size, read_file and
-- read_root_dir_table of fs/file.c.
use frostbite.Base.{
  find_slot, inc, ℕ, zero, suc, ◌+◌, ◌-◌, ◌*◌, ◌/◌, ◌%◌, ◌^◌, ◌≤◌, ◌<◌, ◌≡◌, refl, sym, ap, ◌∙◌,
  ◌≢◌, ◌⊎◌, inl, inr, Bool, true, false, not, ◌&&◌, ◌||◌, Option, none, some, List, [], ◌∷◌, ◌++◌,
  arith, ◌==◌, if◌then◌else◌, ltb, leb, has, length, ℤ, pos, negsuc, eqb_ℤ,
}
pub mod Close
pub mod Contents
use frostbite.Files
use frostbite.Fat.{
  Image, bytes, dir_entry, first_cluster, dir_file_size, dir_entry_invalid, search_file,
  read_raw_data, get_root_dir_section, get_root_dir_count,
}

abbrev pub max_open_files : ℕ
max_open_files = 100

-- `PAGE_SIZE / sizeof(struct FileEntry)`
abbrev pub file_table_count : ℕ
file_table_count = 0x200000 / 16

abbrev pub is_null : Option ℕ → Bool
is_null none = true
is_null (some n) = false

-- `a - b` on a `uint32_t`.
abbrev pub sub32 : ℕ → ℕ → ℕ
sub32 a b = if ltb a b then a + 2 ^ 32 - b else a - b

-- What `get_inode_entry` finds in the in-core table, or caches there.
unfoldable pub cached : Image → ℕ → Files.Inode → Files.Inode
cached img i node =
    if eqb_ℤ node.ref_count (pos 0)
    then record {
      name = bytes img 8 (dir_entry img i);
      ext = bytes img 3 (dir_entry img i + 8);
      cluster_index = first_cluster img i;
      dir_index = i;
      file_size = dir_file_size img i;
      ref_count = node.ref_count;
    }
    else node

unfoldable pub get_inode_entry : Image → ℕ → Files.Files → Files.Files
get_inode_entry img i fs =
    let node = cached img i (fs.inode_table i) in
    Files.set_inode i (record node { ref_count = inc node.ref_count }) fs

-- The end of `open_file`, once a descriptor, an entry of the file table and a directory entry are
-- found.
unfoldable pub link_file :
    Image → (fd e i : ℕ) → (ℕ → Option ℕ) → Files.Files → ℤ × ((ℕ → Option ℕ) × Files.Files)
link_file img fd e i fd_table fs =
    let fs1 = get_inode_entry img i fs in
    let fs2 = Files.set_entry e (record { inode = some i; offset = 0; ref_count = pos 1 }) fs1 in
    (pos fd, ((λ j. if j == fd then some e else fd_table j), fs2))

unfoldable pub open_file :
    Image → List ℕ → (ℕ → Option ℕ) → Files.Files → ℤ × ((ℕ → Option ℕ) × Files.Files)
open_file img pathname fd_table fs =
    let failed : ℤ × ((ℕ → Option ℕ) × Files.Files) = (negsuc 0, (fd_table, fs)) in
    elim (find_slot max_open_files 0 (λ j. is_null (fd_table j))) [
      | none ↦ failed
      | some fd ↦ elim (find_slot file_table_count 0 (λ j. is_null (fs.file_table j).inode)) [
        | none ↦ failed
        | some e ↦
            let i = search_file img pathname in
            if i == dir_entry_invalid then failed else link_file img fd e i fd_table fs
      ]
    ]

-- `none` is a NULL dereference, here and below.
unfoldable pub inode_of : Option ℕ → Files.Files → Option ℕ
inode_of none fs = none
inode_of (some e) fs = (fs.file_table e).inode

unfoldable pub get_file_size : (ℕ → Option ℕ) → ℕ → Files.Files → Option ℕ
get_file_size fd_table fd fs = elim (inode_of (fd_table fd) fs) [
  | none ↦ none
  | some i ↦ some (fs.inode_table i).file_size
]

-- The size that is read at an offset of a file.
unfoldable pub clip : (offset size file_size : ℕ) → ℕ
clip offset size file_size =
    if ltb file_size ((offset + size) % 2 ^ 32) then sub32 file_size offset else size

-- Reading at entry `e`, whose inode is `i`.
unfoldable pub read_entry :
    Image → (e i size : ℕ) → Files.Files → Option ((ℕ × List ℕ) × Files.Files)
read_entry img e i size fs =
    let entry = fs.file_table e in
    let node = fs.inode_table i in
    let size' = clip entry.offset size node.file_size in
    elim (read_raw_data img node.cluster_index entry.offset size') [
      | none ↦ none
      | some (read_size, out) ↦
          let moved = record entry { offset = (entry.offset + read_size) % 2 ^ 32 } in
          let fs' = if leb read_size size' then Files.set_entry e moved fs else fs in
          some ((read_size, out), fs')
    ]

-- What `read_file` returns, what it copies to the buffer, and the tables after it.
unfoldable pub read_file :
    Image → (ℕ → Option ℕ) → (fd size : ℕ) → Files.Files → Option ((ℕ × List ℕ) × Files.Files)
read_file img fd_table fd size fs = elim (fd_table fd) [
  | none ↦ none
  | some e ↦ (elim (fs.file_table e).inode [ none ↦ none | some i ↦ read_entry img e i size fs ])
]

-- The count it returns, and what it copies to the buffer.
unfoldable pub read_root_dir_table : Image → ℕ × List ℕ
read_root_dir_table img =
    (get_root_dir_count img, bytes img (32 * get_root_dir_count img) (get_root_dir_section img))
