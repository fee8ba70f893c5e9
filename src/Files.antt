-- ===== src/Files.antt =====
-- The in-core inodes and the global file table of fs/file.c, as far as the processes share them.
use frostbite.Base.{
  ℕ, zero, suc, Bool, true, false, Option, none, some, ◌==◌, if◌then◌else◌, ℤ, pos, negsuc, eqb_ℤ,
  dec, List,
}
pub mod Open
mod Tests

pub record Inode : Type 0 where
  pub name : List ℕ
  pub ext : List ℕ
  pub cluster_index : ℕ
  pub dir_index : ℕ
  pub file_size : ℕ
  pub ref_count : ℤ

-- `inode` is an index into the inode table, `none` for NULL.
pub record FileEntry : Type 0 where
  pub inode : Option ℕ
  pub offset : ℕ
  pub ref_count : ℤ

-- `crashed` is a NULL dereference or a failed ASSERT, after which the rest means nothing.
pub record Files : Type 0 where
  pub inode_table : ℕ → Inode
  pub file_table : ℕ → FileEntry
  pub crashed : Bool

unfoldable pub set_inode : ℕ → Inode → Files → Files
set_inode i v fs = record fs { inode_table = λ j. if j == i then v else fs.inode_table j }

unfoldable pub set_entry : ℕ → FileEntry → Files → Files
set_entry e v fs = record fs { file_table = λ j. if j == e then v else fs.file_table j }

-- Drops one reference of entry `e` to inode `i`, and forgets the inode at its last reference.
unfoldable pub drop_inode : ℕ → ℕ → Files → Files
unfolding set_inode set_entry
drop_inode e i fs =
    let node = fs.inode_table i in
    let fs1 = set_inode i (record node { ref_count = dec node.ref_count }) fs in
    if eqb_ℤ (dec node.ref_count) (pos 0)
    then set_entry e (record (fs1.file_table e) { inode = none }) fs1
    else fs1

-- The body of the loops over a dead process' descriptors.
unfoldable pub release_entry : ℕ → Files → Files
unfolding set_entry drop_inode
release_entry e fs =
    let entry = fs.file_table e in
    let fs1 = set_entry e (record entry { ref_count = dec entry.ref_count }) fs in
    elim entry.inode [ none ↦ record fs1 { crashed = true } | some i ↦ drop_inode e i fs1 ]

unfoldable pub release_fd : Option ℕ → Files → Files
unfolding release_entry
release_fd none fs = fs
release_fd (some e) fs = release_entry e fs

abbrev is_positive : ℤ → Bool
is_positive (pos zero) = false
is_positive (pos (suc n)) = true
is_positive (negsuc n) = false

-- One reference of an inode is given back. The release at the last one only clears the local pointer.
unfoldable pub inode_put : Option ℕ → Files → Files
inode_put none fs = fs
inode_put (some i) fs =
    let node = fs.inode_table i in
    if is_positive node.ref_count
    then set_inode i (record node { ref_count = dec node.ref_count }) fs
    else record fs { crashed = true }

-- The descriptor of the process goes once no process shares its entry.
unfoldable pub close_entry : ℕ → ℕ → (ℕ → Option ℕ) → Files → (ℕ → Option ℕ) × Files
close_entry fd e fd_table fs =
    let fs1 = inode_put (fs.file_table e).inode fs in
    let left = dec (fs1.file_table e).ref_count in
    let fs2 = set_entry e (record (fs1.file_table e) { ref_count = left }) fs1 in
    let closed = λ (j : ℕ). if j == fd then none else fd_table j in
    if eqb_ℤ left (pos 0) then (closed, fs2) else (fd_table, fs2)

-- `close_file` on the descriptors of a process and the tables.
unfoldable pub close_file : ℤ → (ℕ → Option ℕ) → Files → (ℕ → Option ℕ) × Files
close_file (negsuc n) fd_table fs = (fd_table, fs)
close_file (pos fd) fd_table fs = elim (fd_table fd) [
  | none ↦ (fd_table, fs)
  | some e ↦ close_entry fd e fd_table fs
]
