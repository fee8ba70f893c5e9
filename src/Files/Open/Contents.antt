-- ===== src/Files/Open/Contents.antt =====
-- What `read_file` copies, against the contents of the file's clusters.
use frostbite.Base.{
  drop, take, ℕ, zero, suc, ◌+◌, ◌-◌, ◌%◌, ◌^◌, ◌≤◌, ◌<◌, ◌≡◌, refl, ◌∙◌, true, Option, some, List,
  arith, leb,
}
use frostbite.Files.{Files, Inode, set_entry}
use frostbite.Files.Open.{read_file, read_entry, clip}
use frostbite.Fat.{Image, read_raw_data, get_cluster_size, min}
use frostbite.Fat.Chain.{IsChain, contents, span}
use frostbite.Fat.Read.{read_raw_data-contents, read_raw_data-nothing}
use native.Mathlib.Nat.{mod-eq_of_lt}

clip-min :
    (offset size file_size : ℕ)
    → offset ≤ file_size
    → offset + size < 2 ^ 32
    → clip offset size file_size ≡ min size (file_size - offset)
unfolding clip
clip-min offset size file_size le fits =
    let whole : (offset + size) % 2 ^ 32 ≡ offset + size = mod-eq_of_lt fits in
    rw whole (ground arith)

-- A file whose clusters are `cs`, all of whose bytes are in them.
pub record IsFile (img : Image) (node : Inode) (cs : List ℕ) : Type 0 where
  pub some_size : 0 < get_cluster_size img
  pub chain : IsChain img node.cluster_index cs
  pub size_fits : (node.file_size ≤ span img cs) × (node.file_size < 2 ^ 32)

raw_read :
    (img : Image) (node : Inode) (cs : List ℕ) (offset n : ℕ)
    → IsFile img node cs
    → offset + n ≤ node.file_size
    → read_raw_data img node.cluster_index offset n
      ≡ some (n, take n (drop offset (contents img cs)))
raw_read img node cs offset zero f fits =
    read_raw_data-nothing img cs node.cluster_index offset f.some_size f.chain
      (omega (arith, f.size_fits.0))
raw_read img node cs offset (suc n) f fits =
    read_raw_data-contents img cs node.cluster_index offset (suc n) f.some_size f.chain
      (omega (arith, f.size_fits.0)) (omega (arith, f.size_fits.0))

read_entry-raw :
    (img : Image) (e i size n : ℕ) (out : List ℕ) (fs : Files)
    → clip (fs.file_table e).offset size (fs.inode_table i).file_size ≡ n
    → read_raw_data img (fs.inode_table i).cluster_index (fs.file_table e).offset n ≡ some (n, out)
    → (fs.file_table e).offset + n < 2 ^ 32
    → read_entry img e i size fs
      ≡ some (
        (n, out),
        set_entry e (record (fs.file_table e) { offset = (fs.file_table e).offset + n }) fs,
      )
unfolding read_entry
read_entry-raw img e i size n out fs clipped raw fits =
    let whole : ((fs.file_table e).offset + n) % 2 ^ 32 ≡ (fs.file_table e).offset + n =
      mod-eq_of_lt fits in
    let all : leb n n ≡ true = ground arith in
    let raw' : read_raw_data img (fs.inode_table i).cluster_index (fs.file_table e).offset
          (clip (fs.file_table e).offset size (fs.inode_table i).file_size)
        ≡ some (n, out) =
      rw clipped raw in
    rw (raw', read_entry, clipped, all, whole) refl

read_file-entry :
    (img : Image) (fd e i size : ℕ) (fd_table : ℕ → Option ℕ) (fs : Files)
    → fd_table fd ≡ some e
    → (fs.file_table e).inode ≡ some i
    → read_file img fd_table fd size fs ≡ read_entry img e i size fs
unfolding read_file
read_file-entry img fd e i size fd_table fs opened linked =
    rw (opened, read_file, linked, read_file) refl

-- `read_file` returns and copies the bytes of the file from the entry's offset on, as many as were
-- asked for or as are left, none at the end of the file, and moves the offset past them. The offset
-- is not past the end, and offset and size together stay below 2^32.
pub read_file-contents :
    (img : Image) (cs : List ℕ) (fd e i size : ℕ) (fd_table : ℕ → Option ℕ) (fs : Files)
    → fd_table fd ≡ some e
    → (fs.file_table e).inode ≡ some i
    → IsFile img (fs.inode_table i) cs
    → (fs.file_table e).offset ≤ (fs.inode_table i).file_size
    → (fs.file_table e).offset + size < 2 ^ 32
    → let o = (fs.file_table e).offset in
      let n = min size ((fs.inode_table i).file_size - o) in
      read_file img fd_table fd size fs
      ≡ some (
        (n, take n (drop o (contents img cs))),
        set_entry e (record (fs.file_table e) { offset = o + n }) fs,
      )
read_file-contents img cs fd e i size fd_table fs opened linked f le fits =
    let o = (fs.file_table e).offset in
    let n = min size ((fs.inode_table i).file_size - o) in
    let small : o + n ≤ (fs.inode_table i).file_size = ground arith in
    let raw = raw_read img (fs.inode_table i) cs o n f small in
    read_file-entry img fd e i size fd_table fs opened linked
    ∙ read_entry-raw img e i size n _ fs (clip-min o size _ le fits) raw
        (omega (arith, f.size_fits.1))
