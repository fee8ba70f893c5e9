-- ===== src/Files/Open/Close.antt =====
-- `open_file` on every branch, and `close_file` after it.
use frostbite.Base.{
  ℕ, suc, ◌<◌, ◌≡◌, refl, ◌≢◌, ◌⊎◌, inl, inr, true, false, Option, none, some, List, arith, ◌==◌,
  if◌then◌else◌, ℤ, pos, negsuc, eqb_ℤ, eqb→eq, dec, eqb_refl, find_slot-some, Bool-cases,
  find_slot-none, find_slot, Option-cases,
}
use frostbite.Files.{
  Files, Inode, close_file, close_entry, inode_put, set_inode, set_entry, is_positive,
}
use frostbite.Files.Open.{
  open_file, link_file, get_inode_entry, cached, max_open_files, file_table_count, is_null,
}
use frostbite.Fat.{Image, search_file, dir_entry_invalid}

-- What a call has found that opened descriptor `fd` on entry `e` and inode `i`.
pub record Found (img : Image) (path : List ℕ) (fd_table : ℕ → Option ℕ) (fs : Files) (fd e i : ℕ)
    : Type 0 where
  pub fd_free : (fd < max_open_files) × (is_null (fd_table fd) ≡ true)
  pub fd_first : (j : ℕ) → j < fd → is_null (fd_table j) ≡ false
  pub entry_free : (e < file_table_count) × (is_null (fs.file_table e).inode ≡ true)
  pub entry_first : (j : ℕ) → j < e → is_null (fs.file_table j).inode ≡ false
  pub found : (search_file img path ≡ i) × (i ≢ dir_entry_invalid)

-- Why a call fails: no free descriptor, no free entry of the file table, or no such file.
abbrev pub Fails : Image → List ℕ → (ℕ → Option ℕ) → Files → Type 0
Fails img path fd_table fs =
    ((j : ℕ) → j < max_open_files → is_null (fd_table j) ≡ false)
    ⊎ (((e : ℕ) → e < file_table_count → is_null (fs.file_table e).inode ≡ false)
        ⊎ (search_file img path ≡ dir_entry_invalid))

pub open_file-cases :
    (img : Image) (path : List ℕ) (fd_table : ℕ → Option ℕ) (fs : Files)
    → ((open_file img path fd_table fs ≡ (negsuc 0, (fd_table, fs))) × Fails img path fd_table fs)
      ⊎ ((fd : ℕ) × (e : ℕ) × (i : ℕ) × Found img path fd_table fs fd e i
          × (open_file img path fd_table fs ≡ link_file img fd e i fd_table fs))
unfolding open_file
open_file-cases img path fd_table fs =
    elim (Option-cases (find_slot max_open_files 0 (λ j. is_null (fd_table j)))) [
      | inl full ↦ inl (
        rw (full, open_file) refl,
        inl (λ j lt.
            find_slot-none max_open_files 0 (λ j. is_null (fd_table j)) full j (omega arith)
              (omega arith)),
      )
      | inr (fd, fd_found) ↦
          elim (Option-cases
            (find_slot file_table_count 0 (λ j. is_null (fs.file_table j).inode))) [
              | inl full ↦ inl (
                rw (fd_found, full, open_file) refl,
                inr (
                    inl (λ j lt.
                      find_slot-none file_table_count 0 (λ j. is_null (fs.file_table j).inode) full
                        j (omega arith) (omega arith))),
              )
              | inr (e, e_found) ↦ elim (Bool-cases (search_file img path == dir_entry_invalid)) [
                | inl missing ↦
                    inl (rw (fd_found, e_found, missing, open_file) refl, inr (inr (ground arith)))
                | inr hit ↦
                    let (lo, hi, free, before) = find_slot-some max_open_files 0 _ fd fd_found in
                    let (lo', hi', free', before') =
                      find_slot-some file_table_count 0 _ e e_found in
                    inr (
                      fd,
                      e,
                      search_file img path,
                      record {
                        fd_free = (omega arith, free);
                        fd_first = λ j lt. before j (omega arith) lt;
                        entry_free = (omega arith, free');
                        entry_first = λ j lt. before' j (omega arith) lt;
                        found = (refl, ground arith);
                      },
                      rw (fd_found, e_found, hit, open_file) refl,
                    )
              ]
            ]
    ]

-- The tables after a call that gave everything back: the descriptors, the reference counts of the
-- inodes and the flag are as before.
pub record Unchanged (fd_table : ℕ → Option ℕ) (fs : Files) (r : (ℕ → Option ℕ) × Files)
    : Type 0 where
  pub fds : (j : ℕ) → r.0 j ≡ fd_table j
  pub counts : (j : ℕ) → (r.1.inode_table j).ref_count ≡ (fs.inode_table j).ref_count
  pub alive : r.1.crashed ≡ fs.crashed

-- Closing the last descriptor of an entry.
close_file-last :
    (fd e i o n : ℕ) (fd_table : ℕ → Option ℕ) (fs : Files)
    → fd_table fd ≡ some e
    → fs.file_table e ≡ record { inode = some i; offset = o; ref_count = pos 1 }
    → (fs.inode_table i).ref_count ≡ pos (suc n)
    → close_file (pos fd) fd_table fs ≡ (
      (λ j. if j == fd then none else fd_table j),
      set_entry e
          (record { inode = some i; offset = o; ref_count = pos 0 })
          (set_inode i (record (fs.inode_table i) { ref_count = pos n }) fs),
    )
unfolding close_file close_entry inode_put set_inode set_entry
close_file-last fd e i o n fd_table fs opened entry count =
    rw (opened, close_file, entry, count, entry) refl

cached-ref_count :
    (img : Image) (i : ℕ) (node : Inode) → (cached img i node).ref_count ≡ node.ref_count
unfolding cached
cached-ref_count img i node = elim (Bool-cases (eqb_ℤ node.ref_count (pos 0))) [
  | inl free ↦ rw free refl
  | inr used ↦ rw used refl
]

inode_put-file_table : (o : Option ℕ) (fs : Files) → (inode_put o fs).file_table ≡ fs.file_table
unfolding inode_put set_inode
inode_put-file_table none fs = refl
inode_put-file_table (some i) fs = elim (Bool-cases (is_positive (fs.inode_table i).ref_count)) [
  | inl some_left ↦ rw some_left refl
  | inr none_left ↦ rw none_left refl
]

close_entry-inode :
    (fd x : ℕ) (fd_table : ℕ → Option ℕ) (fs : Files) (e : ℕ)
    → ((close_entry fd x fd_table fs).1.file_table e).inode ≡ (fs.file_table e).inode
unfolding close_entry set_entry
close_entry-inode fd x fd_table fs e =
    let fs1 = inode_put (fs.file_table x).inode fs in
    let left = dec (fs1.file_table x).ref_count in
    let fs2 = set_entry x (record (fs1.file_table x) { ref_count = left }) fs1 in
    let kept : (fs2.file_table e).inode ≡ (fs.file_table e).inode = elim (Bool-cases (e == x)) [
      | inl same ↦ rw (same, inode_put-file_table, ← eqb→eq e x same) refl
      | inr other ↦ rw (other, inode_put-file_table) refl
    ] in
    elim (Bool-cases (eqb_ℤ left (pos 0))) [ inl last ↦ rw last kept | inr shared ↦ rw shared kept ]

-- Closing a descriptor never clears the inode of an entry of the file table, the last reference
-- included.
pub close_file-inode :
    (fd : ℤ) (fd_table : ℕ → Option ℕ) (fs : Files) (e : ℕ)
    → ((close_file fd fd_table fs).1.file_table e).inode ≡ (fs.file_table e).inode
unfolding close_file
close_file-inode (negsuc n) fd_table fs e = refl
close_file-inode (pos fd) fd_table fs e = elim (Option-cases (fd_table fd)) [
  | inl free ↦ rw (free, close_file) refl
  | inr (x, opened) ↦ rw (opened, close_file) (close_entry-inode fd x fd_table fs e)
]

close_file-link_file :
    (img : Image) (fd e i n : ℕ) (fd_table : ℕ → Option ℕ) (fs : Files)
    → fd_table fd ≡ none
    → (fs.inode_table i).ref_count ≡ pos n
    → Unchanged fd_table fs (
        close_file
          (pos fd)
          (link_file img fd e i fd_table fs).1.0
          (link_file img fd e i fd_table fs).1.1)
unfolding link_file set_entry set_inode get_inode_entry
close_file-link_file img fd e i n fd_table fs free count =
    let (fd_table', fs') = (link_file img fd e i fd_table fs).1 in
    let opened : fd_table' fd ≡ some e = rw (eqb_refl fd) refl in
    let entry : fs'.file_table e ≡ record { inode = some i; offset = 0; ref_count = pos 1 } =
      rw (eqb_refl e) refl in
    let counted : (fs'.inode_table i).ref_count ≡ pos (suc n) =
      rw (eqb_refl i, cached-ref_count img i (fs.inode_table i), count) refl in
    rw (close_file-last fd e i 0 n fd_table' fs' opened entry counted) record {
      fds = λ j. elim (Bool-cases (j == fd)) [
        | inl same ↦ rw (same, eqb→eq j fd same, free) refl
        | inr other ↦ rw other refl
      ];
      counts = λ j. elim (Bool-cases (j == i)) [
        | inl same ↦ rw (same, eqb→eq j i same, count) refl
        | inr other ↦ rw other refl
      ];
      alive = refl;
    }

null-none : (o : Option ℕ) → is_null o ≡ true → o ≡ none
null-none none h = refl
null-none (some n) h = cc

-- Whatever `open_file` returns, `close_file` on that leaves every descriptor and the reference count
-- of every inode as they were before, and trips no assertion, if no count was negative.
pub open_file-close_file :
    (img : Image) (path : List ℕ) (fd_table : ℕ → Option ℕ) (fs : Files)
    → ((i : ℕ) → (n : ℕ) × ((fs.inode_table i).ref_count ≡ pos n))
    → Unchanged fd_table fs (
        close_file
          (open_file img path fd_table fs).0
          (open_file img path fd_table fs).1.0
          (open_file img path fd_table fs).1.1)
unfolding close_file link_file
open_file-close_file img path fd_table fs counted = elim (open_file-cases img path fd_table fs) [
  | inl (e, why) ↦ rw e (record { fds = λ j. refl; counts = λ j. refl; alive = refl })
  | inr (fd, e, i, found, opened) ↦
      let (n, count) = counted i in
      rw opened (
        close_file-link_file img fd e i n fd_table fs (null-none (fd_table fd) found.fd_free.1)
          count)
]
