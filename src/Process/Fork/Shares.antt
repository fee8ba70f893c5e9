-- ===== src/Process/Fork/Shares.antt =====
-- The reference counts of the files that a child shares with its parent.
use frostbite.Base.{
  eqb→eq, Bool-cases, for_slots, Option-cases, ℕ, zero, suc, ◌+◌, ◌≡◌, refl, ap, ◌∙◌, inl, inr,
  Bool, false, Option, none, some, ◌==◌, if◌then◌else◌, ℤ, inc,
}
use frostbite.Process.{max_open_files}
use frostbite.Process.Fork.{share_fd, share_files}
use frostbite.Files.{Files, set_inode, set_entry}

-- How many of the descriptors from `i` on lead to entry `e`.
abbrev pub points : ℕ → Option ℕ → Bool
points e none = false
points e (some x) = e == x

abbrev pub uses : (e : ℕ) → (ℕ → Option ℕ) → (rounds i : ℕ) → ℕ
uses e fds zero i = 0
uses e fds (suc n) i = if points e (fds i) then suc (uses e fds n (i + 1)) else uses e fds n (i + 1)

-- How many lead to an entry of inode `x`, by the inodes of the entries.
abbrev pub reaches : (ℕ → Option ℕ) → ℕ → Option ℕ → Bool
reaches inodes x none = false
reaches inodes x (some e) = points x (inodes e)

abbrev pub inode_uses : (ℕ → Option ℕ) → (x : ℕ) → (ℕ → Option ℕ) → (rounds i : ℕ) → ℕ
inode_uses inodes x fds zero i = 0
inode_uses inodes x fds (suc n) i =
    if reaches inodes x (fds i)
    then suc (inode_uses inodes x fds n (i + 1))
    else inode_uses inodes x fds n (i + 1)

-- The sum of a count and a number.
abbrev pub raised : ℕ → ℤ → ℤ
raised zero c = c
raised (suc n) c = raised n (inc c)

abbrev pub inodes_of : Files → ℕ → Option ℕ
inodes_of fs e = (fs.file_table e).inode

-- One descriptor: its entry, and the entry's inode.
share_fd-file_table :
    (x : ℕ) (fs : Files)
    → (share_fd (some x) fs).file_table
      ≡ (set_entry x
          (record (fs.file_table x) { ref_count = inc (fs.file_table x).ref_count })
          fs).file_table
unfolding share_fd set_entry set_inode
share_fd-file_table x fs = elim (Option-cases (fs.file_table x).inode) [
  | inl e ↦ rw (e, share_fd, e) refl
  | inr (i, e) ↦ rw (e, share_fd, e) refl
]

share_fd-entry :
    (o : Option ℕ) (fs : Files) (e : ℕ)
    → (((share_fd o fs).file_table e).ref_count
        ≡ (if points e o then inc (fs.file_table e).ref_count else (fs.file_table e).ref_count))
      × (((share_fd o fs).file_table e).inode ≡ (fs.file_table e).inode)
unfolding share_fd set_entry
share_fd-entry none fs e = (refl, refl)
share_fd-entry (some x) fs e = rw (share_fd-file_table x fs) (elim (Bool-cases (e == x)) [
  | inl same ↦ rw (same, eqb→eq e x same) (refl, refl)
  | inr other ↦ rw other (refl, refl)
])

share_fd-inode :
    (o : Option ℕ) (fs : Files) (x : ℕ)
    → ((share_fd o fs).inode_table x).ref_count ≡ (
        if reaches (inodes_of fs) x o
        then inc (fs.inode_table x).ref_count
        else (fs.inode_table x).ref_count)
unfolding share_fd set_entry set_inode
share_fd-inode none fs x = refl
share_fd-inode (some e) fs x = elim (Option-cases (fs.file_table e).inode) [
  | inl no_inode ↦ rw (no_inode, share_fd) refl
  | inr (i, linked) ↦ elim (Bool-cases (x == i)) [
    | inl same ↦ rw (linked, share_fd, same, eqb→eq x i same) refl
    | inr other ↦ rw (linked, share_fd, other) refl
  ]
]

module _ (fds : ℕ → Option ℕ) where
  reaches-same :
      (f g : ℕ → Option ℕ) (x : ℕ) (o : Option ℕ)
      → ((e : ℕ) → f e ≡ g e)
      → reaches f x o ≡ reaches g x o
  reaches-same f g x none same = refl
  reaches-same f g x (some e) same = ap (points x) (same e)

  inode_uses-same :
      (f g : ℕ → Option ℕ) (x n i : ℕ)
      → ((e : ℕ) → f e ≡ g e)
      → inode_uses f x fds n i ≡ inode_uses g x fds n i
  inode_uses-same f g x zero i same = refl
  inode_uses-same f g x (suc n) i same =
      rw (reaches-same f g x (fds i) same, inode_uses-same f g x n (i + 1) same) refl

  loop-entry :
      (e n i : ℕ) (fs : Files)
      → ((for_slots n i (λ j. share_fd (fds j)) fs).file_table e).ref_count
        ≡ raised (uses e fds n i) (fs.file_table e).ref_count
  unfolding for_slots
  loop-entry e zero i fs = refl
  loop-entry e (suc n) i fs =
      let (count, inode) = share_fd-entry (fds i) fs e in
      loop-entry e n (i + 1) (share_fd (fds i) fs)
      ∙ rw count (elim (Bool-cases (points e (fds i))) [
        | inl here ↦ rw here refl
        | inr elsewhere ↦ rw elsewhere refl
      ])

  loop-inode :
      (x n i : ℕ) (fs : Files)
      → ((for_slots n i (λ j. share_fd (fds j)) fs).inode_table x).ref_count
        ≡ raised (inode_uses (inodes_of fs) x fds n i) (fs.inode_table x).ref_count
  unfolding for_slots
  loop-inode x zero i fs = refl
  loop-inode x (suc n) i fs =
      let next = share_fd (fds i) fs in
      let same =
        inode_uses-same (inodes_of next) (inodes_of fs) x n (i + 1)
          (λ e. (share_fd-entry (fds i) fs e).1) in
      loop-inode x n (i + 1) next
      ∙ rw (same, share_fd-inode (fds i) fs x)
          (elim (Bool-cases (reaches (inodes_of fs) x (fds i))) [
            | inl here ↦ rw here refl
            | inr elsewhere ↦ rw elsewhere refl
          ])

-- When a child shares the files of its parent, the reference count of each entry of the file table
-- grows by the number of descriptors that lead to it, and the count of each inode by the number that
-- lead to an entry of it.
pub share_files-raised :
    (fds : ℕ → Option ℕ) (fs : Files)
    → ((e : ℕ)
        → ((share_files fds fs).file_table e).ref_count
          ≡ raised (uses e fds max_open_files 0) (fs.file_table e).ref_count)
      × ((x : ℕ)
          → ((share_files fds fs).inode_table x).ref_count
            ≡ raised
                (inode_uses (inodes_of fs) x fds max_open_files 0)
                (fs.inode_table x).ref_count)
unfolding share_files
share_files-raised fds fs =
    ((λ e. loop-entry fds e max_open_files 0 fs), (λ x. loop-inode fds x max_open_files 0 fs))
