-- ===== src/Memory.antt =====
-- The page allocator and the page tables of memory/memory.c, over the words of kernel memory.
pub mod Alloc
pub mod Free
pub mod Bytes
mod Tests
use frostbite.Base.{
  ℕ, zero, suc, ◌+◌, ◌-◌, ◌*◌, ◌/◌, ◌%◌, ◌^◌, ◌≤◌, ◌<◌, ◌≡◌, refl, sym, ap, ◌∙◌, ◌≢◌, ◌⊎◌, inl, inr,
  Bool, true, false, not, ◌&&◌, ◌||◌, Option, none, some, List, [], ◌∷◌, ◌++◌, arith, ◌==◌,
  if◌then◌else◌, ltb, leb, has, length, ℤ, pos, negsuc, eqb_ℤ, bit_or,
}

abbrev pub kernel_base : ℕ
kernel_base = 0xffff_0000_0000_0000

abbrev pub userspace_base : ℕ
userspace_base = 0x40_0000

abbrev pub userspace_ext : ℕ
userspace_ext = 0x60_0000

abbrev pub page_size : ℕ
page_size = 0x20_0000

abbrev pub page_table_size : ℕ
page_table_size = 4096

-- `TO_VIRT` and `TO_PHY`, on uint64_t.
abbrev pub to_virt : ℕ → ℕ
to_virt a = (a + kernel_base) % 2 ^ 64

abbrev pub to_phy : ℕ → ℕ
to_phy a = (a + 2 ^ 64 - kernel_base) % 2 ^ 64

-- `MEMORY_END`, which is TO_VIRT(0x30000000)
abbrev pub memory_end : ℕ
memory_end = 0xffff_0000_3000_0000

abbrev pub align_up : ℕ → ℕ
align_up a = (a + page_size - 1) % 2 ^ 64 / 2 ^ 21 * 2 ^ 21

abbrev pub align_down : ℕ → ℕ
align_down a = a / 2 ^ 21 * 2 ^ 21

-- `addr + PAGE_SIZE`
abbrev pub page_end : ℕ → ℕ
page_end addr = (addr + page_size) % 2 ^ 64

-- The bits of an entry above its attributes.
abbrev pub page_dir_entry_addr : ℕ → ℕ
page_dir_entry_addr v = v / 4096 * 4096

abbrev pub page_table_entry_addr : ℕ → ℕ
page_table_entry_addr v = v / page_size * page_size

-- `value & ENTRY_VALID`
abbrev pub is_valid : ℕ → Bool
is_valid v = v % 2 == 1

abbrev pub table_entry : ℕ
table_entry = 2

abbrev pub page_entry : ℕ
page_entry = 0

-- ENTRY_VALID | USER_MODE | NORMAL_MEMORY | ENTRY_ACCESSED
abbrev pub user_attr : ℕ
user_attr = 1093

-- `word a` is the 8-byte word at kernel virtual address `a`; `free_head` is `free_mem_head.next`;
-- `kern_end` is the linker's symbol. After a failed ASSERT the machine spins: `halted` is set, and
-- the rest of the state means nothing any more.
pub record Memory : Type 0 where
  pub word : ℕ → ℕ
  pub free_head : ℕ
  pub kern_end : ℕ
  pub halted : Bool

unfoldable pub assert : Bool → Memory → Memory
assert true m = m
assert false m = record m { halted = true }

unfoldable pub store : ℕ → ℕ → Memory → Memory
store a v m = record m { word = λ b. if b == a then v else m.word b }

-- What `kalloc` and `kfree` assert of a page.
unfoldable pub assert_page : ℕ → Memory → Memory
unfolding assert
assert_page p m =
    assert (leb (page_end p) memory_end) (assert (leb m.kern_end p) (assert (p % page_size == 0) m))

-- The page (0 for NULL) and the memory after the call.
unfoldable pub kalloc : Memory → ℕ × Memory
kalloc m =
    if m.free_head == 0
    then (0, m)
    else (let m' = assert_page m.free_head m in
        (m.free_head, record m' { free_head = m'.word m.free_head }))

unfoldable pub kfree : ℕ → Memory → Memory
unfolding store
kfree addr m =
    if addr == 0
    then m
    else (let m' = assert_page addr m in record (store addr m'.free_head m') { free_head = addr })

-- The loop of `free_region`; the fuel is the number of rounds left.
unfoldable pub free_region_loop : ℕ → ℕ → ℕ → Memory → Memory
free_region_loop zero addr end_addr m = m
free_region_loop (suc n) addr end_addr m =
    let m' = if leb (page_end addr) memory_end then kfree addr m else m in
    let rest = free_region_loop n (page_end addr) end_addr m' in
    if leb (page_end addr) end_addr then rest else m

-- No more than `end_addr / page_size` pages end at or below `end_addr`.
unfoldable pub free_region : ℕ → ℕ → Memory → Memory
unfolding free_region_loop
free_region start end_addr m =
    free_region_loop ((end_addr - align_up start) / page_size + 1) (align_up start) end_addr m

unfoldable pub init_mem : Memory → Memory
unfolding free_region
init_mem m = free_region m.kern_end memory_end m

-- `memset(table, 0, PAGE_TABLE_SIZE)`
unfoldable pub clear_table : ℕ → Memory → Memory
clear_table t m = record m {
  word = λ b. if leb t b && ltb b (t + page_table_size) then 0 else m.word b;
}

-- The step that `find_gdt_entry` and `find_udt_entry` share: follow entry `index` of the table at
-- `t`; if it is not valid and `alloc_new` is set, open the next table just behind this one.
unfoldable pub follow : ℕ → ℕ → Bool → ℕ → Memory → ℕ × Memory
unfolding clear_table store
follow t index alloc_new attr m =
    if is_valid (m.word (t + 8 * index))
    then (to_virt (page_dir_entry_addr (m.word (t + 8 * index))), m)
    else (if alloc_new
        then (
          t + page_table_size,
          store (t + 8 * index) (bit_or (bit_or (to_phy (t + page_table_size)) attr) table_entry)
              (clear_table (t + page_table_size) m),
        )
        else (0, m))

unfoldable pub find_gdt_entry : ℕ → ℕ → Bool → ℕ → Memory → ℕ × Memory
unfolding follow
find_gdt_entry map virt_addr alloc_new attr m =
    if map == 0 then (0, m) else follow map (virt_addr / 2 ^ 39 % 512) alloc_new attr m

unfoldable pub find_udt_entry : ℕ → ℕ → Bool → ℕ → Memory → ℕ × Memory
unfolding find_gdt_entry follow
find_udt_entry map virt_addr alloc_new attr m =
    let (gdt_entry, m') = find_gdt_entry map virt_addr alloc_new attr m in
    if gdt_entry == 0
    then (0, m')
    else follow gdt_entry (virt_addr / 2 ^ 30 % 512) alloc_new attr m'

abbrev pub mdt_slot : ℕ → ℕ → ℕ
mdt_slot mdt virt_addr = mdt + 8 * (virt_addr / 2 ^ 21 % 512)

unfoldable pub map_page : ℕ → ℕ → ℕ → ℕ → Memory → Bool × Memory
unfolding find_udt_entry assert store
map_page map virt_addr phy_addr attr m =
    let vstart = align_down virt_addr in
    let m1 =
      assert (leb (page_end phy_addr) (to_phy memory_end))
        (assert (phy_addr % page_size == 0) (assert (leb (page_end vstart) memory_end) m)) in
    let (mdt, m2) = find_udt_entry map vstart true attr m1 in
    if mdt == 0
    then (false, m2)
    else (let m3 = assert (not (is_valid (m2.word (mdt_slot mdt vstart)))) m2 in
        (true, store (mdt_slot mdt vstart) (bit_or (bit_or phy_addr attr) page_entry) m3))

unfoldable pub free_page : ℕ → ℕ → Memory → Memory
unfolding find_udt_entry assert store kfree
free_page map virt_addr m =
    let m1 = assert (virt_addr % page_size == 0) m in
    let (mdt, m2) = find_udt_entry map virt_addr false 0 m1 in
    let entry = m2.word (mdt_slot mdt virt_addr) in
    if mdt == 0
    then m2
    else (if is_valid entry
        then store (mdt_slot mdt virt_addr) 0 (kfree (to_virt (page_table_entry_addr entry)) m2)
        else m2)

unfoldable pub free_tables : ℕ → Memory → Memory
unfolding kfree
free_tables map m = kfree map m

unfoldable pub free_uvm : ℕ → Memory → Memory
unfolding free_page free_tables
free_uvm map m = free_tables map (free_page map userspace_ext (free_page map userspace_base m))
