-- ===== src/Memory/Tests.antt =====
-- The page allocator on a machine with two free pages, and the theorems at it.
use frostbite.Base.{ℕ, ◌+◌, refl, false, [], ◌∷◌, arith, ◌==◌, if◌then◌else◌}
use frostbite.Memory.{Memory, init_mem, kernel_base}
use frostbite.Memory.Alloc.{IsPage, IsFree}
use frostbite.Memory.Free.{AllFree, init_mem-AllFree}

abbrev end_of_kernel : ℕ
end_of_kernel = kernel_base + 0x12_3456

abbrev page_one : ℕ
page_one = kernel_base + 0x40_0000

abbrev page_two : ℕ
page_two = kernel_base + 0x80_0000

-- Page one is free, and so is page two, which is the head of the list.
abbrev machine : Memory
machine = record {
  word = λ a. if a == page_two then page_one else 0;
  free_head = page_two;
  kern_end = end_of_kernel;
  halted = false;
}

page_one-IsPage : IsPage end_of_kernel page_one
page_one-IsPage = record { aligned = refl; behind_kernel = omega arith; below_end = omega arith }

page_two-IsPage : IsPage end_of_kernel page_two
page_two-IsPage = record { aligned = refl; behind_kernel = omega arith; below_end = omega arith }

machine-IsFree : IsFree machine (page_two ∷ page_one ∷ [])
machine-IsFree = record {
  chain = (refl, page_two-IsPage, refl, (refl, page_one-IsPage, refl, refl));
  kernel_low = omega arith;
  running = refl;
}

-- The machine before any page was freed.
abbrev booting : Memory
booting = record machine { free_head = 0 }

booting-IsFree : IsFree booting []
booting-IsFree = record { chain = refl; kernel_low = omega arith; running = refl }

odd_address : ¬ IsPage end_of_kernel (page_one + 8)
odd_address page = ground (arith, page.aligned)

init_mem-AllFree_example : AllFree end_of_kernel (init_mem booting)
init_mem-AllFree_example = init_mem-AllFree booting refl refl (omega arith) (omega arith)
