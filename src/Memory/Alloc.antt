-- ===== src/Memory/Alloc.antt =====
-- `kalloc` and `kfree` against the list of free pages that they keep in the pages themselves.
use frostbite.Base.{
  ℕ, ◌+◌, ◌-◌, ◌%◌, ◌^◌, ◌≤◌, ◌<◌, ◌≡◌, refl, ◌≢◌, inl, inr, true, false, ◌&&◌, List, [], ◌∷◌,
  arith, ◌==◌, leb, has, Bool-cases, eqb_refl,
}
use frostbite.Memory.{page_end, store, assert_page, Memory, kalloc, kfree, page_size, memory_end}

-- A page that the kernel may hand out: aligned, behind the kernel, below the end of memory.
pub record IsPage (kern_end p : ℕ) : Type 0 where
  pub aligned : p % page_size ≡ 0
  pub behind_kernel : kern_end ≤ p
  pub below_end : p + page_size ≤ memory_end

-- From `p` the first words of the pages lead through the distinct pages `ps` to NULL.
abbrev pub FreeChain : (ℕ → ℕ) → ℕ → ℕ → List ℕ → Type 0
FreeChain word kern_end p [] = p ≡ 0
FreeChain word kern_end p (x ∷ xs) =
    (p ≡ x) × IsPage kern_end x × (has x xs ≡ false) × FreeChain word kern_end (word x) xs

-- The free pages of a running machine, in the order in which `kalloc` takes them.
pub record IsFree (m : Memory) (ps : List ℕ) : Type 0 where
  pub chain : FreeChain m.word m.kern_end m.free_head ps
  pub kernel_low : 0 < m.kern_end
  pub running : m.halted ≡ false

FreeChain-frame :
    (f g : ℕ → ℕ) (kern_end p : ℕ) (ps : List ℕ)
    → FreeChain f kern_end p ps
    → ((a : ℕ) → has a ps ≡ true → g a ≡ f a)
    → FreeChain g kern_end p ps
FreeChain-frame f g kern_end p [] c same = c
FreeChain-frame f g kern_end p (x ∷ xs) (e, page, out, c) same = (
  e,
  page,
  out,
  let e' : g x ≡ f x = same x (ground arith) in
      rw e' (FreeChain-frame f g kern_end (f x) xs c (λ a i. same a (ground arith))),
)

assert_page-IsPage : (m : Memory) (p : ℕ) → IsPage m.kern_end p → assert_page p m ≡ m
unfolding assert_page
assert_page-IsPage m p page =
    let a : (p % page_size == 0) ≡ true = ground arith in
    let b : leb m.kern_end p ≡ true = ground arith in
    let c : leb (page_end p) memory_end ≡ true = ground arith in rw (a, b, c)

-- `kalloc` takes the first free page, asserts nothing false of it, and writes no memory.
pub kalloc-cons :
    (m : Memory) (p : ℕ) (ps : List ℕ)
    → IsFree m (p ∷ ps)
    → let (q, m') = kalloc m in (q ≡ p) × IsFree m' ps × (m'.word ≡ m.word)
unfolding kalloc
kalloc-cons m p ps free =
    let (e, page, out, rest) = free.chain in
    let some_page : (m.free_head == 0) ≡ false = ground (arith, page.behind_kernel) in
    let good : IsPage m.kern_end m.free_head = rw e page in
    rw (some_page, assert_page-IsPage m m.free_head good)
      (e, record { chain = rw e rest; kernel_low = free.kernel_low; running = free.running }, refl)

-- With no page left `kalloc` returns NULL and changes nothing.
pub kalloc-nil : (m : Memory) → IsFree m [] → kalloc m ≡ (0, m)
unfolding kalloc
kalloc-nil m free = rw free.chain

-- `kfree` puts a page that is not free in front of the free ones, and asserts nothing false of it.
pub kfree-cons :
    (m : Memory) (p : ℕ) (ps : List ℕ)
    → IsFree m ps
    → IsPage m.kern_end p
    → has p ps ≡ false
    → IsFree (kfree p m) (p ∷ ps)
unfolding kfree
kfree-cons m p ps free page out =
    let some_page : (p == 0) ≡ false = ground arith in
    rw (some_page, assert_page-IsPage m p page)
      (record {
        chain = (refl, page, out, next_free);
        kernel_low = free.kernel_low;
        running = free.running;
      })
  where
    next_free :
        FreeChain (store p m.free_head m).word m.kern_end ((store p m.free_head m).word p) ps
    next_free =
        rw (eqb_refl p)
          (FreeChain-frame m.word _ m.kern_end m.free_head ps free.chain (λ a i. ground arith))

-- `kfree` of an address, other than NULL, that is no page and lies below the last 2 MB of the
-- address space trips an assertion.
pub kfree-halted :
    (m : Memory) (p : ℕ)
    → p < 2 ^ 64 - page_size
    → p ≢ 0
    → (¬ IsPage m.kern_end p)
    → (kfree p m).halted ≡ true
unfolding kfree assert_page
kfree-halted m p small ne bad =
    elim (Bool-cases (leb (page_end p) memory_end && (leb m.kern_end p && (p % page_size == 0)))) [
      | inl all ↦ absurd (bad (ground arith))
      | inr fails ↦ ground arith
    ]

-- The page that was freed last is allocated first: `kfree` of a page that is not free, then `kalloc`,
-- asserts nothing false and returns the page, with the same pages free as before.
pub kalloc-kfree :
    (m : Memory) (p : ℕ) (ps : List ℕ)
    → IsFree m ps
    → IsPage m.kern_end p
    → has p ps ≡ false
    → let (q, m') = kalloc (kfree p m) in (q ≡ p) × IsFree m' ps × (m'.word ≡ (kfree p m).word)
kalloc-kfree m p ps free page out = kalloc-cons (kfree p m) p ps (kfree-cons m p ps free page out)
