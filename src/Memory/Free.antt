-- ===== src/Memory/Free.antt =====
-- `free_region` and `init_mem`: what the allocator owns at boot.
use frostbite.Base.{
  ℕ, zero, suc, ◌+◌, ◌*◌, ◌%◌, ◌≤◌, ◌<◌, ◌≡◌, refl, ◌∙◌, inl, inr, true, false, List, [], ◌∷◌,
  arith, ◌==◌, leb, has, Bool-cases, ◌↔◌,
}
use frostbite.Memory.Alloc.{kfree-cons, IsPage, IsFree}
use mathlib.Core.Path.{subst}
use frostbite.Memory.{
  kfree, assert_page, page_end, Memory, page_size, memory_end, align_up, kernel_base,
  free_region_loop, free_region, init_mem,
}

-- The pages below `addr` are free, and no others.
abbrev Below : ℕ → Memory → List ℕ → Type 0
Below addr m ps = IsFree m ps × ((p : ℕ) → (has p ps ≡ true) ↔ (IsPage m.kern_end p × (p < addr)))

-- All pages are free, and nothing else.
abbrev pub AllFree : ℕ → Memory → Type 0
AllFree kern_end m =
    (ps : List ℕ) × IsFree m ps
    × (m.kern_end ≡ kern_end)
    × ((p : ℕ) → (has p ps ≡ true) ↔ IsPage kern_end p)

kern_end-kfree : (p : ℕ) (m : Memory) → (kfree p m).kern_end ≡ m.kern_end
unfolding kfree assert_page
kern_end-kfree p m = ground arith

module _ (addr : ℕ) (m : Memory) (ps : List ℕ) (below : Below addr m ps) where
  -- No page begins at `addr` or later.
  all_freed : memory_end < addr + page_size → AllFree m.kern_end m
  all_freed last = (
    ps,
    below.0,
    refl,
    λ p. (
      λ i. ((below.1 p).0 i).0,
      λ page. (below.1 p).1 (page, (let b = page.below_end in omega arith)),
    ),
  )

  Below-kfree : IsPage m.kern_end addr → Below (addr + page_size) (kfree addr m) (addr ∷ ps)
  Below-kfree page =
      (kfree-cons m addr ps below.0 page out, λ p. rw (kern_end-kfree addr m) (into p, back p))
    where
      out : has addr ps ≡ false
      out = elim (Bool-cases (has addr ps)) [
        | inl i ↦ absurd (omega (arith, ((below.1 addr).0 i).1))
        | inr o ↦ o
      ]

      into : (p : ℕ) → has p (addr ∷ ps) ≡ true → IsPage m.kern_end p × (p < addr + page_size)
      into p i = elim (Bool-cases (p == addr)) [
        | inl e ↦ let e' : p ≡ addr = ground arith in (rw e' page, omega arith)
        | inr ne ↦ let (page', lt) = (below.1 p).0 (ground arith) in (page', omega arith)
      ]

      back : (p : ℕ) → IsPage m.kern_end p × (p < addr + page_size) → has p (addr ∷ ps) ≡ true
      back p (page', lt) = elim (Bool-cases (p == addr)) [
        | inl e ↦ rw e
        | inr ne ↦ rw ne ((below.1 p).1 (page', ground arith))
      ]

free_region_loop-AllFree :
    (kern_end n addr : ℕ) (m : Memory) (ps : List ℕ)
    → m.kern_end ≡ kern_end
    → Below addr m ps
    → addr % page_size ≡ 0
    → kern_end ≤ addr
    → addr ≤ memory_end + page_size
    → memory_end < addr + n * page_size
    → AllFree kern_end (free_region_loop n addr memory_end m)
unfolding free_region_loop
free_region_loop-AllFree kern_end zero addr m ps k below al lo hi fuel =
    subst (λ e. AllFree e m) k (all_freed addr m ps below (omega arith))
free_region_loop-AllFree kern_end (suc n) addr m ps k below al lo hi fuel =
    let step : page_end addr ≡ addr + page_size = omega arith in
    elim (Bool-cases (leb (addr + page_size) memory_end)) [
      | inl more ↦
          let page : IsPage m.kern_end addr = record {
            aligned = al;
            behind_kernel = omega arith;
            below_end = ground arith;
          } in
          rw (step, more)
            (free_region_loop-AllFree kern_end n (addr + page_size) (kfree addr m) (addr ∷ ps)
              (kern_end-kfree addr m ∙ k) (Below-kfree addr m ps below page) (omega arith)
              (omega arith) (ground arith) (omega arith))
      | inr done ↦
          rw (step, done) (subst (λ e. AllFree e m) k (all_freed addr m ps below (ground arith)))
    ]

-- At boot `init_mem` frees exactly the whole pages between the end of the kernel and the end of
-- memory, each once, with no assertion failing.
pub init_mem-AllFree :
    (m : Memory)
    → m.free_head ≡ 0
    → m.halted ≡ false
    → kernel_base ≤ m.kern_end
    → m.kern_end ≤ memory_end
    → AllFree m.kern_end (init_mem m)
unfolding init_mem free_region
init_mem-AllFree m no_page running lo hi =
    free_region_loop-AllFree m.kern_end _ (align_up m.kern_end) m [] refl
      (
        record { chain = no_page; kernel_low = omega arith; running = running },
        λ p. (λ i. cc, λ (page, lt). absurd (nothing p page lt)),
      )
      (omega arith) (omega arith) (omega arith) (omega arith)
  where
    nothing : (p : ℕ) → IsPage m.kern_end p → p < align_up m.kern_end → ⊥
    nothing p page lt = omega arith
