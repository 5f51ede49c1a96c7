-- ===== src/Vm/Mapped.antt =====
-- TDT4186 - OS/Labs/Lab3/kernel/vm.c: mappages as an update of the map from pages to entries.
use ntnu_courses.Base.{
  ℕ, suc, ◌+◌, ◌-◌, ◌*◌, ◌/◌, ◌≤◌, ◌<◌, ◌≡◌, ap, ◌∙◌, Bool, true, false, ◌==◌, arith, Result, ok,
  ◌>>=◌, panic_if,
}
use ntnu_courses.Alloc.{pgsize, u64, pg_round_down}
use ntnu_courses.Vm.{Vm, pte_v, has, maxva, mappages, mappages_from}
use ntnu_courses.Vm.Tree.{Own, IsForest}
use ntnu_courses.Vm.View.{IsRoot, view, Remaps, SameCounts}
use ntnu_courses.Vm.Map.{mapping, mappages_from-Mapped}

-- The pages of a range of addresses of one root.
abbrev pub Range : ℕ → ℕ → ℕ → ℕ → ℕ → Type 0
Range root va size r y = (r ≡ root) × (va / pgsize ≤ y) × (y ≤ (va + size - 1) / pgsize)

module _ (kernel_end : ℕ) (pos : 0 < kernel_end) (root : ℕ) where
  mappages_run :
      (va size pa perm : ℕ) (s : Vm)
      → 0 < size
      → va + size ≤ maxva
      → mappages root va size pa perm s
        ≡ mappages_from
            (size / pgsize + 2)
            root
            (pg_round_down va)
            (pg_round_down va + ((va + size - 1) / pgsize - va / pgsize) * pgsize)
            pa
            perm
            s
  unfolding mappages
  mappages_run va size pa perm s nonempty bound =
      sized (
        mappages_from (size / pgsize + 2) root (pg_round_down va)
          (pg_round_down (u64 (va + size - 1))) pa perm s)
      ∙ ap (λ z. mappages_from (size / pgsize + 2) root (pg_round_down va) z pa perm s)
          (omega (arith, nonempty, bound))
    where
      sized : (r : Result (Bool × Vm)) → (panic_if (size == 0) "mappages: size" >>= (λ done. r)) ≡ r
      sized r = ground (arith, nonempty)

  -- On a range below MAXVA of which no page is mapped, with two free pages for each page of it,
  -- mappages returns 0, maps each page of the range to the page as far behind pa with the flags and
  -- PTE_V, and changes the entry of no other address of any page table and no count of a page in use.
  pub mappages_lem :
      (own : Own) (s : Vm) (va size pa perm : ℕ)
      → IsForest own kernel_end s
      → IsRoot own root
      → 0 < size
      → va + size ≤ maxva
      → 2 * suc ((va + size - 1) / pgsize - va / pgsize) ≤ s.kmem.free_pages
      → ((y : ℕ)
          → va / pgsize ≤ y
          → y ≤ (va + size - 1) / pgsize
          → has pte_v (view root (y * pgsize) s) ≡ false)
      → (own' : Own) × (s' : Vm) × (mappages root va size pa perm s ≡ ok (true, s'))
        × Remaps kernel_end own own' (Range root va size) s s'
        × SameCounts s s'
        × ((y : ℕ)
            → va / pgsize ≤ y
            → y ≤ (va + size - 1) / pgsize
            → view root (y * pgsize) s' ≡ mapping (pa + (y - va / pgsize) * pgsize) perm)
        × (s.kmem.free_pages
            ≤ s'.kmem.free_pages + 2 * suc ((va + size - 1) / pgsize - va / pgsize))
  mappages_lem own s va size pa perm h e nonempty bound room unmapped =
      let k : ℕ = (va + size - 1) / pgsize - va / pgsize in
      let a : ℕ = pg_round_down va in
      let (own', s', w, g, c, now, few) =
        mappages_from-Mapped kernel_end pos root k (size / pgsize + 2) a pa perm own s h e
          (omega (arith, nonempty)) (omega (arith, bound, nonempty)) room
          (λ i le.
            ap (λ z. has pte_v (view root z s)) (omega arith)
            ∙ unmapped (va / pgsize + i) (omega arith) (omega (arith, le, nonempty))) in
      (
        own',
        s',
        mappages_run va size pa perm s nonempty bound ∙ w,
        record {
          forest = g.forest;
          owners = g.owners;
          outside = λ l p r x o ne.
              g.outside l p r x o (λ (z, y1, y2). ne (z, omega (arith, y1), omega (arith, y2)));
        },
        c,
        (λ y lo hi.
            ap (λ z. view root z s') (omega (arith, lo))
            ∙ now (y - va / pgsize) (omega (arith, lo, hi))),
        few,
      )
