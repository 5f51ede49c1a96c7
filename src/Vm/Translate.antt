-- ===== src/Vm/Translate.antt =====
-- TDT4186 - OS/Labs/Lab3/kernel/vm.c: what mappages and uvmunmap mean for walkaddr.
use ntnu_courses.Base.{
  ℕ, suc, ◌+◌, ◌-◌, ◌*◌, ◌/◌, ◌%◌, ◌^◌, ◌≤◌, ◌<◌, ◌≡◌, ◌≢◌, ◌⊎◌, refl, sym, ap, ◌∙◌, subst, inl,
  inr, true, false, not, ◌==◌, arith, dec_lt, dec_le, ℕ_discrete, lt→ltb, ltb-eq-false, Result, ok,
  ◌>>=◌, panic_if,
}
use ntnu_courses.Alloc.{pgsize}
use ntnu_courses.Vm.{
  Vm, pte_v, pte_u, has, set_flag, maxva, walkaddr, mappages, uvmunmap, unmap_from,
}
use ntnu_courses.Vm.Tree.{Own, IsForest}
use ntnu_courses.Vm.View.{IsRoot, view, Remaps, Remaps-trans, view_kept}
use ntnu_courses.Vm.Map.{mapping, Pages}
use ntnu_courses.Vm.Mapped.{mappages_lem, Range}
use ntnu_courses.Vm.Unmap.{IsMapping, unmap_from-Unmapped}
use ntnu_courses.Vm.Addr.{user_page, walkaddr-view, view_page}

module _ (kernel_end : ℕ) where
  -- Outside the changed pages walkaddr answers as before.
  walkaddr_kept :
      (own own' : Own) (P : ℕ → ℕ → Type 0) (s s' : Vm) (r w : ℕ)
      → IsForest own kernel_end s
      → IsRoot own r
      → Remaps kernel_end own own' P s s'
      → (w < maxva → user_page (view r w s') ≡ user_page (view r w s))
      → walkaddr r w s' ≡ walkaddr r w s
  walkaddr_kept own own' P s s' r w h e g same =
      walkaddr-view kernel_end r w own' s' g.forest (g.owners r r 2 0 e)
      ∙ ap ok (elim (dec_lt w maxva) [
        | yes lt ↦ rw (lt→ltb w maxva lt) (same lt)
        | no ge ↦ rw (ltb-eq-false w maxva (omega (arith, ge))) refl
      ])
      ∙ sym (walkaddr-view kernel_end r w own s h e)

  page_kept :
      (own own' : Own) (P : ℕ → ℕ → Type 0) (s s' : Vm) (r w : ℕ)
      → IsRoot own r
      → Remaps kernel_end own own' P s s'
      → ¬ P r (w / pgsize)
      → w < maxva
      → user_page (view r w s') ≡ user_page (view r w s)
  page_kept own own' P s s' r w e g ne lt =
      ap user_page (view_kept kernel_end own own' P s s' r w g e lt ne)

  set_valid : (perm : ℕ) → has pte_v (set_flag pte_v perm) ≡ true
  set_valid perm = ground arith

  set_user : (perm : ℕ) → has pte_u perm ≡ true → has pte_u (set_flag pte_v perm) ≡ true
  set_user perm user = ground (arith, user)

  mapping_page :
      (pa perm : ℕ)
      → pa < 2 ^ 56
      → perm < 1024
      → has pte_u perm ≡ true
      → user_page (mapping pa perm) ≡ pa / pgsize * pgsize
  mapping_page pa perm small flags user =
      let f : ℕ = set_flag pte_v perm in
      let low : f < 1024 = ground (arith, flags) in
      let v : has pte_v (mapping pa perm) ≡ true =
        ap (λ z. z == 1) (omega arith) ∙ set_valid perm in
      let u : has pte_u (mapping pa perm) ≡ true =
        ap (λ z. z == 1) (omega arith) ∙ set_user perm user in
      rw (v, u) (omega (arith, low, small))

  -- After mappages has mapped a range with PTE_U, walkaddr takes each address of it to the page as far
  -- behind pa's, and every other address of every page table to where it took it before.
  pub walkaddr-mappages :
      (own : Own) (s : Vm) (root va size pa perm : ℕ)
      → 0 < kernel_end
      → IsForest own kernel_end s
      → IsRoot own root
      → 0 < size
      → va + size ≤ maxva
      → 2 * suc ((va + size - 1) / pgsize - va / pgsize) ≤ s.kmem.free_pages
      → ((y : ℕ)
          → va / pgsize ≤ y
          → y ≤ (va + size - 1) / pgsize
          → has pte_v (view root (y * pgsize) s) ≡ false)
      → pa + size + pgsize ≤ 2 ^ 56
      → perm < 1024
      → has pte_u perm ≡ true
      → (s' : Vm) × (mappages root va size pa perm s ≡ ok (true, s'))
        × ((w : ℕ)
            → va / pgsize ≤ w / pgsize
            → w / pgsize ≤ (va + size - 1) / pgsize
            → walkaddr root w s' ≡ ok ((pa / pgsize + (w / pgsize - va / pgsize)) * pgsize))
        × ((r w : ℕ)
            → IsRoot own r
            → ¬ Range root va size r (w / pgsize)
            → walkaddr r w s' ≡ walkaddr r w s)
  walkaddr-mappages own s root va size pa perm pos h e nonempty bound room unmapped small flags
        user =
      let (own', s', run, g, c, now, few) =
        mappages_lem kernel_end pos root own s va size pa perm h e nonempty bound room unmapped in
      (
        s',
        run,
        (λ w lo hi.
            let lt : w < maxva = omega (arith, hi, bound, nonempty) in
            walkaddr-view kernel_end root w own' s' g.forest (g.owners root root 2 0 e)
            ∙ ap ok (
                rw (lt→ltb w maxva lt) (
                  ap user_page (view_page root w s' ∙ now (w / pgsize) lo hi)
                  ∙ mapping_page (pa + (w / pgsize - va / pgsize) * pgsize) perm
                      (omega (arith, hi, small, nonempty)) flags user
                  ∙ omega arith))),
        (λ r w er ne.
            walkaddr_kept own own' (Range root va size) s s' r w h er g
              (page_kept own own' (Range root va size) s s' r w er g ne)),
      )

  unmap_run :
      (root va n : ℕ) (s : Vm)
      → va % pgsize ≡ 0
      → uvmunmap kernel_end root va n false s ≡ unmap_from kernel_end false n root va s
  unfolding uvmunmap
  unmap_run root va n s a = aligned_run (unmap_from kernel_end false n root va s)
    where
      aligned_run :
          (r : Result Vm)
          → (panic_if (not (va % pgsize == 0)) "uvmunmap: not aligned" >>= (λ done. r)) ≡ r
      aligned_run r = ground (arith, a)

  in-Range : (root va size r y : ℕ) → Range root va size r y ⊎ ¬ Range root va size r y
  in-Range root va size r y = elim (ℕ_discrete r root) [
    | no off ↦ inr (λ (p, lo, hi). off p)
    | yes same ↦ elim (dec_le (va / pgsize) y) [
      | no off ↦ inr (λ (p, lo, hi). off lo)
      | yes lo ↦ elim (dec_le y ((va + size - 1) / pgsize)) [
        | no off ↦ inr (λ (p, lo, hi). off hi)
        | yes hi ↦ inl (same, lo, hi)
      ]
    ]
  ]

  no_page : (pte : ℕ) → has pte_v pte ≡ false → user_page pte ≡ 0
  no_page pte h = rw h refl

  mapping-IsMapping :
      (pa perm : ℕ) → perm < 1024 → has pte_u perm ≡ true → IsMapping (mapping pa perm)
  mapping-IsMapping pa perm flags user =
      let f : ℕ = set_flag pte_v perm in
      let low : f < 1024 = ground (arith, flags) in
      let u : has pte_u f ≡ true = set_user perm user in
      record {
        valid = ap (λ z. z == 1) (omega arith) ∙ set_valid perm;
        not_table = λ z. user_only f u (omega (arith, z, low));
      }
    where
      user_only : (f : ℕ) → has pte_u f ≡ true → f ≢ pte_v
      user_only f u z = ground (arith, u, z)

  -- uvmunmap, without freeing, of the pages that mappages mapped for the user where nothing was mapped
  -- takes walkaddr back, at every address of every page table, to what it was.
  pub uvmunmap-mappages :
      (own : Own) (s : Vm) (root va n pa perm : ℕ)
      → 0 < kernel_end
      → IsForest own kernel_end s
      → IsRoot own root
      → va % pgsize ≡ 0
      → va + suc n * pgsize ≤ maxva
      → 2 * suc n ≤ s.kmem.free_pages
      → ((y : ℕ)
          → va / pgsize ≤ y
          → y ≤ va / pgsize + n
          → has pte_v (view root (y * pgsize) s) ≡ false)
      → perm < 1024
      → has pte_u perm ≡ true
      → (s' : Vm) × (s'' : Vm) × (mappages root va (suc n * pgsize) pa perm s ≡ ok (true, s'))
        × (uvmunmap kernel_end root va (suc n) false s' ≡ ok s'')
        × ((r w : ℕ) → IsRoot own r → walkaddr r w s'' ≡ walkaddr r w s)
  uvmunmap-mappages own s root va n pa perm pos h e a bound room unmapped flags user =
      let size : ℕ = suc n * pgsize in
      let (own', s', run, g, c, now, few) =
        mappages_lem kernel_end pos root own s va size pa perm h e (omega arith) bound
          (omega (arith, room, a)) (λ y lo hi. unmapped y lo (omega (arith, hi, a))) in
      let (s'', run', g', now', same) =
        unmap_from-Unmapped kernel_end root (suc n) va own' s' g.forest (g.owners root root 2 0 e)
          bound
          (λ i lt.
            subst IsMapping
              (sym (
                ap (λ z. view root z s') (omega (arith, a))
                ∙ now (va / pgsize + i) (omega arith) (omega (arith, lt, a))))
              (mapping-IsMapping (pa + (va / pgsize + i - va / pgsize) * pgsize) perm flags
                user)) in
      (
        s',
        s'',
        run,
        unmap_run root va (suc n) s' a ∙ run',
        (λ r w er.
            walkaddr_kept own own' (Range root va size) s s'' r w h er
              (Remaps-trans kernel_end own own' own' (Range root va size)
                (Pages root (va / pgsize) (suc n)) (Range root va size) s s' s'' (λ q y z. z)
                (λ q y (p, lo, hi). (p, lo, omega (arith, hi, a))) g g')
              (λ lt. elim (in-Range root va size r (w / pgsize)) [
                | inr out ↦
                    page_kept own own' (Range root va size) s s'' r w er
                      (Remaps-trans kernel_end own own' own' (Range root va size)
                        (Pages root (va / pgsize) (suc n)) (Range root va size) s s' s''
                        (λ q y z. z) (λ q y (p, lo, hi). (p, lo, omega (arith, hi, a))) g g')
                      out lt
                | inl (p, lo, hi) ↦
                    ap (λ q. user_page (view q w s'')) p
                    ∙ ap user_page (
                        view_page root w s''
                        ∙ ap (λ z. view root z s'') (omega (arith, a, lo))
                        ∙ now' (w / pgsize - va / pgsize) (omega (arith, lo, hi, a)))
                    ∙ sym (
                        ap (λ q. user_page (view q w s)) p
                        ∙ ap user_page (view_page root w s)
                        ∙ no_page (view root (w / pgsize * pgsize) s)
                            (unmapped (w / pgsize) lo (omega (arith, hi, a))))
              ])),
      )
