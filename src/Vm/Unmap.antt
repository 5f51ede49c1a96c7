-- ===== src/Vm/Unmap.antt =====
-- TDT4186 - OS/Labs/Lab3/kernel/vm.c: uvmunmap as an update of the map from pages to entries.
use ntnu_courses.Base.{
  ℕ, zero, suc, ◌+◌, ◌-◌, ◌*◌, ◌/◌, ◌≤◌, ◌<◌, ◌≡◌, ◌≢◌, refl, sym, ap, ◌∙◌, subst, true, false,
  ℕ_discrete, ==_ne, arith, ok, ◌>>=◌, >>=-chain,
}
use ntnu_courses.Alloc.{pgsize}
use ntnu_courses.Vm.{Vm, pte_v, has, vpn, maxva, set_pte, walk, pte_flags, unmap_at, unmap_from}
use ntnu_courses.Vm.Tree.{Own, IsForest}
use ntnu_courses.Vm.Walk.{slot-ne-null}
use ntnu_courses.Vm.View.{
  IsRoot, view, Remaps, Remaps-trans, At, walk-view, store-Remaps, view_kept,
}
use ntnu_courses.Vm.Map.{Pages}

-- The entry of a page of memory, not of a table of a lower level.
pub record IsMapping (pte : ℕ) : Type 0 where
  pub valid : has pte_v pte ≡ true
  pub not_table : pte_flags pte ≢ pte_v

module _ (kernel_end : ℕ) (root : ℕ) where
  unmap_at-ok :
      (a : ℕ) (s : Vm)
      → a ≢ 0
      → IsMapping (s.pte a)
      → unmap_at kernel_end false a s ≡ ok (set_pte a 0 s)
  unfolding unmap_at
  unmap_at-ok a s ne m =
      rw (==_ne a 0 ne, m.valid, ==_ne (pte_flags (s.pte a)) pte_v m.not_table) refl

  -- One round of uvmunmap on a mapped page.
  unmap_one :
      (own : Own) (s : Vm) (va : ℕ)
      → IsForest own kernel_end s
      → IsRoot own root
      → va < maxva
      → IsMapping (view root va s)
      → (s' : Vm) × ((walk false root va s >>= λ (a, s1). unmap_at kernel_end false a s1) ≡ ok s')
        × Remaps kernel_end own own (At root (vpn 0 va)) s s'
        × (view root va s' ≡ 0)
        × (s'.kmem ≡ s.kmem)
  unmap_one own s va h e lt m =
      let (a, w, at, here, same) = walk-view kernel_end own s h root va e lt m.valid in
      let ne = slot-ne-null own kernel_end s h root va a 0 at in
      let (g, now) = store-Remaps kernel_end own s h root va a 0 e lt at here in
      (set_pte a 0 s, rw w (unmap_at-ok a s ne (subst IsMapping (sym same) m)), g, now, refl)

  -- The run of uvmunmap without freeing.
  abbrev pub Unmapped : ℕ → ℕ → Own → Vm → Type 0
  Unmapped n va own s =
      (s' : Vm) × (unmap_from kernel_end false n root va s ≡ ok s')
      × Remaps kernel_end own own (Pages root (va / pgsize) n) s s'
      × ((i : ℕ) → i < n → view root (va + i * pgsize) s' ≡ 0)
      × (s'.kmem ≡ s.kmem)

  pub unmap_from-Unmapped :
      (n va : ℕ) (own : Own) (s : Vm)
      → IsForest own kernel_end s
      → IsRoot own root
      → va + n * pgsize ≤ maxva
      → ((i : ℕ) → i < n → IsMapping (view root (va + i * pgsize) s))
      → Unmapped n va own s
  unfolding unmap_from vpn
  unmap_from-Unmapped zero va own s h e lt mapped = (
    s,
    refl,
    record { forest = h; owners = λ p r l x o. o; outside = λ l p r x o ne. refl },
    λ i le. absurd (omega (arith, le)),
    refl,
  )
  unmap_from-Unmapped (suc n) va own s h e lt mapped =
      let (s1, w, g, now, same) =
        unmap_one own s va h e (omega (arith, lt))
          (subst (λ z. IsMapping (view root z s)) (omega arith) (mapped 0 (omega arith))) in
      let (s', w', g', now', same') =
        unmap_from-Unmapped n (va + pgsize) own s1 g.forest e (omega (arith, lt)) (λ i le.
          subst IsMapping
            (ap (λ z. view root z s) (sym (omega arith))
              ∙ sym (
                  view_kept kernel_end own own (At root (va / pgsize)) s s1 root
                    (va + pgsize + i * pgsize) g e (omega (arith, lt, le))
                    (λ (p, q). omega (arith, q))))
            (mapped (suc i) (omega (arith, le)))) in
      (
        s',
        >>=-chain (walk false root va s) (λ (a, s2). unmap_at kernel_end false a s2)
              (λ s2. unmap_from kernel_end false n root (va + pgsize) s2) s1 w
            ∙ w',
        Remaps-trans kernel_end own own own (At root (va / pgsize))
            (Pages root ((va + pgsize) / pgsize) n) (Pages root (va / pgsize) (suc n)) s s1 s'
            (λ r y (p, q). (p, omega (arith, q), omega (arith, q)))
            (λ r y (p, q, z). (p, omega (arith, q), omega (arith, z))) g g',
        (λ i le. elim (ℕ_discrete i 0) [
          | yes z ↦ at_zero va i s' z (
              view_kept kernel_end own own (Pages root ((va + pgsize) / pgsize) n) s1 s' root va g'
                e (omega (arith, lt)) (λ (p, q, x). omega (arith, q))
              ∙ now)
          | no z ↦ at_suc va i (i - 1) s' (omega (arith, z)) (now' (i - 1) (omega (arith, le, z)))
        ]),
        same' ∙ same,
      )
    where
      at_zero : (va i : ℕ) (s : Vm) → i ≡ 0 → view root va s ≡ 0 → view root (va + i * pgsize) s ≡ 0
      at_zero va i s z now = ap (λ y. view root y s) (omega (arith, z)) ∙ now

      at_suc :
          (va i j : ℕ) (s : Vm)
          → i ≡ suc j
          → view root (va + pgsize + j * pgsize) s ≡ 0
          → view root (va + i * pgsize) s ≡ 0
      at_suc va i j s z now = ap (λ y. view root y s) (omega (arith, z)) ∙ now
