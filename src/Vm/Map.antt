-- ===== src/Vm/Map.antt =====
-- TDT4186 - OS/Labs/Lab3/kernel/vm.c: the loop of mappages as an update of the map from pages to entries.
use ntnu_courses.Base.{
  ℕ, zero, suc, ◌+◌, ◌-◌, ◌*◌, ◌/◌, ◌≤◌, ◌<◌, ◌≡◌, ◌≢◌, refl, sym, ap, ◌∙◌, true, false, not, ◌||◌,
  ◌==◌, ℕ_discrete, ==_ne, ==_refl, arith, ok, ◌>>=◌, >>=-chain,
}
use ntnu_courses.Alloc.{pgsize}
use ntnu_courses.Vm.{
  Vm, pte_v, has, set_flag, pa2pte, vpn, maxva, set_pte, walk, map_at, mappages_from,
}
use ntnu_courses.Vm.Tree.{Own, IsForest}
use ntnu_courses.Vm.Walk.{slot-ne-null}
use ntnu_courses.Vm.View.{
  IsRoot, view, Remaps, SameCounts, Remaps-trans, SameCounts-trans, At, store-Remaps, walk-Remaps,
  view_kept,
}

-- The pages from `page` on, `n` of them, of one root.
abbrev pub Pages : ℕ → ℕ → ℕ → ℕ → ℕ → Type 0
Pages root page n r y = (r ≡ root) × (page ≤ y) × (y < page + n)

-- The entry that mappages stores.
abbrev pub mapping : ℕ → ℕ → ℕ
mapping pa perm = pa2pte pa + set_flag pte_v perm

map_at-ok :
    (a pa perm : ℕ) (s : Vm)
    → a ≢ 0
    → has pte_v (s.pte a) ≡ false
    → map_at a pa perm s ≡ ok (true, set_pte a (mapping pa perm) s)
map_at-ok a pa perm s ne free = rw (==_ne a 0 ne, free) refl

module _ (kernel_end : ℕ) (pos : 0 < kernel_end) (root : ℕ) where
  -- One round of mappages on a page that is not mapped.
  map_one :
      (own : Own) (s : Vm) (va pa perm : ℕ)
      → IsForest own kernel_end s
      → IsRoot own root
      → va < maxva
      → 2 ≤ s.kmem.free_pages
      → has pte_v (view root va s) ≡ false
      → (own' : Own) × (s' : Vm) × ((walk true root va s >>= λ (a, s1). map_at a pa perm s1)
          ≡ ok (true, s'))
        × Remaps kernel_end own own' (At root (vpn 0 va)) s s'
        × SameCounts s s'
        × (view root va s' ≡ mapping pa perm)
        × (s.kmem.free_pages ≤ s'.kmem.free_pages + 2)
  map_one own s va pa perm h e lt some_free unmapped =
      let (a, own', s1, w, g, c, at, here, same, few) =
        walk-Remaps kernel_end own s h root va pos e lt some_free in
      let ne = slot-ne-null own' kernel_end s1 g.forest root va a 0 at in
      let (g2, now) =
        store-Remaps kernel_end own' s1 g.forest root va a (mapping pa perm)
          (g.owners root root 2 0 e) lt at here in
      (
        own',
        set_pte a (mapping pa perm) s1,
        rw w (map_at-ok a pa perm s1 ne (ap (has pte_v) same ∙ unmapped)),
        Remaps-trans kernel_end own own' own' (λ r y. ⊥) (At root (vpn 0 va)) (At root (vpn 0 va)) s
            s1 (set_pte a (mapping pa perm) s1) (λ r y z. absurd z) (λ r y z. z) g g2,
        c,
        now,
        few,
      )

  mappages_next :
      (fuel a last pa perm : ℕ) (s s' : Vm)
      → (walk true root a s >>= λ (p, s1). map_at p pa perm s1) ≡ ok (true, s')
      → a ≢ last
      → mappages_from (suc fuel) root a last pa perm s
        ≡ mappages_from fuel root (a + pgsize) last (pa + pgsize) perm s'
  unfolding mappages_from
  mappages_next fuel a last pa perm s s' e ne =
      >>=-chain (walk true root a s) (λ (p, s1). map_at p pa perm s1)
        (λ (mapped, s2). elim (not mapped || a == last) [
          | true ↦ ok (mapped, s2)
          | false ↦ mappages_from fuel root (a + pgsize) last (pa + pgsize) perm s2
        ])
        (true, s') e
      ∙ rw (==_ne a last ne) refl

  mappages_last :
      (fuel a pa perm : ℕ) (s s' : Vm)
      → (walk true root a s >>= λ (p, s1). map_at p pa perm s1) ≡ ok (true, s')
      → mappages_from (suc fuel) root a a pa perm s ≡ ok (true, s')
  unfolding mappages_from
  mappages_last fuel a pa perm s s' e =
      >>=-chain (walk true root a s) (λ (p, s1). map_at p pa perm s1)
        (λ (mapped, s2). elim (not mapped || a == a) [
          | true ↦ ok (mapped, s2)
          | false ↦ mappages_from fuel root (a + pgsize) a (pa + pgsize) perm s2
        ])
        (true, s') e
      ∙ rw (==_refl a) refl

  first : (a : ℕ) → a + 0 * pgsize ≡ a
  first a = omega arith

  next : (a k : ℕ) → a + pgsize + k * pgsize ≡ a + suc k * pgsize
  next a k = omega arith

  at_first :
      (a pa perm i : ℕ) (s : Vm)
      → i ≡ 0
      → view root a s ≡ mapping pa perm
      → view root (a + i * pgsize) s ≡ mapping (pa + i * pgsize) perm
  at_first a pa perm i s z now = rw (z, first a, first pa) now

  at_next :
      (a pa perm i j : ℕ) (s : Vm)
      → i ≡ suc j
      → view root (a + pgsize + j * pgsize) s ≡ mapping (pa + pgsize + j * pgsize) perm
      → view root (a + i * pgsize) s ≡ mapping (pa + i * pgsize) perm
  at_next a pa perm i j s z now = rw (z, ← next a j, ← next pa j) now

  widen :
      (own own' : Own) (s s' : Vm) (a : ℕ) (P : ℕ → ℕ → Type 0) (k : ℕ)
      → Remaps kernel_end own own' P s s'
      → ((r y : ℕ) → P r y → Pages root (a / pgsize) (suc k) r y)
      → Remaps kernel_end own own' (Pages root (a / pgsize) (suc k)) s s'
  widen own own' s s' a P k g f = record {
    forest = g.forest;
    owners = g.owners;
    outside = λ l p r va e ne. g.outside l p r va e (λ z. ne (f r (vpn 0 va) z));
  }

  -- The run maps the pages of `a` up to the one `k` pages on, and no other.
  abbrev pub Mapped : ℕ → ℕ → ℕ → ℕ → ℕ → Own → Vm → Type 0
  Mapped k fuel a pa perm own s =
      (own' : Own) × (s' : Vm) × (mappages_from fuel root a (a + k * pgsize) pa perm s
        ≡ ok (true, s'))
      × Remaps kernel_end own own' (Pages root (a / pgsize) (suc k)) s s'
      × SameCounts s s'
      × ((i : ℕ) → i ≤ k → view root (a + i * pgsize) s' ≡ mapping (pa + i * pgsize) perm)
      × (s.kmem.free_pages ≤ s'.kmem.free_pages + 2 * suc k)

  pub mappages_from-Mapped :
      (k fuel a pa perm : ℕ) (own : Own) (s : Vm)
      → IsForest own kernel_end s
      → IsRoot own root
      → k < fuel
      → a + k * pgsize < maxva
      → 2 * suc k ≤ s.kmem.free_pages
      → ((i : ℕ) → i ≤ k → has pte_v (view root (a + i * pgsize) s) ≡ false)
      → Mapped k fuel a pa perm own s
  unfolding vpn
  mappages_from-Mapped k zero a pa perm own s h e f lt some_free unmapped =
      absurd (omega (arith, f))
  mappages_from-Mapped zero (suc fuel) a pa perm own s h e f lt some_free unmapped =
      let (own', s', w, g, c, now, few) =
        map_one own s a pa perm h e (omega (arith, lt)) some_free
          (ap (λ z. has pte_v (view root z s)) (sym (first a)) ∙ unmapped 0 (omega arith)) in
      (
        own',
        s',
        ap (λ z. mappages_from (suc fuel) root a z pa perm s) (first a)
            ∙ mappages_last fuel a pa perm s s' w,
        widen own own' s s' a (At root (a / pgsize)) 0 g
            (λ r y (p, q). (p, omega (arith, q), omega (arith, q))),
        c,
        (λ i le. at_first a pa perm i s' (omega (arith, le)) now),
        few,
      )
  mappages_from-Mapped (suc k) (suc fuel) a pa perm own s h e f lt some_free unmapped =
      let (own1, s1, w, g, c, now, few) =
        map_one own s a pa perm h e (omega (arith, lt)) (omega (arith, some_free))
          (ap (λ z. has pte_v (view root z s)) (sym (first a)) ∙ unmapped 0 (omega arith)) in
      let (own', s', w', g', c', now', few') =
        mappages_from-Mapped k fuel (a + pgsize) (pa + pgsize) perm own1 s1 g.forest
          (g.owners root root 2 0 e) (omega (arith, f)) (omega (arith, lt))
          (omega (arith, some_free, few))
          (λ i le.
            ap (has pte_v) (
              view_kept kernel_end own own1 (At root (a / pgsize)) s s1 root
                (a + pgsize + i * pgsize) g e (omega (arith, lt, le)) (λ (p, q). omega (arith, q)))
            ∙ ap (λ z. has pte_v (view root z s)) (next a i)
            ∙ unmapped (suc i) (omega (arith, le))) in
      (
        own',
        s',
        ap (λ z. mappages_from (suc fuel) root a z pa perm s) (sym (next a k))
            ∙ mappages_next fuel a (a + pgsize + k * pgsize) pa perm s s1 w (λ z. omega (arith, z))
            ∙ w',
        Remaps-trans kernel_end own own1 own' (At root (a / pgsize))
            (Pages root ((a + pgsize) / pgsize) (suc k)) (Pages root (a / pgsize) (suc (suc k))) s
            s1 s' (λ r y (p, q). (p, omega (arith, q), omega (arith, q)))
            (λ r y (p, q, z). (p, omega (arith, q), omega (arith, z))) g g',
        SameCounts-trans s s1 s' c c',
        (λ i le. elim (ℕ_discrete i 0) [
          | yes z ↦ at_first a pa perm i s' z (
              view_kept kernel_end own1 own' (Pages root ((a + pgsize) / pgsize) (suc k)) s1 s' root
                a g' (g.owners root root 2 0 e) (omega (arith, lt)) (λ (p, q, x). omega (arith, q))
              ∙ now)
          | no z ↦
              let (j, i_suc) : (j : ℕ) × (i ≡ suc j) = (i - 1, omega (arith, z)) in
              at_next a pa perm i j s' i_suc (now' j (omega (arith, le, i_suc)))
        ]),
        omega (arith, few, few'),
      )
