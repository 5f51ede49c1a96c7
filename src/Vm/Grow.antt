-- ===== src/Vm/Grow.antt =====
-- TDT4186 - OS/Labs/Lab3/kernel/vm.c: walk with `alloc`, that makes the tables on its way.
use ntnu_courses.Base.{
  ℕ, zero, suc, ◌+◌, ◌*◌, ◌≤◌, ◌<◌, ◌≡◌, ◌≢◌, refl, sym, ap, ◌∙◌, subst, inl, inr, true, false,
  none, some, ◌==◌, update, update_ne, update_self, All, Bool-cases, ==_ne, arith, ◌∷◌, ok, length,
}
use ntnu_courses.Alloc.{Kmem, kalloc, pa_to_idx}
use ntnu_courses.Alloc.Inv.{IsValid, IsPage, kalloc-IsValid, kalloc_counts}
use ntnu_courses.Vm.{Vm, pte_v, has, pte2pa, vpn, px, entry, new_table, walk_from}
use ntnu_courses.Vm.Tree.{
  Own, leaf, IsTable, IsForest, px-lt, vpn-px, leaf-grown, grown-IsForest, kept, new_entry,
  new_valid, new_pa,
}
use ntnu_courses.Vm.Walk.{slot, slot_down, IsSlot, child_owner}

-- What a walk with alloc may do: more tables, the same leaves and valid entries, and no page's count
-- changed but of pages that were free.
pub record Grows (kernel_end : ℕ) (own own' : Own) (s s' : Vm) : Type 0 where
  pub forest : IsForest own' kernel_end s'
  pub owners : (p r l x : ℕ) → own p ≡ some (r, l, x) → own' p ≡ some (r, l, x)
  pub leaves : (l p r x va : ℕ) → own p ≡ some (r, l, x) → leaf l p va s'.pte ≡ leaf l p va s.pte
  pub entries :
      (p r l x j : ℕ)
      → own p ≡ some (r, l, x)
      → j < 512
      → has pte_v (s.pte (p + 8 * j)) ≡ true
      → s'.pte (p + 8 * j) ≡ s.pte (p + 8 * j)
  pub counts :
      (k : ℕ)
      → All (λ y. pa_to_idx y ≢ k) s.kmem.freelist
      → All (λ y. pa_to_idx y ≢ k) s'.kmem.freelist × (s'.kmem.refcounts k ≡ s.kmem.refcounts k)

pub Grows-refl :
    (kernel_end : ℕ) (own : Own) (s : Vm) → IsForest own kernel_end s → Grows kernel_end own own s s
Grows-refl kernel_end own s h = record {
  forest = h;
  owners = λ p r l x e. e;
  leaves = λ l p r x va e. refl;
  entries = λ p r l x j e lt v. refl;
  counts = λ k a. (a, refl);
}

pub Grows-trans :
    (kernel_end : ℕ) (o1 o2 o3 : Own) (s1 s2 s3 : Vm)
    → Grows kernel_end o1 o2 s1 s2
    → Grows kernel_end o2 o3 s2 s3
    → Grows kernel_end o1 o3 s1 s3
Grows-trans kernel_end o1 o2 o3 s1 s2 s3 g k = record {
  forest = k.forest;
  owners = λ p r l x e. k.owners p r l x (g.owners p r l x e);
  leaves = λ l p r x va e. k.leaves l p r x va (g.owners p r l x e) ∙ g.leaves l p r x va e;
  entries = λ p r l x j e lt v.
      let same = g.entries p r l x j e lt v in
      k.entries p r l x j (g.owners p r l x e) lt (ap (has pte_v) same ∙ v) ∙ same;
  counts = λ i a. let (b, e) = g.counts i a in let (c, f) = k.counts i b in (c, f ∙ e);
}

IsTable-page : (kernel_end p : ℕ) → 0 < kernel_end → IsPage kernel_end p → IsTable p
IsTable-page kernel_end p pos page = record {
  aligned = page.aligned;
  some_page = omega (arith, page.above);
  below = omega (arith, page.below);
}

module _ (kernel_end : ℕ) (pos : 0 < kernel_end) where
  module _ (own : Own) (s : Vm) (h : IsForest own kernel_end s) (q r l x i : ℕ)
      (at_q : own q ≡ some (r, suc l, x)) (small : i < 512)
      (missing : has pte_v (s.pte (q + 8 * i)) ≡ false) where
    grown_Grows :
        (n : ℕ) (kmem : Kmem)
        → kalloc s.kmem ≡ ok (n, kmem)
        → IsPage kernel_end n
        → IsValid kernel_end kmem
        → s.kmem.freelist ≡ n ∷ kmem.freelist
        → All (λ y. n ≢ y) kmem.freelist
        → (new : own n ≡ none) → All (λ y. own y ≡ none) kmem.freelist
        → Grows kernel_end own
            (update own n (some (r, l, x * 512 + i)))
            s
            (new_table (q + 8 * i) n (record s { kmem = kmem }))
    grown_Grows n kmem e page v list apart new rest =
        let t = IsTable-page kernel_end n pos page in
        record {
          forest =
              grown-IsForest own kernel_end s h q r l x i n at_q small missing t new kmem v rest
                apart;
          owners = λ p r' l' x' o.
              update_ne own n p (some (r, l, x * 512 + i))
                (λ z. owned_apart p r' l' x' o (ap own (sym z) ∙ new))
              ∙ o;
          leaves = λ l' p r' x' va o.
              leaf-grown own kernel_end s h q r l x i n at_q small missing t new l' p r' x' va o;
          entries = λ p r' l' x' j o lt valid.
              kept own kernel_end s h q r l x i n at_q small missing t new p r' l' x' j o lt
                (λ (a, b). ground (arith, a, b, valid, missing));
          counts = λ k a. kalloc_counts kernel_end s.kmem kmem n k e a;
        }
      where
        owned_apart : (p r' l' x' : ℕ) → own p ≡ some (r', l', x') → ¬ (own p ≡ none)
        owned_apart p r' l' x' o z = cc

    -- A missing table is made from a free page.
    grow_lem :
        0 < s.kmem.free_pages
        → (n : ℕ) × (kmem : Kmem) × (kalloc s.kmem ≡ ok (n, kmem))
          × ((n == 0) ≡ false)
          × (kmem.free_pages + 1 ≡ s.kmem.free_pages)
          × Grows kernel_end own
              (update own n (some (r, l, x * 512 + i)))
              s
              (new_table (q + 8 * i) n (record s { kmem = kmem }))
          × (pte2pa ((new_table (q + 8 * i) n (record s { kmem = kmem })).pte (q + 8 * i)) ≡ n)
          × (has pte_v ((new_table (q + 8 * i) n (record s { kmem = kmem })).pte (q + 8 * i))
              ≡ true)
    grow_lem some_free =
        let (n, kmem, e, page, v, list, apart, one) =
          kalloc-IsValid kernel_end s.kmem h.valid some_free in
        let (new, rest) : (own n ≡ none) × All (λ y. own y ≡ none) kmem.freelist =
          subst (All (λ y. own y ≡ none)) list h.free in
        let t = IsTable-page kernel_end n pos page in
        (
          n,
          kmem,
          e,
          ==_ne n 0 (omega (arith, t.some_page)),
          omega (arith, v.counted, h.valid.counted, ap length list),
          grown_Grows n kmem e page v list apart new rest,
          ap pte2pa (new_entry own kernel_end s h q r l x i n at_q small missing t new)
              ∙ new_pa own kernel_end s h q r l x i n at_q small missing t new,
          ap (has pte_v) (new_entry own kernel_end s h q r l x i n at_q small missing t new)
              ∙ new_valid own kernel_end s h q r l x i n at_q small missing t new,
        )

  -- Walk with alloc finds the slot, in tables that have grown by at most a page for each level.
  abbrev pub Finds : ℕ → ℕ → ℕ → ℕ → Own → Vm → Type 0
  Finds l p r va own s =
      (own' : Own) × (s' : Vm) × (walk_from true l p va s ≡ ok (slot l p va s'.pte, s'))
      × Grows kernel_end own own' s s'
      × IsSlot own' r va (slot l p va s'.pte)
      × (s.kmem.free_pages ≤ s'.kmem.free_pages + l)

  walk_down :
      (l p va : ℕ) (s : Vm)
      → has pte_v (s.pte (entry p (suc l) va)) ≡ true
      → walk_from true (suc l) p va s ≡ walk_from true l (pte2pa (s.pte (entry p (suc l) va))) va s
  unfolding walk_from
  walk_down l p va s valid = rw valid refl

  walk_new :
      (l p va n : ℕ) (s : Vm) (kmem : Kmem)
      → has pte_v (s.pte (entry p (suc l) va)) ≡ false
      → kalloc s.kmem ≡ ok (n, kmem)
      → (n == 0) ≡ false
      → walk_from true (suc l) p va s
        ≡ walk_from true l n va (new_table (entry p (suc l) va) n (record s { kmem = kmem }))
  unfolding walk_from
  walk_new l p va n s kmem missing e ne = rw (missing, e) (grind (arith, ne))

  -- The slot by the entry of the level above.
  Finds-up :
      (l p c r va : ℕ) (own own' : Own) (s s' : Vm)
      → walk_from true (suc l) p va s ≡ ok (slot l c va s'.pte, s')
      → Grows kernel_end own own' s s'
      → IsSlot own' r va (slot l c va s'.pte)
      → s.kmem.free_pages ≤ s'.kmem.free_pages + suc l
      → has pte_v (s'.pte (entry p (suc l) va)) ≡ true
      → pte2pa (s'.pte (entry p (suc l) va)) ≡ c
      → Finds (suc l) p r va own s
  Finds-up l p c r va own own' s s' w g at few valid here =
      let down = slot_down l p va s'.pte valid ∙ ap (λ z. slot l z va s'.pte) here in
      (
        own',
        s',
        w ∙ ap (λ z. ok (z, s')) (sym down),
        g,
        subst (IsSlot own' r va) (sym down) at,
        few,
      )

  pub walk_from-Grows :
      (l p r va : ℕ) (own : Own) (s : Vm)
      → IsForest own kernel_end s
      → own p ≡ some (r, l, vpn (suc l) va)
      → l ≤ s.kmem.free_pages
      → Finds l p r va own s
  unfolding walk_from slot
  walk_from-Grows zero p r va own s h e some_free = (
    own,
    s,
    refl,
    Grows-refl kernel_end own s h,
    record { table = p; owner = e; address = refl },
    omega arith,
  )
  walk_from-Grows (suc l) p r va own s h e some_free =
      elim (Bool-cases (has pte_v (s.pte (entry p (suc l) va)))) [
        | inl valid ↦
            let c : ℕ = pte2pa (s.pte (entry p (suc l) va)) in
            let (own', s', w, g, at, few) =
              walk_from-Grows l c r va own s h (child_owner own kernel_end s h p r l va e valid)
                (omega (arith, some_free)) in
            let same =
              g.entries p r (suc l) (vpn (suc (suc l)) va) (px (suc l) va) e (px-lt (suc l) va)
                valid in
            Finds-up l p c r va own own' s s' (walk_down l p va s valid ∙ w) g at
              (omega (arith, few)) (ap (has pte_v) same ∙ valid) (ap pte2pa same)
        | inr missing ↦
            let x : ℕ = vpn (suc (suc l)) va in
            let i : ℕ = px (suc l) va in
            let (n, kmem, k, ne, spent, g1, leads, valid) =
              grow_lem own s h p r l x i e (px-lt (suc l) va) missing (omega (arith, some_free)) in
            let own1 : Own = update own n (some (r, l, x * 512 + i)) in
            let s1 : Vm = new_table (entry p (suc l) va) n (record s { kmem = kmem }) in
            let at_n : own1 n ≡ some (r, l, vpn (suc l) va) =
              update_self own n (some (r, l, x * 512 + i))
              ∙ ap (λ z. some (r, l, z)) (vpn-px (suc l) va) in
            let (own', s', w, g2, at, few) =
              walk_from-Grows l n r va own1 s1 g1.forest at_n (omega (arith, some_free, spent)) in
            let same =
              g2.entries p r (suc l) x i (g1.owners p r (suc l) x e) (px-lt (suc l) va) valid in
            Finds-up l p n r va own own' s s' (walk_new l p va n s kmem missing k ne ∙ w)
              (Grows-trans kernel_end own own1 own' s s1 s' g1 g2) at (omega (arith, few, spent))
              (ap (has pte_v) same ∙ valid) (ap pte2pa same ∙ leads)
      ]
