-- ===== src/Vm/View.antt =====
-- TDT4186 - OS/Labs/Lab3/kernel/vm.c: a table tree as a map from pages to entries, and one entry of it
-- found, made and stored.
use ntnu_courses.Base.{
  ℕ, suc, ◌+◌, ◌/◌, ◌≤◌, ◌<◌, ◌≡◌, ◌≢◌, refl, sym, ap, ◌∙◌, inl, inr, Bool, true, false, none, some,
  leb, All, arith, Result, ok, ◌>>=◌, panic_if, length,
}
use ntnu_courses.Alloc.{Kmem, pa_to_idx}
use ntnu_courses.Alloc.Inv.{IsValid}
use ntnu_courses.Vm.{Vm, pte_v, has, vpn, set_pte, walk, walk_from, maxva}
use ntnu_courses.Vm.Tree.{Own, leaf, IsForest}
use ntnu_courses.Vm.Walk.{
  slot, IsSlot, slot-leaf, slot-ne-null, store-leaf, store-leaf_other, store-IsForest,
  walk_from-slot,
}
use ntnu_courses.Vm.Grow.{walk_from-Grows}

-- The root of a table tree.
abbrev pub IsRoot : Own → ℕ → Type 0
IsRoot own root = own root ≡ some (root, 2, 0)

-- The entry for an address in the tree of a root.
abbrev pub view : ℕ → ℕ → Vm → ℕ
view root va s = leaf 2 root va s.pte

pub root_owner :
    (own : Own) (root va : ℕ) → IsRoot own root → va < maxva → own root ≡ some (root, 2, vpn 3 va)
unfolding vpn
root_owner own root va e lt = e ∙ ap (λ x. some (root, 2, x)) (omega (arith, lt))

-- From `s` to `s'` the trees grew, and changed at most the pages of the roots that `P` holds of.
pub record Remaps (kernel_end : ℕ) (own own' : Own) (P : ℕ → ℕ → Type 0) (s s' : Vm) : Type 0 where
  pub forest : IsForest own' kernel_end s'
  pub owners : (p r l x : ℕ) → own p ≡ some (r, l, x) → own' p ≡ some (r, l, x)
  pub outside :
      (l p r va : ℕ)
      → own p ≡ some (r, l, vpn (suc l) va)
      → ¬ P r (vpn 0 va)
      → leaf l p va s'.pte ≡ leaf l p va s.pte

-- The counts of the pages that were not free are as they were.
abbrev pub SameCounts : Vm → Vm → Type 0
SameCounts s s' =
    (k : ℕ)
    → All (λ y. pa_to_idx y ≢ k) s.kmem.freelist
    → All (λ y. pa_to_idx y ≢ k) s'.kmem.freelist × (s'.kmem.refcounts k ≡ s.kmem.refcounts k)

pub Remaps-trans :
    (kernel_end : ℕ) (o1 o2 o3 : Own) (P Q R : ℕ → ℕ → Type 0) (s1 s2 s3 : Vm)
    → ((r y : ℕ) → P r y → R r y)
    → ((r y : ℕ) → Q r y → R r y)
    → Remaps kernel_end o1 o2 P s1 s2
    → Remaps kernel_end o2 o3 Q s2 s3
    → Remaps kernel_end o1 o3 R s1 s3
Remaps-trans kernel_end o1 o2 o3 P Q R s1 s2 s3 pr qr g k = record {
  forest = k.forest;
  owners = λ p r l x e. k.owners p r l x (g.owners p r l x e);
  outside = λ l p r va e ne.
      k.outside l p r va (g.owners p r l (vpn (suc l) va) e) (λ z. ne (qr r (vpn 0 va) z))
      ∙ g.outside l p r va e (λ z. ne (pr r (vpn 0 va) z));
}

pub SameCounts-trans : (s1 s2 s3 : Vm) → SameCounts s1 s2 → SameCounts s2 s3 → SameCounts s1 s3
SameCounts-trans s1 s2 s3 f g k a = let (b, e) = f k a in let (c, d) = g k b in (c, d ∙ e)

-- The one page of one root.
abbrev pub At : ℕ → ℕ → ℕ → ℕ → Type 0
At root page r y = (r ≡ root) × (y ≡ page)

pub walk_low :
    (alloc : Bool) (root va : ℕ) (s : Vm)
    → va < maxva
    → walk alloc root va s ≡ walk_from alloc 2 root va s
unfolding walk
walk_low alloc root va s lt = below_maxva (walk_from alloc 2 root va s)
  where
    below_maxva : (r : Result (ℕ × Vm)) → (panic_if (leb maxva va) "walk" >>= (λ done. r)) ≡ r
    below_maxva r = ground (arith, lt)

module _ (kernel_end : ℕ) (own : Own) (s : Vm) (h : IsForest own kernel_end s) where
  -- The walk without alloc finds the entry of a page that is mapped.
  pub walk-view :
      (root va : ℕ)
      → IsRoot own root
      → va < maxva
      → has pte_v (view root va s) ≡ true
      → (a : ℕ) × (walk false root va s ≡ ok (a, s))
        × IsSlot own root va a
        × (slot 2 root va s.pte ≡ a)
        × (s.pte a ≡ view root va s)
  walk-view root va e lt valid =
      elim (slot-leaf own kernel_end s h 2 root root va (root_owner own root va e lt)) [
        | inl (z, w) ↦ absurd (ground (arith, valid, w))
        | inr (at, same) ↦ (
          slot 2 root va s.pte,
          walk_low false root va s lt ∙ walk_from-slot 2 root va s,
          at,
          refl,
          same,
        )
      ]

  -- A store into the slot of a page changes the view at that page only.
  pub store-Remaps :
      (root va a v : ℕ)
      → IsRoot own root
      → va < maxva
      → IsSlot own root va a
      → slot 2 root va s.pte ≡ a
      → Remaps kernel_end own own (At root (vpn 0 va)) s (set_pte a v s)
        × (view root va (set_pte a v s) ≡ v)
  store-Remaps root va a v e lt at here = (
    record {
      forest = store-IsForest own kernel_end s h root va a v at;
      owners = λ p r l x o. o;
      outside = λ l p r va' o ne. store-leaf_other own kernel_end s h root va a v at l p r va' o ne;
    },
    store-leaf own kernel_end s h root va a v at 2 root root va (root_owner own root va e lt) here,
  )

  -- The walk with alloc finds or makes the slot, and changes no page's entry.
  pub walk-Remaps :
      (root va : ℕ)
      → 0 < kernel_end
      → IsRoot own root
      → va < maxva
      → 2 ≤ s.kmem.free_pages
      → (a : ℕ) × (own' : Own) × (s' : Vm) × (walk true root va s ≡ ok (a, s'))
        × Remaps kernel_end own own' (λ r y. ⊥) s s'
        × SameCounts s s'
        × IsSlot own' root va a
        × (slot 2 root va s'.pte ≡ a)
        × (s'.pte a ≡ view root va s)
        × (s.kmem.free_pages ≤ s'.kmem.free_pages + 2)
  walk-Remaps root va pos e lt some_free =
      let o = root_owner own root va e lt in
      let (own', s', w, g, at, few) =
        walk_from-Grows kernel_end pos 2 root root va own s h o some_free in
      (
        slot 2 root va s'.pte,
        own',
        s',
        walk_low true root va s lt ∙ w,
        record {
          forest = g.forest;
          owners = g.owners;
          outside = λ l p r va' o' ne. g.leaves l p r (vpn (suc l) va') va' o';
        },
        g.counts,
        at,
        refl,
        elim (slot-leaf own' kernel_end s' g.forest 2 root root va
            (g.owners root root 2 (vpn 3 va) o)) [
              | inl (z, y) ↦
                  absurd (
                    slot-ne-null own' kernel_end s' g.forest root va (slot 2 root va s'.pte) 0 at z)
              | inr (at', same) ↦ same ∙ g.leaves 2 root root (vpn 3 va) va o
            ],
        few,
      )

pub view_kept :
    (kernel_end : ℕ) (own own' : Own) (P : ℕ → ℕ → Type 0) (s s' : Vm) (root va : ℕ)
    → Remaps kernel_end own own' P s s'
    → IsRoot own root
    → va < maxva
    → ¬ P root (va / 4096)
    → view root va s' ≡ view root va s
unfolding vpn
view_kept kernel_end own own' P s s' root va g e lt ne =
    g.outside 2 root root va (root_owner own root va e lt) ne

-- The forest with another state of the allocator.
pub kmem-IsForest :
    (kernel_end : ℕ) (own : Own) (s : Vm) (kmem : Kmem)
    → IsForest own kernel_end s
    → IsValid kernel_end kmem
    → All (λ q. own q ≡ none) kmem.freelist
    → IsForest own kernel_end (record s { kmem = kmem })
kmem-IsForest kernel_end own s kmem h v a = record {
  tables = h.tables;
  child = h.child;
  free = a;
  valid = v;
}

-- What the allocator's invariant reads.
pub same_list-IsValid :
    (kernel_end : ℕ) (s s' : Kmem)
    → IsValid kernel_end s
    → s'.freelist ≡ s.freelist
    → s'.free_pages ≡ s.free_pages
    → s'.max_pages ≡ s.max_pages
    → IsValid kernel_end s'
same_list-IsValid kernel_end s s' v l f m = record {
  counted = f ∙ v.counted ∙ ap length (sym l);
  few = omega (arith, f, v.few);
  within = rw (m, f) v.within;
  pages = rw l v.pages;
  distinct = rw l v.distinct;
}
