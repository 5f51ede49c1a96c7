-- ===== src/Vm/Share.antt =====
-- TDT4186 - OS/Labs/Lab3/kernel/vm.c: one round of uvmcopy.
use ntnu_courses.Base.{
  ℕ, ◌+◌, ◌*◌, ◌/◌, ◌%◌, ◌≤◌, ◌<◌, ◌≡◌, ◌≢◌, ◌⊎◌, refl, sym, ap, ◌∙◌, inl, inr, true, false, ◌==◌,
  if◌then◌else◌, update, All, ==_ne, arith, ok,
}
use ntnu_courses.Alloc.{pgsize, pa_to_idx, kref_inc}
use ntnu_courses.Vm.{
  Vm, pte_v, pte_w, pte_cow, has, set_flag, clear_flag, pte_flags, pa2pte, pte2pa, vpn, maxva,
  set_pte, walk, mappages,
}
use ntnu_courses.Vm.Tree.{Own, IsForest}
use ntnu_courses.Vm.Walk.{slot-ne-null}
use ntnu_courses.Vm.View.{
  IsRoot, view, Remaps, SameCounts, Remaps-trans, At, walk-view, store-Remaps, view_kept,
}
use ntnu_courses.Vm.Map.{mapping}
use ntnu_courses.Vm.Mapped.{mappages_lem, Range}
use ntnu_courses.Vm.User.{shared_flags, shared_entry, copy_page}

-- The pages of two roots.
abbrev pub Both : ℕ → ℕ → ℕ → ℕ → ℕ → ℕ → Type 0
Both old new page n r y = ((r ≡ old) ⊎ (r ≡ new)) × (page ≤ y) × (y < page + n)

-- The count of `k`, with one reference more if it is the page's.
abbrev pub counted : ℕ → ℕ → ℕ → ℕ
counted pa k n = if pa_to_idx pa == k then (n + 1) % 256 else n

flags_lt : (f : ℕ) → f < 1024 → set_flag pte_cow (clear_flag pte_w f) < 1024
flags_lt f lt = ground arith

flags_valid :
    (f : ℕ) → has pte_v f ≡ true → has pte_v (set_flag pte_cow (clear_flag pte_w f)) ≡ true
flags_valid f v = ground arith

flags_cow : (f : ℕ) → has pte_cow (set_flag pte_cow (clear_flag pte_w f)) ≡ true
flags_cow f = ground arith

flags_read_only : (f : ℕ) → has pte_w (set_flag pte_cow (clear_flag pte_w f)) ≡ false
flags_read_only f = ground arith

-- The flag of an entry whose address part is a multiple of 1024.
has_low :
    (a f : ℕ)
    → (has pte_v (a * 1024 + f) ≡ has pte_v f)
      × (has pte_w (a * 1024 + f) ≡ has pte_w f)
      × (has pte_cow (a * 1024 + f) ≡ has pte_cow f)
has_low a f =
    (ap (λ z. z == 1) (omega arith), ap (λ z. z == 1) (omega arith), ap (λ z. z == 1) (omega arith))

low_valid : (pte : ℕ) → has pte_v pte ≡ true → has pte_v (pte_flags pte) ≡ true
low_valid pte v = ap (λ z. z == 1) (omega arith) ∙ v

set_has : (pte : ℕ) → has pte_v pte ≡ true → set_flag pte_v pte ≡ pte
set_has pte h = rw h refl

-- A shared page stays valid, can not be written, is marked as copy-on-write and keeps its address.
pub shared_entry_lem :
    (pte : ℕ)
    → has pte_v pte ≡ true
    → (has pte_v (shared_entry pte) ≡ true)
      × (has pte_w (shared_entry pte) ≡ false)
      × (has pte_cow (shared_entry pte) ≡ true)
      × (pte2pa (shared_entry pte) ≡ pte2pa pte)
shared_entry_lem pte v =
    let f : ℕ = shared_flags pte in
    let (lv, lw, lc) = has_low (pte2pa pte / 4096) f in
    (
      lv ∙ flags_valid (pte_flags pte) (low_valid pte v),
      lw ∙ flags_read_only (pte_flags pte),
      lc ∙ flags_cow (pte_flags pte),
      omega (arith, flags_lt (pte_flags pte) (omega arith)),
    )

shared_mapping :
    (pte : ℕ) → has pte_v pte ≡ true → mapping (pte2pa pte) (shared_flags pte) ≡ shared_entry pte
shared_mapping pte v =
    ap (λ z. pa2pte (pte2pa pte) + z)
      (set_has (shared_flags pte) (flags_valid (pte_flags pte) (low_valid pte v)))

-- The count of a page in use does not enter the forest.
pub ref-IsForest :
    (own : Own) (kernel_end pa : ℕ) (s : Vm)
    → IsForest own kernel_end s
    → IsForest own kernel_end (record s { kmem = kref_inc pa s.kmem })
unfolding kref_inc
ref-IsForest own kernel_end pa s h = record {
  tables = h.tables;
  child = h.child;
  free = h.free;
  valid = record {
    counted = h.valid.counted;
    few = h.valid.few;
    within = h.valid.within;
    pages = h.valid.pages;
    distinct = h.valid.distinct;
  };
}

ref-Remaps :
    (kernel_end pa : ℕ) (own own' : Own) (P : ℕ → ℕ → Type 0) (s s' : Vm)
    → Remaps kernel_end own own' P s s'
    → Remaps kernel_end own own' P s (record s' { kmem = kref_inc pa s'.kmem })
ref-Remaps kernel_end pa own own' P s s' g = record {
  forest = ref-IsForest own' kernel_end pa s' g.forest;
  owners = g.owners;
  outside = g.outside;
}

-- The counts and the free list after a reference to `pa` was added to what `SameCounts` leaves.
abbrev pub Referred : ℕ → Vm → Vm → Type 0
Referred pa s s' =
    (k : ℕ)
    → All (λ y. pa_to_idx y ≢ k) s.kmem.freelist
    → All (λ y. pa_to_idx y ≢ k) s'.kmem.freelist
      × (s'.kmem.refcounts k ≡ counted pa k (s.kmem.refcounts k))

count_step :
    (f g : ℕ → ℕ) (j k : ℕ)
    → f k ≡ g k
    → update f j ((f j + 1) % 256) k ≡ (if j == k then (g k + 1) % 256 else g k)
count_step f g j k e = ground arith

ref-Referred :
    (pa : ℕ) (s s' : Vm)
    → SameCounts s s'
    → Referred pa s (record s' { kmem = kref_inc pa s'.kmem })
unfolding kref_inc
ref-Referred pa s s' c k a =
    let (b, e) = c k a in (b, count_step s'.kmem.refcounts s.kmem.refcounts (pa_to_idx pa) k e)

copy_page_run :
    (old new i a v : ℕ) (s s2 : Vm)
    → walk false old i s ≡ ok (a, s)
    → a ≢ 0
    → s.pte a ≡ v
    → has pte_v v ≡ true
    → mappages new i pgsize (pte2pa v) (shared_flags v) (set_pte a (shared_entry v) s)
      ≡ ok (true, s2)
    → copy_page old new i s ≡ ok (true, record s2 { kmem = kref_inc (pte2pa v) s2.kmem })
unfolding copy_page
copy_page_run old new i a v s s2 w ne same valid m = rw (w, ==_ne a 0 ne, same, valid, m) refl

module _ (kernel_end : ℕ) (pos : 0 < kernel_end) (old new : ℕ) where
  -- The page `y` of `old`, which is mapped, is shared with `new`, which has nothing there.
  pub copy_page_lem :
      (own : Own) (s : Vm) (y : ℕ)
      → IsForest own kernel_end s
      → IsRoot own old
      → IsRoot own new
      → old ≢ new
      → y * pgsize < maxva
      → 2 ≤ s.kmem.free_pages
      → has pte_v (view old (y * pgsize) s) ≡ true
      → has pte_v (view new (y * pgsize) s) ≡ false
      → (own' : Own) × (s' : Vm) × (copy_page old new (y * pgsize) s ≡ ok (true, s'))
        × Remaps kernel_end own own' (Both old new y 1) s s'
        × (view old (y * pgsize) s' ≡ shared_entry (view old (y * pgsize) s))
        × (view new (y * pgsize) s' ≡ shared_entry (view old (y * pgsize) s))
        × Referred (pte2pa (view old (y * pgsize) s)) s s'
        × (s.kmem.free_pages ≤ s'.kmem.free_pages + 2)
  unfolding vpn kref_inc
  copy_page_lem own s y h eo en apart lt room valid unmapped =
      let i : ℕ = y * pgsize in
      let v : ℕ = view old i s in
      let (a, w, at, here, same) = walk-view kernel_end own s h old i eo lt valid in
      let (g1, now1) = store-Remaps kernel_end own s h old i a (shared_entry v) eo lt at here in
      let s1 : Vm = set_pte a (shared_entry v) s in
      let away =
        view_kept kernel_end own own (At old (vpn 0 i)) s s1 new i g1 en lt
          (λ (p, q). apart (sym p)) in
      let (own', s2, run, g2, c, now2, few) =
        mappages_lem kernel_end pos new own s1 i pgsize (pte2pa v) (shared_flags v) g1.forest en
          (omega arith) (omega (arith, lt)) (omega (arith, room))
          (λ z lo hi.
            ap (λ x. has pte_v (view new (x * pgsize) s1)) (omega (arith, lo, hi))
            ∙ ap (has pte_v) away
            ∙ unmapped) in
      (
        own',
        record s2 { kmem = kref_inc (pte2pa v) s2.kmem },
        copy_page_run old new i a v s s2 w (slot-ne-null own kernel_end s h old i a 0 at) same valid
            run,
        ref-Remaps kernel_end (pte2pa v) own own' (Both old new y 1) s s2 (
            Remaps-trans kernel_end own own own' (At old (vpn 0 i)) (Range new i pgsize)
              (Both old new y 1) s s1 s2 (λ r z (p, q). (inl p, omega (arith, q), omega (arith, q)))
              (λ r z (p, q, x). (inr p, omega (arith, q), omega (arith, x))) g1 g2),
        view_kept kernel_end own own' (Range new i pgsize) s1 s2 old i g2 eo lt
              (λ (p, q, x). apart p)
            ∙ now1,
        now2 y (omega arith) (omega arith)
            ∙ ap (λ z. mapping z (shared_flags v)) (omega arith)
            ∙ shared_mapping v valid,
        ref-Referred (pte2pa v) s s2 c,
        omega (arith, few),
      )
