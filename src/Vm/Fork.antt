-- ===== src/Vm/Fork.antt =====
-- TDT4186 - OS/Labs/Lab3/kernel/vm.c: uvmcopy, the memory of a forked process.
use ntnu_courses.Base.{
  ℕ, zero, suc, ◌+◌, ◌-◌, ◌*◌, ◌/◌, ◌≤◌, ◌<◌, ◌≡◌, ◌≢◌, refl, sym, ap, ◌∙◌, Bool, true, false, All,
  arith, lt→ltb, ltb-eq-false, ℕ_discrete, Result, ok,
}
use ntnu_courses.Alloc.{pgsize, pa_to_idx}
use ntnu_courses.Vm.{Vm, pte_v, pte_w, pte_cow, has, pte2pa, maxva, vpn}
use ntnu_courses.Vm.Tree.{Own, IsForest}
use ntnu_courses.Vm.View.{IsRoot, view, Remaps, Remaps-trans, view_kept}
use ntnu_courses.Vm.User.{shared_entry, copy_page, copy_from, uvmcopy}
use ntnu_courses.Vm.Share.{Both, counted, copy_page_lem, shared_entry_lem}

-- The count `c` of `k` after a reference to the page of each entry `f y`, `n` of them.
unfoldable pub tally : (ℕ → ℕ) → ℕ → ℕ → ℕ → ℕ → ℕ
tally f k y zero c = c
tally f k y (suc n) c = tally f k (suc y) n (counted (pte2pa (f y)) k c)

module _ (kernel_end : ℕ) (pos : 0 < kernel_end) (old new : ℕ) (f : ℕ → ℕ) where
  copy_stop :
      (fuel sz i : ℕ) (s : Vm)
      → sz ≤ i
      → copy_from kernel_end (suc fuel) old new sz i s ≡ ok (true, s)
  unfolding copy_from
  copy_stop fuel sz i s le = rw (ltb-eq-false i sz le) refl

  copy_next :
      (fuel sz i : ℕ) (s s' : Vm)
      → i < sz
      → copy_page old new i s ≡ ok (true, s')
      → copy_from kernel_end (suc fuel) old new sz i s
        ≡ copy_from kernel_end fuel old new sz (i + pgsize) s'
  unfolding copy_from
  copy_next fuel sz i s s' lt e = rw (lt→ltb i sz lt, e) refl

  -- The pages from `y` on, `n` of them, of `old` hold what `f` says.
  abbrev pub Holds : (ℕ → ℕ) → ℕ → ℕ → ℕ → Vm → Type 0
  Holds g root y n s = (z : ℕ) → y ≤ z → z < y + n → view root (z * pgsize) s ≡ g z

  abbrev pub Copied : ℕ → ℕ → Own → Vm → Result (Bool × Vm) → Type 0
  Copied y n own s run =
      (own' : Own) × (s' : Vm) × (run ≡ ok (true, s'))
      × Remaps kernel_end own own' (Both old new y n) s s'
      × Holds (λ z. shared_entry (f z)) old y n s'
      × Holds (λ z. shared_entry (f z)) new y n s'
      × ((k : ℕ)
          → All (λ q. pa_to_idx q ≢ k) s.kmem.freelist
          → All (λ q. pa_to_idx q ≢ k) s'.kmem.freelist
            × (s'.kmem.refcounts k ≡ tally f k y n (s.kmem.refcounts k)))

  copied_later :
      (own own' : Own) (y n root : ℕ) (s s' : Vm)
      → Remaps kernel_end own own' (Both old new (suc y) n) s s'
      → IsRoot own root
      → (y + n) * pgsize < maxva
      → view root (y * pgsize) s ≡ shared_entry (f y)
      → Holds (λ z. shared_entry (f z)) root (suc y) n s'
      → Holds (λ z. shared_entry (f z)) root y (suc n) s'
  copied_later own own' y n root s s' g e lt now rest z lo hi = elim (ℕ_discrete y z) [
    | yes same ↦
        ap (λ x. view root (x * pgsize) s') (sym same)
        ∙ view_kept kernel_end own own' (Both old new (suc y) n) s s' root (y * pgsize) g e
            (omega (arith, lt)) (λ (p, q, x). omega (arith, q))
        ∙ now
        ∙ ap (λ x. shared_entry (f x)) same
    | no off ↦ rest z (omega (arith, lo, off)) (omega (arith, hi))
  ]

  pub copy_from-Copied :
      (n fuel y sz : ℕ) (own : Own) (s : Vm)
      → IsForest own kernel_end s
      → IsRoot own old
      → IsRoot own new
      → old ≢ new
      → n < fuel
      → sz ≤ (y + n) * pgsize
      → (y + n) * pgsize < sz + pgsize
      → sz ≤ maxva
      → 2 * n ≤ s.kmem.free_pages
      → Holds f old y n s
      → ((z : ℕ) → y ≤ z → z < y + n → has pte_v (f z) ≡ true)
      → ((z : ℕ) → y ≤ z → z < y + n → has pte_v (view new (z * pgsize) s) ≡ false)
      → Copied y n own s (copy_from kernel_end fuel old new sz (y * pgsize) s)
  unfolding tally vpn
  copy_from-Copied n zero y sz own s h eo en apart fu le near small room holds valid unmapped =
      absurd (omega (arith, fu))
  copy_from-Copied zero (suc fuel) y sz own s h eo en apart fu le near small room holds valid
        unmapped =
      (
        own,
        s,
        copy_stop fuel sz (y * pgsize) s (omega (arith, le)),
        record { forest = h; owners = λ p r l x o. o; outside = λ l p r x o ne. refl },
        (λ z lo hi. absurd (omega (arith, lo, hi))),
        (λ z lo hi. absurd (omega (arith, lo, hi))),
        (λ k a. (a, refl)),
      )
  copy_from-Copied (suc n) (suc fuel) y sz own s h eo en apart fu le near small room holds valid
        unmapped =
      let here = holds y (omega arith) (omega arith) in
      let lt : y * pgsize < maxva = omega (arith, near, small) in
      let (own1, s1, w, g, o, m, c, few) =
        copy_page_lem kernel_end pos old new own s y h eo en apart lt (omega (arith, room))
          (ap (has pte_v) here ∙ valid y (omega arith) (omega arith))
          (unmapped y (omega arith) (omega arith)) in
      let later = λ (root : ℕ) (e : IsRoot own root) (z : ℕ) (lo : suc y ≤ z) (hi : z < suc y + n).
        view_kept kernel_end own own1 (Both old new y 1) s s1 root (z * pgsize) g e
          (omega (arith, hi, near, small)) (λ (p, q, x). omega (arith, lo, x)) in
      let (own', s', w', g', o', m', c') =
        copy_from-Copied n fuel (suc y) sz own1 s1 g.forest (g.owners old old 2 0 eo)
          (g.owners new new 2 0 en) apart (omega (arith, fu)) (omega (arith, le))
          (omega (arith, near)) small (omega (arith, few, room))
          (λ z lo hi. later old eo z lo hi ∙ holds z (omega (arith, lo)) (omega (arith, hi)))
          (λ z lo hi. valid z (omega (arith, lo)) (omega (arith, hi)))
          (λ z lo hi.
            ap (has pte_v) (later new en z lo hi)
            ∙ unmapped z (omega (arith, lo)) (omega (arith, hi))) in
      let below : (y + n) * pgsize < maxva = omega (arith, near, small) in
      (
        own',
        s',
        copy_next fuel sz (y * pgsize) s s1 (omega (arith, near)) w
            ∙ ap (λ z. copy_from kernel_end fuel old new sz z s1) (omega arith)
            ∙ w',
        Remaps-trans kernel_end own own1 own' (Both old new y 1) (Both old new (suc y) n)
            (Both old new y (suc n)) s s1 s'
            (λ r z (p, q, x). (p, omega (arith, q), omega (arith, x)))
            (λ r z (p, q, x). (p, omega (arith, q), omega (arith, x))) g g',
        copied_later own1 own' y n old s1 s' g' (g.owners old old 2 0 eo) below
            (o ∙ ap shared_entry here) o',
        copied_later own1 own' y n new s1 s' g' (g.owners new new 2 0 en) below
            (m ∙ ap shared_entry here) m',
        (λ k a.
            let (b, e1) = c k a in
            let (d, e2) = c' k b in
            (
              d,
              e2
                  ∙ ap (tally f k (suc y) n)
                      (e1 ∙ ap (λ x. counted (pte2pa x) k (s.kmem.refcounts k)) here),
            )),
      )

-- The pages of the first `sz` bytes.
abbrev pub page_count : ℕ → ℕ
page_count sz = (sz + pgsize - 1) / pgsize

-- Of two different page tables, the one with all pages below `sz` (at most MAXVA) mapped and the other
-- with none, and with two free pages for each of them, uvmcopy returns 0; then both hold, for each
-- page, the entry of the first with PTE_W cleared and PTE_COW set, so that the child's pages are the
-- parent's, none can be written and all are marked as copy-on-write; no other entry of any page table
-- has changed, the count of each page that was not free is one higher (as a byte) for each entry that
-- leads to it, and such a page is still not free.
pub uvmcopy_lem :
    (kernel_end old new sz : ℕ) (own : Own) (s : Vm)
    → 0 < kernel_end
    → IsForest own kernel_end s
    → IsRoot own old
    → IsRoot own new
    → old ≢ new
    → sz ≤ maxva
    → 2 * page_count sz ≤ s.kmem.free_pages
    → ((y : ℕ) → y < page_count sz → has pte_v (view old (y * pgsize) s) ≡ true)
    → ((y : ℕ) → y < page_count sz → has pte_v (view new (y * pgsize) s) ≡ false)
    → (own' : Own) × (s' : Vm) × (uvmcopy kernel_end old new sz s ≡ ok (true, s'))
      × Remaps kernel_end own own' (Both old new 0 (page_count sz)) s s'
      × ((y : ℕ)
          → y < page_count sz
          → (view old (y * pgsize) s' ≡ shared_entry (view old (y * pgsize) s))
            × (view new (y * pgsize) s' ≡ shared_entry (view old (y * pgsize) s))
            × (pte2pa (view new (y * pgsize) s') ≡ pte2pa (view old (y * pgsize) s))
            × (has pte_w (view new (y * pgsize) s') ≡ false)
            × (has pte_cow (view new (y * pgsize) s') ≡ true))
      × ((k : ℕ)
          → All (λ q. pa_to_idx q ≢ k) s.kmem.freelist
          → All (λ q. pa_to_idx q ≢ k) s'.kmem.freelist
            × (s'.kmem.refcounts k
                ≡ tally (λ y. view old (y * pgsize) s) k 0 (page_count sz) (s.kmem.refcounts k)))
unfolding uvmcopy
uvmcopy_lem kernel_end old new sz own s pos h eo en apart small room valid unmapped =
    let (own', s', w, g, o, m, c) =
      copy_from-Copied kernel_end pos old new (λ y. view old (y * pgsize) s) (page_count sz)
        (sz / pgsize + 2) 0 sz own s h eo en apart (omega arith) (omega arith) (omega arith) small
        room (λ z lo hi. refl) (λ z lo hi. valid z (omega (arith, hi)))
        (λ z lo hi. unmapped z (omega (arith, hi))) in
    (
      own',
      s',
      w,
      g,
      (λ y hi.
          shared y s' (o y (omega arith) (omega (arith, hi)))
            (m y (omega arith) (omega (arith, hi))) (valid y hi)),
      c,
    )
  where
    shared :
        (y : ℕ) (s' : Vm)
        → view old (y * pgsize) s' ≡ shared_entry (view old (y * pgsize) s)
        → view new (y * pgsize) s' ≡ shared_entry (view old (y * pgsize) s)
        → has pte_v (view old (y * pgsize) s) ≡ true
        → (view old (y * pgsize) s' ≡ shared_entry (view old (y * pgsize) s))
          × (view new (y * pgsize) s' ≡ shared_entry (view old (y * pgsize) s))
          × (pte2pa (view new (y * pgsize) s') ≡ pte2pa (view old (y * pgsize) s))
          × (has pte_w (view new (y * pgsize) s') ≡ false)
          × (has pte_cow (view new (y * pgsize) s') ≡ true)
    shared y s' o m v =
        let (lv, lw, lc, pa) = shared_entry_lem (view old (y * pgsize) s) v in
        (o, m, ap pte2pa m ∙ pa, ap (has pte_w) m ∙ lw, ap (has pte_cow) m ∙ lc)
