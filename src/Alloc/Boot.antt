-- ===== src/Alloc/Boot.antt =====
-- kinit: which pages are free when the kernel has booted.
use ntnu_courses.Base.{
  ℕ, zero, suc, ◌+◌, ◌-◌, ◌*◌, ◌/◌, ◌%◌, ◌≤◌, ◌<◌, ◌≡◌, ◌≢◌, refl, List, [], ◌∷◌, All, ok, leb,
  true, inl, inr, arith,
}
use ntnu_courses.Alloc.{
  Kmem, pgsize, kernbase, phystop, pg_round_up, put_page, free_pages_from, freerange, boot_fuel,
  kinit,
}
use ntnu_courses.Alloc.Inv.{IsPage, IsValid, kfree-ok, put_page-IsValid}

-- The `k` pages from `p` up, each pushed on `acc` in turn.
abbrev pub push_pages : ℕ → ℕ → List ℕ → List ℕ
push_pages zero p acc = acc
push_pages (suc k) p acc = push_pages k (p + pgsize) (p ∷ acc)

-- What the loop of freerange needs, with `k` pages to go from `p`.
record Ready (kernel_end p : ℕ) (s : Kmem) : Type 0 where
  valid : IsValid kernel_end s
  booting : s.max_pages ≡ 0
  aligned : p % pgsize ≡ 0
  above : kernel_end ≤ p
  fewer : s.free_pages ≤ p / pgsize
  lower : All (λ y. y < p) s.freelist

lower-ne : (p : ℕ) (l : List ℕ) → All (λ y. y < p) l → All (λ y. p ≢ y) l
lower-ne p [] h = tt
lower-ne p (y ∷ l) h = (omega arith, lower-ne p l h.1)

lower_weaken : (p q : ℕ) (l : List ℕ) → p ≤ q → All (λ y. y < p) l → All (λ y. y < q) l
lower_weaken p q [] le h = tt
lower_weaken p q (y ∷ l) le h = (omega arith, lower_weaken p q l le h.1)

module _ (kernel_end : ℕ) where
  Ready-IsPage :
      (p : ℕ) (s : Kmem) → p + pgsize ≤ phystop → Ready kernel_end p s → IsPage kernel_end p
  Ready-IsPage p s h r = record { aligned = r.aligned; above = r.above; below = omega arith }

  few_free :
      (p : ℕ) (s : Kmem)
      → p + pgsize ≤ phystop
      → Ready kernel_end p s
      → (put_page p s).free_pages ≡ s.free_pages + 1
  few_free p s h r = omega (arith, r.fewer)

  put_page-Ready :
      (p : ℕ) (s : Kmem)
      → p + pgsize ≤ phystop
      → Ready kernel_end p s
      → Ready kernel_end (p + pgsize) (put_page p s)
  put_page-Ready p s h r = record {
    valid =
        put_page-IsValid kernel_end p s r.valid (Ready-IsPage p s h r)
          (lower-ne p s.freelist r.lower) (omega (arith, r.fewer)) (inl r.booting);
    booting = r.booting;
    aligned = omega (arith, r.aligned);
    above = omega (arith, r.above);
    fewer = omega (arith, r.fewer, few_free p s h r);
    lower = (omega arith, lower_weaken p (p + pgsize) s.freelist (omega arith) r.lower);
  }

  -- With room for k pages and no more between p and pa_end, the loop frees those k pages.
  free_pages_from_lem :
      (k f p pa_end : ℕ) (s : Kmem)
      → k < f
      → p + k * pgsize ≤ pa_end
      → pa_end < p + (k + 1) * pgsize
      → pa_end ≤ phystop
      → Ready kernel_end p s
      → (s' : Kmem) × (free_pages_from kernel_end f p pa_end s ≡ ok s')
        × IsValid kernel_end s'
        × (s'.freelist ≡ push_pages k p s.freelist)
        × (s'.free_pages ≡ s.free_pages + k)
  unfolding free_pages_from
  free_pages_from_lem k zero p pa_end s hf lo hi top r = absurd (omega arith)
  free_pages_from_lem zero (suc f) p pa_end s hf lo hi top r =
      (s, ground arith, r.valid, refl, omega arith)
  free_pages_from_lem (suc k) (suc f) p pa_end s hf lo hi top r =
      let (s', run, v', l, n) =
        free_pages_from_lem k f (p + pgsize) pa_end (put_page p s) (omega arith) (omega arith)
          (omega arith) top (put_page-Ready p s (omega arith) r) in
      (
        s',
        rw
            (
              lt_true,
              kfree-ok kernel_end p s r.valid (Ready-IsPage p s (omega arith) r) (inl r.booting),
            )
            run,
        v',
        l,
        omega (arith, n, few_free p s (omega arith) r),
      )
    where
      lt_true : leb (p + pgsize) pa_end ≡ true
      lt_true = ground arith

booted-IsValid :
    (kernel_end : ℕ) (s : Kmem)
    → IsValid kernel_end s
    → IsValid kernel_end (record s { max_pages = s.free_pages })
booted-IsValid kernel_end s v = record {
  counted = v.counted;
  few = v.few;
  within = inr (omega arith);
  pages = v.pages;
  distinct = v.distinct;
}

-- From a state with nothing on the free list, kinit returns: the free list then holds exactly the
-- whole pages between the end of the kernel and PHYSTOP, highest first, and both counters their
-- number.
pub kinit_lem :
    (kernel_end : ℕ) (s : Kmem)
    → s.max_pages ≡ 0
    → s.free_pages ≡ 0
    → s.freelist ≡ []
    → kernbase ≤ kernel_end
    → kernel_end ≤ phystop
    → (s' : Kmem) × (kinit kernel_end s ≡ ok s')
      × IsValid kernel_end s'
      × (s'.freelist ≡ push_pages ((phystop - kernel_end) / pgsize) (pg_round_up kernel_end) [])
      × (s'.free_pages ≡ (phystop - kernel_end) / pgsize)
      × (s'.max_pages ≡ (phystop - kernel_end) / pgsize)
unfolding kinit freerange
kinit_lem kernel_end s m z e lo hi =
    let (s', run, v, l, n) =
      free_pages_from_lem kernel_end ((phystop - kernel_end) / pgsize) boot_fuel
        (pg_round_up kernel_end) phystop s (omega arith) (omega arith) (omega arith) (omega arith)
        ready in
    (
      record s' { max_pages = s'.free_pages },
      rw run,
      booted-IsValid kernel_end s' v,
      rw (l, e),
      omega (arith, n),
      omega (arith, n),
    )
  where
    ready : Ready kernel_end (pg_round_up kernel_end) s
    ready = record {
      valid = record {
        counted = ground arith;
        few = omega arith;
        within = inl m;
        pages = rw e tt;
        distinct = rw e tt;
      };
      booting = m;
      aligned = omega arith;
      above = omega arith;
      fewer = omega arith;
      lower = rw e tt;
    }
