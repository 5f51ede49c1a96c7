-- ===== src/Alloc/Inv.antt =====
-- The invariant of the page allocator, and what each operation does to it.
use ntnu_courses.Base.{
  ℕ, ◌+◌, ◌-◌, ◌%◌, ◌^◌, ◌≤◌, ◌<◌, ◌≡◌, ◌≢◌, ◌⊎◌, refl, List, [], ◌∷◌, length, All, ok, panic,
  arith,
}
use ntnu_courses.Str.Move.{memset_lem}
use ntnu_courses.Alloc.{Kmem, pgsize, phystop, pa_to_idx, kfree, kalloc, pop_page, put_page}

-- A page that the allocator may hand out.
pub record IsPage (kernel_end pa : ℕ) : Type 0 where
  pub aligned : pa % pgsize ≡ 0
  pub above : kernel_end ≤ pa
  pub below : pa < phystop

abbrev pub Distinct : List ℕ → Type 0
Distinct [] = Unit
Distinct (x ∷ xs) = All (λ y. x ≢ y) xs × Distinct xs

-- The counter is the length of the free list, the list holds pages, none twice, and there are never
-- more of them than at boot.
pub record IsValid (kernel_end : ℕ) (s : Kmem) : Type 0 where
  pub counted : s.free_pages ≡ length s.freelist
  pub few : s.free_pages < 2 ^ 64 - 1
  pub within : (s.max_pages ≡ 0) ⊎ (s.free_pages ≤ s.max_pages)
  pub pages : All (IsPage kernel_end) s.freelist
  pub distinct : Distinct s.freelist

module _ (kernel_end : ℕ) where
  module _ (pa : ℕ) (s : Kmem) (v : IsValid kernel_end s) (p : IsPage kernel_end pa) where
    pub kfree-ok :
        (s.max_pages ≡ 0) ⊎ (s.free_pages < s.max_pages)
        → kfree kernel_end pa s ≡ ok (put_page pa s)
    unfolding kfree
    kfree-ok more = ground arith

    pub put_page-IsValid :
        All (λ y. pa ≢ y) s.freelist
        → s.free_pages + 2 < 2 ^ 64
        → (s.max_pages ≡ 0) ⊎ (s.free_pages < s.max_pages)
        → IsValid kernel_end (put_page pa s)
    put_page-IsValid new room more = ground arith

  -- kfree of a page that is not on the free list, while fewer pages are free than at boot (or the
  -- boot is not over), succeeds, keeps the invariant and puts the page at the head of the list.
  pub kfree-IsValid :
      (pa : ℕ) (s : Kmem)
      → IsValid kernel_end s
      → IsPage kernel_end pa
      → All (λ y. pa ≢ y) s.freelist
      → s.free_pages + 2 < 2 ^ 64
      → (s.max_pages ≡ 0) ⊎ (s.free_pages < s.max_pages)
      → (s' : Kmem) × (kfree kernel_end pa s ≡ ok s')
        × IsValid kernel_end s'
        × (s'.freelist ≡ pa ∷ s.freelist)
  kfree-IsValid pa s v p new room more =
      (put_page pa s, kfree-ok pa s v p more, put_page-IsValid pa s v p new room more, refl)

  -- kfree of an address that is not page-aligned, lies below the end of the kernel or not below
  -- PHYSTOP panics: nothing of the kernel's own memory is ever put on the free list.
  pub kfree_refuses :
      (pa : ℕ) (s : Kmem)
      → s.max_pages ≡ 0
      → (pa % pgsize ≢ 0) ⊎ (pa < kernel_end) ⊎ (phystop ≤ pa)
      → kfree kernel_end pa s ≡ panic "kfree"
  unfolding kfree
  kfree_refuses pa s boot h = ground arith

  -- While a page is free, kalloc returns a page of the free list with reference count 1, takes it
  -- off the list and keeps the invariant.
  pub kalloc-IsValid :
      (s : Kmem)
      → IsValid kernel_end s
      → 0 < s.free_pages
      → (r : ℕ) × (s' : Kmem) × (kalloc s ≡ ok (r, s'))
        × IsPage kernel_end r
        × IsValid kernel_end s'
        × (s.freelist ≡ r ∷ s'.freelist)
        × All (λ y. r ≢ y) s'.freelist
        × (s'.refcounts (pa_to_idx r) ≡ 1)
  unfolding kalloc pop_page
  kalloc-IsValid s v h = go s.freelist refl
    where
      go :
          (l : List ℕ)
          → s.freelist ≡ l
          → (r : ℕ) × (s' : Kmem) × (kalloc s ≡ ok (r, s'))
            × IsPage kernel_end r
            × IsValid kernel_end s'
            × (s.freelist ≡ r ∷ s'.freelist)
            × All (λ y. r ≢ y) s'.freelist
            × (s'.refcounts (pa_to_idx r) ≡ 1)
      go [] e = absurd (ground (arith, v.counted, e))
      go (r ∷ next) e = (
        r,
        (pop_page (r ∷ next) s).1,
        ground arith,
        ground arith,
        ground arith,
        e,
        ground arith,
        ground arith,
      )

  -- With no page free, kalloc panics in its assertion: it never returns the null pointer that its
  -- comment and its callers speak of.
  pub kalloc_exhausted :
      (s : Kmem) → IsValid kernel_end s → s.freelist ≡ [] → kalloc s ≡ panic "assert failed"
  unfolding kalloc
  kalloc_exhausted s v e = ground arith

  -- Of a valid state kalloc never returns the null pointer.
  pub kalloc-ne-null :
      (s s' : Kmem) (r : ℕ) → 0 < kernel_end → IsValid kernel_end s → kalloc s ≡ ok (r, s') → r ≢ 0
  unfolding kalloc pop_page
  kalloc-ne-null s s' r k v e = go s.freelist refl
    where
      go : (l : List ℕ) → s.freelist ≡ l → r ≢ 0
      go [] q = ground arith
      go (x ∷ l) q = ground arith

  -- A page that kalloc returned can be freed at once, which gives the free list back as it was.
  pub kfree-kalloc :
      (s s' : Kmem) (r : ℕ)
      → IsValid kernel_end s
      → kalloc s ≡ ok (r, s')
      → (s'' : Kmem) × (kfree kernel_end r s' ≡ ok s'')
        × (s''.freelist ≡ s.freelist)
        × (s''.free_pages ≡ s.free_pages)
  unfolding kalloc pop_page kfree
  kfree-kalloc s s' r v e = go s.freelist refl
    where
      go :
          (l : List ℕ)
          → s.freelist ≡ l
          → (s'' : Kmem) × (kfree kernel_end r s' ≡ ok s'')
            × (s''.freelist ≡ s.freelist)
            × (s''.free_pages ≡ s.free_pages)
      go [] q = absurd (ground arith)
      go (x ∷ l) q = (put_page r s', ground arith, ground arith, ground arith)

  -- kalloc changes no count but the returned page's, and takes only that page off the list.
  pub kalloc_counts :
      (s s' : Kmem) (r k : ℕ)
      → kalloc s ≡ ok (r, s')
      → All (λ y. pa_to_idx y ≢ k) s.freelist
      → All (λ y. pa_to_idx y ≢ k) s'.freelist × (s'.refcounts k ≡ s.refcounts k)
  unfolding kalloc pop_page
  kalloc_counts s s' r k e a = go s.freelist refl
    where
      go :
          (l : List ℕ)
          → s.freelist ≡ l
          → All (λ y. pa_to_idx y ≢ k) s'.freelist × (s'.refcounts k ≡ s.refcounts k)
      go [] q = (ground arith, ground arith)
      go (x ∷ l) q = (ground arith, ground arith)

  -- kalloc writes only into the page that it returns.
  pub kalloc_mem :
      (s s' : Kmem) (r a : ℕ)
      → kalloc s ≡ ok (r, s')
      → s.freelist ≡ r ∷ s'.freelist
      → (a < r) ⊎ (r + pgsize ≤ a)
      → s'.mem a ≡ s.mem a
  unfolding kalloc pop_page
  kalloc_mem s s' r a e list out = go s.freelist refl
    where
      go : (l : List ℕ) → s.freelist ≡ l → s'.mem a ≡ s.mem a
      go [] q = absurd (ground arith)
      go (x ∷ l) q = ground (arith, memset_lem s.mem x 5 pgsize a)
