-- ===== src/Alloc/Refs.antt =====
-- Reference counts: a page is freed by the last kref_dec, and by no other.
use ntnu_courses.Base.{
  ℕ, zero, suc, ◌+◌, ◌-◌, ◌%◌, ◌<◌, ◌≡◌, ◌≢◌, refl, update, Result, ok, ◌>>=◌, >>=-ok, arith,
}
use ntnu_courses.Alloc.{Kmem, pa_to_idx, kfree, kref_inc, kref_dec}

-- The count of a page, set by hand.
abbrev pub with_count : ℕ → ℕ → Kmem → Kmem
with_count pa n s = record s { refcounts = update s.refcounts (pa_to_idx pa) n }

-- kref_inc adds one to the count of its page, up to 255, and to no other count; the free list stays.
pub kref_inc_lem :
    (pa i : ℕ) (s : Kmem)
    → s.refcounts (pa_to_idx pa) < 255
    → ((kref_inc pa s).refcounts (pa_to_idx pa) ≡ s.refcounts (pa_to_idx pa) + 1)
      × (i ≢ pa_to_idx pa → (kref_inc pa s).refcounts i ≡ s.refcounts i)
      × ((kref_inc pa s).freelist ≡ s.freelist)
unfolding kref_inc
kref_inc_lem pa i s h = (ground arith, λ ne. ground arith, refl)

-- `s'` is `s` but for the count of `pa`, which is `n`.
pub record Lowered (pa n : ℕ) (s s' : Kmem) : Type 0 where
  pub count : s'.refcounts (pa_to_idx pa) ≡ n
  pub others : (i : ℕ) → i ≢ pa_to_idx pa → s'.refcounts i ≡ s.refcounts i
  pub freelist : s'.freelist ≡ s.freelist
  pub free_pages : s'.free_pages ≡ s.free_pages
  pub max_pages : s'.max_pages ≡ s.max_pages
  pub mem : s'.mem ≡ s.mem

with_count-Lowered : (pa n : ℕ) (s : Kmem) → Lowered pa n s (with_count pa n s)
with_count-Lowered pa n s = record {
  count = ground arith;
  others = λ i h. ground arith;
  freelist = refl;
  free_pages = refl;
  max_pages = refl;
  mem = refl;
}

Lowered-again : (pa m n : ℕ) (s s' : Kmem) → Lowered pa n (with_count pa m s) s' → Lowered pa n s s'
Lowered-again pa m n s s' l = record {
  count = l.count;
  others = λ i h. ground (arith, l.others i h);
  freelist = l.freelist;
  free_pages = l.free_pages;
  max_pages = l.max_pages;
  mem = l.mem;
}

module _ (kernel_end : ℕ) where
  -- `n` calls of kref_dec on one page, one after the other.
  pub drops : ℕ → ℕ → Kmem → Result Kmem
  drops zero pa s = ok s
  drops (suc n) pa s = kref_dec kernel_end pa s >>= λ s'. drops n pa s'

  pub kref_dec_shared :
      (pa c : ℕ) (s : Kmem)
      → s.refcounts (pa_to_idx pa) ≡ suc c
      → 0 < c
      → c < 255
      → kref_dec kernel_end pa s ≡ ok (with_count pa c s)
  unfolding kref_dec
  kref_dec_shared pa c s e lo hi =
      let q : (suc c + 255) % 256 ≡ c = omega arith in rw (e, q) (ground arith)

  kref_dec_last :
      (pa : ℕ) (s : Kmem)
      → s.refcounts (pa_to_idx pa) ≡ 1
      → kref_dec kernel_end pa s ≡ kfree kernel_end pa (with_count pa 0 s)
  unfolding kref_dec
  kref_dec_last pa s e = rw e

  -- Of a page that is referred to c times (c < 256), fewer than c calls of kref_dec free nothing:
  -- they succeed, lower the count of that page by their number and leave every other count, the
  -- free list and the contents of memory.
  pub drops_keep :
      (n c pa : ℕ) (s : Kmem)
      → s.refcounts (pa_to_idx pa) ≡ c
      → n < c
      → c < 256
      → (s' : Kmem) × (drops n pa s ≡ ok s') × Lowered pa (c - n) s s'
  unfolding drops
  drops_keep zero c pa s e lt h = (
    s,
    refl,
    record {
      count = omega arith;
      others = λ i ne. refl;
      freelist = refl;
      free_pages = refl;
      max_pages = refl;
      mem = refl;
    },
  )
  drops_keep (suc n) c pa s e lt h =
      let (s', run, low) =
        drops_keep n (c - 1) pa (with_count pa (c - 1) s) (ground arith) (omega arith)
          (omega arith) in
      let k : c - 1 - n ≡ c - suc n = omega arith in
      (
        s',
        rw (kref_dec_shared pa (c - 1) s (omega arith) (omega arith) (omega arith)) run,
        Lowered-again pa (c - 1) (c - suc n) s s' (rw k at low),
      )

  -- The last of the c calls of kref_dec on a page that is referred to c times (0 < c < 256) frees
  -- the page: the run is that of kfree in a state that differs by the page's count only, now 0.
  pub drops_free :
      (n pa : ℕ) (s : Kmem)
      → s.refcounts (pa_to_idx pa) ≡ suc n
      → suc n < 256
      → (s' : Kmem) × (drops (suc n) pa s ≡ kfree kernel_end pa s') × Lowered pa 0 s s'
  unfolding drops
  drops_free zero pa s e h =
      (with_count pa 0 s, rw (kref_dec_last pa s e) (>>=-ok _), with_count-Lowered pa 0 s)
  drops_free (suc n) pa s e h =
      let (s', run, low) = drops_free n pa (with_count pa (suc n) s) (ground arith) (omega arith) in
      (
        s',
        rw (kref_dec_shared pa (suc n) s e (omega arith) (omega arith)) run,
        Lowered-again pa (suc n) 0 s s' low,
      )
