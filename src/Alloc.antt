-- ===== src/Alloc.antt =====
-- TDT4186 - OS/Labs/Lab3/kernel/kalloc.c: the allocator of physical pages with its reference
-- counts. Each function runs here as if no other CPU came between its accesses. That is more than its
-- locks give: kmem.lock and reflock are taken one after the other inside a function, and kalloc tests
-- and lowers FREE_PAGES outside both, so that what follows holds of calls that do not overlap. The linked list through `struct run` is the list of its pages, first page first.
pub mod Inv
pub mod Boot
pub mod Refs
mod Tests
use ntnu_courses.Base.{
  ℕ, zero, suc, ◌+◌, ◌-◌, ◌*◌, ◌/◌, ◌%◌, ◌^◌, Bool, ◌&&◌, ◌||◌, true, false, not, List, [], ◌∷◌,
  ltb, leb, ◌==◌, if◌then◌else◌, update, Result, ok, panic, out_of_fuel, ◌>>=◌, ◌>>◌, panic_if,
}
use ntnu_courses.Str.{Mem, memset}

abbrev pub pgsize : ℕ
pgsize = 4096

abbrev pub kernbase : ℕ
kernbase = 0x80000000

abbrev pub phystop : ℕ
phystop = kernbase + 128 * 1024 * 1024

abbrev pub u64 : ℕ → ℕ
u64 n = n % 2 ^ 64

-- The sum in PGROUNDUP wraps; `& ~(PGSIZE - 1)` clears the low twelve bits.
abbrev pub pg_round_up : ℕ → ℕ
pg_round_up sz = u64 (sz + pgsize - 1) / pgsize * pgsize

abbrev pub pg_round_down : ℕ → ℕ
pg_round_down a = a / pgsize * pgsize

pub record Kmem : Type 0 where
  pub max_pages : ℕ
  pub free_pages : ℕ
  pub freelist : List ℕ
  pub refcounts : ℕ → ℕ  -- uint8
  pub mem : Mem

abbrev pub pa_to_idx : ℕ → ℕ
pa_to_idx pa = u64 (pa + 2 ^ 64 - kernbase) / pgsize

unfoldable pub kref_inc : ℕ → Kmem → Kmem
kref_inc pa s = record s {
  refcounts = update s.refcounts (pa_to_idx pa) ((s.refcounts (pa_to_idx pa) + 1) % 256);
}

-- The junk that `kfree` fills the page with, and the push on the free list.
abbrev pub put_page : ℕ → Kmem → Kmem
put_page pa s = record s {
  mem = memset s.mem pa 1 pgsize;
  freelist = pa ∷ s.freelist;
  free_pages = u64 (s.free_pages + 1);
}

-- One round for each page of physical memory, and one to see the end.
abbrev pub boot_fuel : ℕ
boot_fuel = 32769

-- `end` is the linker's symbol for the first address after the kernel.
module _ (kernel_end : ℕ) where
  unfoldable pub kfree : ℕ → Kmem → Result Kmem
  kfree pa s = do
    panic_if (not (s.max_pages == 0) && not (ltb s.free_pages s.max_pages)) "assert failed"
    panic_if (not (pa % pgsize == 0) || ltb pa kernel_end || leb phystop pa) "kfree"
    ok (put_page pa s)

  unfoldable pub kref_dec : ℕ → Kmem → Result Kmem
  unfolding kfree
  kref_dec pa s =
      let ref : ℕ = (s.refcounts (pa_to_idx pa) + 255) % 256 in
      let s' : Kmem = record s { refcounts = update s.refcounts (pa_to_idx pa) ref } in
      if ref == 0 then kfree pa s' else ok s'

  -- for (; p + PGSIZE <= pa_end; p += PGSIZE) kfree(p);
  free_pages_from : ℕ → ℕ → ℕ → Kmem → Result Kmem
  free_pages_from zero p pa_end s = out_of_fuel
  free_pages_from (suc f) p pa_end s =
      let rest = kfree p s >>= λ s'. free_pages_from f (p + pgsize) pa_end s' in
      if leb (p + pgsize) pa_end then rest else ok s

  unfoldable pub freerange : ℕ → ℕ → ℕ → Kmem → Result Kmem
  unfolding free_pages_from kfree
  freerange fuel pa_start pa_end s = free_pages_from fuel (pg_round_up pa_start) pa_end s

  unfoldable pub kinit : Kmem → Result Kmem
  unfolding freerange
  kinit s = do
    s' ← freerange boot_fuel kernel_end phystop s
    ok (record s' { max_pages = s'.free_pages })

-- The pointer that is returned (0 is the null pointer) and the state after the call.
pub pop_page : List ℕ → Kmem → ℕ × Kmem
pop_page [] s = (0, record s { free_pages = u64 (s.free_pages + 2 ^ 64 - 1) })
pop_page (r ∷ next) s = (
  r,
  record s {
    freelist = next;
    mem = memset s.mem r 5 pgsize;
    refcounts = update s.refcounts (pa_to_idx r) 1;
    free_pages = u64 (s.free_pages + 2 ^ 64 - 1);
  },
)

unfoldable pub kalloc : Kmem → Result (ℕ × Kmem)
unfolding pop_page
kalloc s = do panic_if (not (ltb 0 s.free_pages)) "assert failed"; ok (pop_page s.freelist s)
