-- ===== src/Alloc/Tests.antt =====
-- The allocator on a small free list, and its theorems at concrete states.
use ntnu_courses.Base.{ℕ, ◌-◌, ◌/◌, ◌≡◌, ◌≢◌, refl, [], ◌∷◌, All, update, ok, inr, arith}
use ntnu_courses.Alloc.{
  Kmem, phystop, pgsize, pg_round_up, pa_to_idx, kfree, kalloc, pop_page, kinit,
}
use ntnu_courses.Alloc.Inv.{IsValid, IsPage, kalloc-IsValid, kfree-kalloc}
use ntnu_courses.Alloc.Boot.{push_pages, kinit_lem}
use ntnu_courses.Alloc.Refs.{Lowered, drops, drops_free}

abbrev kernel_end : ℕ
kernel_end = 0x80022000

abbrev page_a : ℕ
page_a = 0x80023000

abbrev page_b : ℕ
page_b = 0x80024000

-- At boot, before kinit.
abbrev blank : Kmem
blank = record { max_pages = 0; free_pages = 0; freelist = []; refcounts = λ _. 0; mem = λ _. 0 }

-- Two pages in the machine, one of them free, and the other referred to twice.
abbrev one_free : Kmem
one_free = record blank {
  max_pages = 2;
  free_pages = 1;
  freelist = page_a ∷ [];
  refcounts = update (λ _. 0) (pa_to_idx page_b) 2;
}

abbrev none_free : Kmem
none_free = record one_free { free_pages = 0; freelist = [] }

one_free-IsValid : IsValid kernel_end one_free
one_free-IsValid = record {
  counted = refl;
  few = omega arith;
  within = inr (omega arith);
  pages = (omega arith, tt);
  distinct = (tt, tt);
}

none_free-IsValid : IsValid kernel_end none_free
none_free-IsValid = omega arith

page_b-IsPage : IsPage kernel_end page_b
page_b-IsPage = omega arith

kalloc_runs : kalloc one_free ≡ ok (page_a, (pop_page (page_a ∷ []) one_free).1)
unfolding kalloc
kalloc_runs = refl

kalloc-IsValid_example :
    (r : ℕ) × (s' : Kmem) × (kalloc one_free ≡ ok (r, s'))
    × IsPage kernel_end r
    × IsValid kernel_end s'
    × (page_a ∷ [] ≡ r ∷ s'.freelist)
    × All (λ y. r ≢ y) s'.freelist
    × (s'.refcounts (pa_to_idx r) ≡ 1)
kalloc-IsValid_example = kalloc-IsValid kernel_end one_free one_free-IsValid (omega arith)

kfree-kalloc_example :
    (s'' : Kmem) × (kfree kernel_end page_a (pop_page (page_a ∷ []) one_free).1 ≡ ok s'')
    × (s''.freelist ≡ page_a ∷ [])
    × (s''.free_pages ≡ 1)
kfree-kalloc_example =
    kfree-kalloc kernel_end one_free (pop_page (page_a ∷ []) one_free).1 page_a one_free-IsValid
      kalloc_runs

drops_free_example :
    (s' : Kmem) × (drops kernel_end 2 page_b one_free ≡ kfree kernel_end page_b s')
    × Lowered page_b 0 one_free s'
drops_free_example = drops_free kernel_end 1 page_b one_free refl (omega arith)

kinit_lem_example :
    (s' : Kmem) × (kinit kernel_end blank ≡ ok s')
    × IsValid kernel_end s'
    × (s'.freelist ≡ push_pages ((phystop - kernel_end) / pgsize) (pg_round_up kernel_end) [])
    × (s'.free_pages ≡ (phystop - kernel_end) / pgsize)
    × (s'.max_pages ≡ (phystop - kernel_end) / pgsize)
kinit_lem_example = kinit_lem kernel_end blank refl refl refl (omega arith) (omega arith)
