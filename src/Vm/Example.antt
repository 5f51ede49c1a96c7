-- ===== src/Vm/Example.antt =====
-- TDT4186 - OS/Labs/Lab3/kernel/vm.c: two page tables, one with a page, to run the operations on.
use ntnu_courses.Base.{
  ℕ, ◌+◌, ◌%◌, ◌≡◌, refl, inr, ◌==◌, if◌then◌else◌, update, arith, ℕ_discrete, [], ◌∷◌, none, some,
}
use ntnu_courses.Alloc.{Kmem}
use ntnu_courses.Alloc.Inv.{IsValid}
use ntnu_courses.Vm.{vpn, Vm, pa2pte, new_table, set_pte}
use ntnu_courses.Vm.Tree.{Own, IsTable, IsForest, grown-IsForest}
use ntnu_courses.Vm.Walk.{store-IsForest}

abbrev pub some_end : ℕ
some_end = 0x80022000

abbrev pub parent : ℕ
parent = 0x80100000

abbrev pub child_table : ℕ
child_table = 0x80101000

abbrev pub middle : ℕ
middle = 0x80102000

abbrev pub lowest : ℕ
lowest = 0x80103000

abbrev pub page : ℕ
page = 0x80104000

abbrev pub two_roots : Own
two_roots p =
    if p == parent
    then some (parent, 2, 0)
    else if p == child_table
    then some (child_table, 2, 0)
    else none

abbrev pub six_pages : Kmem
six_pages = record {
  max_pages = 100;
  free_pages = 6;
  freelist = 0x80110000 ∷ 0x80111000 ∷ 0x80112000 ∷ 0x80113000 ∷ 0x80114000 ∷ 0x80115000 ∷ [];
  refcounts = λ i. 2;
  mem = λ a. a % 256;
}

abbrev pub empty_tables : Vm
empty_tables = record { pte = λ a. 0; kmem = six_pages }

pub six_pages-IsValid : IsValid some_end six_pages
six_pages-IsValid = record {
  counted = refl;
  few = omega arith;
  within = inr (omega arith);
  pages = omega arith;
  distinct = omega arith;
}

IsTable-at : (p r l x : ℕ) → two_roots p ≡ some (r, l, x) → IsTable p
IsTable-at p r l x e = elim (ℕ_discrete p parent) [
  | yes a ↦ omega (arith, a)
  | no a ↦ elim (ℕ_discrete p child_table) [
    | yes b ↦ omega (arith, b)
    | no b ↦ absurd (ground (arith, a, b, e))
  ]
]

pub empty_tables-IsForest : IsForest two_roots some_end empty_tables
empty_tables-IsForest = record {
  tables = λ p r l x e. IsTable-at p r l x e;
  child = λ p r l x i e lt valid. absurd cc;
  free = (refl, (refl, (refl, (refl, (refl, (refl, tt))))));
  valid = six_pages-IsValid;
}

abbrev pub linked_once : Vm
linked_once = new_table parent middle empty_tables

abbrev pub linked_twice : Vm
linked_twice = new_table middle lowest linked_once

-- The page at address 0, readable, writable and for the user.
abbrev pub mapped : Vm
mapped = set_pte lowest (pa2pte page + 23) linked_twice

abbrev pub three_levels : Own
three_levels = update (update two_roots middle (some (parent, 1, 0))) lowest (some (parent, 0, 0))

pub once-IsForest : IsForest (update two_roots middle (some (parent, 1, 0))) some_end linked_once
once-IsForest =
    grown-IsForest two_roots some_end empty_tables empty_tables-IsForest parent parent 1 0 0 middle
      refl (omega arith) refl (omega arith) refl six_pages six_pages-IsValid
      (refl, (refl, (refl, (refl, (refl, (refl, tt)))))) (omega arith)

pub twice-IsForest : IsForest three_levels some_end linked_twice
twice-IsForest =
    grown-IsForest (update two_roots middle (some (parent, 1, 0))) some_end linked_once
      once-IsForest middle parent 0 0 0 lowest refl (omega arith) refl (omega arith) refl six_pages
      six_pages-IsValid (refl, (refl, (refl, (refl, (refl, (refl, tt)))))) (omega arith)

pub mapped-IsForest : IsForest three_levels some_end mapped
unfolding vpn
mapped-IsForest =
    store-IsForest three_levels some_end linked_twice twice-IsForest parent 0 lowest
      (pa2pte page + 23) (record { table = lowest; owner = refl; address = refl })
