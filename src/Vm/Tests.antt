-- ===== src/Vm/Tests.antt =====
-- TDT4186 - OS/Labs/Lab3/kernel/vm.c: the theorems at two small page tables.
use ntnu_courses.Base.{
  ℕ, ◌+◌, ◌-◌, ◌*◌, ◌/◌, ◌%◌, ◌≤◌, ◌<◌, ◌≡◌, ◌≢◌, refl, sym, ap, ◌∙◌, true, false, All, arith,
  ℕ_discrete, ok,
}
use ntnu_courses.Alloc.{pgsize, pa_to_idx}
use ntnu_courses.Vm.{
  vpn, Vm, pte_v, pte_w, pte_cow, has, pa2pte, pte2pa, mappages, uvmunmap, walkaddr,
}
use ntnu_courses.Vm.Tree.{leaf, Own}
use ntnu_courses.Vm.View.{IsRoot, view, Remaps}
use ntnu_courses.Vm.Mapped.{Range}
use ntnu_courses.Vm.Translate.{walkaddr-mappages, uvmunmap-mappages}
use ntnu_courses.Vm.User.{shared_entry, uvmcopy}
use ntnu_courses.Vm.Share.{Both}
use ntnu_courses.Vm.Addr.{user_page, view_page}
use ntnu_courses.Vm.CopyIn.{Brings, copyin-Brings}
use ntnu_courses.Vm.Transfer.{copyin}
use ntnu_courses.Vm.Fork.{uvmcopy_lem, tally, page_count}
use ntnu_courses.Vm.Example.{
  some_end, parent, child_table, page, mapped, three_levels, mapped-IsForest,
}

-- The page is where it was put, and no other is mapped.
view-mapped : view parent 0 mapped ≡ pa2pte page + 23
unfolding leaf vpn
view-mapped = refl

view_one : has pte_v (view parent 4096 mapped) ≡ false
unfolding leaf vpn
view_one = refl

view_two : has pte_v (view parent 8192 mapped) ≡ false
unfolding leaf vpn
view_two = refl

one_or_two : (y : ℕ) → 1 ≤ y → y ≤ 2 → has pte_v (view parent (y * pgsize) mapped) ≡ false
one_or_two y lo hi = elim (ℕ_discrete y 1) [
  | yes e ↦ ap (λ z. has pte_v (view parent (z * pgsize) mapped)) e ∙ view_one
  | no n ↦
      let e : y ≡ 2 = omega (arith, lo, hi, n) in
      ap (λ z. has pte_v (view parent (z * pgsize) mapped)) e ∙ view_two
]

view_child : view child_table 0 mapped ≡ 0
unfolding leaf vpn
view_child = refl

first_mapped : (y : ℕ) → y < 1 → has pte_v (view parent (y * pgsize) mapped) ≡ true
first_mapped y lt =
    let e : y ≡ 0 = omega (arith, lt) in
    ap (λ z. has pte_v (view parent (z * pgsize) mapped)) e ∙ ap (has pte_v) view-mapped

first_unmapped : (y : ℕ) → y < 1 → has pte_v (view child_table (y * pgsize) mapped) ≡ false
first_unmapped y lt =
    let e : y ≡ 0 = omega (arith, lt) in
    ap (λ z. has pte_v (view child_table (z * pgsize) mapped)) e ∙ ap (has pte_v) view_child

walkaddr-mappages_example :
    (s' : Vm) × (mappages parent 6000 3000 0x80105000 22 mapped ≡ ok (true, s'))
    × ((w : ℕ)
        → 1 ≤ w / pgsize
        → w / pgsize ≤ 2
        → walkaddr parent w s' ≡ ok ((0x80105 + (w / pgsize - 1)) * pgsize))
    × ((r w : ℕ)
        → IsRoot three_levels r
        → ¬ Range parent 6000 3000 r (w / pgsize)
        → walkaddr r w s' ≡ walkaddr r w mapped)
walkaddr-mappages_example =
    walkaddr-mappages some_end three_levels mapped parent 6000 3000 0x80105000 22 (omega arith)
      mapped-IsForest refl (omega arith) (omega arith) (omega arith) one_or_two (omega arith)
      (omega arith) refl

uvmunmap-mappages_example :
    (s' : Vm) × (s'' : Vm) × (mappages parent 4096 (2 * pgsize) page 22 mapped ≡ ok (true, s'))
    × (uvmunmap some_end parent 4096 2 false s' ≡ ok s'')
    × ((r w : ℕ) → IsRoot three_levels r → walkaddr r w s'' ≡ walkaddr r w mapped)
uvmunmap-mappages_example =
    uvmunmap-mappages some_end three_levels mapped parent 4096 1 page 22 (omega arith)
      mapped-IsForest refl refl (omega arith) (omega arith) one_or_two (omega arith) refl

uvmcopy_lem_example :
    (own' : Own) × (s' : Vm) × (uvmcopy some_end parent child_table 100 mapped ≡ ok (true, s'))
    × Remaps some_end three_levels own' (Both parent child_table 0 1) mapped s'
    × ((y : ℕ)
        → y < page_count 100
        → (view parent (y * pgsize) s' ≡ shared_entry (view parent (y * pgsize) mapped))
          × (view child_table (y * pgsize) s' ≡ shared_entry (view parent (y * pgsize) mapped))
          × (pte2pa (view child_table (y * pgsize) s') ≡ pte2pa (view parent (y * pgsize) mapped))
          × (has pte_w (view child_table (y * pgsize) s') ≡ false)
          × (has pte_cow (view child_table (y * pgsize) s') ≡ true))
    × ((k : ℕ)
        → All (λ q. pa_to_idx q ≢ k) mapped.kmem.freelist
        → All (λ q. pa_to_idx q ≢ k) s'.kmem.freelist
          × (s'.kmem.refcounts k
              ≡ tally
                  (λ y. view parent (y * pgsize) mapped)
                  k
                  0
                  (page_count 100)
                  (mapped.kmem.refcounts k)))
uvmcopy_lem_example =
    uvmcopy_lem some_end parent child_table 100 three_levels mapped (omega arith) mapped-IsForest
      refl refl (omega arith) (omega arith) (omega arith) first_mapped first_unmapped

page-view : (w : ℕ) → w < 4096 → view parent w mapped ≡ pa2pte page + 23
page-view w lt =
    let first : w / pgsize ≡ 0 = omega (arith, lt) in
    view_page parent w mapped ∙ ap (λ z. view parent (z * pgsize) mapped) first ∙ view-mapped

page_used : user_page (pa2pte page + 23) ≢ 0
page_used z = omega (arith, z)

page_apart : (i j : ℕ) → i < 10 → 0x80020000 + i ≢ user_page (pa2pte page + 23) + (100 + j) % pgsize
page_apart i j li z = omega (arith, li, z)

-- Ten bytes of the page at 0 are copied to the kernel's memory at 0x80020000.
copyin-Brings_example :
    Brings parent 0x80020000 100 10 mapped (copyin parent 0x80020000 100 10 mapped)
copyin-Brings_example =
    copyin-Brings some_end parent three_levels refl 10 0x80020000 100 mapped mapped-IsForest
      (omega arith)
      (λ w lo hi z. page_used (sym (ap user_page (page-view w (omega (arith, hi)))) ∙ z))
      (λ i j li lj z.
        page_apart i j li (
          z ∙ ap (λ q. user_page q + (100 + j) % pgsize) (page-view (100 + j) (omega (arith, lj)))))
