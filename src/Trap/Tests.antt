-- ===== src/Trap/Tests.antt =====
-- TDT4186 - OS/Labs/Lab3/kernel/trap.c: a store fault on a page that is shared.
use ntnu_courses.Base.{
  ℕ, ◌+◌, ◌≤◌, ◌<◌, ◌≡◌, ◌≢◌, ◌⊎◌, refl, sym, ap, ◌∙◌, true, false, arith, ◌∷◌, ok, update, some,
}
use ntnu_courses.Alloc.{pgsize, pa_to_idx}
use ntnu_courses.Vm.{vpn, Vm, has, pte_v, pte_w, pte_u, pte_cow, pa2pte, pte2pa, new_table, set_pte}
use ntnu_courses.Vm.Tree.{leaf, Own, IsForest, grown-IsForest}
use ntnu_courses.Vm.Walk.{store-IsForest}
use ntnu_courses.Vm.View.{view, Remaps, At}
use ntnu_courses.Vm.Example.{
  some_end, parent, child_table, six_pages, six_pages-IsValid, lowest, page, linked_twice,
  three_levels, twice-IsForest,
}
use ntnu_courses.Vm.Addr.{user_page}
use ntnu_courses.Vm.CopyIn.{phys}
use ntnu_courses.Vm.CopyOut.{copyout_shared}
use ntnu_courses.Vm.Transfer.{copyout}
use ntnu_courses.Trap.{private_entry, store_fault}
use ntnu_courses.Trap.Cow.{store_fault-private}

-- The page at address 0, readable, for the user and marked as copy-on-write.
abbrev shared : Vm
shared = set_pte lowest (pa2pte page + 275) linked_twice

shared-IsForest : IsForest three_levels some_end shared
unfolding vpn
shared-IsForest =
    store-IsForest three_levels some_end linked_twice twice-IsForest parent 0 lowest
      (pa2pte page + 275) (record { table = lowest; owner = refl; address = refl })

view-shared : view parent 100 shared ≡ pa2pte page + 275
unfolding leaf vpn
view-shared = refl

store_fault-private_example :
    (n : ℕ) × (s' : Vm) × (store_fault some_end parent 100 shared ≡ ok (false, s'))
    × Remaps some_end three_levels three_levels (At parent 0) shared s'
    × (view parent 100 s' ≡ private_entry n (view parent 100 shared))
    × (pte2pa (view parent 100 s') ≡ n)
    × (has pte_w (view parent 100 s') ≡ true)
    × (has pte_cow (view parent 100 s') ≡ false)
    × (shared.kmem.freelist ≡ n ∷ s'.kmem.freelist)
    × ((i : ℕ)
        → i < pgsize
        → s'.kmem.mem (n + i) ≡ shared.kmem.mem (pte2pa (view parent 100 shared) + i))
    × ((x : ℕ) → (x < n) ⊎ (n + pgsize ≤ x) → s'.kmem.mem x ≡ shared.kmem.mem x)
    × (s'.kmem.refcounts (pa_to_idx n) ≡ 1)
    × (s'.kmem.refcounts (pa_to_idx (pte2pa (view parent 100 shared))) ≡ 1)
store_fault-private_example =
    store_fault-private some_end parent 100 1 three_levels shared (omega arith) shared-IsForest refl
      (omega arith) (ap (has pte_v) view-shared) (ap (has pte_u) view-shared)
      (ap (has pte_cow) view-shared) (omega (arith, view-shared)) refl (omega arith) (omega arith)
      (omega arith)

-- The same for the child: its own tables, and the page of the parent at address 0.
abbrev child_middle : ℕ
child_middle = 0x80105000

abbrev child_lowest : ℕ
child_lowest = 0x80106000

abbrev child_once : Vm
child_once = new_table child_table child_middle shared

abbrev child_twice : Vm
child_twice = new_table child_middle child_lowest child_once

abbrev both_map : Vm
both_map = set_pte child_lowest (pa2pte page + 275) child_twice

abbrev four_levels : Own
four_levels = update three_levels child_middle (some (child_table, 1, 0))

abbrev five_levels : Own
five_levels = update four_levels child_lowest (some (child_table, 0, 0))

child_once-IsForest : IsForest four_levels some_end child_once
child_once-IsForest =
    grown-IsForest three_levels some_end shared shared-IsForest child_table child_table 1 0 0
      child_middle refl (omega arith) refl (omega arith) refl six_pages six_pages-IsValid
      (refl, (refl, (refl, (refl, (refl, (refl, tt)))))) (omega arith)

child_twice-IsForest : IsForest five_levels some_end child_twice
child_twice-IsForest =
    grown-IsForest four_levels some_end child_once child_once-IsForest child_middle child_table 0 0
      0 child_lowest refl (omega arith) refl (omega arith) refl six_pages six_pages-IsValid
      (refl, (refl, (refl, (refl, (refl, (refl, tt)))))) (omega arith)

both_map-IsForest : IsForest five_levels some_end both_map
unfolding vpn
both_map-IsForest =
    store-IsForest five_levels some_end child_twice child_twice-IsForest child_table 0 child_lowest
      (pa2pte page + 275) (record { table = child_lowest; owner = refl; address = refl })

view-parent : view parent 100 both_map ≡ pa2pte page + 275
unfolding leaf vpn
view-parent = refl

view-child : view child_table 100 both_map ≡ pa2pte page + 275
unfolding leaf vpn
view-child = refl

page_used : user_page (pa2pte page + 275) ≢ 0
page_used z = omega (arith, z)

-- What the child writes with copyout into the page is what the parent then reads there.
copyout_shared_example :
    (s' : Vm) × (copyout child_table 100 0x80020000 8 both_map ≡ ok (true, s'))
    × (s'.pte ≡ both_map.pte)
    × ((i : ℕ)
        → i < 8
        → s'.kmem.mem (phys child_table 100 s' + i) ≡ both_map.kmem.mem (0x80020000 + i))
    × ((i : ℕ) → i < 8 → s'.kmem.mem (phys parent 100 s' + i) ≡ both_map.kmem.mem (0x80020000 + i))
    × ((x : ℕ)
        → ((i : ℕ) → i < 8 → phys child_table 100 both_map + i ≢ x)
        → s'.kmem.mem x ≡ both_map.kmem.mem x)
copyout_shared_example =
    copyout_shared some_end child_table parent 100 100 0x80020000 8 five_levels both_map
      both_map-IsForest refl (omega arith) (omega arith) (omega arith)
      (λ z. page_used (sym (ap user_page view-child) ∙ z))
      (ap (λ e. user_page e + 100) (view-parent ∙ sym view-child))
