-- ===== src/Vm.antt =====
-- TDT4186 - OS/Labs/Lab3/kernel/vm.c, kernel/riscv.h: page-table entries and the walk over the
-- three levels of a table. `pte` holds the 64-bit words of the pages that are page tables, by their
-- address; the bytes of all other pages are those of the allocator, whose kalloc, kref_inc and kref_dec
-- are called as they stand. A null pointer is 0. Flags below 2^10 are joined to an address whose low
-- bits are 0 by a sum.
pub mod User
pub mod Transfer
pub mod CopyIn
pub mod CopyOut
pub mod Share
pub mod Fork
pub mod Example
pub mod Tree
pub mod Walk
pub mod Grow
pub mod View
pub mod Map
pub mod Mapped
pub mod Unmap
pub mod Addr
pub mod Translate
mod Tests
use ntnu_courses.Base.{
  ℕ, zero, suc, ◌+◌, ◌-◌, ◌*◌, ◌/◌, ◌%◌, ◌^◌, Bool, ◌&&◌, ◌||◌, true, false, not, ltb, leb, ◌==◌,
  if◌then◌else◌, update, Result, ok, panic, out_of_fuel, ◌>>=◌, ◌>>◌, panic_if,
}
use ntnu_courses.Alloc.{Kmem, pgsize, u64, pg_round_down, kalloc, kref_dec}

abbrev pub pte_v : ℕ
pte_v = 1

abbrev pub pte_r : ℕ
pte_r = 2

abbrev pub pte_w : ℕ
pte_w = 4

abbrev pub pte_x : ℕ
pte_x = 8

abbrev pub pte_u : ℕ
pte_u = 16

abbrev pub pte_cow : ℕ
pte_cow = 256

abbrev pub maxva : ℕ
maxva = 2 ^ 38

-- pte & flag, for a flag of one bit; pte | flag and pte & ~flag.
abbrev pub has : ℕ → ℕ → Bool
has flag pte = pte / flag % 2 == 1

abbrev pub set_flag : ℕ → ℕ → ℕ
set_flag flag pte = if has flag pte then pte else pte + flag

abbrev pub clear_flag : ℕ → ℕ → ℕ
clear_flag flag pte = if has flag pte then pte - flag else pte

abbrev pub pa2pte : ℕ → ℕ
pa2pte pa = pa / 4096 * 1024

abbrev pub pte2pa : ℕ → ℕ
pte2pa pte = u64 (pte / 1024 * 4096)

abbrev pub pte_flags : ℕ → ℕ
pte_flags pte = pte % 1024

-- va >> PXSHIFT(level): twelve bits, and nine for each level.
unfoldable pub vpn : ℕ → ℕ → ℕ
vpn zero va = va / 4096
vpn (suc level) va = vpn level va / 512

abbrev pub px : ℕ → ℕ → ℕ
px level va = vpn level va % 512

-- &pagetable[PX(level, va)].
abbrev pub entry : ℕ → ℕ → ℕ → ℕ
entry pagetable level va = pagetable + 8 * px level va

pub record Vm : Type 0 where
  pub pte : ℕ → ℕ
  pub kmem : Kmem

-- memset(page, 0, PGSIZE) of a page of words.
abbrev pub clear_page : ℕ → (ℕ → ℕ) → ℕ → ℕ
clear_page page pte a = if leb page a && ltb a (page + pgsize) then 0 else pte a

-- The new page `page`, cleared, and *pte = PA2PTE(pagetable) | PTE_V at `a`.
abbrev pub new_table : ℕ → ℕ → Vm → Vm
new_table a page s = record s { pte = update (clear_page page s.pte) a (pa2pte page + pte_v) }

abbrev pub set_pte : ℕ → ℕ → Vm → Vm
set_pte a v s = record s { pte = update s.pte a v }

-- The loop of walk from `level` down: the address of the entry.
unfoldable pub walk_from : Bool → ℕ → ℕ → ℕ → Vm → Result (ℕ × Vm)
walk_from alloc zero pagetable va s = ok (entry pagetable 0 va, s)
walk_from alloc (suc level) pagetable va s =
    let a : ℕ = entry pagetable (suc level) va in
    let down = walk_from alloc level (pte2pa (s.pte a)) va s in
    let grow = kalloc s.kmem >>= λ (page, kmem). elim (page == 0) [
      | true ↦ ok (0, record s { kmem = kmem })
      | false ↦ walk_from alloc level page va (new_table a page (record s { kmem = kmem }))
    ] in
    if has pte_v (s.pte a) then down else if not alloc then ok (0, s) else grow

unfoldable pub walk : Bool → ℕ → ℕ → Vm → Result (ℕ × Vm)
unfolding walk_from
walk alloc pagetable va s = do panic_if (leb maxva va) "walk"; walk_from alloc 2 pagetable va s

-- walkaddr by what walk found; 0 if the address is not mapped for the user.
abbrev pub user_pa : ℕ → Vm → ℕ
user_pa a s =
    if a == 0
    then 0
    else if not (has pte_v (s.pte a))
    then 0
    else if not (has pte_u (s.pte a))
    then 0
    else pte2pa (s.pte a)

unfoldable pub walkaddr : ℕ → ℕ → Vm → Result ℕ
unfolding walk
walkaddr pagetable va s =
    if leb maxva va then ok 0 else walk false pagetable va s >>= λ (a, s'). ok (user_pa a s')

-- One round of the loop of mappages; `false` is the -1 of the code.
abbrev pub map_at : ℕ → ℕ → ℕ → Vm → Result (Bool × Vm)
map_at a pa perm s = if a == 0 then ok (false, s) else do
  panic_if (has pte_v (s.pte a)) "mappages: remap"
  ok (true, set_pte a (pa2pte pa + set_flag pte_v perm) s)

unfoldable pub mappages_from : ℕ → ℕ → ℕ → ℕ → ℕ → ℕ → Vm → Result (Bool × Vm)
unfolding walk
mappages_from zero pagetable a last pa perm s = out_of_fuel
mappages_from (suc fuel) pagetable a last pa perm s = do
  (p, s1) ← walk true pagetable a s
  (mapped, s2) ← map_at p pa perm s1
  elim (not mapped || a == last) [
    | true ↦ ok (mapped, s2)
    | false ↦ mappages_from fuel pagetable (a + pgsize) last (pa + pgsize) perm s2
  ]

unfoldable pub mappages : ℕ → ℕ → ℕ → ℕ → ℕ → Vm → Result (Bool × Vm)
unfolding mappages_from
mappages pagetable va size pa perm s = do
  panic_if (size == 0) "mappages: size"
  mappages_from (size / pgsize + 2) pagetable (pg_round_down va)
      (pg_round_down (u64 (va + size - 1))) pa perm s

-- `kernel_end` is the linker's symbol for the first address after the kernel.
module _ (kernel_end : ℕ) where
  -- One round of the loop of uvmunmap on the entry at `a`.
  unfoldable pub unmap_at : Bool → ℕ → Vm → Result Vm
  unmap_at do_free a s = do
    panic_if (a == 0) "uvmunmap: walk"
    panic_if (not (has pte_v (s.pte a))) "uvmunmap: not mapped"
    panic_if (pte_flags (s.pte a) == pte_v) "uvmunmap: not a leaf"
    kmem ← if do_free then kref_dec kernel_end (pte2pa (s.pte a)) s.kmem else ok s.kmem
    ok (record s { pte = update s.pte a 0; kmem = kmem })

  -- The rounds of uvmunmap from the address `va` on, `npages` of them.
  unfoldable pub unmap_from : Bool → ℕ → ℕ → ℕ → Vm → Result Vm
  unfolding walk unmap_at
  unmap_from do_free zero pagetable va s = ok s
  unmap_from do_free (suc npages) pagetable va s = do
    (a, s1) ← walk false pagetable va s
    s2 ← unmap_at do_free a s1
    unmap_from do_free npages pagetable (va + pgsize) s2

  unfoldable pub uvmunmap : ℕ → ℕ → ℕ → Bool → Vm → Result Vm
  unfolding unmap_from
  uvmunmap pagetable va npages do_free s = do
    panic_if (not (va % pgsize == 0)) "uvmunmap: not aligned"
    unmap_from do_free npages pagetable va s
