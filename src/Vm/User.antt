-- ===== src/Vm/User.antt =====
-- TDT4186 - OS/Labs/Lab3/kernel/vm.c: the memory of a user process, made, grown, copied and freed.
use ntnu_courses.Base.{
  ℕ, zero, suc, ◌+◌, ◌-◌, ◌*◌, ◌/◌, ◌%◌, ◌^◌, Bool, ◌&&◌, ◌||◌, true, false, not, ltb, leb, ◌==◌,
  if◌then◌else◌, Result, ok, panic, out_of_fuel, ◌>>=◌, ◌>>◌, panic_if,
}
use ntnu_courses.Str.{memset, memmove}
use ntnu_courses.Alloc.{Kmem, pgsize, pg_round_up, kalloc, kfree, kref_inc}
use ntnu_courses.Vm.{
  Vm, pte_v, pte_r, pte_w, pte_x, pte_u, pte_cow, has, set_flag, clear_flag, pa2pte, pte2pa,
  pte_flags, clear_page, set_pte, walk, mappages, uvmunmap,
}

-- A page of bytes with the same value.
abbrev pub fill_page : ℕ → ℕ → Kmem → Kmem
fill_page page c kmem = record kmem { mem = memset kmem.mem page c pgsize }

-- The page table and the state; 0 if there is no memory.
unfoldable pub uvmcreate : Vm → Result (ℕ × Vm)
uvmcreate s = do
  (p, kmem) ← kalloc s.kmem
  elim (p == 0) [
    | true ↦ ok (0, record s { kmem = kmem })
    | false ↦ ok (p, record s { pte = clear_page p s.pte; kmem = kmem })
  ]

-- `src` is the address of the code of the first process.
unfoldable pub uvmfirst : ℕ → ℕ → ℕ → Vm → Result Vm
uvmfirst pagetable src sz s = do
  panic_if (leb pgsize sz) "uvmfirst: more than a page"
  (mem, kmem) ← kalloc s.kmem
  (mapped, s2) ←
      mappages pagetable 0 pgsize mem (pte_w + pte_r + pte_x + pte_u)
        (record s { kmem = fill_page mem 0 kmem })
  ok (record s2 { kmem = record s2.kmem { mem = memmove s2.kmem.mem mem src sz } })

-- The conversions from uint64 to int and back.
abbrev pub through_int : ℕ → ℕ
through_int n = if ltb (n % 2 ^ 32) (2 ^ 31) then n % 2 ^ 32 else n % 2 ^ 32 + (2 ^ 64 - 2 ^ 32)

-- (PTE_FLAGS(*pte) & ~PTE_W) | PTE_COW
abbrev pub shared_flags : ℕ → ℕ
shared_flags pte = set_flag pte_cow (clear_flag pte_w (pte_flags pte))

-- PA2PTE(pa) | flags
abbrev pub shared_entry : ℕ → ℕ
shared_entry pte = pa2pte (pte2pa pte) + shared_flags pte

-- One round of uvmcopy; `false` is the jump to `err`.
unfoldable pub copy_page : ℕ → ℕ → ℕ → Vm → Result (Bool × Vm)
copy_page old new i s = do
  (a, s1) ← walk false old i s
  panic_if (a == 0) "uvmcopy: pte should exist"
  panic_if (not (has pte_v (s1.pte a))) "uvmcopy: page not present"
  (mapped, s2) ←
      mappages new i pgsize (pte2pa (s1.pte a)) (shared_flags (s1.pte a))
        (set_pte a (shared_entry (s1.pte a)) s1)
  ok (mapped, if mapped then record s2 { kmem = kref_inc (pte2pa (s1.pte a)) s2.kmem } else s2)

module _ (kernel_end : ℕ) where
  unfoldable pub uvmdealloc : ℕ → ℕ → ℕ → Vm → Result (ℕ × Vm)
  unfolding uvmunmap
  uvmdealloc pagetable oldsz newsz s =
      if leb oldsz newsz
      then ok (oldsz, s)
      else if ltb (pg_round_up newsz) (pg_round_up oldsz)
      then uvmunmap kernel_end pagetable (pg_round_up newsz)
          (through_int ((pg_round_up oldsz - pg_round_up newsz) / pgsize)) true s
        >>= (λ s'. ok (newsz, s'))
      else ok (newsz, s)

  -- The loop of uvmalloc from the address `a` on; `oldsz` has been rounded.
  unfoldable pub alloc_from : ℕ → ℕ → ℕ → ℕ → ℕ → ℕ → Vm → Result (ℕ × Vm)
  unfolding uvmdealloc
  alloc_from zero pagetable a oldsz newsz xperm s = out_of_fuel
  alloc_from (suc fuel) pagetable a oldsz newsz xperm s =
      let undo : Vm → Result (ℕ × Vm) =
        λ t. uvmdealloc pagetable a oldsz t >>= λ (sz, t'). ok (0, t') in
      let next : Vm → Result (ℕ × Vm) =
        λ t. alloc_from fuel pagetable (a + pgsize) oldsz newsz xperm t in
      let round : Result (ℕ × Vm) = do
        (mem, kmem) ← kalloc s.kmem
        elim (mem == 0) [
          | true ↦ undo (record s { kmem = kmem })
          | false ↦ do
            (mapped, s2) ←
                mappages pagetable a pgsize mem (set_flag pte_r (set_flag pte_u xperm))
                  (record s { kmem = fill_page mem 0 kmem })
            elim mapped [
              | true ↦ next s2
              | false ↦ kfree kernel_end mem s2.kmem >>= λ kmem2. undo (record s2 { kmem = kmem2 })
            ]
        ]
      in if ltb a newsz then round else ok (newsz, s)

  unfoldable pub uvmalloc : ℕ → ℕ → ℕ → ℕ → Vm → Result (ℕ × Vm)
  unfolding alloc_from
  uvmalloc pagetable oldsz newsz xperm s =
      if ltb newsz oldsz
      then ok (oldsz, s)
      else alloc_from (newsz / pgsize + 2) pagetable (pg_round_up oldsz) (pg_round_up oldsz) newsz
          xperm s

  -- The loop of freewalk over the `n` entries from `i` on; `free_child` is its call of itself.
  unfoldable pub free_entries : (ℕ → Vm → Result Vm) → ℕ → ℕ → ℕ → Vm → Result Vm
  free_entries free_child zero pagetable i s = ok s
  free_entries free_child (suc n) pagetable i s =
      let a : ℕ = pagetable + 8 * i in
      let pte : ℕ = s.pte a in
      let rest = free_entries free_child n pagetable (i + 1) s in
      let down = free_child (pte2pa pte) s >>= λ s'.
      free_entries free_child n pagetable (i + 1) (set_pte a 0 s') in
      if has pte_v pte && not (has pte_r pte || has pte_w pte || has pte_x pte)
      then down
      else if has pte_v pte
      then panic "freewalk: leaf"
      else rest

  unfoldable pub freewalk : ℕ → ℕ → Vm → Result Vm
  unfolding free_entries
  freewalk zero pagetable s = out_of_fuel
  freewalk (suc depth) pagetable s = do
    s' ← free_entries (λ p t. freewalk depth p t) 512 pagetable 0 s
    kmem ← kfree kernel_end pagetable s'.kmem
    ok (record s' { kmem = kmem })

  unfoldable pub uvmfree : ℕ → ℕ → Vm → Result Vm
  unfolding uvmunmap freewalk
  uvmfree pagetable sz s = do
    s' ← if ltb 0 sz then uvmunmap kernel_end pagetable 0 (pg_round_up sz / pgsize) true s else ok s
    freewalk 3 pagetable s'

  unfoldable pub copy_from : ℕ → ℕ → ℕ → ℕ → ℕ → Vm → Result (Bool × Vm)
  unfolding copy_page uvmunmap
  copy_from zero old new sz i s = out_of_fuel
  copy_from (suc fuel) old new sz i s =
      let round = do
        (copied, s') ← copy_page old new i s
        elim copied [
          | true ↦ copy_from fuel old new sz (i + pgsize) s'
          | false ↦ uvmunmap kernel_end new 0 (i / pgsize) true s' >>= λ s''. ok (false, s'')
        ]
      in if ltb i sz then round else ok (true, s)

  -- `false` is the -1 of the code.
  unfoldable pub uvmcopy : ℕ → ℕ → ℕ → Vm → Result (Bool × Vm)
  unfolding copy_from
  uvmcopy old new sz s = copy_from (sz / pgsize + 2) old new sz 0 s

unfoldable pub uvmclear : ℕ → ℕ → Vm → Result Vm
uvmclear pagetable va s = do
  (a, s') ← walk false pagetable va s
  panic_if (a == 0) "uvmclear"
  ok (set_pte a (clear_flag pte_u (s'.pte a)) s')
