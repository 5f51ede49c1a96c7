-- ===== src/Trap.antt =====
-- TDT4186 - OS/Labs/Lab3/kernel/trap.c: the store fault of usertrap, which makes a page that fork
-- shared private, and the recognition of device interrupts.
pub mod Cow
mod Tests
use ntnu_courses.Base.{
  ℕ, ◌+◌, ◌-◌, ◌*◌, ◌/◌, ◌%◌, ◌^◌, Bool, ◌&&◌, ◌||◌, true, false, not, ltb, leb, ◌==◌,
  if◌then◌else◌, List, [], ◌∷◌, ◌++◌, Result, ok, panic, out_of_fuel, ◌>>=◌, ◌>>◌, panic_if,
}
use ntnu_courses.Str.{memmove}
use ntnu_courses.Alloc.{Kmem, pgsize, kalloc, kref_dec}
use ntnu_courses.Vm.{
  Vm, pte_v, pte_w, pte_u, pte_cow, has, set_flag, clear_flag, pa2pte, pte2pa, pte_flags, maxva,
  set_pte, walk,
}

-- PA2PTE(mem) | (PTE_FLAGS(*pte) & ~PTE_COW) | PTE_W
abbrev pub private_entry : ℕ → ℕ → ℕ
private_entry mem pte = pa2pte mem + set_flag pte_w (clear_flag pte_cow (pte_flags pte))

module _ (kernel_end : ℕ) where
  -- The branch for PTE_COW of the entry at `a`; true is setkilled.
  unfoldable pub copy_on_write : ℕ → Vm → Result (Bool × Vm)
  copy_on_write a s = kalloc s.kmem >>= λ (mem, kmem).
      if mem == 0
      then ok (true, record s { kmem = kmem })
      else kref_dec kernel_end (pte2pa (s.pte a))
          (record kmem { mem = memmove kmem.mem mem (pte2pa (s.pte a)) pgsize })
        >>= (λ kmem2.
            ok (false, set_pte a (private_entry mem (s.pte a)) (record s { kmem = kmem2 })))

  -- The branch of usertrap for scause 15, at the address r_stval(); whether setkilled was called.
  unfoldable pub store_fault : ℕ → ℕ → Vm → Result (Bool × Vm)
  unfolding copy_on_write
  store_fault pagetable va s =
      let found = λ (a : ℕ) (t : Vm).
        if a == 0 || not (has pte_v (t.pte a)) || not (has pte_u (t.pte a))
        then ok (true, t)
        else if has pte_cow (t.pte a)
        then copy_on_write a t
        else ok (true, t) in
      if leb maxva va then ok (true, s) else walk false pagetable va s >>= λ (a, t). found a t

-- What devintr calls.
pub data Call : Type 0 where
  uartintr : Call
  virtio_disk_intr : Call
  unexpected : ℕ → Call
  plic_complete : ℕ → Call
  clockintr : Call
  clear_ssip : Call

abbrev pub uart0_irq : ℕ
uart0_irq = 10

abbrev pub virtio0_irq : ℕ
virtio0_irq = 1

-- The calls for the interrupt that plic_claim() returned.
abbrev pub serve : ℕ → List Call
serve irq =
    (if irq == uart0_irq
      then uartintr ∷ []
      else if irq == virtio0_irq
      then virtio_disk_intr ∷ []
      else if not (irq == 0)
      then unexpected irq ∷ []
      else [])
    ++ (if not (irq == 0) then plic_complete irq ∷ [] else [])

-- By scause, the claimed interrupt and cpuid(): the value returned, and the calls in their order.
unfoldable pub devintr : ℕ → ℕ → ℕ → ℕ × List Call
devintr scause irq cpu =
    if leb (2 ^ 63) scause && scause % 256 == 9
    then (1, serve irq)
    else if scause == 2 ^ 63 + 1
    then (2, (if cpu == 0 then clockintr ∷ [] else []) ++ (clear_ssip ∷ []))
    else (0, [])
