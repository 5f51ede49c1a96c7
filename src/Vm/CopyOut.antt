-- ===== src/Vm/CopyOut.antt =====
-- TDT4186 - OS/Labs/Lab3/kernel/vm.c: copyout within a page, and who sees it.
use ntnu_courses.Base.{
  ℕ, zero, suc, ◌+◌, ◌-◌, ◌*◌, ◌/◌, ◌%◌, ◌≤◌, ◌<◌, ◌≡◌, ◌≢◌, refl, ap, ◌∙◌, true, ◌&&◌, ltb, leb,
  if◌then◌else◌, ==_ne, arith, lt→ltb, ltb-eq-false, dec_lt, ok,
}
use ntnu_courses.Str.{Mem, memmove}
use ntnu_courses.Str.Move.{memmove_lem}
use ntnu_courses.Alloc.{pgsize}
use ntnu_courses.Vm.{Vm, maxva, walkaddr}
use ntnu_courses.Vm.Tree.{Own, IsForest}
use ntnu_courses.Vm.View.{IsRoot, view}
use ntnu_courses.Vm.Addr.{user_page}
use ntnu_courses.Vm.CopyIn.{phys, page_of, moved_away}
use ntnu_courses.Vm.Transfer.{set_mem, part, copyout_from, copyout}

copyout_stop :
    (fuel root va src n : ℕ) (s : Vm)
    → n ≡ 0
    → copyout_from (suc fuel) root va src n s ≡ ok (true, s)
unfolding copyout_from
copyout_stop fuel root va src n s z = rw (z) refl

copyout_round :
    (fuel root va src len pa : ℕ) (s : Vm)
    → 0 < len
    → walkaddr root (va / pgsize * pgsize) s ≡ ok pa
    → pa ≢ 0
    → copyout_from (suc fuel) root va src len s
      ≡ copyout_from fuel root
          (va / pgsize * pgsize + pgsize)
          (src + part va len)
          (len - part va len)
          (set_mem (memmove s.kmem.mem (pa + (va - va / pgsize * pgsize)) src (part va len)) s)
unfolding copyout_from
copyout_round fuel root va src len pa s pos w ne =
    rw (lt→ltb 0 len pos, w) (grind (arith, ==_ne pa 0 ne))

part_all : (va len : ℕ) → va % pgsize + len ≤ pgsize → part va len ≡ len
part_all va len fits = elim (dec_lt len (pgsize - va % pgsize)) [
  | yes lt ↦ rw (lt→ltb len (pgsize - va % pgsize) lt) refl
  | no ge ↦
      rw (ltb-eq-false len (pgsize - va % pgsize) (omega (arith, ge))) (omega (arith, ge, fits))
]

arrived : (m : Mem) (dst src n i : ℕ) → i < n → memmove m dst src n (dst + i) ≡ m (src + i)
arrived m dst src n i lt =
    memmove_lem m dst src n (dst + i)
    ∙ inside (m (src + (dst + i - dst))) (m (dst + i))
    ∙ ap m (omega arith)
  where
    inside : (x y : ℕ) → (if leb dst (dst + i) && ltb (dst + i) (dst + n) then x else y) ≡ x
    inside x y = ground (arith, lt)

copyout_run :
    (n root va src pa : ℕ) (s : Vm)
    → part va n ≡ n
    → 0 < n
    → walkaddr root (va / pgsize * pgsize) s ≡ ok pa
    → pa ≢ 0
    → copyout_from (suc n) root va src n s
      ≡ ok (true, set_mem (memmove s.kmem.mem (pa + (va - va / pgsize * pgsize)) src n) s)
copyout_run zero root va src pa s all pos w ne = absurd (omega (arith, pos))
copyout_run (suc k) root va src pa s all pos w ne =
    copyout_round (suc k) root va src (suc k) pa s pos w ne
    ∙ copyout_stop k root (va / pgsize * pgsize + pgsize) (src + part va (suc k))
        (suc k - part va (suc k))
        (set_mem (memmove s.kmem.mem (pa + (va - va / pgsize * pgsize)) src (part va (suc k))) s)
        (omega (arith, all))
    ∙ ap (λ n. ok (true, set_mem (memmove s.kmem.mem (pa + (va - va / pgsize * pgsize)) src n) s))
        all

-- copyout of `len` bytes into one page that the user can read, whatever the flags PTE_W and PTE_COW of its
-- entry, returns 0, changes no page table and no byte of memory but those of the page; and every address
-- of every page table that leads to the same byte of the same page of memory then sees the new bytes.
pub copyout_shared :
    (kernel_end root other va va' src len : ℕ) (own : Own) (s : Vm)
    → IsForest own kernel_end s
    → IsRoot own root
    → va < maxva
    → 0 < len
    → va % pgsize + len ≤ pgsize
    → user_page (view root va s) ≢ 0
    → phys other va' s ≡ phys root va s
    → (s' : Vm) × (copyout root va src len s ≡ ok (true, s'))
      × (s'.pte ≡ s.pte)
      × ((i : ℕ) → i < len → s'.kmem.mem (phys root va s' + i) ≡ s.kmem.mem (src + i))
      × ((i : ℕ) → i < len → s'.kmem.mem (phys other va' s' + i) ≡ s.kmem.mem (src + i))
      × ((x : ℕ) → ((i : ℕ) → i < len → phys root va s + i ≢ x) → s'.kmem.mem x ≡ s.kmem.mem x)
unfolding copyout
copyout_shared kernel_end root other va va' src len own s h e lt pos fits mapped same =
    let pa : ℕ = user_page (view root va s) in
    let m : Mem = memmove s.kmem.mem (phys root va s) src len in
    let offset : pa + (va - va / pgsize * pgsize) ≡ phys root va s = omega arith in
    (
      set_mem m s,
      copyout_run len root va src pa s (part_all va len fits) pos
            (page_of kernel_end root va own s h e lt) mapped
          ∙ ap (λ d. ok (true, set_mem (memmove s.kmem.mem d src len) s)) offset,
      refl,
      (λ i l. arrived s.kmem.mem (phys root va s) src len i l),
      (λ i l. ap (λ z. m (z + i)) same ∙ arrived s.kmem.mem (phys root va s) src len i l),
      (λ x off. moved_away s.kmem.mem (phys root va s) src len x off),
    )
