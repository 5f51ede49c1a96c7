-- ===== src/Vm/CopyIn.antt =====
-- TDT4186 - OS/Labs/Lab3/kernel/vm.c: copyin byte by byte.
use ntnu_courses.Base.{
  ℕ, zero, suc, ◌+◌, ◌-◌, ◌*◌, ◌/◌, ◌%◌, ◌≤◌, ◌<◌, ◌≡◌, ◌≢◌, ◌⊎◌, refl, sym, ap, ◌∙◌, inl, inr,
  Bool, true, ◌&&◌, ltb, leb, if◌then◌else◌, ==_ne, arith, lt→ltb, dec_lt, Result, ok,
}
use ntnu_courses.Str.{Mem, memmove}
use ntnu_courses.Str.Move.{memmove_lem}
use ntnu_courses.Alloc.{pgsize}
use ntnu_courses.Vm.{Vm, maxva, walkaddr}
use ntnu_courses.Vm.Tree.{Own, IsForest}
use ntnu_courses.Vm.View.{IsRoot, view, kmem-IsForest, same_list-IsValid}
use ntnu_courses.Vm.Addr.{user_page, walkaddr-view, view_page}
use ntnu_courses.Vm.Transfer.{set_mem, part, copyin_from, copyin}

-- The physical address of a byte of the user, where its page is mapped.
abbrev pub phys : ℕ → ℕ → Vm → ℕ
phys root va s = user_page (view root va s) + va % pgsize

-- The user's byte at each address below `va + len` is mapped.
abbrev pub Readable : ℕ → ℕ → ℕ → Vm → Type 0
Readable root va len s = (w : ℕ) → va ≤ w → w < va + len → user_page (view root w s) ≢ 0

pub set_mem-IsForest :
    (kernel_end : ℕ) (own : Own) (m : Mem) (s : Vm)
    → IsForest own kernel_end s
    → IsForest own kernel_end (set_mem m s)
set_mem-IsForest kernel_end own m s h =
    kmem-IsForest kernel_end own s (record s.kmem { mem = m }) h
      (same_list-IsValid kernel_end s.kmem (record s.kmem { mem = m }) h.valid refl refl refl)
      h.free

-- The page of an address that the user can read.
pub page_of :
    (kernel_end root va : ℕ) (own : Own) (s : Vm)
    → IsForest own kernel_end s
    → IsRoot own root
    → va < maxva
    → walkaddr root (va / pgsize * pgsize) s ≡ ok (user_page (view root va s))
page_of kernel_end root va own s h e lt =
    walkaddr-view kernel_end root (va / pgsize * pgsize) own s h e
    ∙ ap ok (
        rw (lt→ltb (va / pgsize * pgsize) maxva (omega (arith, lt)))
          (ap user_page (sym (view_page root va s))))

pub part_lem :
    (va len : ℕ)
    → 0 < len
    → (0 < part va len)
      × (part va len ≤ len)
      × (va % pgsize + part va len ≤ pgsize)
      × ((part va len ≡ len) ⊎ (va + part va len ≡ va / pgsize * pgsize + pgsize))
part_lem va len pos = (
  ground (arith, pos),
  ground (arith, pos),
  ground (arith, pos),
  step_end (dec_lt len (pgsize - va % pgsize)),
)
  where
    step_end :
        Dec (len < pgsize - va % pgsize)
        → (part va len ≡ len) ⊎ (va + part va len ≡ va / pgsize * pgsize + pgsize)
    step_end (yes lt) = inl (ground (arith, lt))
    step_end (no ge) = inr (ground (arith, ge))

copyin_stop :
    (fuel root dst va : ℕ) (s : Vm) → copyin_from (suc fuel) root dst va 0 s ≡ ok (true, s)
unfolding copyin_from
copyin_stop fuel root dst va s = refl

copyin_round :
    (fuel root dst va len pa : ℕ) (s : Vm)
    → 0 < len
    → walkaddr root (va / pgsize * pgsize) s ≡ ok pa
    → pa ≢ 0
    → copyin_from (suc fuel) root dst va len s
      ≡ copyin_from fuel root
          (dst + part va len)
          (va / pgsize * pgsize + pgsize)
          (len - part va len)
          (set_mem (memmove s.kmem.mem dst (pa + (va - va / pgsize * pgsize)) (part va len)) s)
unfolding copyin_from
copyin_round fuel root dst va len pa s pos w ne =
    rw (lt→ltb 0 len pos, w) (grind (arith, ==_ne pa 0 ne))

same_page : (root va w : ℕ) (s : Vm) → va / pgsize ≡ w / pgsize → view root va s ≡ view root w s
same_page root va w s e =
    view_page root va s ∙ ap (λ z. view root (z * pgsize) s) e ∙ sym (view_page root w s)

-- The byte `i` of a move within the page of `va`.
moved_here :
    (root dst va n i : ℕ) (s : Vm)
    → i < n
    → va % pgsize + n ≤ pgsize
    → memmove s.kmem.mem dst (user_page (view root va s) + (va - va / pgsize * pgsize)) n (dst + i)
      ≡ s.kmem.mem (phys root (va + i) s)
moved_here root dst va n i s lt fits =
    let pa : ℕ = user_page (view root va s) in
    let start : pa + (va - va / pgsize * pgsize) + (dst + i - dst) ≡ pa + (va % pgsize + i) =
      omega arith in
    let same = same_page root va (va + i) s (omega (arith, lt, fits)) in
    let offset : va % pgsize + i ≡ (va + i) % pgsize = omega (arith, lt, fits) in
    memmove_lem s.kmem.mem dst (pa + (va - va / pgsize * pgsize)) n (dst + i)
    ∙ inside (s.kmem.mem (pa + (va - va / pgsize * pgsize) + (dst + i - dst)))
        (s.kmem.mem (dst + i))
    ∙ ap s.kmem.mem (
        start
        ∙ ap (λ z. user_page z + (va % pgsize + i)) same
        ∙ ap (λ z. user_page (view root (va + i) s) + z) offset)
  where
    inside : (x y : ℕ) → (if leb dst (dst + i) && ltb (dst + i) (dst + n) then x else y) ≡ x
    inside x y = ground (arith, lt)

pub moved_away :
    (m : Mem) (dst src n x : ℕ) → ((i : ℕ) → i < n → dst + i ≢ x) → memmove m dst src n x ≡ m x
moved_away m dst src n x off = memmove_lem m dst src n x ∙ outside (m (src + (x - dst))) (m x)
  where
    outside : (y z : ℕ) → (if leb dst x && ltb x (dst + n) then y else z) ≡ z
    outside y z = ground (arith, off (x - dst))

assoc : (a b c : ℕ) → a + (b + c) ≡ a + b + c
assoc a b c = omega arith

-- The run of copyin: it succeeds, leaves the tables, and brings the bytes of the user to dst.
abbrev pub Brings : ℕ → ℕ → ℕ → ℕ → Vm → Result (Bool × Vm) → Type 0
Brings root dst va len s run =
    (s' : Vm) × (run ≡ ok (true, s'))
    × (s'.pte ≡ s.pte)
    × ((i : ℕ) → i < len → s'.kmem.mem (dst + i) ≡ s.kmem.mem (phys root (va + i) s))
    × ((x : ℕ) → (x < dst) ⊎ (dst + len ≤ x) → s'.kmem.mem x ≡ s.kmem.mem x)

module _ (kernel_end root : ℕ) (own : Own) (e : IsRoot own root) where
  copyin_from-Brings :
      (fuel len dst va : ℕ) (s : Vm)
      → IsForest own kernel_end s
      → len < fuel
      → va + len ≤ maxva
      → Readable root va len s
      → ((i j : ℕ) → i < len → j < len → dst + i ≢ phys root (va + j) s)
      → Brings root dst va len s (copyin_from fuel root dst va len s)
  copyin_from-Brings zero len dst va s h f bound read apart = absurd (omega (arith, f))
  copyin_from-Brings (suc fuel) zero dst va s h f bound read apart =
      (s, copyin_stop fuel root dst va s, refl, (λ i lt. absurd (omega (arith, lt))), λ x o. refl)
  copyin_from-Brings (suc fuel) (suc k) dst va s h f bound read apart =
      let n : ℕ = part va (suc k) in
      let va' : ℕ = va / pgsize * pgsize + pgsize in
      let pa : ℕ = user_page (view root va s) in
      let (more, within, fits, ends) = part_lem va (suc k) (omega arith) in
      let m : Mem = memmove s.kmem.mem dst (pa + (va - va / pgsize * pgsize)) n in
      let on : (j : ℕ) → j < suc k - n → va' + j ≡ va + (n + j) =
        λ j lt. elim ends [ inl q ↦ absurd (omega (arith, q, lt)) | inr q ↦ omega (arith, q) ] in
      let (s', run, tables, bytes, others) =
        copyin_from-Brings fuel (suc k - n) (dst + n) va' (set_mem m s)
          (set_mem-IsForest kernel_end own m s h) (omega (arith, f, more))
          (elim ends [ inl q ↦ omega (arith, q, bound) | inr q ↦ omega (arith, q, bound, within) ])
          (λ w lo hi.
            let z = on (w - va') (omega (arith, lo, hi)) in
            read w (omega (arith, z, lo, hi)) (omega (arith, z, lo, hi, within)))
          (λ i j li lj. λ z.
            apart (n + i) (n + j) (omega (arith, li)) (omega (arith, lj))
              (assoc dst n i ∙ z ∙ ap (λ y. phys root y s) (on j lj))) in
      (
        s',
        copyin_round fuel root dst va (suc k) pa s (omega arith)
              (page_of kernel_end root va own s h e (omega (arith, bound)))
              (read va (omega arith) (omega arith))
            ∙ run,
        tables,
        (λ i lt. elim (dec_lt i n) [
          | yes lo ↦
              others (dst + i) (inl (omega (arith, lo))) ∙ moved_here root dst va n i s lo fits
          | no hi ↦
              let j : ℕ = i - n in
              let here : dst + i ≡ dst + n + j = omega (arith, hi) in
              let lj : j < suc k - n = omega (arith, hi, lt) in
              let there : va' + j ≡ va + i = on j lj ∙ omega (arith, hi) in
              ap s'.kmem.mem here
              ∙ bytes j lj
              ∙ ap (λ y. m (phys root y s)) there
              ∙ moved_away s.kmem.mem dst (pa + (va - va / pgsize * pgsize)) n
                  (phys root (va + i) s) (λ q lq. apart q i (omega (arith, lq, within)) lt)
        ]),
        (λ x o.
            others x
              (elim o [ inl a ↦ inl (omega (arith, a)) | inr b ↦ inr (omega (arith, b, within)) ])
            ∙ moved_away s.kmem.mem dst (pa + (va - va / pgsize * pgsize)) n x (λ q lq z. elim o [
              | inl a ↦ omega (arith, a, z)
              | inr b ↦ omega (arith, b, z, lq, within)
            ])),
      )

  -- Where the user can read all bytes from va on, `len` of them, below MAXVA, and none of them lies in
  -- the target, copyin returns 0, changes no page table, leaves in the target the bytes that the user
  -- sees, page boundaries included, and writes nothing else.
  pub copyin-Brings :
      (len dst va : ℕ) (s : Vm)
      → IsForest own kernel_end s
      → va + len ≤ maxva
      → Readable root va len s
      → ((i j : ℕ) → i < len → j < len → dst + i ≢ phys root (va + j) s)
      → Brings root dst va len s (copyin root dst va len s)
  unfolding copyin
  copyin-Brings len dst va s h bound read apart =
      copyin_from-Brings (suc len) len dst va s h (omega arith) bound read apart
