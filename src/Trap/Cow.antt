-- ===== src/Trap/Cow.antt =====
-- TDT4186 - OS/Labs/Lab3/kernel/trap.c: a store to a shared page gives the process a page of its own.
use ntnu_courses.Base.{
  ℕ, suc, ◌+◌, ◌-◌, ◌/◌, ◌%◌, ◌^◌, ◌≤◌, ◌<◌, ◌≡◌, ◌≢◌, ◌⊎◌, refl, sym, ap, ◌∙◌, subst, inl, inr,
  true, false, ◌&&◌, ltb, leb, ◌==◌, if◌then◌else◌, update_ne, update_self, All, ==_ne, ℕ_discrete,
  arith, ◌∷◌, none, ok,
}
use ntnu_courses.Str.{memmove}
use ntnu_courses.Str.Move.{memmove_lem}
use ntnu_courses.Alloc.{Kmem, pgsize, pa_to_idx, kalloc}
use ntnu_courses.Alloc.Inv.{kalloc-IsValid, kalloc_mem, kalloc_counts}
use ntnu_courses.Alloc.Refs.{with_count, kref_dec_shared}
use ntnu_courses.Vm.{
  Vm, pte_v, pte_w, pte_u, pte_cow, has, set_flag, clear_flag, pte_flags, pte2pa, vpn, maxva,
  set_pte, walk,
}
use ntnu_courses.Vm.Tree.{Own, IsForest}
use ntnu_courses.Vm.Walk.{slot-ne-null}
use ntnu_courses.Vm.View.{
  kmem-IsForest, same_list-IsValid, IsRoot, view, Remaps, At, walk-view, store-Remaps,
}
use ntnu_courses.Trap.{private_entry, copy_on_write, store_fault}

flags_lt : (f : ℕ) → f < 1024 → set_flag pte_w (clear_flag pte_cow f) < 1024
flags_lt f lt = ground arith

flags_write : (f : ℕ) → has pte_w (set_flag pte_w (clear_flag pte_cow f)) ≡ true
flags_write f = ground arith

flags_private : (f : ℕ) → has pte_cow (set_flag pte_w (clear_flag pte_cow f)) ≡ false
flags_private f = ground arith

-- The new entry can be written, is not marked as copy-on-write and leads to the new page.
pub private_entry_lem :
    (n pte : ℕ)
    → n % 4096 ≡ 0
    → n < 2 ^ 56
    → (has pte_w (private_entry n pte) ≡ true)
      × (has pte_cow (private_entry n pte) ≡ false)
      × (pte2pa (private_entry n pte) ≡ n)
private_entry_lem n pte a lt = (
  ap (λ z. z == 1) (omega arith) ∙ flags_write (pte_flags pte),
  ap (λ z. z == 1) (omega arith) ∙ flags_private (pte_flags pte),
  omega (arith, a, lt, flags_lt (pte_flags pte) (omega arith)),
)

store_fault_cow :
    (kernel_end root va a v : ℕ) (s : Vm)
    → va < maxva
    → walk false root va s ≡ ok (a, s)
    → a ≢ 0
    → s.pte a ≡ v
    → has pte_v v ≡ true
    → has pte_u v ≡ true
    → has pte_cow v ≡ true
    → store_fault kernel_end root va s ≡ copy_on_write kernel_end a s
unfolding store_fault
store_fault_cow kernel_end root va a v s lt w ne same valid user cow =
    rw (w, ==_ne a 0 ne, same, valid, user, cow) (ground (arith, lt))

copy_on_write_shared :
    (kernel_end a v n c : ℕ) (s : Vm) (kmem : Kmem)
    → s.pte a ≡ v
    → kalloc s.kmem ≡ ok (n, kmem)
    → (n == 0) ≡ false
    → kmem.refcounts (pa_to_idx (pte2pa v)) ≡ suc c
    → 0 < c
    → c < 255
    → copy_on_write kernel_end a s
      ≡ ok (
        false,
        set_pte a (private_entry n v) (record s {
          kmem =
              with_count (pte2pa v) c (record kmem { mem = memmove kmem.mem n (pte2pa v) pgsize });
        }),
      )
unfolding copy_on_write
copy_on_write_shared kernel_end a v n c s kmem same e ne count lo hi =
    rw (e, same, ne)
      (rw
        (kref_dec_shared kernel_end (pte2pa v) c
          (record kmem { mem = memmove kmem.mem n (pte2pa v) pgsize }) count lo hi)
        refl)

-- A page that was copied from another, over what `m0` was outside the new page.
copied_bytes :
    (m0 m : ℕ → ℕ) (n pa i : ℕ)
    → ((a : ℕ) → (a < n) ⊎ (n + pgsize ≤ a) → m a ≡ m0 a)
    → n % pgsize ≡ 0
    → pa % pgsize ≡ 0
    → n ≢ pa
    → i < pgsize
    → memmove m n pa pgsize (n + i) ≡ m0 (pa + i)
copied_bytes m0 m n pa i out an ap' ne lt =
    memmove_lem m n pa pgsize (n + i)
    ∙ inside (m (pa + (n + i - n))) (m (n + i))
    ∙ ap m (omega arith)
    ∙ out (pa + i) (apart (ℕ_discrete (pa / pgsize) (n / pgsize)))
  where
    inside : (x y : ℕ) → (if leb n (n + i) && ltb (n + i) (n + pgsize) then x else y) ≡ x
    inside x y = ground (arith, lt)

    apart : Dec (pa / pgsize ≡ n / pgsize) → (pa + i < n) ⊎ (n + pgsize ≤ pa + i)
    apart (yes same) = absurd (ne (omega (arith, an, ap', same)))
    apart (no off) = ground (arith, off, an, ap', lt)

outside_bytes :
    (m0 m : ℕ → ℕ) (n pa x : ℕ)
    → ((a : ℕ) → (a < n) ⊎ (n + pgsize ≤ a) → m a ≡ m0 a)
    → (x < n) ⊎ (n + pgsize ≤ x)
    → memmove m n pa pgsize x ≡ m0 x
outside_bytes m0 m n pa x keep out =
    memmove_lem m n pa pgsize x ∙ beyond (m (pa + (x - n))) (m x) out ∙ keep x out
  where
    beyond :
        (y z : ℕ)
        → (x < n) ⊎ (n + pgsize ≤ x)
        → (if leb n x && ltb x (n + pgsize) then y else z) ≡ z
    beyond y z (inl lo) = ground (arith, lo)
    beyond y z (inr hi) = ground (arith, hi)

-- A store by the user to a page that is marked as copy-on-write and whose page of memory, in use, is
-- referred to c + 1 times (0 < c < 255): where a page is free, the fault does not kill the process;
-- the entry then leads to a page that was free, can be written, is not marked as copy-on-write and has
-- its other flags as before; the new page has count 1 and the bytes of the shared page; the entry of no other address of any page table and no byte of memory outside the new page
-- has changed, and the count of the shared page is c.
pub store_fault-private :
    (kernel_end root va c : ℕ) (own : Own) (s : Vm)
    → 0 < kernel_end
    → IsForest own kernel_end s
    → IsRoot own root
    → va < maxva
    → has pte_v (view root va s) ≡ true
    → has pte_u (view root va s) ≡ true
    → has pte_cow (view root va s) ≡ true
    → All (λ y. pa_to_idx y ≢ pa_to_idx (pte2pa (view root va s))) s.kmem.freelist
    → s.kmem.refcounts (pa_to_idx (pte2pa (view root va s))) ≡ suc c
    → 0 < c
    → c < 255
    → 0 < s.kmem.free_pages
    → (n : ℕ) × (s' : Vm) × (store_fault kernel_end root va s ≡ ok (false, s'))
      × Remaps kernel_end own own (At root (va / 4096)) s s'
      × (view root va s' ≡ private_entry n (view root va s))
      × (pte2pa (view root va s') ≡ n)
      × (has pte_w (view root va s') ≡ true)
      × (has pte_cow (view root va s') ≡ false)
      × (s.kmem.freelist ≡ n ∷ s'.kmem.freelist)
      × ((i : ℕ) → i < pgsize → s'.kmem.mem (n + i) ≡ s.kmem.mem (pte2pa (view root va s) + i))
      × ((x : ℕ) → (x < n) ⊎ (n + pgsize ≤ x) → s'.kmem.mem x ≡ s.kmem.mem x)
      × (s'.kmem.refcounts (pa_to_idx n) ≡ 1)
      × (s'.kmem.refcounts (pa_to_idx (pte2pa (view root va s))) ≡ c)
unfolding vpn
store_fault-private kernel_end root va c own s pos h e lt valid user cow used count lo hi room =
    let v : ℕ = view root va s in
    let pa : ℕ = pte2pa v in
    let (a, w, at, here, same) = walk-view kernel_end own s h root va e lt valid in
    let (n, kmem, k, page, ok_kmem, list, apart, one) =
      kalloc-IsValid kernel_end s.kmem h.valid room in
    let (new, rest) : (own n ≡ none) × All (λ y. own y ≡ none) kmem.freelist =
      subst (All (λ y. own y ≡ none)) list h.free in
    let (away, others) : (pa_to_idx n ≢ pa_to_idx pa)
        × All (λ y. pa_to_idx y ≢ pa_to_idx pa) kmem.freelist =
      subst (All (λ y. pa_to_idx y ≢ pa_to_idx pa)) list used in
    let (kept, same_count) = kalloc_counts kernel_end s.kmem kmem n (pa_to_idx pa) k used in
    let kmem1 : Kmem = with_count pa c (record kmem { mem = memmove kmem.mem n pa pgsize }) in
    let ok1 = same_list-IsValid kernel_end kmem kmem1 ok_kmem refl refl refl in
    let h1 = kmem-IsForest kernel_end own s kmem1 h ok1 rest in
    let (g, now) =
      store-Remaps kernel_end own (record s { kmem = kmem1 }) h1 root va a (private_entry n v) e lt
        at here in
    let ne = slot-ne-null own kernel_end s h root va a 0 at in
    let (writable, private, leads) =
      private_entry_lem n v page.aligned (omega (arith, page.below)) in
    (
      n,
      set_pte a (private_entry n v) (record s { kmem = kmem1 }),
      store_fault_cow kernel_end root va a v s lt w ne same valid user cow
          ∙ copy_on_write_shared kernel_end a v n c s kmem same k
              (==_ne n 0 (omega (arith, pos, page.above))) (same_count ∙ count) lo hi,
      record { forest = g.forest; owners = g.owners; outside = g.outside },
      now,
      ap pte2pa now ∙ leads,
      ap (has pte_w) now ∙ writable,
      ap (has pte_cow) now ∙ private,
      list,
      (λ i small.
          copied_bytes s.kmem.mem kmem.mem n pa i
            (λ b out. kalloc_mem kernel_end s.kmem kmem n b k list out) page.aligned (omega arith)
            (λ z. away (ap pa_to_idx z)) small),
      (λ x out.
          outside_bytes s.kmem.mem kmem.mem n pa x
            (λ b o. kalloc_mem kernel_end s.kmem kmem n b k list o) out),
      update_ne kmem.refcounts (pa_to_idx pa) (pa_to_idx n) c (λ z. away (sym z)) ∙ one,
      update_self kmem.refcounts (pa_to_idx pa) c,
    )
