-- ===== src/Vm/Walk.antt =====
-- TDT4186 - OS/Labs/Lab3/kernel/vm.c: what walk finds and makes, and what a store into an entry that it
-- found changes.
use ntnu_courses.Base.{
  ℕ, zero, suc, ◌+◌, ◌*◌, ◌<◌, ◌≡◌, ◌≢◌, ◌⊎◌, refl, sym, ap, ap₂, ◌∙◌, inl, inr, true, false,
  Option, some, if◌then◌else◌, update, update_ne, update_self, Bool-cases, arith, ok,
}
use ntnu_courses.Vm.{Vm, pte_v, has, pte2pa, vpn, px, entry, set_pte, walk_from}
use ntnu_courses.Vm.Tree.{Own, leaf, IsForest, px-lt, vpn-px, entry-injective}

-- The address of the entry for `va` of the table tree at `p`, 0 where a table is missing.
unfoldable pub slot : ℕ → ℕ → ℕ → (ℕ → ℕ) → ℕ
slot zero p va pte = entry p 0 va
slot (suc l) p va pte =
    let rest = slot l (pte2pa (pte (entry p (suc l) va))) va pte in
    if has pte_v (pte (entry p (suc l) va)) then rest else 0

pub slot_down :
    (l p va : ℕ) (pte : ℕ → ℕ)
    → has pte_v (pte (entry p (suc l) va)) ≡ true
    → slot (suc l) p va pte ≡ slot l (pte2pa (pte (entry p (suc l) va))) va pte
unfolding slot
slot_down l p va pte valid = rw valid refl

slot_cut :
    (l p va : ℕ) (pte : ℕ → ℕ)
    → has pte_v (pte (entry p (suc l) va)) ≡ false
    → slot (suc l) p va pte ≡ 0
unfolding slot
slot_cut l p va pte missing = rw missing refl

-- walk without alloc finds the slot and changes nothing.
pub walk_from-slot : (l p va : ℕ) (s : Vm) → walk_from false l p va s ≡ ok (slot l p va s.pte, s)
unfolding walk_from slot
walk_from-slot zero p va s = refl
walk_from-slot (suc l) p va s = elim (Bool-cases (has pte_v (s.pte (entry p (suc l) va)))) [
  | inl e ↦ rw e (walk_from-slot l (pte2pa (s.pte (entry p (suc l) va))) va s)
  | inr e ↦ rw e refl
]

-- The address of an entry of the lowest level that serves `va` under the root `r`.
pub record IsSlot (own : Own) (r va a : ℕ) : Type 0 where
  pub table : ℕ
  pub owner : own table ≡ some (r, 0, vpn 1 va)
  pub address : a ≡ entry table 0 va

owner_clash :
    (o : Option (ℕ × ℕ × ℕ)) (a b c d e : ℕ) → o ≡ some (a, suc b, c) → o ≡ some (d, 0, e) → ⊥
owner_clash o a b c d e f g = cc

owner_same :
    (o : Option (ℕ × ℕ × ℕ)) (a b c d e f : ℕ)
    → o ≡ some (a, b, c)
    → o ≡ some (d, e, f)
    → (a ≡ d) × (c ≡ f)
owner_same o a b c d e f h k = (cc, cc)

module _ (own : Own) (kernel_end : ℕ) (s : Vm) (h : IsForest own kernel_end s) where
  pub child_owner :
      (p r l va : ℕ)
      → own p ≡ some (r, suc l, vpn (suc (suc l)) va)
      → has pte_v (s.pte (entry p (suc l) va)) ≡ true
      → own (pte2pa (s.pte (entry p (suc l) va))) ≡ some (r, l, vpn (suc l) va)
  child_owner p r l va e valid =
      h.child p r l (vpn (suc (suc l)) va) (px (suc l) va) e (px-lt (suc l) va) valid
      ∙ ap (λ x. some (r, l, x)) (vpn-px (suc l) va)

  -- Where the slot is missing the leaf is 0; else it is the entry in the slot.
  pub slot-leaf :
      (l p r va : ℕ)
      → own p ≡ some (r, l, vpn (suc l) va)
      → ((slot l p va s.pte ≡ 0) × (leaf l p va s.pte ≡ 0))
        ⊎ (IsSlot own r va (slot l p va s.pte) × (s.pte (slot l p va s.pte) ≡ leaf l p va s.pte))
  unfolding slot leaf
  slot-leaf zero p r va e = inr (record { table = p; owner = e; address = refl }, refl)
  slot-leaf (suc l) p r va e = elim (Bool-cases (has pte_v (s.pte (entry p (suc l) va)))) [
    | inl valid ↦
        rw valid
          (slot-leaf l (pte2pa (s.pte (entry p (suc l) va))) r va (child_owner p r l va e valid))
    | inr missing ↦ rw missing (inl (refl, refl))
  ]

  module _ (r va a v : ℕ) (at_a : IsSlot own r va a) where
    pub slot-ne-null : a ≢ 0
    slot-ne-null z =
        let t = h.tables at_a.table r 0 (vpn 1 va) at_a.owner in
        ground (arith, t.some_page, at_a.address, z)

    above :
        (p r' l x j : ℕ)
        → own p ≡ some (r', suc l, x)
        → j < 512
        → update s.pte a v (p + 8 * j) ≡ s.pte (p + 8 * j)
    above p r' l x j e lt = update_ne s.pte a (p + 8 * j) v (λ z.
        let (same, index) =
          entry-injective at_a.table p (px 0 va) j
            (h.tables at_a.table r 0 (vpn 1 va) at_a.owner).aligned
            (h.tables p r' (suc l) x e).aligned (px-lt 0 va) lt (sym at_a.address ∙ z) in
        owner_clash (own p) r' l x r (vpn 1 va) e (sym (ap own same) ∙ at_a.owner))

    beside :
        (p r' va' : ℕ)
        → own p ≡ some (r', 0, vpn 1 va')
        → ¬ ((r' ≡ r) × (vpn 0 va' ≡ vpn 0 va))
        → update s.pte a v (entry p 0 va') ≡ s.pte (entry p 0 va')
    beside p r' va' e ne = update_ne s.pte a (entry p 0 va') v (λ z.
        let (same, index) =
          entry-injective at_a.table p (px 0 va) (px 0 va')
            (h.tables at_a.table r 0 (vpn 1 va) at_a.owner).aligned
            (h.tables p r' 0 (vpn 1 va') e).aligned (px-lt 0 va) (px-lt 0 va')
            (sym at_a.address ∙ z) in
        let (root, page) =
          owner_same (own p) r' 0 (vpn 1 va') r 0 (vpn 1 va) e (sym (ap own same) ∙ at_a.owner) in
        ne (root, sym (vpn-px 0 va') ∙ ap₂ (λ x y. x * 512 + y) page (sym index) ∙ vpn-px 0 va))

    -- A store into the slot changes no slot.
    pub store-slot :
        (l p r' va' : ℕ)
        → own p ≡ some (r', l, vpn (suc l) va')
        → slot l p va' (update s.pte a v) ≡ slot l p va' s.pte
    unfolding slot
    store-slot zero p r' va' e = refl
    store-slot (suc l) p r' va' e =
        rw (above p r' l (vpn (suc (suc l)) va') (px (suc l) va') e (px-lt (suc l) va'))
          (elim (Bool-cases (has pte_v (s.pte (entry p (suc l) va')))) [
            | inl valid ↦ rw valid (
                store-slot l (pte2pa (s.pte (entry p (suc l) va'))) r' va'
                  (child_owner p r' l va' e valid))
            | inr missing ↦ rw missing refl
          ])

    -- It changes the leaf of no other page and of no other root,
    pub store-leaf_other :
        (l p r' va' : ℕ)
        → own p ≡ some (r', l, vpn (suc l) va')
        → ¬ ((r' ≡ r) × (vpn 0 va' ≡ vpn 0 va))
        → leaf l p va' (update s.pte a v) ≡ leaf l p va' s.pte
    unfolding leaf
    store-leaf_other zero p r' va' e ne = beside p r' va' e ne
    store-leaf_other (suc l) p r' va' e ne =
        rw (above p r' l (vpn (suc (suc l)) va') (px (suc l) va') e (px-lt (suc l) va'))
          (elim (Bool-cases (has pte_v (s.pte (entry p (suc l) va')))) [
            | inl valid ↦ rw valid (
                store-leaf_other l (pte2pa (s.pte (entry p (suc l) va'))) r' va'
                  (child_owner p r' l va' e valid) ne)
            | inr missing ↦ rw missing refl
          ])

    -- and makes the leaf of a page whose slot it is the value stored.
    pub store-leaf :
        (l p r' va' : ℕ)
        → own p ≡ some (r', l, vpn (suc l) va')
        → slot l p va' s.pte ≡ a
        → leaf l p va' (update s.pte a v) ≡ v
    unfolding slot leaf
    store-leaf zero p r' va' e here = rw here (update_self s.pte a v)
    store-leaf (suc l) p r' va' e here =
        rw (above p r' l (vpn (suc (suc l)) va') (px (suc l) va') e (px-lt (suc l) va'))
          (elim (Bool-cases (has pte_v (s.pte (entry p (suc l) va')))) [
            | inl valid ↦ rw valid (
                store-leaf l (pte2pa (s.pte (entry p (suc l) va'))) r' va'
                  (child_owner p r' l va' e valid) (sym (slot_down l p va' s.pte valid) ∙ here))
            | inr missing ↦ absurd (slot-ne-null (sym here ∙ slot_cut l p va' s.pte missing))
          ])

    pub store-IsForest : IsForest own kernel_end (set_pte a v s)
    store-IsForest = record {
      tables = h.tables;
      child = λ p r' l x i e lt valid.
          let k = above p r' l x i e lt in
          rw k (h.child p r' l x i e lt (sym (ap (has pte_v) k) ∙ valid));
      free = h.free;
      valid = h.valid;
    }
