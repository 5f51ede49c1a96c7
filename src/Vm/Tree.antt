-- ===== src/Vm/Tree.antt =====
-- TDT4186 - OS/Labs/Lab3/kernel/vm.c: which pages are page tables, and for what. A table has an
-- owner: the root it hangs under, its level, and the part of the address that leads to it.
use ntnu_courses.Base.{
  ℕ, zero, suc, ◌+◌, ◌*◌, ◌%◌, ◌^◌, ◌≤◌, ◌<◌, ◌≡◌, ◌≢◌, ◌⊎◌, refl, sym, ap, ◌∙◌, inl, inr, true,
  false, Option, none, some, if◌then◌else◌, update, update_ne, update_self, All, Bool-cases,
  ℕ_discrete, arith, List, [], ◌∷◌,
}
use ntnu_courses.Alloc.{Kmem}
use ntnu_courses.Alloc.Inv.{IsValid}
use ntnu_courses.Vm.{Vm, pte_v, has, pa2pte, pte2pa, vpn, px, entry, clear_page, new_table}

abbrev pub Own : Type 0
Own = ℕ → Option (ℕ × ℕ × ℕ)

-- The entry that a walk from the table ends at, 0 where a table is missing.
unfoldable pub leaf : ℕ → ℕ → ℕ → (ℕ → ℕ) → ℕ
leaf zero p va pte = pte (entry p 0 va)
leaf (suc l) p va pte =
    let rest = leaf l (pte2pa (pte (entry p (suc l) va))) va pte in
    if has pte_v (pte (entry p (suc l) va)) then rest else 0

-- A page that can be a table.
pub record IsTable (p : ℕ) : Type 0 where
  pub aligned : p % 4096 ≡ 0
  pub some_page : 0 < p
  pub below : p < 2 ^ 56

-- Each owner's table is a page, a valid entry above level 0 leads to the table of its place, and
-- no free page is a table.
pub record IsForest (own : Own) (kernel_end : ℕ) (s : Vm) : Type 0 where
  pub tables : (p r l x : ℕ) → own p ≡ some (r, l, x) → IsTable p
  pub child :
      (p r l x i : ℕ)
      → own p ≡ some (r, suc l, x)
      → i < 512
      → has pte_v (s.pte (p + 8 * i)) ≡ true
      → own (pte2pa (s.pte (p + 8 * i))) ≡ some (r, l, x * 512 + i)
  pub free : All (λ q. own q ≡ none) s.kmem.freelist
  pub valid : IsValid kernel_end s.kmem

pub px-lt : (l va : ℕ) → px l va < 512
px-lt l va = omega arith

pub vpn-px : (l va : ℕ) → vpn (suc l) va * 512 + px l va ≡ vpn l va
unfolding vpn
vpn-px l va = omega arith

-- Entries of tables are told apart by their table and index.
pub entry-injective :
    (p q i j : ℕ)
    → p % 4096 ≡ 0
    → q % 4096 ≡ 0
    → i < 512
    → j < 512
    → p + 8 * i ≡ q + 8 * j
    → (p ≡ q) × (i ≡ j)
entry-injective p q i j hp hq hi hj e = omega arith

pub at_slot : (p q j i : ℕ) → ((p ≡ q) × (j ≡ i)) ⊎ ¬ ((p ≡ q) × (j ≡ i))
at_slot p q j i = elim (ℕ_discrete p q) [
  | yes a ↦ elim (ℕ_discrete j i) [ yes b ↦ inl (a, b) | no b ↦ inr (λ (x, y). b y) ]
  | no a ↦ inr (λ (x, y). a x)
]

-- A list of pages that are no tables, and are not the new one.
free_grown :
    (own : Own) (n : ℕ) (o : ℕ × ℕ × ℕ) (ps : List ℕ)
    → All (λ y. own y ≡ none) ps
    → All (λ y. n ≢ y) ps
    → All (λ y. update own n (some o) y ≡ none) ps
free_grown own n o [] a b = tt
free_grown own n o (p ∷ ps) (a, as_) (b, bs) =
    (update_ne own n p (some o) b ∙ a, free_grown own n o ps as_ bs)

-- Growth: the invalid entry `i` of the table `q` gets the new table `n`.
module _ (own : Own) (kernel_end : ℕ) (s : Vm) (h : IsForest own kernel_end s) (q r l x i n : ℕ)
    (at_q : own q ≡ some (r, suc l, x)) (small : i < 512)
    (missing : has pte_v (s.pte (q + 8 * i)) ≡ false) (page : IsTable n) (new : own n ≡ none) where
  abbrev pub grown : Own
  grown = update own n (some (r, l, x * 512 + i))

  abbrev pub pte' : ℕ → ℕ
  pte' = update (clear_page n s.pte) (q + 8 * i) (pa2pte n + pte_v)

  -- An owned table is another page.
  other : (p r' l' x' : ℕ) → own p ≡ some (r', l', x') → p ≢ n
  other p r' l' x' e same = cc

  pub new_entry : (pte' (q + 8 * i) ≡ pa2pte n + pte_v)
  new_entry = ground arith

  pub new_valid : has pte_v (pa2pte n + pte_v) ≡ true
  new_valid = ground arith

  pub new_pa : pte2pa (pa2pte n + pte_v) ≡ n
  new_pa = omega (arith, page.aligned, page.below)

  cleared : (j : ℕ) → j < 512 → pte' (n + 8 * j) ≡ 0
  cleared j lt =
      let apart : q ≢ n = other q r (suc l) x at_q in
      ground
        (arith, entry-injective q n i j (h.tables q r (suc l) x at_q).aligned page.aligned small lt)

  pub kept :
      (p r' l' x' j : ℕ)
      → own p ≡ some (r', l', x')
      → j < 512
      → ¬ ((p ≡ q) × (j ≡ i))
      → pte' (p + 8 * j) ≡ s.pte (p + 8 * j)
  kept p r' l' x' j e lt ne =
      let apart : p ≢ n = other p r' l' x' e in
      let ap1 = (h.tables p r' l' x' e).aligned in
      let aq = (h.tables q r (suc l) x at_q).aligned in
      let far : ¬ ((n ≤ p + 8 * j) × (p + 8 * j < n + 4096)) =
        (λ (a, b). apart (omega (arith, page.aligned))) in
      let miss : q + 8 * i ≢ p + 8 * j =
        (λ z. ne (entry-injective p q j i ap1 aq lt small (sym z))) in
      ground arith

  levels : (p r' x' : ℕ) → own p ≡ some (r', 0, x') → p ≢ q
  levels p r' x' e same = level_clash (own p) r' x' e (ap own same ∙ at_q)
    where
      level_clash :
          (o : Option (ℕ × ℕ × ℕ)) (a b : ℕ) → o ≡ some (a, 0, b) → o ≡ some (r, suc l, x) → ⊥
      level_clash o a b f g = cc

  -- Below the new table nothing is mapped.
  pub leaf-new : (l' va : ℕ) → leaf l' n va pte' ≡ 0
  unfolding leaf
  leaf-new zero va = cleared (px 0 va) (px-lt 0 va)
  leaf-new (suc l') va = rw (cleared (px (suc l') va) (px-lt (suc l') va)) refl

  -- No walk from an older table ends at another entry.
  pub leaf-grown :
      (l' p r' x' va : ℕ) → own p ≡ some (r', l', x') → leaf l' p va pte' ≡ leaf l' p va s.pte
  unfolding leaf
  leaf-grown zero p r' x' va e =
      kept p r' 0 x' (px 0 va) e (px-lt 0 va) (λ (z, w). levels p r' x' e z)
  leaf-grown (suc l') p r' x' va e = elim (at_slot p q (px (suc l') va) i) [
    | inl (same, index) ↦
        let here : p + 8 * px (suc l') va ≡ q + 8 * i = omega arith in
        rw here (rw (new_entry, new_valid, new_pa, missing) (leaf-new l' va))
    | inr off ↦
        rw (kept p r' (suc l') x' (px (suc l') va) e (px-lt (suc l') va) off)
          (elim (Bool-cases (has pte_v (s.pte (entry p (suc l') va)))) [
            | inl valid ↦ rw valid (
                leaf-grown l' (pte2pa (s.pte (entry p (suc l') va))) r' (x' * 512 + px (suc l') va)
                  va (h.child p r' l' x' (px (suc l') va) e (px-lt (suc l') va) valid))
            | inr invalid ↦ rw invalid refl
          ])
  ]

  same_owner : (r' l' x' : ℕ) → own q ≡ some (r', suc l', x') → (r' ≡ r) × (l' ≡ l) × (x' ≡ x)
  same_owner r' l' x' e = owner_cut (own q) e at_q
    where
      owner_cut :
          (o : Option (ℕ × ℕ × ℕ))
          → o ≡ some (r', suc l', x')
          → o ≡ some (r, suc l, x)
          → (r' ≡ r) × (l' ≡ l) × (x' ≡ x)
      owner_cut o f g = (cc, cc, cc)

  child_new :
      (r' l' x' : ℕ)
      → own q ≡ some (r', suc l', x')
      → grown (pte2pa (pte' (q + 8 * i))) ≡ some (r', l', x' * 512 + i)
  child_new r' l' x' e =
      rw (new_entry, new_pa, update_self own n (some (r, l, x * 512 + i)))
        (let (er, el, ex) = same_owner r' l' x' e in rw (er, el, ex) refl)

  child_kept :
      (p r' l' x' j : ℕ)
      → own p ≡ some (r', suc l', x')
      → j < 512
      → ¬ ((p ≡ q) × (j ≡ i))
      → has pte_v (pte' (p + 8 * j)) ≡ true
      → grown (pte2pa (pte' (p + 8 * j))) ≡ some (r', l', x' * 512 + j)
  child_kept p r' l' x' j e lt away valid =
      let k = kept p r' (suc l') x' j e lt away in
      let c = h.child p r' l' x' j e lt (sym (ap (has pte_v) k) ∙ valid) in
      rw k (
        update_ne own n (pte2pa (s.pte (p + 8 * j))) (some (r, l, x * 512 + i))
          (λ z. other (pte2pa (s.pte (p + 8 * j))) r' l' (x' * 512 + j) c (sym z))
        ∙ c)

  grown_child :
      (p r' l' x' j : ℕ)
      → grown p ≡ some (r', suc l', x')
      → j < 512
      → has pte_v (pte' (p + 8 * j)) ≡ true
      → grown (pte2pa (pte' (p + 8 * j))) ≡ some (r', l', x' * 512 + j)
  grown_child p r' l' x' j e lt valid = elim (ℕ_discrete n p) [
    | yes same ↦
        let z : pte' (p + 8 * j) ≡ 0 = rw (← same) (cleared j lt) in
        absurd (ground (arith, z, valid))
    | no off ↦
        let old : own p ≡ some (r', suc l', x') =
          sym (update_ne own n p (some (r, l, x * 512 + i)) off) ∙ e in
        elim (at_slot p q j i) [
          | inl (here, index) ↦
              let c = child_new r' l' x' (sym (ap own here) ∙ old) in rw (here, index) c
          | inr away ↦ child_kept p r' l' x' j old lt away valid
        ]
  ]

  -- The forest with the new table.
  pub grown-IsForest :
      (kmem : Kmem)
      → IsValid kernel_end kmem
      → All (λ y. own y ≡ none) kmem.freelist
      → All (λ y. n ≢ y) kmem.freelist
      → IsForest grown kernel_end (new_table (q + 8 * i) n (record s { kmem = kmem }))
  grown-IsForest kmem v none_own apart = record {
    tables = λ p r' l' x' e. elim (ℕ_discrete n p) [
      | yes same ↦ rw (← same) page
      | no off ↦ h.tables p r' l' x' (sym (update_ne own n p (some (r, l, x * 512 + i)) off) ∙ e)
    ];
    child = λ p r' l' x' j e lt valid. grown_child p r' l' x' j e lt valid;
    free = free_grown own n (r, l, x * 512 + i) kmem.freelist none_own apart;
    valid = v;
  }
