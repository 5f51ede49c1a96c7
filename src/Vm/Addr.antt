-- ===== src/Vm/Addr.antt =====
-- TDT4186 - OS/Labs/Lab3/kernel/vm.c: walkaddr against the map from pages to entries, and what mappages
-- and uvmunmap mean for it.
use ntnu_courses.Base.{
  ℕ, zero, suc, ◌+◌, ◌*◌, ◌/◌, ◌%◌, ◌≤◌, ◌<◌, ◌≡◌, ◌≢◌, refl, ap, ◌∙◌, inl, inr, Bool, true, false,
  not, ◌&&◌, ltb, leb, if◌then◌else◌, ==_ne, arith, dec_lt, lt→ltb, ltb-eq-false, Result, ok, ◌>>=◌,
}
use ntnu_courses.Alloc.{pgsize}
use ntnu_courses.Vm.{
  Vm, pte_v, pte_u, has, pte2pa, vpn, entry, maxva, walk, walk_from, user_pa, walkaddr,
}
use ntnu_courses.Vm.Tree.{Own, leaf, IsForest}
use ntnu_courses.Vm.Walk.{slot, slot-leaf, slot-ne-null, walk_from-slot}
use ntnu_courses.Vm.View.{IsRoot, view, root_owner, walk_low}

-- The address of the page that an entry gives the user, 0 if it gives none.
abbrev pub user_page : ℕ → ℕ
user_page pte = if has pte_v pte && has pte_u pte then pte2pa pte else 0

user_pa_lem : (a : ℕ) (s : Vm) → a ≢ 0 → user_pa a s ≡ user_page (s.pte a)
user_pa_lem a s ne =
    rw (==_ne a 0 ne) (tests (has pte_v (s.pte a)) (has pte_u (s.pte a)) (pte2pa (s.pte a)))
  where
    tests :
        (v u : Bool) (pa : ℕ)
        → (if not v then 0 else if not u then 0 else pa) ≡ (if v && u then pa else 0)
    tests true true pa = refl
    tests true false pa = refl
    tests false u pa = refl

walkaddr_low :
    (root va a : ℕ) (s : Vm)
    → va < maxva
    → walk_from false 2 root va s ≡ ok (a, s)
    → walkaddr root va s ≡ ok (user_pa a s)
unfolding walkaddr
walkaddr_low root va a s lt e = below (walk false root va s) (walk_low false root va s lt ∙ e)
  where
    below :
        (w : Result (ℕ × Vm))
        → w ≡ ok (a, s)
        → (if leb maxva va then ok 0 else w >>= λ (x, y). ok (user_pa x y)) ≡ ok (user_pa a s)
    below w q = rw q (ground (arith, lt))

walkaddr_high : (root va : ℕ) (s : Vm) → maxva ≤ va → walkaddr root va s ≡ ok 0
unfolding walkaddr
walkaddr_high root va s le = above (walk false root va s >>= λ (x, y). ok (user_pa x y))
  where
    above : (w : Result ℕ) → (if leb maxva va then ok 0 else w) ≡ ok 0
    above w = ground (arith, le)

-- walkaddr reads the entry of the address from the map, at every address; at MAXVA and above it returns 0.
pub walkaddr-view :
    (kernel_end root va : ℕ) (own : Own) (s : Vm)
    → IsForest own kernel_end s
    → IsRoot own root
    → walkaddr root va s ≡ ok (if ltb va maxva then user_page (view root va s) else 0)
walkaddr-view kernel_end root va own s h e = elim (dec_lt va maxva) [
  | yes lt ↦
      walkaddr_low root va (slot 2 root va s.pte) s lt (walk_from-slot 2 root va s)
      ∙ rw (lt→ltb va maxva lt)
          (elim (slot-leaf own kernel_end s h 2 root root va (root_owner own root va e lt)) [
            | inl (z, w) ↦ rw (z, w) refl
            | inr (at, same) ↦ ap ok (
                user_pa_lem (slot 2 root va s.pte) s
                  (slot-ne-null own kernel_end s h root va (slot 2 root va s.pte) 0 at)
                ∙ ap user_page same)
          ])
  | no ge ↦
      walkaddr_high root va s (omega (arith, ge))
      ∙ rw (ltb-eq-false va maxva (omega (arith, ge))) refl
]

same_vpn : (l va va' : ℕ) → vpn 0 va ≡ vpn 0 va' → vpn l va ≡ vpn l va'
unfolding vpn
same_vpn zero va va' e = e
same_vpn (suc l) va va' e = ap (λ z. z / 512) (same_vpn l va va' e)

same_leaf :
    (l p va va' : ℕ) (pte : ℕ → ℕ) → vpn 0 va ≡ vpn 0 va' → leaf l p va pte ≡ leaf l p va' pte
unfolding leaf
same_leaf zero p va va' pte e = ap (λ z. pte (p + 8 * (z % 512))) e
same_leaf (suc l) p va va' pte e = rw (same_vpn (suc l) va va' e) (
    ap (λ z. if has pte_v (pte (entry p (suc l) va')) then z else 0)
      (same_leaf l (pte2pa (pte (entry p (suc l) va'))) va va' pte e))

-- The entry for an address is that for its page.
pub view_page : (root va : ℕ) (s : Vm) → view root va s ≡ view root (va / pgsize * pgsize) s
unfolding vpn
view_page root va s = same_leaf 2 root va (va / pgsize * pgsize) s.pte (omega arith)
