-- ===== src/Str/Compare.antt =====
-- `strncmp`, `memcmp` and `strlen` against the text that a pointer stands for.
use ntnu_courses.Base.{
  ℕ, zero, suc, ◌+◌, ◌≡◌, ◌↔◌, refl, List, [], ◌∷◌, ◌==◌, if◌then◌else◌, pos, arith,
}
use ntnu_courses.Str.{Mem, memcmp, strncmp}

-- The bytes at `p` before the first NUL, at most `n` of them.
unfoldable pub text : Mem → ℕ → ℕ → List ℕ
text m p zero = []
text m p (suc n) = if m p == 0 then [] else m p ∷ text m (p + 1) n

-- strncmp(p, q, n) is 0 exactly when the texts at p and at q agree on their first n bytes, a text
-- that ends earlier being compared up to its end.
pub strncmp-eq-zero :
    (n : ℕ) (m : Mem) (p q : ℕ) → (strncmp m p q n ≡ pos 0) ↔ (text m p n ≡ text m q n)
unfolding strncmp text
strncmp-eq-zero zero m p q = (λ _. refl, λ _. refl)
strncmp-eq-zero (suc n) m p q = (
  λ h. ground (arith, (strncmp-eq-zero n m (p + 1) (q + 1)).0),
  λ h. ground (arith, (strncmp-eq-zero n m (p + 1) (q + 1)).1),
)

-- The `n` bytes at `p`.
unfoldable pub bytes : Mem → ℕ → ℕ → List ℕ
bytes m p zero = []
bytes m p (suc n) = m p ∷ bytes m (p + 1) n

-- memcmp(p, q, n) is 0 exactly when the n bytes at p and at q are the same.
pub memcmp-eq-zero :
    (n : ℕ) (m : Mem) (p q : ℕ) → (memcmp m p q n ≡ pos 0) ↔ (bytes m p n ≡ bytes m q n)
unfolding memcmp bytes
memcmp-eq-zero zero m p q = (λ _. refl, λ _. refl)
memcmp-eq-zero (suc n) m p q = (
  λ h. ground (arith, (memcmp-eq-zero n m (p + 1) (q + 1)).0),
  λ h. ground (arith, (memcmp-eq-zero n m (p + 1) (q + 1)).1),
)
