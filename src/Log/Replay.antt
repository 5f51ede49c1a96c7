-- ===== src/Log/Replay.antt =====
-- Sequences of block writes: what they leave, and which addresses they touch.
use ntnu_courses.Base.{
  ℕ, ◌≡◌, ◌≢◌, ◌⊎◌, refl, sym, ap₂, subst, ◌∙◌, inl, inr, List, [], ◌∷◌, ◌++◌, All, update,
  update_ne,
}
use ntnu_courses.Log.{Block, Write}

-- The writes done to a disk (or to the cache's view of it), first to last.
abbrev pub apply : List Write → (ℕ → Block) → ℕ → Block
apply [] d = d
apply ((b, v) ∷ ws) d = apply ws (update d b v)

pub apply-append : (us vs : List Write) (d : ℕ → Block) → apply (us ++ vs) d ≡ apply vs (apply us d)
apply-append [] vs d = refl
apply-append ((b, v) ∷ us) vs d = apply-append us vs (update d b v)

-- Every write is to an address of the kind `P`.
abbrev pub At {ℓ} : (ℕ → Type ℓ) → List Write → Type ℓ
At P ws = All (λ (w : Write). P w.0) ws

pub apply-miss : (ws : List Write) (d : ℕ → Block) (x : ℕ) → At (λ b. b ≢ x) ws → apply ws d x ≡ d x
apply-miss [] d x h = refl
apply-miss ((b, v) ∷ ws) d x h = apply-miss ws (update d b v) x h.1 ∙ update_ne d b x v h.0

pub cons-head :
    (u : Write) (us : List Write) (w : Write) (ws : List Write) → u ∷ us ≡ w ∷ ws → u ≡ w
cons-head u us w ws e = cc

pub cons-tail :
    (u : Write) (us : List Write) (w : Write) (ws : List Write) → u ∷ us ≡ w ∷ ws → us ≡ ws
cons-tail u us w ws e = cc

pub At-prefix {ℓ} : (P : ℕ → Type ℓ) (us vs ws : List Write) → us ++ vs ≡ ws → At P ws → At P us
At-prefix P [] vs ws e h = tt
At-prefix P (u ∷ us) vs [] e h = absurd (cc)
At-prefix P (u ∷ us) vs (w ∷ ws) e h = (
  subst (λ (a : Write). P a.0) (sym (cons-head u (us ++ vs) w ws e)) h.0,
  At-prefix P us vs ws (cons-tail u (us ++ vs) w ws e) h.1,
)

pub At-weaken {ℓ κ} :
    (P : ℕ → Type ℓ) (Q : ℕ → Type κ) (ws : List Write) → ((b : ℕ) → P b → Q b) → At P ws → At Q ws
At-weaken P Q [] f h = tt
At-weaken P Q ((b, v) ∷ ws) f h = (f b h.0, At-weaken P Q ws f h.1)

-- A first part of a sequence that is made of two ends in the first of them, or goes beyond it.
pub prefix-split :
    (p q a b : List Write)
    → p ++ q ≡ a ++ b
    → ((r : List Write) × (p ++ r ≡ a)) ⊎ ((r : List Write) × (p ≡ a ++ r) × (r ++ q ≡ b))
prefix-split p q [] b e = inr (p, refl, e)
prefix-split [] q (x ∷ a) b e = inl (x ∷ a, refl)
prefix-split (y ∷ p) q (x ∷ a) b e =
    further (prefix-split p q a b (cons-tail y (p ++ q) x (a ++ b) e))
  where
    same : y ≡ x
    same = cons-head y (p ++ q) x (a ++ b) e

    further :
        ((r : List Write) × (p ++ r ≡ a)) ⊎ ((r : List Write) × (p ≡ a ++ r) × (r ++ q ≡ b))
        → ((r : List Write) × (y ∷ p ++ r ≡ x ∷ a))
          ⊎ ((r : List Write) × (y ∷ p ≡ x ∷ a ++ r) × (r ++ q ≡ b))
    further (inl (r, f)) = inl (r, ap₂ ◌∷◌ same f)
    further (inr (r, f, g)) = inr (r, ap₂ ◌∷◌ same f, g)
