-- ===== src/Base/Ring.antt =====
-- Byte rings with counters that run on: the counter wraps at `modulus`, and the place of a byte is
-- its counter modulo `size`.
use Prim.Native.Nat.{ℕ, zero, suc, ◌+◌, ◌-◌, ◌%◌, ◌<◌}
use mathlib.Core.Path.{◌≡◌, refl, ap, ap₂, ◌∙◌, sym}
use mathlib.Core.Logic.{◌≢◌}
use mathlib.Core.List.{List, [], ◌∷◌, ◌++◌}
use native.Mathlib.Nat.{mod-add-mod, mod-eq_of_lt, add-zero}
use native.Mathlib.Omega.{arith}
use ntnu_courses.Base.Lists.{length}
use ntnu_courses.Base.Maps.{update, update_self, update_ne}

module _ (modulus size : ℕ) where
  -- The `n` bytes from counter `r` on.
  unfoldable pub window : (ℕ → ℕ) → ℕ → ℕ → List ℕ
  window ring r zero = []
  window ring r (suc n) = ring (r % size) ∷ window ring ((r + 1) % modulus) n

  pub length-window : (ring : ℕ → ℕ) (r n : ℕ) → length (window ring r n) ≡ n
  unfolding window
  length-window ring r zero = refl
  length-window ring r (suc n) = ap suc (length-window ring ((r + 1) % modulus) n)

  -- The counter `j` places on, seen from the next one.
  shift : (r j : ℕ) → ((r + 1) % modulus + j) % modulus ≡ (r + suc j) % modulus
  shift r j = rw mod-add-mod (ap (λ k. k % modulus) (omega arith))

  -- No place of the window is `i`.
  abbrev pub Misses : ℕ → ℕ → ℕ → Type 0
  Misses r n i = (j : ℕ) → j < n → (r + j) % modulus % size ≢ i

  Misses-next : (r n i : ℕ) → Misses r (suc n) i → Misses ((r + 1) % modulus) n i
  Misses-next r n i h j lt = rw (shift r j) (h (suc j) (omega arith))

  first_place : (r : ℕ) → r < modulus → (r + 0) % modulus ≡ r
  first_place r h = rw add-zero (mod-eq_of_lt h)

  next_in : (r : ℕ) → r < modulus → (r + 1) % modulus < modulus
  next_in r h = omega arith

  pub window-update :
      (n r i v : ℕ) (ring : ℕ → ℕ)
      → r < modulus
      → Misses r n i
      → window (update ring i v) r n ≡ window ring r n
  unfolding window
  window-update zero r i v ring hr h = refl
  window-update (suc n) r i v ring hr h =
      ap₂ ◌∷◌
        (update_ne ring i (r % size) v (λ e. h 0 (omega arith) (rw (first_place r hr) (sym e))))
        (window-update n ((r + 1) % modulus) i v ring (next_in r hr) (Misses-next r n i h))

  -- A byte written just behind a window extends it.
  pub window-update_end :
      (n r i v : ℕ) (ring : ℕ → ℕ)
      → r < modulus
      → Misses r n i
      → (r + n) % modulus % size ≡ i
      → window (update ring i v) r (suc n) ≡ window ring r n ++ v ∷ []
  unfolding window
  window-update_end zero r i v ring hr h e =
      let q : i ≡ r % size = sym e ∙ rw (first_place r hr) in rw (q, update_self ring (r % size) v)
  window-update_end (suc n) r i v ring hr h e =
      ap₂ ◌∷◌
        (update_ne ring i (r % size) v (λ q. h 0 (omega arith) (rw (first_place r hr) (sym q))))
        (window-update_end n ((r + 1) % modulus) i v ring (next_in r hr) (Misses-next r n i h)
          (rw (shift r n) e))

  -- Two windows that join.
  pub window-append :
      (n m r : ℕ) (ring : ℕ → ℕ)
      → r < modulus
      → window ring r (n + m) ≡ window ring r n ++ window ring ((r + n) % modulus) m
  unfolding window
  window-append zero m r ring hr = rw (first_place r hr) (ap (λ k. window ring r k) (omega arith))
  window-append (suc n) m r ring hr =
      let e : suc n + m ≡ suc (n + m) = omega arith in
      rw e (
        ap (λ l. ring (r % size) ∷ l)
          (window-append n m ((r + 1) % modulus) ring (next_in r hr) ∙ rw (shift r n)))

  pub window_of_ne_zero :
      (ring : ℕ → ℕ) (r n : ℕ)
      → n ≢ 0
      → window ring r n ≡ ring (r % size) ∷ window ring ((r + 1) % modulus) (n - 1)
  unfolding window
  window_of_ne_zero ring r zero h = absurd (h refl)
  window_of_ne_zero ring r (suc n) h =
      ap (λ k. ring (r % size) ∷ window ring ((r + 1) % modulus) k) (omega arith)
