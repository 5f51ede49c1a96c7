-- ===== src/Str/Copy.antt =====
-- `strncpy`, `safestrcpy` and `strlen` against the text that a pointer stands for.
use ntnu_courses.Base.{
  ℕ, zero, suc, ◌+◌, ◌≤◌, ◌<◌, ◌≡◌, refl, ap, ◌⊎◌, length, Bool-cases, inl, inr, some, ◌==◌, update,
  arith,
}
use ntnu_courses.Str.{Mem, zeros, strncpy, safe_loop, safestrcpy, strlen_from, strlen}
use ntnu_courses.Str.Compare.{text}

-- Two ranges of `n` bytes that have none in common.
abbrev pub Apart : ℕ → ℕ → ℕ → Type 0
Apart s t n = (s + n ≤ t) ⊎ (t + n ≤ s)

-- A write outside a range leaves its text.
text-update :
    (n : ℕ) (m : Mem) (p a v : ℕ) → (a < p) ⊎ (p + n ≤ a) → text (update m a v) p n ≡ text m p n
unfolding text
text-update zero m p a v h = refl
text-update (suc n) m p a v h = ground (arith, text-update n m (p + 1) a v)

zeros_frame : (k s : ℕ) (m : Mem) (a : ℕ) → a < s → zeros k s m a ≡ m a
unfolding zeros
zeros_frame zero s m a h = refl
zeros_frame (suc k) s m a h = ground (arith, zeros_frame k (s + 1) (update m s 0) a)

strncpy_before : (n : ℕ) (m : Mem) (s t a : ℕ) → a < s → strncpy m s t n a ≡ m a
unfolding strncpy
strncpy_before zero m s t a h = refl
strncpy_before (suc k) m s t a h = ground (
  arith,
  zeros_frame k (s + 1) (update m s (m t)) a,
  strncpy_before k (update m s (m t)) (s + 1) (t + 1) a,
)

-- strncpy(s, t, n), with n bytes of room at s apart from the n bytes at t, leaves at s the text at
-- t, cut off after n bytes.
pub text-strncpy :
    (n : ℕ) (m : Mem) (s t : ℕ) → Apart s t n → text (strncpy m s t n) s n ≡ text m t n
unfolding strncpy text
text-strncpy zero m s t h = refl
text-strncpy (suc k) m s t h = elim (Bool-cases (m t == 0)) [
  | inl nul ↦ ground (arith, zeros_frame k (s + 1) (update m s (m t)) s)
  | inr more ↦ ground (
    arith,
    strncpy_before k (update m s (m t)) (s + 1) (t + 1) s,
    text-strncpy k (update m s (m t)) (s + 1) (t + 1),
    text-update k m (t + 1) s (m t),
  )
]

safe_loop_before : (k s t : ℕ) (m : Mem) (a : ℕ) → a < s → safe_loop k s t m a ≡ m a
unfolding safe_loop
safe_loop_before zero s t m a h = ground arith
safe_loop_before (suc k) s t m a h =
    ground (arith, safe_loop_before k (s + 1) (t + 1) (update m s (m t)) a)

text-safe_loop :
    (k s t : ℕ) (m : Mem) → Apart s t (suc k) → text (safe_loop k s t m) s (suc k) ≡ text m t k
unfolding safe_loop text
text-safe_loop zero s t m h = ground arith
text-safe_loop (suc k) s t m h = elim (Bool-cases (m t == 0)) [
  | inl nul ↦ ground arith
  | inr more ↦ ground (
    arith,
    safe_loop_before k (s + 1) (t + 1) (update m s (m t)) s,
    text-safe_loop k (s + 1) (t + 1) (update m s (m t)),
    text-update k m (t + 1) s (m t),
  )
]

-- safestrcpy(s, t, k + 1), with k + 1 bytes of room at s apart from those at t, leaves at s the
-- text at t, cut off after k bytes, and a NUL behind it within the room: the text that is read back
-- with a limit of k + 1 bytes has at most k.
pub text-safestrcpy :
    (k : ℕ) (m : Mem) (s t : ℕ)
    → Apart s t (suc k)
    → text (safestrcpy m s t (suc k)) s (suc k) ≡ text m t k
unfolding safestrcpy
text-safestrcpy k m s t h = text-safe_loop k s t m h

strlen_from_lem :
    (f : ℕ) (m : Mem) (s n : ℕ)
    → length (text m (s + n) f) < f
    → strlen_from f m s n ≡ some (n + length (text m (s + n) f))
unfolding strlen_from text
strlen_from_lem zero m s n h = absurd (omega arith)
strlen_from_lem (suc f) m s n h = elim (Bool-cases (m (s + n) == 0)) [
  | inl nul ↦ ground arith
  | inr more ↦
      let e : s + (n + 1) ≡ s + n + 1 = omega arith in
      ground (arith, e, ap (λ p. length (text m p f)) e, strlen_from_lem f m s (n + 1))
]

-- If a NUL stands among the first `f` bytes at s, then `f` rounds are enough for strlen(s), which
-- returns the number of bytes before the NUL.
pub strlen-eq-length :
    (f : ℕ) (m : Mem) (s : ℕ) → length (text m s f) < f → strlen f m s ≡ some (length (text m s f))
unfolding strlen
strlen-eq-length f m s h =
    let e : s + 0 ≡ s = omega arith in
    ground (arith, e, ap (λ p. length (text m p f)) e, strlen_from_lem f m s 0)
