-- ===== src/Fs/Bits.antt =====
-- TDT4186 - OS/Labs/Lab3/kernel/fs.c: the bits of the bitmap.
use ntnu_courses.Base.{
  ℕ, zero, suc, ◌+◌, ◌-◌, ◌*◌, ◌/◌, ◌%◌, ◌^◌, ◌≤◌, ◌≡◌, ◌≢◌, ◌⊎◌, refl, sym, ap, ◌∙◌, inl, inr,
  true, false, ◌==◌, update_ne, update_self, ℕ_discrete, dec_lt, arith,
}
use native.Mathlib.Nat.{div-div-eq-div-mul, pow-succ', div-eq_of_lt}
use ntnu_courses.Fs.{bit, set_bit, clear_bit}

halved : (x a : ℕ) → x / 2 ^ suc a ≡ x / 2 / 2 ^ a
halved x a = ap (λ z. x / z) (pow-succ' 2 a) ∙ sym (div-div-eq-div-mul x 2 (2 ^ a))

plus_half : (x a : ℕ) → (x + 2 ^ suc a) / 2 ≡ x / 2 + 2 ^ a
plus_half x a = ap (λ z. (x + z) / 2) (pow-succ' 2 a) ∙ omega arith

minus_half : (x a : ℕ) → (x - 2 ^ suc a) / 2 ≡ x / 2 - 2 ^ a
minus_half x a = ap (λ z. (x - z) / 2) (pow-succ' 2 a) ∙ omega arith

plus_here : (a x : ℕ) → x / 2 ^ a % 2 ≡ 0 → (x + 2 ^ a) / 2 ^ a % 2 ≡ 1
plus_here zero x h = omega (arith, h)
plus_here (suc a) x h =
    ap (λ z. z % 2) (halved (x + 2 ^ suc a) a ∙ ap (λ z. z / 2 ^ a) (plus_half x a))
    ∙ plus_here a (x / 2) (ap (λ z. z % 2) (sym (halved x a)) ∙ h)

minus_here : (a x : ℕ) → x / 2 ^ a % 2 ≡ 1 → (x - 2 ^ a) / 2 ^ a % 2 ≡ 0
minus_here zero x h = omega (arith, h)
minus_here (suc a) x h =
    ap (λ z. z % 2) (halved (x - 2 ^ suc a) a ∙ ap (λ z. z / 2 ^ a) (minus_half x a))
    ∙ minus_here a (x / 2) (ap (λ z. z % 2) (sym (halved x a)) ∙ h)

plus_there : (a b x : ℕ) → a ≢ b → x / 2 ^ a % 2 ≡ 0 → (x + 2 ^ a) / 2 ^ b % 2 ≡ x / 2 ^ b % 2
plus_there zero zero x ne h = absurd (ne refl)
plus_there zero (suc b) x ne h =
    ap (λ z. z % 2) (halved (x + 1) b ∙ ap (λ z. z / 2 ^ b) (omega (arith, h)) ∙ sym (halved x b))
plus_there (suc a) zero x ne h = ap (λ z. (x + z) / 1 % 2) (pow-succ' 2 a) ∙ omega arith
plus_there (suc a) (suc b) x ne h =
    ap (λ z. z % 2) (halved (x + 2 ^ suc a) b ∙ ap (λ z. z / 2 ^ b) (plus_half x a))
    ∙ plus_there a b (x / 2) (λ z. ne (ap suc z)) (ap (λ z. z % 2) (sym (halved x a)) ∙ h)
    ∙ ap (λ z. z % 2) (sym (halved x b))

minus_there : (a b x : ℕ) → a ≢ b → x / 2 ^ a % 2 ≡ 1 → (x - 2 ^ a) / 2 ^ b % 2 ≡ x / 2 ^ b % 2
minus_there zero zero x ne h = absurd (ne refl)
minus_there zero (suc b) x ne h =
    ap (λ z. z % 2) (halved (x - 1) b ∙ ap (λ z. z / 2 ^ b) (omega (arith, h)) ∙ sym (halved x b))
minus_there (suc a) zero x ne h =
    let big : 2 * 2 ^ a ≤ x = elim (dec_lt x (2 ^ suc a)) [
      | yes lt ↦ absurd (no_bit (ap (λ z. z % 2) (div-eq_of_lt lt)))
      | no ge ↦ omega (arith, ge, pow-succ' 2 a)
    ] in
    ap (λ z. (x - z) / 1 % 2) (pow-succ' 2 a) ∙ omega (arith, big)
  where
    no_bit : ¬ (x / 2 ^ suc a % 2 ≡ 0)
    no_bit z = omega (arith, z, h)
minus_there (suc a) (suc b) x ne h =
    ap (λ z. z % 2) (halved (x - 2 ^ suc a) b ∙ ap (λ z. z / 2 ^ b) (minus_half x a))
    ∙ minus_there a b (x / 2) (λ z. ne (ap suc z)) (ap (λ z. z % 2) (sym (halved x a)) ∙ h)
    ∙ ap (λ z. z % 2) (sym (halved x b))

-- Whether two bits stand in one byte, and at one place of it.
place : (i j : ℕ) → (i ≡ j) ⊎ ((i / 8 ≡ j / 8) × (i % 8 ≢ j % 8)) ⊎ (i / 8 ≢ j / 8)
place i j = elim (ℕ_discrete (i / 8) (j / 8)) [
  | no off ↦ inr (inr off)
  | yes same ↦ elim (ℕ_discrete (i % 8) (j % 8)) [
    | yes e ↦ inl (omega (arith, same, e))
    | no off ↦ inr (inl (same, off))
  ]
]

test : (x : ℕ) → (x % 2 == 1) ≡ false → x % 2 ≡ 0
test x h = ground (arith, h)

test_true : (x : ℕ) → (x == 1) ≡ true → x ≡ 1
test_true x h = ground (arith, h)

-- A bit that was clear is set, and the other bits stay.
pub bit-set_bit :
    (content : ℕ → ℕ) (i : ℕ)
    → bit content i ≡ false
    → (bit (set_bit content i) i ≡ true)
      × ((j : ℕ) → i ≢ j → bit (set_bit content i) j ≡ bit content j)
bit-set_bit content i clear =
    let off = test (content (i / 8) / 2 ^ (i % 8)) clear in
    (
      ap (λ z. z / 2 ^ (i % 8) % 2 == 1)
            (update_self content (i / 8) (content (i / 8) + 2 ^ (i % 8)))
          ∙ ap (λ z. z == 1) (plus_here (i % 8) (content (i / 8)) off),
      (λ j ne. elim (place i j) [
        | inl same ↦ absurd (ne same)
        | inr (inr far) ↦
            ap (λ z. z / 2 ^ (j % 8) % 2 == 1)
              (update_ne content (i / 8) (j / 8) (content (i / 8) + 2 ^ (i % 8)) far)
        | inr (inl (same, apart)) ↦
            ap (λ z. z / 2 ^ (j % 8) % 2 == 1)
              (ap (set_bit content i) (sym same)
                ∙ update_self content (i / 8) (content (i / 8) + 2 ^ (i % 8)))
            ∙ ap (λ z. z == 1) (plus_there (i % 8) (j % 8) (content (i / 8)) apart off)
            ∙ ap (λ z. content z / 2 ^ (j % 8) % 2 == 1) same
      ]),
    )

-- A bit that was set is cleared, and the other bits stay.
pub bit-clear_bit :
    (content : ℕ → ℕ) (i : ℕ)
    → bit content i ≡ true
    → (bit (clear_bit content i) i ≡ false)
      × ((j : ℕ) → i ≢ j → bit (clear_bit content i) j ≡ bit content j)
bit-clear_bit content i set =
    let on = test_true (content (i / 8) / 2 ^ (i % 8) % 2) set in
    (
      ap (λ z. z / 2 ^ (i % 8) % 2 == 1)
            (update_self content (i / 8) (content (i / 8) - 2 ^ (i % 8)))
          ∙ ap (λ z. z == 1) (minus_here (i % 8) (content (i / 8)) on),
      (λ j ne. elim (place i j) [
        | inl same ↦ absurd (ne same)
        | inr (inr far) ↦
            ap (λ z. z / 2 ^ (j % 8) % 2 == 1)
              (update_ne content (i / 8) (j / 8) (content (i / 8) - 2 ^ (i % 8)) far)
        | inr (inl (same, apart)) ↦
            ap (λ z. z / 2 ^ (j % 8) % 2 == 1)
              (ap (clear_bit content i) (sym same)
                ∙ update_self content (i / 8) (content (i / 8) - 2 ^ (i % 8)))
            ∙ ap (λ z. z == 1) (minus_there (i % 8) (j % 8) (content (i / 8)) apart on)
            ∙ ap (λ z. content z / 2 ^ (j % 8) % 2 == 1) same
      ]),
    )
