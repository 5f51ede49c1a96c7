-- ===== src/Ulib/Strings.antt =====
-- TDT4186 - OS/Labs/Lab3/user/ulib.c: strcmp, strcpy and strchr on strings that end with a null.
use ntnu_courses.Base.{
  ℕ, zero, suc, ◌+◌, ◌-◌, ◌≤◌, ◌<◌, ◌≡◌, ◌≢◌, ◌⊎◌, ◌↔◌, refl, sym, ap, ◌∙◌, inl, inr, ◌==◌, ==_ne,
  ==_refl, ℕ_discrete, ℤ, pos, sub_ℕ, sub_ℕ-eq-zero, ok, arith,
}
use ntnu_courses.Str.{Mem}
use ntnu_courses.Ulib.{strcmp}

-- The string at `p` has `n` bytes before its null.
abbrev pub IsString : ℕ → ℕ → Mem → Type 0
IsString p n m = ((i : ℕ) → i < n → m (p + i) ≢ 0) × (m (p + n) ≡ 0)

IsString-tail : (p n : ℕ) (m : Mem) → IsString p (suc n) m → (m p ≢ 0) × IsString (p + 1) n m
IsString-tail p n m (some_bytes, null) = (
  (λ z. some_bytes 0 (omega arith) (ap m (omega arith) ∙ z)),
  (
    (λ i lt z. some_bytes (suc i) (omega (arith, lt)) (ap m (omega arith) ∙ z)),
    ap m (omega arith) ∙ null,
  ),
)

-- The same bytes up to the null of the first string.
abbrev pub Same : ℕ → ℕ → ℕ → Mem → Type 0
Same p q n m = (i : ℕ) → i ≤ n → m (p + i) ≡ m (q + i)

strcmp_stop :
    (fuel p q : ℕ) (m : Mem)
    → (m p ≡ 0) ⊎ (m p ≢ m q)
    → strcmp (suc fuel) p q m ≡ ok (sub_ℕ (m p) (m q))
unfolding strcmp
strcmp_stop fuel p q m (inl z) = rw (ap (λ x. x == 0) z) refl
strcmp_stop fuel p q m (inr ne) = elim (ℕ_discrete (m p) 0) [
  | yes z ↦ rw (ap (λ x. x == 0) z) refl
  | no nz ↦ rw (==_ne (m p) 0 nz, ==_ne (m p) (m q) ne) refl
]

strcmp_next :
    (fuel p q : ℕ) (m : Mem)
    → m p ≢ 0
    → m p ≡ m q
    → strcmp (suc fuel) p q m ≡ strcmp fuel (p + 1) (q + 1) m
unfolding strcmp
strcmp_next fuel p q m ne e = rw (==_ne (m p) 0 ne, ap (λ x. m p == x) (sym e) ∙ ==_refl (m p)) refl

Same-next : (p q n : ℕ) (m : Mem) → m p ≡ m q → (Same (p + 1) (q + 1) n m ↔ Same p q (suc n) m)
Same-next p q n m e = (
  (λ h i le. elim (ℕ_discrete i 0) [
    | yes z ↦
        let pi : p + i ≡ p = omega (arith, z) in
        let qi : q ≡ q + i = omega (arith, z) in ap m pi ∙ e ∙ ap m qi
    | no nz ↦
        let pi : p + i ≡ p + 1 + (i - 1) = omega (arith, nz) in
        let qi : q + 1 + (i - 1) ≡ q + i = omega (arith, nz) in
        ap m pi ∙ h (i - 1) (omega (arith, le, nz)) ∙ ap m qi
  ]),
  (λ h i le.
      let pi : p + 1 + i ≡ p + suc i = omega arith in
      let qi : q + suc i ≡ q + 1 + i = omega arith in
      ap m pi ∙ h (suc i) (omega (arith, le)) ∙ ap m qi),
)

Same-first : (p q n : ℕ) (m : Mem) → Same p q n m → m p ≡ m q
Same-first p q n m h =
    let p0 : p ≡ p + 0 = omega arith in
    let q0 : q + 0 ≡ q = omega arith in ap m p0 ∙ h 0 (omega arith) ∙ ap m q0

-- strcmp of a string of `n` bytes, on more fuel than that, returns, and it returns 0 exactly if the second
-- string has the same bytes, its null included.
pub strcmp_lem :
    (n fuel p q : ℕ) (m : Mem)
    → IsString p n m
    → n < fuel
    → (r : ℤ) × (strcmp fuel p q m ≡ ok r) × ((r ≡ pos 0) ↔ Same p q n m)
strcmp_lem n zero p q m s f = absurd (omega (arith, f))
strcmp_lem zero (suc fuel) p q m (some_bytes, null) f =
    let p0 : p ≡ p + 0 = omega arith in
    (
      sub_ℕ (m p) (m q),
      strcmp_stop fuel p q m (inl (ap m p0 ∙ null)),
      (
        (λ z i le.
            let pi : p + i ≡ p = omega (arith, le) in
            let qi : q ≡ q + i = omega (arith, le) in
            ap m pi ∙ (sub_ℕ-eq-zero (m p) (m q)).0 z ∙ ap m qi),
        (λ h. (sub_ℕ-eq-zero (m p) (m q)).1 (Same-first p q 0 m h)),
      ),
    )
strcmp_lem (suc n) (suc fuel) p q m s f =
    let (head, tail) = IsString-tail p n m s in
    elim (ℕ_discrete (m p) (m q)) [
      | yes e ↦
          let (r, run, iff) = strcmp_lem n fuel (p + 1) (q + 1) m tail (omega (arith, f)) in
          (
            r,
            strcmp_next fuel p q m head e ∙ run,
            ((λ z. (Same-next p q n m e).0 (iff.0 z)), (λ h. iff.1 ((Same-next p q n m e).1 h))),
          )
      | no ne ↦ (
        sub_ℕ (m p) (m q),
        strcmp_stop fuel p q m (inr ne),
        (
          (λ z. absurd (ne ((sub_ℕ-eq-zero (m p) (m q)).0 z))),
          (λ h. absurd (ne (Same-first p q (suc n) m h))),
        ),
      )
    ]
