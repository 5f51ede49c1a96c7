-- ===== src/Printf/Numbers.antt =====
-- TDT4186 - OS/Labs/Lab3/kernel/printf.c: printint, read back.
use ntnu_courses.Base.{
  ℕ, zero, suc, ◌+◌, ◌-◌, ◌*◌, ◌/◌, ◌%◌, ◌^◌, ◌≤◌, ◌<◌, ◌≡◌, ◌⊎◌, refl, sym, ap, ap₂, ◌∙◌, inl, inr,
  Bool, true, false, ◌&&◌, ltb, ◌==◌, if◌then◌else◌, List, [], ◌∷◌, ◌++◌, length, length-append,
  append-nil, subst, ℕ_discrete, ==_ne, arith,
}
use native.Mathlib.Nat.{
  pow-succ', mul-add, div-lt_iff_lt-mul, mod-lt, div-add-mod', div-eq_of_lt, pow-suc, pow-zero,
}
use ntnu_courses.Printf.{digit, fill_digits, backwards, negative, minus, int_buffer, printint}

-- The digit that a character stands for.
abbrev pub digit_value : ℕ → ℕ
digit_value c = if ltb c 58 then c - 48 else c - 87

-- The number that a text stands for, read from its start with `acc` before it.
unfoldable pub read : ℕ → ℕ → List ℕ → ℕ
read base acc [] = acc
read base acc (c ∷ text) = read base (acc * base + digit_value c) text

digit_value-digit : (d : ℕ) → d < 16 → digit_value (digit d) ≡ d
digit_value-digit d lt = ground (arith, lt)

read-append : (base acc : ℕ) (s t : List ℕ) → read base acc (s ++ t) ≡ read base (read base acc s) t
unfolding read
read-append base acc [] t = refl
read-append base acc (c ∷ s) t = read-append base (acc * base + digit_value c) s t

smaller : (fuel base x : ℕ) → 2 ≤ base → x < 2 ^ suc fuel → x / base < 2 ^ fuel
smaller fuel base x lo lt =
    let more : base ≡ 2 + (base - 2) = omega (arith, lo) in
    let product : 2 ^ fuel * base ≡ 2 ^ fuel * 2 + 2 ^ fuel * (base - 2) =
      ap (λ z. 2 ^ fuel * z) more ∙ mul-add (2 ^ fuel) 2 (base - 2) in
    (div-lt_iff_lt-mul (omega (arith, lo))).1 (omega (arith, product, lt, pow-succ' 2 fuel))

-- The digits behind the lowest one.
abbrev higher : ℕ → ℕ → ℕ → List ℕ
higher fuel base x = if x / base == 0 then [] else fill_digits fuel base (x / base)

lowest_digit :
    (fuel base x : ℕ)
    → 2 ≤ base
    → base ≤ 16
    → read base 0 (backwards (higher fuel base x)) ≡ x / base
    → read base 0 (backwards (fill_digits (suc fuel) base x)) ≡ x
unfolding read fill_digits backwards
lowest_digit fuel base x lo hi e =
    let below : x % base < base = mod-lt x (omega (arith, lo)) in
    read-append base 0 (backwards (higher fuel base x)) (digit (x % base) ∷ [])
    ∙ ap₂ (λ a b. a * base + b) e (digit_value-digit (x % base) (omega (arith, below, hi)))
    ∙ div-add-mod' x base

-- A number below 2 ^ fuel is read back from its digits.
read-fill_digits :
    (fuel base x : ℕ)
    → 2 ≤ base
    → base ≤ 16
    → x < 2 ^ suc fuel
    → read base 0 (backwards (fill_digits (suc fuel) base x)) ≡ x
unfolding read backwards
read-fill_digits zero base x lo hi lt =
    let z : x / base ≡ 0 = omega (arith, smaller zero base x lo lt) in
    lowest_digit zero base x lo hi (rw (z) refl)
read-fill_digits (suc f) base x lo hi lt =
    lowest_digit (suc f) base x lo hi (elim (ℕ_discrete (x / base) 0) [
      | yes z ↦ rw (z) refl
      | no ne ↦
          rw (==_ne (x / base) 0 ne)
            (read-fill_digits f base (x / base) lo hi (smaller (suc f) base x lo lt))
    ])

first_power : (base : ℕ) → base ^ 1 ≡ base
first_power base = pow-succ' base 0 ∙ ap (λ z. base * z) (pow-zero base) ∙ omega arith

-- The digits of a number below base ^ n, for n > 0, are at most n.
length-fill_digits :
    (n fuel base x : ℕ) → 2 ≤ base → x < base ^ suc n → length (fill_digits fuel base x) ≤ suc n
unfolding fill_digits
length-fill_digits n zero base x lo lt = omega arith
length-fill_digits zero (suc fuel) base x lo lt =
    let z : x / base ≡ 0 = div-eq_of_lt (subst (λ z. x < z) (first_power base) lt) in
    rw (z) (omega arith)
length-fill_digits (suc n) (suc fuel) base x lo lt =
    let small : x / base < base ^ suc n =
      (div-lt_iff_lt-mul (omega (arith, lo))).1 (omega (arith, lt, pow-suc base (suc n))) in
    elim (ℕ_discrete (x / base) 0) [
      | yes z ↦ rw (z) (omega arith)
      | no ne ↦
          rw (==_ne (x / base) 0 ne)
            (omega (arith, length-fill_digits n fuel base (x / base) lo small))
    ]

-- The number that printint writes without its sign.
abbrev pub magnitude : ℕ → Bool → ℕ
magnitude xx sign = if sign && negative xx then 2 ^ 32 - xx else xx

backwards-append_one : (s : List ℕ) (c : ℕ) → backwards (s ++ (c ∷ [])) ≡ c ∷ backwards s
unfolding backwards
backwards-append_one [] c = refl
backwards-append_one (d ∷ s) c = ap (λ t. t ++ (d ∷ [])) (backwards-append_one s c)

few_digits :
    (base x : ℕ) → (base ≡ 10) ⊎ (base ≡ 16) → x < 2 ^ 32 → length (fill_digits 32 base x) ≤ 10
few_digits base x (inl e) lt =
    length-fill_digits 9 32 base x (omega (arith, e))
      (subst (λ b. x < b ^ 10) (sym e) (omega (arith, lt)))
few_digits base x (inr e) lt =
    length-fill_digits 9 32 base x (omega (arith, e))
      (subst (λ b. x < b ^ 10) (sym e) (omega (arith, lt)))

-- The buffer for the digits `ds`, with a minus or without.
signed :
    (neg : Bool) (ds : List ℕ)
    → backwards (ds ++ (if neg then minus ∷ [] else []))
      ≡ (if neg then minus ∷ backwards ds else backwards ds)
signed true ds = backwards-append_one ds minus
signed false ds = ap backwards (append-nil ds)

sign_length :
    (neg : Bool) (ds : List ℕ)
    → length ds ≤ 10
    → length (ds ++ (if neg then minus ∷ [] else [])) ≤ 16
sign_length true ds le = omega (arith, le, length-append ds (minus ∷ []))
sign_length false ds le = omega (arith, le, length-append ds [])

-- The uint that printint writes.
abbrev pub uint_of : ℕ → Bool → ℕ
uint_of xx sign = if sign && negative xx then (2 ^ 32 - xx) % 2 ^ 32 else xx

uint_of_lem : (xx : ℕ) (sign : Bool) → xx < 2 ^ 32 → uint_of xx sign ≡ magnitude xx sign
uint_of_lem xx true lt = ground (arith, lt)
uint_of_lem xx false lt = refl

uint_of-lt : (xx : ℕ) (sign : Bool) → xx < 2 ^ 32 → uint_of xx sign < 2 ^ 32
uint_of-lt xx true lt = ground (arith, lt)
uint_of-lt xx false lt = lt

-- What printint writes of an int in base 10 or 16 reads back, behind the minus of a negative number that
-- is written with its sign, as the number's magnitude, and it fills at most 16 bytes of its buffer.
pub read-printint :
    (xx base : ℕ) (sign : Bool)
    → xx < 2 ^ 32
    → (base ≡ 10) ⊎ (base ≡ 16)
    → (text : List ℕ) × (printint xx base sign
        ≡ (if sign && negative xx then minus ∷ text else text))
      × (read base 0 text ≡ magnitude xx sign)
      × (length (int_buffer xx base sign) ≤ 16)
unfolding printint int_buffer
read-printint xx base sign lt known =
    let x : ℕ = uint_of xx sign in
    let ds : List ℕ = fill_digits 32 base x in
    let small : x < 2 ^ 32 = uint_of-lt xx sign lt in
    (
      backwards ds,
      signed (sign && negative xx) ds,
      read-fill_digits 31 base x
            (elim known [ inl e ↦ omega (arith, e) | inr e ↦ omega (arith, e) ])
            (elim known [ inl e ↦ omega (arith, e) | inr e ↦ omega (arith, e) ]) small
          ∙ uint_of_lem xx sign lt,
      sign_length (sign && negative xx) ds (few_digits base x known small),
    )
