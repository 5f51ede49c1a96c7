-- ===== src/Ulib/Numbers.antt =====
-- TDT4186 - OS/Labs/Lab3/user/ulib.c: atoi, and what it makes of a number that the kernel printed.
use ntnu_courses.Base.{
  ℕ, zero, suc, ◌+◌, ◌-◌, ◌*◌, ◌/◌, ◌%◌, ◌^◌, ◌≤◌, ◌<◌, ◌≡◌, refl, ap, ◌∙◌, inl, Bool, true, false,
  ◌==◌, if◌then◌else◌, List, [], ◌∷◌, ◌++◌, length, All, ok, arith,
}
use ntnu_courses.Str.{Mem}
use ntnu_courses.Printf.{printint, int_buffer, fill_digits, backwards, digit, negative}
use ntnu_courses.Printf.Numbers.{read, digit_value, read-printint}
use ntnu_courses.Ulib.{is_digit, atoi_from, atoi}

-- The characters of a text stand in memory from `s` on, and behind them one that is no digit.
abbrev pub Stands : ℕ → List ℕ → Mem → Type 0
Stands s [] m = is_digit (m s) ≡ false
Stands s (c ∷ text) m = (m s ≡ c) × Stands (s + 1) text m

abbrev pub Decimal : List ℕ → Type 0
Decimal text = All (λ c. is_digit c ≡ true) text

read_grows : (text : List ℕ) (acc : ℕ) → acc ≤ read 10 acc text
unfolding read
read_grows [] acc = omega arith
read_grows (c ∷ text) acc = omega (arith, read_grows text (acc * 10 + digit_value c))

step_value :
    (acc c : ℕ)
    → is_digit c ≡ true
    → acc * 10 + digit_value c < 2 ^ 32
    → (acc * 10 + c + (2 ^ 32 - 48)) % 2 ^ 32 ≡ acc * 10 + digit_value c
step_value acc c d lt = ground (arith, d, lt)

atoi_stop : (fuel n s : ℕ) (m : Mem) → is_digit (m s) ≡ false → atoi_from (suc fuel) n s m ≡ ok n
unfolding atoi_from
atoi_stop fuel n s m h = rw (h) refl

atoi_next :
    (fuel n s : ℕ) (m : Mem)
    → is_digit (m s) ≡ true
    → atoi_from (suc fuel) n s m
      ≡ atoi_from fuel ((n * 10 + m s + (2 ^ 32 - 48)) % 2 ^ 32) (s + 1) m
unfolding atoi_from
atoi_next fuel n s m h = rw (h) refl

-- atoi of a text of decimal digits, of a number below 2^32, is that number.
atoi_lem :
    (text : List ℕ) (fuel acc s : ℕ) (m : Mem)
    → Stands s text m
    → Decimal text
    → length text < fuel
    → read 10 acc text < 2 ^ 32
    → atoi_from fuel acc s m ≡ ok (read 10 acc text)
unfolding read
atoi_lem text zero acc s m st d f lt = absurd (omega (arith, f))
atoi_lem [] (suc fuel) acc s m st d f lt = atoi_stop fuel acc s m st
atoi_lem (c ∷ text) (suc fuel) acc s m (here, rest) (d, ds) f lt =
    let small : acc * 10 + digit_value c < 2 ^ 32 =
      omega (arith, lt, read_grows text (acc * 10 + digit_value c)) in
    atoi_next fuel acc s m (ap is_digit here ∙ d)
    ∙ ap (λ n. atoi_from fuel n (s + 1) m)
        (ap (λ x. (acc * 10 + x + (2 ^ 32 - 48)) % 2 ^ 32) here ∙ step_value acc c d small)
    ∙ atoi_lem text fuel (acc * 10 + digit_value c) (s + 1) m rest ds (omega (arith, f)) lt

Decimal-append : (s t : List ℕ) → Decimal s → Decimal t → Decimal (s ++ t)
Decimal-append [] t a b = b
Decimal-append (c ∷ s) t (d, ds) b = (d, Decimal-append s t ds b)

Decimal-backwards : (s : List ℕ) → Decimal s → Decimal (backwards s)
unfolding backwards
Decimal-backwards [] a = tt
Decimal-backwards (c ∷ s) (d, ds) =
    Decimal-append (backwards s) (c ∷ []) (Decimal-backwards s ds) (d, tt)

Decimal-fill_digits : (fuel x : ℕ) → Decimal (fill_digits fuel 10 x)
unfolding fill_digits
Decimal-fill_digits zero x = tt
Decimal-fill_digits (suc fuel) x = (
  decimal_digit (x % 10) (omega arith),
  more (x / 10 == 0) (fill_digits fuel 10 (x / 10)) (Decimal-fill_digits fuel (x / 10)),
)
  where
    decimal_digit : (d : ℕ) → d < 10 → is_digit (digit d) ≡ true
    decimal_digit d lt = ground (arith, lt)

    more : (b : Bool) (s : List ℕ) → Decimal s → Decimal (if b then [] else s)
    more true s a = tt
    more false s a = a

Decimal-printint : (x : ℕ) → x < 2 ^ 31 → Decimal (printint x 10 true)
unfolding printint int_buffer
Decimal-printint x lt =
    let plain : negative x ≡ false = ground (arith, lt) in
    rw (plain) (
      Decimal-backwards (fill_digits 32 10 x ++ [])
        (Decimal-append (fill_digits 32 10 x) [] (Decimal-fill_digits 32 x) tt))

-- atoi, on enough fuel, of what the kernel's printint writes of an int that is not negative, with any
-- byte behind it that is no digit, is that int.
pub atoi-printint :
    (x fuel s : ℕ) (m : Mem)
    → x < 2 ^ 31
    → Stands s (printint x 10 true) m
    → length (printint x 10 true) < fuel
    → atoi fuel s m ≡ ok x
unfolding atoi
atoi-printint x fuel s m lt st f =
    let (text, same, value, short) = read-printint x 10 true (omega (arith, lt)) (inl refl) in
    let plain : negative x ≡ false = ground (arith, lt) in
    let here : printint x 10 true ≡ text = same ∙ rw (plain) refl in
    let back : read 10 0 (printint x 10 true) ≡ x = ap (read 10 0) here ∙ value ∙ rw (plain) refl in
    atoi_lem (printint x 10 true) fuel 0 s m st (Decimal-printint x lt) f (omega (arith, back, lt))
    ∙ ap ok back
