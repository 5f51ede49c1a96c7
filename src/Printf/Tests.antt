-- ===== src/Printf/Tests.antt =====
-- TDT4186 - OS/Labs/Lab3/kernel/printf.c: -42 in decimal.
use ntnu_courses.Base.{ℕ, ◌^◌, ◌≤◌, ◌≡◌, ◌-◌, refl, inl, true, some, List, [], ◌∷◌, length, arith}
use ntnu_courses.Printf.{minus, printint, int_buffer, an_int, printf}
use ntnu_courses.Printf.Format.{character, decimal, percent, output, joined, printf_lem}
use ntnu_courses.Printf.Numbers.{read, read-printint}

read-printint_example :
    (text : List ℕ) × (printint (2 ^ 32 - 42) 10 true ≡ minus ∷ text)
    × (read 10 0 text ≡ 42)
    × (length (int_buffer (2 ^ 32 - 42) 10 true) ≤ 16)
read-printint_example = read-printint (2 ^ 32 - 42) 10 true (omega arith) (inl refl)

-- "a%d%%".
printf_lem_example :
    printf (97 ∷ 37 ∷ 100 ∷ 37 ∷ 37 ∷ []) (an_int 7 ∷ [])
    ≡ some (joined output (character 97 ∷ decimal 7 ∷ percent ∷ []))
printf_lem_example =
    printf_lem (character 97 ∷ decimal 7 ∷ percent ∷ []) ((λ z. omega (arith, z)), (tt, (tt, tt)))
