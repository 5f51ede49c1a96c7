-- ===== src/Ulib/Tests.antt =====
-- TDT4186 - OS/Labs/Lab3/user/ulib.c: two strings, and the number 42.
use ntnu_courses.Base.{◌≡◌, refl, ◌==◌, if◌then◌else◌, ok, arith}
use ntnu_courses.Str.{Mem}
use ntnu_courses.Printf.{printint, int_buffer, fill_digits, backwards}
use ntnu_courses.Ulib.{atoi}
use ntnu_courses.Ulib.Strings.{IsString}
use ntnu_courses.Ulib.Numbers.{atoi-printint}

-- "ab" at 10 and at 20, "42" at 30.
abbrev some_strings : Mem
some_strings a =
    if a == 10
    then 97
    else if a == 11
    then 98
    else if a == 20
    then 97
    else if a == 21
    then 98
    else if a == 30
    then 52
    else if a == 31
    then 50
    else 0

ab-IsString : IsString 10 2 some_strings
ab-IsString = ((λ i lt z. ground (arith, z, lt)), refl)

atoi-printint_example : atoi 5 30 some_strings ≡ ok 42
unfolding printint int_buffer fill_digits backwards
atoi-printint_example =
    atoi-printint 42 5 30 some_strings (omega arith) (refl, (refl, refl)) (omega arith)
