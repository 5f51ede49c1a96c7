-- ===== src/Printf/Format.antt =====
-- TDT4186 - OS/Labs/Lab3/kernel/printf.c: printf against the list of what is to be printed.
use ntnu_courses.Base.{
  ℕ, ◌≡◌, ◌≢◌, refl, ap, ◌∙◌, true, Option, some, ==_ne, List, [], ◌∷◌, ◌++◌, All,
}
use ntnu_courses.Printf.{
  Arg, an_int, a_pointer, a_string, printint, printptr, string_text, convert, before, printf,
}

-- What a piece of a format asks for.
pub data Piece : Type 0 where
  character : ℕ → Piece
  percent : Piece
  decimal : ℕ → Piece
  hexadecimal : ℕ → Piece
  pointer : ℕ → Piece
  text : Option (List ℕ) → Piece

-- A character is not the percent sign.
abbrev pub IsPlain : Piece → Type 0
IsPlain (character c) = c ≢ 37
IsPlain percent = Unit
IsPlain (decimal n) = Unit
IsPlain (hexadecimal n) = Unit
IsPlain (pointer p) = Unit
IsPlain (text s) = Unit

abbrev pub format : Piece → List ℕ
format (character c) = c ∷ []
format percent = 37 ∷ 37 ∷ []
format (decimal n) = 37 ∷ 100 ∷ []
format (hexadecimal n) = 37 ∷ 120 ∷ []
format (pointer p) = 37 ∷ 112 ∷ []
format (text s) = 37 ∷ 115 ∷ []

abbrev pub arguments : Piece → List Arg
arguments (character c) = []
arguments percent = []
arguments (decimal n) = an_int n ∷ []
arguments (hexadecimal n) = an_int n ∷ []
arguments (pointer p) = a_pointer p ∷ []
arguments (text s) = a_string s ∷ []

abbrev pub output : Piece → List ℕ
output (character c) = c ∷ []
output percent = 37 ∷ []
output (decimal n) = printint n 10 true
output (hexadecimal n) = printint n 16 true
output (pointer p) = printptr p
output (text s) = string_text s

-- The pieces one after the other.
abbrev pub joined {ℓ} : {A : Type ℓ} → (Piece → List A) → List Piece → List A
joined f [] = []
joined f (p ∷ ps) = f p ++ joined f ps

plain_lem :
    (c : ℕ) (fmt : List ℕ) (args : List Arg)
    → c ≢ 37
    → printf (c ∷ fmt) args ≡ before (c ∷ []) (printf fmt args)
unfolding printf
plain_lem c [] args ne = rw (==_ne c 37 ne) refl
plain_lem c (d ∷ fmt) args ne = rw (==_ne c 37 ne) refl

conversion_lem :
    (c : ℕ) (fmt : List ℕ) (args rest : List Arg) (s : List ℕ)
    → convert c args ≡ some (s, rest)
    → printf (37 ∷ c ∷ fmt) args ≡ before s (printf fmt rest)
unfolding printf
conversion_lem c fmt args rest s e = rw (e) refl

piece_lem :
    (p : Piece) (fmt : List ℕ) (args : List Arg)
    → IsPlain p
    → printf (format p ++ fmt) (arguments p ++ args) ≡ before (output p) (printf fmt args)
unfolding convert
piece_lem (character c) fmt args ne = plain_lem c fmt args ne
piece_lem percent fmt args h = conversion_lem 37 fmt args args (37 ∷ []) refl
piece_lem (decimal n) fmt args h =
    conversion_lem 100 fmt (an_int n ∷ args) args (printint n 10 true) refl
piece_lem (hexadecimal n) fmt args h =
    conversion_lem 120 fmt (an_int n ∷ args) args (printint n 16 true) refl
piece_lem (pointer p) fmt args h =
    conversion_lem 112 fmt (a_pointer p ∷ args) args (printptr p) refl
piece_lem (text s) fmt args h = conversion_lem 115 fmt (a_string s ∷ args) args (string_text s) refl

-- For a format made of plain characters, %%, %d, %x, %p and %s, and arguments of the kinds that it asks
-- for, printf prints the pieces one after the other: each number, pointer and string at its place.
pub printf_lem :
    (ps : List Piece)
    → All IsPlain ps
    → printf (joined format ps) (joined arguments ps) ≡ some (joined output ps)
unfolding printf
printf_lem [] h = refl
printf_lem (p ∷ ps) (plain, rest) =
    piece_lem p (joined format ps) (joined arguments ps) plain
    ∙ ap (before (output p)) (printf_lem ps rest)
