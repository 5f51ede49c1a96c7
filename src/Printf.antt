-- ===== src/Printf.antt =====
-- TDT4186 - OS/Labs/Lab3/kernel/printf.c: the characters that printf sends to the console, as a list.
-- An int is its 32 bits as a number below 2^32, and negative from 2^31 on. The format and a string
-- are lists of their bytes before the null.
pub mod Numbers
pub mod Format
mod Tests
use ntnu_courses.Base.{
  ℕ, zero, suc, ◌+◌, ◌-◌, ◌*◌, ◌/◌, ◌%◌, ◌^◌, Bool, ◌&&◌, true, false, not, Option, none, some, ltb,
  leb, ◌==◌, if◌then◌else◌, List, [], ◌∷◌, ◌++◌,
}

-- digits[d], of "0123456789abcdef".
abbrev pub digit : ℕ → ℕ
digit d = if ltb d 10 then 48 + d else 87 + d

-- do { buf[i++] = digits[x % base]; } while((x /= base) != 0): at most 32 rounds for a uint.
unfoldable pub fill_digits : ℕ → ℕ → ℕ → List ℕ
fill_digits zero base x = []
fill_digits (suc fuel) base x =
    let rest = fill_digits fuel base (x / base) in
    digit (x % base) ∷ (if x / base == 0 then [] else rest)

-- while(--i >= 0) consputc(buf[i]);
unfoldable pub backwards : List ℕ → List ℕ
backwards [] = []
backwards (c ∷ buf) = backwards buf ++ (c ∷ [])

abbrev pub negative : ℕ → Bool
negative xx = leb (2 ^ 31) xx

abbrev pub minus : ℕ
minus = 45

-- buf, as printint has filled it.
unfoldable pub int_buffer : ℕ → ℕ → Bool → List ℕ
unfolding fill_digits
int_buffer xx base sign =
    let neg = sign && negative xx in
    let x : ℕ = if neg then (2 ^ 32 - xx) % 2 ^ 32 else xx in
    fill_digits 32 base x ++ (if neg then minus ∷ [] else [])

unfoldable pub printint : ℕ → ℕ → Bool → List ℕ
unfolding int_buffer backwards
printint xx base sign = backwards (int_buffer xx base sign)

-- for(i = 0; ...; i++, x <<= 4) consputc(digits[x >> 60]), with `k` rounds left.
unfoldable pub print_nibbles : ℕ → ℕ → List ℕ
print_nibbles zero x = []
print_nibbles (suc k) x = digit (x / 2 ^ 60) ∷ print_nibbles k (x * 16 % 2 ^ 64)

unfoldable pub printptr : ℕ → List ℕ
unfolding print_nibbles
printptr x = 48 ∷ 120 ∷ print_nibbles 16 x

-- The argument that va_arg takes next; the null pointer is no string.
pub data Arg : Type 0 where
  an_int : ℕ → Arg
  a_pointer : ℕ → Arg
  a_string : Option (List ℕ) → Arg

-- "(null)".
abbrev pub null_text : List ℕ
null_text = 40 ∷ 110 ∷ 117 ∷ 108 ∷ 108 ∷ 41 ∷ []

abbrev pub string_text : Option (List ℕ) → List ℕ
string_text none = null_text
string_text (some s) = s

-- The printed argument of each kind, with the arguments that are left; `none` where va_arg finds none
-- of its kind, which C leaves undefined.
abbrev pub print_int : ℕ → List Arg → Option (List ℕ × List Arg)
print_int base [] = none
print_int base (an_int n ∷ args) = some (printint n base true, args)
print_int base (a_pointer p ∷ args) = none
print_int base (a_string s ∷ args) = none

abbrev pub print_pointer : List Arg → Option (List ℕ × List Arg)
print_pointer [] = none
print_pointer (an_int n ∷ args) = none
print_pointer (a_pointer p ∷ args) = some (printptr p, args)
print_pointer (a_string s ∷ args) = none

abbrev pub print_string : List Arg → Option (List ℕ × List Arg)
print_string [] = none
print_string (an_int n ∷ args) = none
print_string (a_pointer p ∷ args) = none
print_string (a_string s ∷ args) = some (string_text s, args)

-- The switch on the character behind a '%'.
unfoldable pub convert : ℕ → List Arg → Option (List ℕ × List Arg)
convert c args =
    if c == 100
    then print_int 10 args
    else if c == 120
    then print_int 16 args
    else if c == 112
    then print_pointer args
    else if c == 115
    then print_string args
    else if c == 37
    then some (37 ∷ [], args)
    else some (37 ∷ c ∷ [], args)

-- What is printed first, in front of what is printed then.
abbrev pub before : List ℕ → Option (List ℕ) → Option (List ℕ)
before s none = none
before s (some t) = some (s ++ t)

-- The loop of printf over the rest of the format.
unfoldable pub printf : List ℕ → List Arg → Option (List ℕ)
printf [] args = some []
printf (c ∷ []) args = if not (c == 37) then some (c ∷ []) else some []
printf (c ∷ d ∷ fmt) args =
    let plain : Option (List ℕ) = printf (d ∷ fmt) args in
    let converted : Option (List ℕ) = elim (convert d args) [
      | none ↦ none
      | some p ↦ before p.0 (printf fmt p.1)
    ] in
    if not (c == 37) then before (c ∷ []) plain else converted
