-- ===== src/Ulib.antt =====
-- TDT4186 - OS/Labs/Lab3/user/ulib.c: the C library of the user programs, on the memory of a process. A
-- loop that ends at a byte it looks for takes fuel. What the calls of read in gets deliver is a list.
pub mod Strings
pub mod Numbers
pub mod Memory
mod Tests
use ntnu_courses.Base.{
  ℕ, zero, suc, ◌+◌, ◌-◌, ◌*◌, ◌/◌, ◌%◌, ◌^◌, Bool, ◌&&◌, ◌||◌, true, false, not, ltb, leb, ◌==◌,
  if◌then◌else◌, update, ℤ, sub_ℕ, List, [], ◌∷◌, Result, ok, out_of_fuel, ◌>>=◌,
}
use ntnu_courses.Str.{Mem, copy_up, copy_down}

-- while((*s++ = *t++) != 0);
unfoldable pub strcpy : ℕ → ℕ → ℕ → Mem → Result Mem
strcpy zero s t m = out_of_fuel
strcpy (suc fuel) s t m =
    let m' : Mem = update m s (m t) in
    let rest = strcpy fuel (s + 1) (t + 1) m' in if m t == 0 then ok m' else rest

unfoldable pub strcmp : ℕ → ℕ → ℕ → Mem → Result ℤ
strcmp zero p q m = out_of_fuel
strcmp (suc fuel) p q m =
    let rest = strcmp fuel (p + 1) (q + 1) m in
    if not (m p == 0) && m p == m q then rest else ok (sub_ℕ (m p) (m q))

-- The address, 0 for the null pointer.
unfoldable pub strchr : ℕ → ℕ → ℕ → Mem → Result ℕ
strchr zero s c m = out_of_fuel
strchr (suc fuel) s c m =
    let rest = strchr fuel (s + 1) c m in if m s == 0 then ok 0 else if m s == c then ok s else rest

-- The loop of gets from `i` on; the end of the list is a read that returns less than 1. The memory, `i`
-- and what has not been read.
unfoldable pub gets_from : List ℕ → ℕ → ℕ → ℕ → Mem → Mem × ℕ × List ℕ
gets_from [] i buf max m = (m, i, [])
gets_from (c ∷ input) i buf max m =
    let m' : Mem = update m (buf + i) c in
    let rest = gets_from input (i + 1) buf max m' in
    if not (ltb (i + 1) max)
    then (m, i, c ∷ input)
    else if c == 10 || c == 13
    then (m', i + 1, input)
    else rest

unfoldable pub gets : List ℕ → ℕ → ℕ → Mem → Mem × List ℕ
unfolding gets_from
gets input buf max m =
    let (m', i, rest) = gets_from input 0 buf max m in (update m' (buf + i) 0, rest)

abbrev pub is_digit : ℕ → Bool
is_digit c = leb 48 c && leb c 57

-- while('0' <= *s && *s <= '9') n = n*10 + *s++ - '0'; with the wrap of 32 bits.
unfoldable pub atoi_from : ℕ → ℕ → ℕ → Mem → Result ℕ
atoi_from zero n s m = out_of_fuel
atoi_from (suc fuel) n s m =
    let rest = atoi_from fuel ((n * 10 + m s + (2 ^ 32 - 48)) % 2 ^ 32) (s + 1) m in
    if is_digit (m s) then rest else ok n

unfoldable pub atoi : ℕ → ℕ → Mem → Result ℕ
unfolding atoi_from
atoi fuel s m = atoi_from fuel 0 s m

-- `n` is an int that is not negative.
unfoldable pub memmove : Mem → ℕ → ℕ → ℕ → Mem
memmove m vdst vsrc n =
    if ltb vdst vsrc then copy_up n vsrc vdst m else copy_down n (vsrc + n) (vdst + n) m

unfoldable pub memcpy : Mem → ℕ → ℕ → ℕ → Mem
unfolding memmove
memcpy m dst src n = memmove m dst src n
