-- ===== src/Str.antt =====
-- TDT4186 - OS/Labs/Lab3/kernel/string.c: the byte routines of the kernel. Memory is a function from
-- addresses to bytes; a pointer is an address. A routine that writes returns the new memory (each
-- returns its first argument in C, and no caller needs it).
pub mod Move
pub mod Compare
pub mod Copy
mod Tests
use ntnu_courses.Base.{
  ℕ, zero, suc, ◌+◌, ◌-◌, ◌%◌, Bool, ◌&&◌, true, false, not, Option, none, some, ltb, leb, ◌==◌,
  if◌then◌else◌, update, ℤ, pos, sub_ℕ,
}

abbrev pub Mem : Type 0
Mem = ℕ → ℕ

-- for(i = 0; i < n; i++) cdst[i] = c; the first argument counts the rounds left.
fill : ℕ → ℕ → ℕ → ℕ → Mem → Mem
fill zero i dst c m = m
fill (suc k) i dst c m = fill k (i + 1) dst c (update m (dst + i) (c % 256))

pub memset : Mem → ℕ → ℕ → ℕ → Mem
unfolding fill
memset m dst c n = fill n 0 dst c m

-- The `while` of `memcmp`.
pub memcmp : Mem → ℕ → ℕ → ℕ → ℤ
memcmp m s1 s2 zero = pos 0
memcmp m s1 s2 (suc n) =
    let rest = memcmp m (s1 + 1) (s2 + 1) n in
    if not (m s1 == m s2) then sub_ℕ (m s1) (m s2) else rest

-- while(n-- > 0) *d++ = *s++;
pub copy_up : ℕ → ℕ → ℕ → Mem → Mem
copy_up zero s d m = m
copy_up (suc k) s d m = copy_up k (s + 1) (d + 1) (update m d (m s))

-- while(n-- > 0) *--d = *--s;
pub copy_down : ℕ → ℕ → ℕ → Mem → Mem
copy_down zero s d m = m
copy_down (suc k) s d m = copy_down k (s - 1) (d - 1) (update m (d - 1) (m (s - 1)))

pub memmove : Mem → ℕ → ℕ → ℕ → Mem
unfolding copy_up copy_down
memmove m dst src n =
    if n == 0
    then m
    else if ltb src dst && ltb dst (src + n)
    then copy_down n (src + n) (dst + n) m
    else copy_up n src dst m

pub memcpy : Mem → ℕ → ℕ → ℕ → Mem
unfolding memmove
memcpy m dst src n = memmove m dst src n

-- `n`, `p` and `q` are the variables of the `while`; the value after it follows it here.
pub strncmp : Mem → ℕ → ℕ → ℕ → ℤ
strncmp m p q zero = pos 0
strncmp m p q (suc n) =
    let rest = strncmp m (p + 1) (q + 1) n in
    if not (m p == 0) && m p == m q then rest else sub_ℕ (m p) (m q)

-- while(n-- > 0) *s++ = 0;
zeros : ℕ → ℕ → Mem → Mem
zeros zero s m = m
zeros (suc k) s m = zeros k (s + 1) (update m s 0)

-- The first `while` copies to the NUL, its own byte included; the second fills what is left of `n`.
pub strncpy : Mem → ℕ → ℕ → ℕ → Mem
unfolding zeros
strncpy m s t zero = m
strncpy m s t (suc k) =
    let rest = strncpy (update m s (m t)) (s + 1) (t + 1) k in
    if m t == 0 then zeros k (s + 1) (update m s (m t)) else rest

-- while(--n > 0 && (*s++ = *t++) != 0) ; *s = 0; at `k + 1` the first argument is `k`. After a NUL
-- has been copied the last write goes to the byte behind it.
safe_loop : ℕ → ℕ → ℕ → Mem → Mem
safe_loop zero s t m = update m s 0
safe_loop (suc k) s t m =
    let rest = safe_loop k (s + 1) (t + 1) (update m s (m t)) in
    if m t == 0 then update (update m s (m t)) (s + 1) 0 else rest

pub safestrcpy : Mem → ℕ → ℕ → ℕ → Mem
unfolding safe_loop
safestrcpy m s t zero = m
safestrcpy m s t (suc k) = safe_loop k s t m

-- for(n = 0; s[n]; n++); with fuel, `none` when it runs out.
strlen_from : ℕ → Mem → ℕ → ℕ → Option ℕ
strlen_from zero m s n = none
strlen_from (suc f) m s n =
    let rest = strlen_from f m s (n + 1) in if m (s + n) == 0 then some n else rest

pub strlen : ℕ → Mem → ℕ → Option ℕ
unfolding strlen_from
strlen fuel m s = strlen_from fuel m s 0
