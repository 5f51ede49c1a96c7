-- ===== src/Syscall/Sleep.antt =====
-- TDT4186 - OS/Labs/Lab3/kernel/sysproc.c: how long sys_sleep sleeps.
use ntnu_courses.Base.{
  ℕ, zero, suc, ◌+◌, ◌-◌, ◌^◌, ◌≤◌, ◌<◌, ◌≡◌, refl, Bool, false, none, some, List, [], ◌∷◌, ltb,
  if◌then◌else◌, ℤ, pos, negsuc, inl, inr, subst, Bool-cases, arith,
}
use ntnu_courses.Syscall.{u32, to_uint, sleep_loop, sys_sleep}

-- `k` tests of the loop, one a tick, from `i` ticks behind the start on, with ticks wrapping.
pub ticking : ℕ → ℕ → ℕ → List (ℕ × Bool)
ticking ticks0 i zero = []
ticking ticks0 i (suc k) = (u32 (ticks0 + i), false) ∷ ticking ticks0 (i + 1) k

sleep_loop_lem :
    (n ticks0 i k : ℕ)
    → n < 2 ^ 32
    → ticks0 < 2 ^ 32
    → i ≤ n
    → sleep_loop n ticks0 (ticking ticks0 i k) ≡ (if ltb n (i + k) then some 0 else none)
unfolding sleep_loop ticking
sleep_loop_lem n ticks0 i zero hn ht le = ground arith
sleep_loop_lem n ticks0 i (suc k) hn ht le =
    elim (Bool-cases (ltb (u32 (u32 (ticks0 + i) + 2 ^ 32 - ticks0)) n)) [
      | inl early ↦ rw early (ground (arith, early, sleep_loop_lem n ticks0 (i + 1) k hn ht))
      | inr over ↦ rw over (ground (arith, over))
    ]

to_uint-small : (n : ℤ) → ((m : ℕ) → n ≡ pos m → m < 2 ^ 31) → to_uint n < 2 ^ 32
unfolding to_uint
to_uint-small (pos m) h = omega (arith, h m refl)
to_uint-small (negsuc m) h = omega arith

-- A process that is not killed sleeps for exactly n ticks, across the wrap of the counter: the loop is
-- over, with the result 0, once more than n tests have been made, one a tick, and not before. A
-- negative n counts as the unsigned number that it converts to.
pub sys_sleep_lem :
    (n : ℤ) (ticks0 k : ℕ)
    → ((m : ℕ) → n ≡ pos m → m < 2 ^ 31)
    → ticks0 < 2 ^ 32
    → sys_sleep n ticks0 (ticking ticks0 0 k) ≡ (if ltb (to_uint n) k then some 0 else none)
unfolding sys_sleep
sys_sleep_lem n ticks0 k small ht =
    let e : 0 + k ≡ k = omega arith in
    subst
      (λ j.
        sleep_loop (to_uint n) ticks0 (ticking ticks0 0 k)
        ≡ (if ltb (to_uint n) j then some 0 else none))
      e (sleep_loop_lem (to_uint n) ticks0 0 k (to_uint-small n small) ht (omega arith))
