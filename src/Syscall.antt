-- ===== src/Syscall.antt =====
-- TDT4186 - OS/Labs/Lab3/kernel/syscall.c, kernel/sysproc.c: the dispatch of system calls, their
-- arguments, and the calls that are more than a call of proc.c. A user address is a 64-bit word.
pub mod Args
pub mod Sleep
mod Tests
use ntnu_courses.Base.{
  ℕ, zero, suc, ◌+◌, ◌-◌, ◌%◌, ◌^◌, ◌<◌, Bool, ◌&&◌, ◌||◌, not, true, false, Option, none, some,
  List, [], ◌∷◌, ltb, leb, ◌==◌, if◌then◌else◌, ℤ, pos, negsuc, Result, ok, panic,
}
use ntnu_courses.Proc.{Proc, Table, nproc, find}
use ntnu_courses.Proc.Life.{Services, Kernel, grow, shrink}

pub record Trapframe : Type 0 where
  pub a0 : ℕ
  pub a1 : ℕ
  pub a2 : ℕ
  pub a3 : ℕ
  pub a4 : ℕ
  pub a5 : ℕ
  pub a7 : ℕ

abbrev pub u32 : ℕ → ℕ
u32 n = n % 2 ^ 32

abbrev pub u64 : ℕ → ℕ
u64 n = n % 2 ^ 64

unfoldable pub argraw : ℕ → Trapframe → Result ℕ
argraw n tf =
    if n == 0
    then ok tf.a0
    else if n == 1
    then ok tf.a1
    else if n == 2
    then ok tf.a2
    else if n == 3
    then ok tf.a3
    else if n == 4
    then ok tf.a4
    else if n == 5
    then ok tf.a5
    else panic "argraw"

-- The conversion of a 64-bit word to an int.
unfoldable pub to_int : ℕ → ℤ
to_int x = if ltb (u32 x) (2 ^ 31) then pos (u32 x) else negsuc (2 ^ 32 - 1 - u32 x)

-- The conversion of an int to an unsigned int.
unfoldable pub to_uint : ℤ → ℕ
to_uint (pos n) = n
to_uint (negsuc n) = 2 ^ 32 - 1 - n

-- fetchaddr: `copyin` is what copyin reads at the address; `none` is the -1 of the code.
unfoldable pub fetchaddr : (ℕ → Option ℕ) → ℕ → ℕ → Option ℕ
fetchaddr copyin sz addr = if leb sz addr || ltb sz (u64 (addr + 8)) then none else copyin addr

-- The entry of the array `syscalls` of `nelem` places at the number `num`, where there is one.
abbrev pub handler : {S : Type 0} → ℕ → (ℕ → Option (S → ℕ × S)) → ℤ → Option (S → ℕ × S)
handler nelem syscalls (pos num) = if ltb 0 num && ltb num nelem then syscalls num else none
handler nelem syscalls (negsuc num) = none

abbrev pub set_a0 : {S : Type 0} → Trapframe → ℕ × S → Trapframe × S
set_a0 tf (r, s) = (record tf { a0 = r }, s)

abbrev pub dispatch : {S : Type 0} → Option (S → ℕ × S) → Trapframe → S → Trapframe × S
dispatch none tf s = (record tf { a0 = 2 ^ 64 - 1 }, s)
dispatch (some h) tf s = set_a0 tf (h s)

-- syscall(), on the state `s` that the handlers change.
unfoldable pub syscall : {S : Type 0} → ℕ → (ℕ → Option (S → ℕ × S)) → Trapframe → S → Trapframe × S
syscall nelem syscalls tf s = dispatch (handler nelem syscalls (to_int tf.a7)) tf s

-- sys_sbrk of `n` by `me`.
unfoldable pub sys_sbrk : {S : Type 0} → Services S → ℕ → ℤ → Kernel S → ℕ × Kernel S
sys_sbrk sv me (pos zero) k = ((k.proc me).sz, k)
sys_sbrk sv me (pos (suc n)) k =
    let grown = grow sv me (suc n) k in (if grown.0 then (k.proc me).sz else 2 ^ 64 - 1, grown.1)
sys_sbrk sv me (negsuc n) k = ((k.proc me).sz, shrink sv me (suc n) k)

-- The end of the scan of sys_va2pa.
abbrev pub va2pa_found : (ℕ → ℕ → ℕ) → Option ℕ → Table → ℕ → ℕ
va2pa_found walkaddr none t va = 0
va2pa_found walkaddr (some i) t va = walkaddr (t i).pagetable va

-- sys_va2pa by `me`, over walkaddr(pagetable, va).
unfoldable pub sys_va2pa : (ℕ → ℕ → ℕ) → ℕ → ℕ → ℕ → Table → ℕ
sys_va2pa walkaddr me va pid t =
    if pid == 0
    then walkaddr (t me).pagetable va
    else va2pa_found walkaddr (find (λ p. p.pid == pid) t nproc 0) t va

-- sys_sleep: one test of the loop for each entry of `tests`, which has the value of ticks and whether the
-- process is killed; `none` means that the process sleeps on.
unfoldable pub sleep_loop : ℕ → ℕ → List (ℕ × Bool) → Option ℕ
sleep_loop n ticks0 [] = none
sleep_loop n ticks0 ((ticks, killed) ∷ tests) =
    let rest = sleep_loop n ticks0 tests in
    if ltb (u32 (ticks + 2 ^ 32 - ticks0)) n
    then if killed then some (2 ^ 64 - 1) else rest
    else some 0

unfoldable pub sys_sleep : ℤ → ℕ → List (ℕ × Bool) → Option ℕ
sys_sleep n ticks0 tests = sleep_loop (to_uint n) ticks0 tests
