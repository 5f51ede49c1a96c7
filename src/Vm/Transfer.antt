-- ===== src/Vm/Transfer.antt =====
-- TDT4186 - OS/Labs/Lab3/kernel/vm.c: copyout, copyin and copyinstr, which move bytes between the
-- kernel's memory and the pages of a process. The kernel's addresses are physical. A round moves at
-- least one byte, so that `len` rounds and one are enough.
use ntnu_courses.Base.{
  ℕ, zero, suc, ◌+◌, ◌-◌, ◌%◌, Bool, true, false, ltb, ◌==◌, if◌then◌else◌, update, Result, ok,
  out_of_fuel, ◌>>=◌,
}
use ntnu_courses.Str.{Mem, memmove}
use ntnu_courses.Alloc.{pgsize, pg_round_down}
use ntnu_courses.Vm.{Vm, walkaddr}

abbrev pub set_mem : Mem → Vm → Vm
set_mem m s = record s { kmem = record s.kmem { mem = m } }

-- The bytes of the page from the address on, or all that are left.
abbrev pub part : ℕ → ℕ → ℕ
part va len = if ltb len (pgsize - va % pgsize) then len else pgsize - va % pgsize

-- `false` is the -1 of the code.
unfoldable pub copyout_from : ℕ → ℕ → ℕ → ℕ → ℕ → Vm → Result (Bool × Vm)
copyout_from zero pagetable dstva src len s = out_of_fuel
copyout_from (suc fuel) pagetable dstva src len s =
    let va0 : ℕ = pg_round_down dstva in
    let n : ℕ = part dstva len in
    let round = walkaddr pagetable va0 s >>= λ pa0. elim (pa0 == 0) [
      | true ↦ ok (false, s)
      | false ↦
          copyout_from fuel pagetable (va0 + pgsize) (src + n) (len - n)
            (set_mem (memmove s.kmem.mem (pa0 + (dstva - va0)) src n) s)
    ] in
    if ltb 0 len then round else ok (true, s)

unfoldable pub copyout : ℕ → ℕ → ℕ → ℕ → Vm → Result (Bool × Vm)
unfolding copyout_from
copyout pagetable dstva src len s = copyout_from (suc len) pagetable dstva src len s

unfoldable pub copyin_from : ℕ → ℕ → ℕ → ℕ → ℕ → Vm → Result (Bool × Vm)
copyin_from zero pagetable dst srcva len s = out_of_fuel
copyin_from (suc fuel) pagetable dst srcva len s =
    let va0 : ℕ = pg_round_down srcva in
    let n : ℕ = part srcva len in
    let round = walkaddr pagetable va0 s >>= λ pa0. elim (pa0 == 0) [
      | true ↦ ok (false, s)
      | false ↦
          copyin_from fuel pagetable (dst + n) (va0 + pgsize) (len - n)
            (set_mem (memmove s.kmem.mem dst (pa0 + (srcva - va0)) n) s)
    ] in
    if ltb 0 len then round else ok (true, s)

unfoldable pub copyin : ℕ → ℕ → ℕ → ℕ → Vm → Result (Bool × Vm)
unfolding copyin_from
copyin pagetable dst srcva len s = copyin_from (suc len) pagetable dst srcva len s

-- The inner loop of copyinstr over the `n` bytes from `p` on: whether the null was met, where it
-- writes next, and the memory.
unfoldable pub copy_string : ℕ → ℕ → ℕ → Mem → Bool × ℕ × Mem
copy_string zero p dst m = (false, dst, m)
copy_string (suc n) p dst m =
    let rest = copy_string n (p + 1) (dst + 1) (update m dst (m p)) in
    if m p == 0 then (true, dst, update m dst 0) else rest

unfoldable pub copyinstr_from : ℕ → ℕ → ℕ → ℕ → ℕ → Vm → Result (Bool × Vm)
unfolding copy_string
copyinstr_from zero pagetable dst srcva max s = out_of_fuel
copyinstr_from (suc fuel) pagetable dst srcva max s =
    let va0 : ℕ = pg_round_down srcva in
    let n : ℕ = part srcva max in
    let next = λ (pa0 : ℕ).
      let (got_null, dst', m) = copy_string n (pa0 + (srcva - va0)) dst s.kmem.mem in
      let rest = copyinstr_from fuel pagetable dst' (va0 + pgsize) (max - n) (set_mem m s) in
      if got_null then ok (true, set_mem m s) else rest in
    let round = walkaddr pagetable va0 s >>= λ pa0. elim (pa0 == 0) [
      | true ↦ ok (false, s)
      | false ↦ next pa0
    ] in
    if ltb 0 max then round else ok (false, s)

unfoldable pub copyinstr : ℕ → ℕ → ℕ → ℕ → Vm → Result (Bool × Vm)
unfolding copyinstr_from
copyinstr pagetable dst srcva max s = copyinstr_from (suc max) pagetable dst srcva max s
