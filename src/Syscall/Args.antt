-- ===== src/Syscall/Args.antt =====
-- TDT4186 - OS/Labs/Lab3/kernel/syscall.c, kernel/sysproc.c: the checks on what a user passes.
use ntnu_courses.Base.{
  ℕ, ◌+◌, ◌-◌, ◌^◌, ◌≤◌, ◌<◌, ◌≡◌, ◌≢◌, ◌↔◌, refl, inl, inr, Bool, Option, none, some, ltb, leb,
  ◌==◌, ℤ, pos, negsuc, ◌||◌, ◌&&◌, ap, ◌∙◌, ==_ne, ==_iff, Bool-cases, arith,
}
use ntnu_courses.Syscall.{
  Trapframe, u64, to_int, fetchaddr, handler, dispatch, syscall, sys_va2pa, va2pa_found,
}
use ntnu_courses.Proc.{Proc, Table, nproc, unused, find}
use ntnu_courses.Proc.Scan.{find-some, find-none}
use ntnu_courses.Proc.Inv.{IsValid}

-- fetchaddr reads exactly when all eight bytes lie in the process's memory, also for addresses where
-- the sum of its second test wraps.
pub fetchaddr_lem :
    (copyin : ℕ → Option ℕ) (sz addr v : ℕ)
    → sz ≤ 2 ^ 64 - 8
    → addr < 2 ^ 64
    → (fetchaddr copyin sz addr ≡ some v) ↔ ((addr + 8 ≤ sz) × (copyin addr ≡ some v))
unfolding fetchaddr
fetchaddr_lem copyin sz addr v small word =
    elim (Bool-cases (leb sz addr || ltb sz (u64 (addr + 8)))) [
      | inl out ↦ rw out (λ e. absurd (cc), λ (le, e). ground (arith, out, le))
      | inr within ↦ rw within (λ e. (ground (arith, within), e), λ (le, e). e)
    ]

-- syscall stores the result of the handler of the number in a7; a number that has no handler gives -1
-- and no handler runs.
pub syscall_lem :
    {S : Type 0} (nelem : ℕ) (syscalls : ℕ → Option (S → ℕ × S)) (tf : Trapframe) (s : S)
    → ((num : ℕ) (h : S → ℕ × S)
        → to_int tf.a7 ≡ pos num
        → 0 < num
        → num < nelem
        → syscalls num ≡ some h
        → syscall nelem syscalls tf s ≡ (record tf { a0 = (h s).0 }, (h s).1))
      × (((num : ℕ) → to_int tf.a7 ≡ pos num → 0 < num → num < nelem → syscalls num ≡ none)
          → syscall nelem syscalls tf s ≡ (record tf { a0 = 2 ^ 64 - 1 }, s))
unfolding syscall
syscall_lem {S = S} nelem syscalls tf s = (
  λ num h e a b c.
      ap (λ z. dispatch (handler nelem syscalls z) tf s) e
      ∙ ap (λ o. dispatch o tf s) (found num h a b c),
  λ f. ap (λ o. dispatch o tf s) (missing (to_int tf.a7) f),
)
  where
    found :
        (num : ℕ) (h : S → ℕ × S)
        → 0 < num
        → num < nelem
        → syscalls num ≡ some h
        → handler nelem syscalls (pos num) ≡ some h
    found num h a b c = ground (arith, c)

    missing :
        (z : ℤ)
        → ((num : ℕ) → z ≡ pos num → 0 < num → num < nelem → syscalls num ≡ none)
        → handler nelem syscalls z ≡ none
    missing (pos num) f = elim (Bool-cases (ltb 0 num && ltb num nelem)) [
      | inl within ↦ rw within (f num refl (ground (arith, within)) (ground (arith, within)))
      | inr out ↦ rw out refl
    ]
    missing (negsuc num) f = refl

-- sys_va2pa translates with the page table of the process in use that has the pid, and with none other.
pub sys_va2pa_lem :
    (walkaddr : ℕ → ℕ → ℕ) (me va q n : ℕ) (t : Table)
    → IsValid t n
    → ((x : ℕ) → x < nproc → (t x).state ≡ unused → (t x).pid ≡ 0)
    → q < nproc
    → (t q).state ≢ unused
    → sys_va2pa walkaddr me va (t q).pid t ≡ walkaddr (t q).pagetable va
unfolding sys_va2pa
sys_va2pa_lem walkaddr me va q n t v zeros lt live =
    rw (==_ne (t q).pid 0 (omega (arith, v.positive q lt live))) (found (find hit t nproc 0) refl)
  where
    hit : Proc → Bool
    hit p = p.pid == (t q).pid

    found :
        (o : Option ℕ)
        → find hit t nproc 0 ≡ o
        → va2pa_found walkaddr o t va ≡ walkaddr (t q).pagetable va
    found none e = absurd (ground (arith, find-none hit t nproc 0 e q (omega arith) lt))
    found (some i) e =
        let (h, lo, hi, before) = find-some hit t nproc 0 i e in
        let same : (t i).pid ≡ (t q).pid = (==_iff (t i).pid (t q).pid).0 h in
        ap (λ x. walkaddr (t x).pagetable va)
          (v.distinct i q hi lt (λ u. omega (arith, same, zeros i hi u, v.positive q lt live)) live
            same)
