-- ===== src/Proc/Wait.antt =====
-- TDT4186 - OS/Labs/Lab3/kernel/proc.c: wait, and that a parent finds the child that has exited.
use ntnu_courses.Base.{
  ℕ, ◌<◌, ◌≡◌, ◌≢◌, ◌⊎◌, refl, sym, ◌∙◌, inl, inr, Option, none, some, true, false, ◌==◌, subst,
  Bool-cases, ℕ_discrete, Result, ok, panic, ok-injective, arith,
}
use ntnu_courses.Proc.{nproc, unused, zombie, ptr, find}
use ntnu_courses.Proc.Scan.{find-some, find-none}
use ntnu_courses.Proc.Life.{
  Services, Kernel, freeproc, exit, reap, wait_scan, wait_found, no_zombie, Waited, reaped, error,
  sleeps, is_zombie_child,
}
use ntnu_courses.Proc.Exit.{Exited, exit-branches}

-- What one scan of wait by `me` does.
pub data WaitResult {S : Type 0} (sv : Services S) (me addr : ℕ) (k : Kernel S)
    : Waited × Kernel S → Type 0 where
  -- A zombie child is collected: its place is free again and no other process changes.
  collected :
      {pid : ℕ} {k' : Kernel S} (i : ℕ)
      → i < nproc
      → (k.proc i).parent ≡ ptr me
      → (k.proc i).state ≡ zombie
      → (addr ≡ 0) ⊎ ((sv.copyout (k.proc me).pagetable addr (k.proc i).xstate k.rest).0 ≡ true)
      → pid ≡ (k.proc i).pid
      → (k'.proc i).state ≡ unused
      → (k'.proc i).parent ≡ 0
      → ((q : ℕ) → q ≢ i → k'.proc q ≡ k.proc q)
      → k'.nextpid ≡ k.nextpid
      → WaitResult sv me addr k (reaped pid, k')
  -- The status of a zombie child could not be copied out.
  not_copied :
      {k' : Kernel S} (i : ℕ)
      → i < nproc
      → (k.proc i).parent ≡ ptr me
      → (k.proc i).state ≡ zombie
      → addr ≢ 0
      → (sv.copyout (k.proc me).pagetable addr (k.proc i).xstate k.rest).0 ≡ false
      → k'.proc ≡ k.proc
      → k'.nextpid ≡ k.nextpid
      → WaitResult sv me addr k (error, k')
  -- No child, or no zombie among them and the caller is killed.
  no_point :
      ((q : ℕ) → q < nproc → (k.proc q).parent ≡ ptr me → (k.proc q).state ≢ zombie)
      → ((q : ℕ) → q < nproc → (k.proc q).parent ≢ ptr me) ⊎ ((k.proc me).killed ≢ 0)
      → WaitResult sv me addr k (error, k)
  waits :
      ((q : ℕ) → q < nproc → (k.proc q).parent ≡ ptr me → (k.proc q).state ≢ zombie)
      → (i : ℕ) → i < nproc
      → (k.proc i).parent ≡ ptr me
      → (k.proc me).killed ≡ 0
      → WaitResult sv me addr k (sleeps, k)

reap_lem :
    {S : Type 0} (sv : Services S) (me addr i : ℕ) (k : Kernel S)
    → i < nproc
    → (k.proc i).parent ≡ ptr me
    → (k.proc i).state ≡ zombie
    → WaitResult sv me addr k (reap sv me addr i k)
unfolding reap freeproc
reap_lem sv me addr i k lt child z = elim (Bool-cases (addr == 0)) [
  | inl null ↦ rw null (
      collected i lt child z (inl (ground arith)) refl (ground arith) (ground arith)
        (λ q ne. ground arith) refl)
  | inr some_addr ↦
      rw some_addr
        (elim (Bool-cases (sv.copyout (k.proc me).pagetable addr (k.proc i).xstate k.rest).0) [
          | inl copied ↦ rw copied (
              collected i lt child z (inr copied) refl (ground arith) (ground arith)
                (λ q ne. ground arith) refl)
          | inr broken ↦ rw broken (not_copied i lt child z (ground arith) broken refl refl)
        ])
]

-- A scan of wait collects a zombie child, when there is no address for its status or copyout of it
-- succeeds: it returns the child's pid, and the child's place is free again with no other process
-- changed. It fails only when copyout of a zombie child's status fails, without a child, or when
-- killed and without a zombie child; and it sleeps only with a child, none of them a zombie, and not killed.
pub wait_scan_lem :
    {S : Type 0} (sv : Services S) (me addr : ℕ) (k : Kernel S)
    → WaitResult sv me addr k (wait_scan sv me addr k)
unfolding wait_scan
wait_scan_lem sv me addr k = found (find (is_zombie_child me) k.proc nproc 0) refl
  where
    childless :
        ((q : ℕ) → q < nproc → (k.proc q).parent ≡ ptr me → (k.proc q).state ≢ zombie)
        → (o : Option ℕ) → find (λ p. p.parent == ptr me) k.proc nproc 0 ≡ o
        → WaitResult sv me addr k (no_zombie o (k.proc me).killed, k)
    childless none_of none e = no_point none_of (
        inl (λ q lt.
          ground (arith, find-none (λ p. p.parent == ptr me) k.proc nproc 0 e q (omega arith) lt)))
    childless none_of (some i) e =
        let (h, lo, hi, before) = find-some (λ p. p.parent == ptr me) k.proc nproc 0 i e in
        elim (Bool-cases ((k.proc me).killed == 0)) [
          | inl alive ↦ rw alive (waits none_of i hi (ground (arith, h)) (ground arith))
          | inr dead ↦ rw dead (no_point none_of (inr (ground arith)))
        ]

    found :
        (o : Option ℕ)
        → find (is_zombie_child me) k.proc nproc 0 ≡ o
        → WaitResult sv me addr k (wait_found sv me addr o k)
    found (some i) e =
        let (h, lo, hi, before) = find-some (is_zombie_child me) k.proc nproc 0 i e in
        reap_lem sv me addr i k hi (ground (arith, h)) (ground (arith, h))
    found none e =
        childless
          (λ q lt c z.
            ground (arith, find-none (is_zombie_child me) k.proc nproc 0 e q (omega arith) lt))
          (find (λ p. p.parent == ptr me) k.proc nproc 0) refl

-- A parent, another process than its child, that waits after the child has exited does not sleep.
pub wait_after_exit :
    {S : Type 0} (sv : Services S) (me parent status addr : ℕ) (k k' : Kernel S)
    → me < nproc
    → me ≢ parent
    → (k.proc me).parent ≡ ptr parent
    → exit sv me status k ≡ ok k'
    → (wait_scan sv parent addr k').0 ≢ sleeps
wait_after_exit {S = S} sv me parent status addr k k' lt ne child e =
    go (wait_scan sv parent addr k') (wait_scan_lem sv parent addr k') left.is_zombie
      (left.parent me ∙ ground arith)
  where
    no_ok :
        (r : Result (Kernel S))
        → r ≡ panic "init exiting"
        → r ≡ ok k'
        → Exited k.initproc me status k.proc k'.proc
    no_ok r p q = cc

    left : Exited k.initproc me status k.proc k'.proc
    left = elim (ℕ_discrete me k.initproc) [
      | yes init ↦ no_ok (exit sv me status k) ((exit-branches sv me status k).0 init) e
      | no other ↦
          let (k2, e2, x) = (exit-branches sv me status k).1 other in
          subst (λ z. Exited k.initproc me status k.proc z.proc) (ok-injective k2 k' (sym e2 ∙ e)) x
    ]

    go :
        (r : Waited × Kernel S)
        → WaitResult sv parent addr k' r
        → (k'.proc me).state ≡ zombie
        → (k'.proc me).parent ≡ ptr parent
        → r.0 ≢ sleeps
    go (reaped pid, k2) (collected i a b c w d f g h n) z p = cc
    go (error, k2) (not_copied i a b c d w f n) z p = cc
    go (error, k2) (no_point a b) z p = cc
    go (sleeps, k2) (waits none_of i a b c) z p = absurd (none_of me lt p z)
