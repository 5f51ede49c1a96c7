-- ===== src/Lock/Safety.antt =====
-- What holds after any schedule of the CPUs' accesses to a lock.
use ntnu_courses.Base.{
  ℕ, zero, suc, ◌+◌, ◌≤◌, ◌≡◌, ◌≢◌, refl, sym, ap, ◌∙◌, Bool, true, false, List, [], ◌∷◌, ◌++◌,
  replicate, ◌==◌, if◌then◌else◌, update, Bool-cases, ok, ok-injective, ◌⊎◌, inl, inr, ℕ_discrete,
  arith,
}
use ntnu_courses.Lock.{
  System, Pc, outside, spinning, got, inside, releasing, clearing, cleared, is_cpu, init, step,
  step_at, run,
}
use ntnu_courses.Lock.Inv.{owns, CpuAt, Inv, init-Inv, step-Inv}

run-Inv :
    {intr : ℕ → Bool} (is : List ℕ) (s : System)
    → Inv intr s
    → (s' : System) × (run is s ≡ ok s') × Inv intr s'
unfolding run
run-Inv [] s v = (s, refl, v)
run-Inv (i ∷ is) s v =
    let (s', one, v') = step-Inv i s v in
    let (s'', rest, v'') = run-Inv is s' v' in (s'', rw one rest, v'')

-- Whatever the order in which the CPUs make their accesses, none of them panics: `acquire` never
-- finds the lock held by its own CPU, `release` always does, and `pop_off` is always matched. At the
-- end two CPUs are never inside together.
pub mutual_exclusion :
    (intr : ℕ → Bool) (is : List ℕ)
    → (s : System) × (run is (init intr) ≡ ok s)
      × ((i j : ℕ) → s.pc i ≡ inside → s.pc j ≡ inside → i ≡ j)
mutual_exclusion intr is =
    let (s, e, v) = run-Inv is (init intr) (init-Inv intr) in
    (s, e, λ i j p q. v.one i j (ground arith) (ground arith))

-- Whatever the order, a CPU that is anywhere in `acquire`, in the critical section or in `release`
-- has its interrupts off, and one that is outside has them as they were at the start.
pub interrupts :
    (intr : ℕ → Bool) (is : List ℕ)
    → (s : System) × (run is (init intr) ≡ ok s)
      × ((i : ℕ) → s.pc i ≢ outside → (s.cpus i).intr ≡ false)
      × ((i : ℕ) → s.pc i ≡ outside → (s.cpus i).intr ≡ intr i)
interrupts intr is =
    let (s, e, v) = run-Inv is (init intr) (init-Inv intr) in
    (s, e, λ i p. off intr (s.pc i) i s p (v.quiet i), λ i p. back intr (s.pc i) i s p (v.quiet i))
  where
    off :
        (intr : ℕ → Bool) (p : Pc) (i : ℕ) (s : System)
        → p ≢ outside
        → CpuAt (intr i) p (s.cpus i)
        → (s.cpus i).intr ≡ false
    off intr outside i s ne q = absurd (ne refl)
    off intr _ i s ne q = q.1

    back :
        (intr : ℕ → Bool) (p : Pc) (i : ℕ) (s : System)
        → p ≡ outside
        → CpuAt (intr i) p (s.cpus i)
        → (s.cpus i).intr ≡ intr i
    back intr outside i s e q = q.1
    back intr _ i s e q = absurd (cc)

-- The owner's accesses until its release has given the lock back.
to_go : Pc → ℕ
to_go got = 5
to_go inside = 4
to_go releasing = 3
to_go clearing = 2
to_go cleared = 1
to_go _ = 0

-- The owner's next access, when it does not panic, brings it nearer to the end of its release, and the
-- last one frees the lock.
owner_moves :
    (p : Pc) (j : ℕ) (s s' : System)
    → owns p ≡ true
    → step_at p j s ≡ ok s'
    → ((i : ℕ) → i ≢ j → s'.pc i ≡ s.pc i)
      × (to_go (s'.pc j) + 1 ≡ to_go p)
      × ((to_go p ≡ 1) → s'.lock.locked ≡ 0)
      × ((to_go p ≢ 1) → owns (s'.pc j) ≡ true)
unfolding step_at to_go
owner_moves got j s s' o e =
    rw (← ok-injective _ s' e)
      (λ i ne. ground arith, ground arith, λ z. ground arith, λ z. ground arith)
owner_moves inside j s s' o e = elim (Bool-cases (s.lock.locked == 0)) [
  | inl free ↦ absurd (cc (rw free at e))
  | inr busy ↦
      rw (← ok-injective _ s' (rw busy at e))
        (λ i ne. ground arith, ground arith, λ z. ground arith, λ z. ground arith)
]
owner_moves releasing j s s' o e = elim (Bool-cases (is_cpu s.lock.cpu j)) [
  | inl mine ↦
      rw (← ok-injective _ s' (rw mine at e))
        (λ i ne. ground arith, ground arith, λ z. ground arith, λ z. ground arith)
  | inr other ↦ absurd (cc (rw other at e))
]
owner_moves clearing j s s' o e =
    rw (← ok-injective _ s' e)
      (λ i ne. ground arith, ground arith, λ z. ground arith, λ z. ground arith)
owner_moves cleared j s s' o e =
    rw (← ok-injective _ s' e)
      (λ i ne. ground arith, ground arith, λ z. ground arith, λ z. ground arith)
owner_moves _ j s s' o e = cc

-- The swap of a CPU at a free lock.
swap_free :
    (i : ℕ) (s : System)
    → s.lock.locked ≡ 0
    → s.pc i ≡ spinning
    → (s' : System) × (run (i ∷ []) s ≡ ok s') × (s'.pc i ≡ got)
unfolding run step step_at
swap_free i s free spin = (
  record s {
    lock = record s.lock { locked = 1 };
    pc = update s.pc i (if s.lock.locked == 0 then got else spinning);
  },
  rw spin refl,
  ground arith,
)

-- After the owner's next access the waiting CPU still waits.
owner_steps :
    {intr : ℕ → Bool} (n j i : ℕ) (s : System)
    → Inv intr s
    → owns (s.pc j) ≡ true
    → to_go (s.pc j) ≡ suc n
    → s.pc i ≡ spinning
    → (s1 : System) × (step j s ≡ ok s1)
      × Inv intr s1
      × (s1.pc i ≡ spinning)
      × (n ≡ 0 → s1.lock.locked ≡ 0)
      × (n ≢ 0 → (owns (s1.pc j) ≡ true) × (to_go (s1.pc j) ≡ n))
unfolding step
owner_steps n j i s v own left spin =
    let (s1, e, v1) = step-Inv j s v in
    let (others, nearer, last, more) = owner_moves (s.pc j) j s s1 own e in
    (
      s1,
      e,
      v1,
      others i (λ z. spins (s.pc j) (ap (λ k. s.pc k) (sym z) ∙ spin) own) ∙ spin,
      (λ z. last (omega (arith, left, z))),
      (λ z. (more (omega (arith, left, z)), omega (arith, left, nearer))),
    )
  where
    spins : (p : Pc) → p ≡ spinning → owns p ≡ true → ⊥
    spins p z o = cc

-- The owner's accesses, one after the other, and then the swap of a CPU that waits.
owner_leaves :
    {intr : ℕ → Bool} (n j i : ℕ) (s : System)
    → Inv intr s
    → owns (s.pc j) ≡ true
    → to_go (s.pc j) ≡ suc n
    → s.pc i ≡ spinning
    → (s' : System) × (run (replicate (suc n) j ++ i ∷ []) s ≡ ok s') × (s'.pc i ≡ got)
unfolding run
owner_leaves zero j i s v own left spin =
    let (s1, e, v1, spin1, last, more) = owner_steps zero j i s v own left spin in
    let (s', r, g) = swap_free i s1 (last refl) spin1 in (s', rw e r, g)
owner_leaves (suc n) j i s v own left spin =
    let (s1, e, v1, spin1, last, more) = owner_steps (suc n) j i s v own left spin in
    let (own1, left1) = more (omega arith) in
    let (s', r, g) = owner_leaves n j i s1 v1 own1 left1 spin1 in (s', rw e r, g)

some_left : (p : Pc) → owns p ≡ true → (n : ℕ) × (to_go p ≡ suc n) × (n ≤ 4)
unfolding to_go
some_left got o = (4, refl, omega arith)
some_left inside o = (3, refl, omega arith)
some_left releasing o = (2, refl, omega arith)
some_left clearing o = (1, refl, omega arith)
some_left cleared o = (0, refl, omega arith)
some_left _ o = cc

-- No deadlock: after any schedule, a CPU that is at the swap of acquire gets the lock with its next
-- access if the lock is free; if it is not, some CPU owns the lock, and after at most five accesses of
-- that CPU alone, none of which panics, the swap gets the lock.
pub no_deadlock :
    (intr : ℕ → Bool) (is : List ℕ)
    → (s : System) × (run is (init intr) ≡ ok s)
      × ((i : ℕ)
          → s.pc i ≡ spinning
          → (s.lock.locked ≡ 0) × ((s' : System) × (run (i ∷ []) s ≡ ok s') × (s'.pc i ≡ got))
            ⊎ ((j : ℕ) × (n : ℕ) × (s' : System) × (owns (s.pc j) ≡ true)
                × (n ≤ 5)
                × (run (replicate n j ++ i ∷ []) s ≡ ok s')
                × (s'.pc i ≡ got)))
no_deadlock intr is =
    let (s, e, v) = run-Inv is (init intr) (init-Inv intr) in
    (
      s,
      e,
      λ i spin. elim (ℕ_discrete s.lock.locked 0) [
        | yes free ↦ inl (free, swap_free i s free spin)
        | no busy ↦
            let (j, own) = v.held busy in
            let (n, left, few) = some_left (s.pc j) own in
            let (s', r, g) = owner_leaves n j i s v own left spin in
            inr (j, suc n, s', own, omega (arith, few), r, g)
      ],
    )
