-- ===== src/Lock/Inv.antt =====
-- The invariant of a spinlock among any number of CPUs, kept by every access.
use ntnu_courses.Base.{
  ℕ, ◌≡◌, ◌≢◌, refl, Bool, true, false, none, some, ok, update, ◌==◌, Bool-cases, inl, inr,
  if◌then◌else◌, arith,
}
use ntnu_courses.Lock.{
  Cpu, System, Pc, outside, checking, spinning, got, inside, releasing, clearing, cleared, stored,
  init, step, step_at, push_off,
}

-- Between the swap that won and the store that gives the lock back.
abbrev pub owns : Pc → Bool
owns got = true
owns inside = true
owns releasing = true
owns clearing = true
owns cleared = true
owns _ = false

-- Between the two stores to lk->cpu.
abbrev pub marks : Pc → Bool
marks inside = true
marks releasing = true
marks clearing = true
marks _ = false

-- What the CPU's interrupt state is at each place, if its interrupts were `b` outside.
abbrev pub CpuAt : Bool → Pc → Cpu → Type 0
CpuAt b outside c = (c.noff ≡ 0) × (c.intr ≡ b)
CpuAt b _ c = (c.noff ≡ 1) × (c.intr ≡ false) × (c.intena ≡ b)

pub record Inv (intr : ℕ → Bool) (s : System) : Type 0 where
  pub one : (i j : ℕ) → owns (s.pc i) ≡ true → owns (s.pc j) ≡ true → i ≡ j
  pub taken : (i : ℕ) → owns (s.pc i) ≡ true → s.lock.locked ≡ 1
  pub held : s.lock.locked ≢ 0 → (i : ℕ) × (owns (s.pc i) ≡ true)
  pub marked : (i : ℕ) → marks (s.pc i) ≡ true → s.lock.cpu ≡ some i
  pub unmarked : (i : ℕ) → s.lock.cpu ≡ some i → marks (s.pc i) ≡ true
  pub quiet : (i : ℕ) → CpuAt (intr i) (s.pc i) (s.cpus i)

pub init-Inv : (intr : ℕ → Bool) → Inv intr (init intr)
init-Inv intr = record {
  one = λ i j p q. cc;
  taken = λ i p. cc;
  held = λ h. absurd (h refl);
  marked = λ i p. cc;
  unmarked = λ i p. cc;
  quiet = λ i. (refl, refl);
}

-- Where the moved CPU goes and what it leaves, for the entry to `p'` of CPU `i` that stood at `p`.
module _ {intr : ℕ → Bool} (i : ℕ) (s : System) (v : Inv intr s) where
  from_outside : s.pc i ≡ outside → (s' : System) × (step_at outside i s ≡ ok s') × Inv intr s'
  unfolding step_at
  from_outside e = (
    record s {
      cpus = update s.cpus i (push_off (s.cpus i));
      pc = update s.pc i (if s.lock.locked == 0 then spinning else checking);
    },
    refl,
    record {
      one = λ j k p q.
          ground (arith, v.one j k, v.one i j, v.one i k, v.taken j, v.taken k, v.taken i);
      taken = λ j p. ground (arith, v.taken j, v.one i j);
      held = λ h. let (j, o) = v.held h in (j, ground arith);
      marked = λ j p. ground (arith, v.marked j, v.taken j, v.one i j);
      unmarked = λ j p. ground (arith, v.unmarked j);
      quiet = λ j. ground (arith, v.quiet j, v.quiet i);
    },
  )

  from_checking : s.pc i ≡ checking → (s' : System) × (step_at checking i s ≡ ok s') × Inv intr s'
  unfolding step_at
  from_checking e = (
    record s { pc = update s.pc i spinning },
    ground (arith, v.unmarked i),
    record {
      one = λ j k p q.
          ground (arith, v.one j k, v.one i j, v.one i k, v.taken j, v.taken k, v.taken i);
      taken = λ j p. ground (arith, v.taken j, v.one i j);
      held = λ h. let (j, o) = v.held h in (j, ground arith);
      marked = λ j p. ground (arith, v.marked j, v.taken j, v.one i j);
      unmarked = λ j p. ground (arith, v.unmarked j);
      quiet = λ j. ground (arith, v.quiet j, v.quiet i);
    },
  )

  from_spinning : s.pc i ≡ spinning → (s' : System) × (step_at spinning i s ≡ ok s') × Inv intr s'
  unfolding step_at
  from_spinning e = (
    record s {
      lock = record s.lock { locked = 1 };
      pc = update s.pc i (if s.lock.locked == 0 then got else spinning);
    },
    refl,
    record {
      one = λ j k p q.
          ground (arith, v.one j k, v.one i j, v.one i k, v.taken j, v.taken k, v.taken i);
      taken = λ j p. ground (arith, v.taken j, v.one i j);
      held = λ h. elim (Bool-cases (s.lock.locked == 0)) [
        | inl free ↦ (i, ground arith)
        | inr busy ↦ let (j, o) = v.held (ground arith) in (j, ground arith)
      ];
      marked = λ j p. ground (arith, v.marked j, v.taken j, v.one i j);
      unmarked = λ j p. ground (arith, v.unmarked j);
      quiet = λ j. ground (arith, v.quiet j, v.quiet i);
    },
  )

  from_got : s.pc i ≡ got → (s' : System) × (step_at got i s ≡ ok s') × Inv intr s'
  unfolding step_at
  from_got e = (
    record s { lock = record s.lock { cpu = some i }; pc = update s.pc i inside },
    refl,
    record {
      one = λ j k p q.
          ground (arith, v.one j k, v.one i j, v.one i k, v.taken j, v.taken k, v.taken i);
      taken = λ j p. ground (arith, v.taken j, v.one i j);
      held = λ h. (i, ground arith);
      marked = λ j p. ground (arith, v.marked j, v.taken j, v.one i j);
      unmarked = λ j p. ground (arith, v.unmarked j);
      quiet = λ j. ground (arith, v.quiet j, v.quiet i);
    },
  )

  from_inside : s.pc i ≡ inside → (s' : System) × (step_at inside i s ≡ ok s') × Inv intr s'
  unfolding step_at
  from_inside e = (
    record s { pc = update s.pc i releasing },
    ground (arith, v.taken i),
    record {
      one = λ j k p q.
          ground (arith, v.one j k, v.one i j, v.one i k, v.taken j, v.taken k, v.taken i);
      taken = λ j p. ground (arith, v.taken j, v.one i j);
      held = λ h. (i, ground arith);
      marked = λ j p. ground (arith, v.marked j, v.taken j, v.one i j);
      unmarked = λ j p. ground (arith, v.unmarked j);
      quiet = λ j. ground (arith, v.quiet j, v.quiet i);
    },
  )

  from_releasing :
      s.pc i ≡ releasing → (s' : System) × (step_at releasing i s ≡ ok s') × Inv intr s'
  unfolding step_at
  from_releasing e = (
    record s { pc = update s.pc i clearing },
    ground (arith, v.marked i),
    record {
      one = λ j k p q.
          ground (arith, v.one j k, v.one i j, v.one i k, v.taken j, v.taken k, v.taken i);
      taken = λ j p. ground (arith, v.taken j, v.one i j);
      held = λ h. (i, ground arith);
      marked = λ j p. ground (arith, v.marked j, v.taken j, v.one i j);
      unmarked = λ j p. ground (arith, v.unmarked j);
      quiet = λ j. ground (arith, v.quiet j, v.quiet i);
    },
  )

  from_clearing : s.pc i ≡ clearing → (s' : System) × (step_at clearing i s ≡ ok s') × Inv intr s'
  unfolding step_at
  from_clearing e = (
    record s { lock = record s.lock { cpu = none }; pc = update s.pc i cleared },
    refl,
    record {
      one = λ j k p q.
          ground (arith, v.one j k, v.one i j, v.one i k, v.taken j, v.taken k, v.taken i);
      taken = λ j p. ground (arith, v.taken j, v.one i j);
      held = λ h. (i, ground arith);
      marked = λ j p. ground (arith, v.marked j, v.taken j, v.one i j);
      unmarked = λ j p. ground (arith, v.unmarked j);
      quiet = λ j. ground (arith, v.quiet j, v.quiet i);
    },
  )

  from_cleared : s.pc i ≡ cleared → (s' : System) × (step_at cleared i s ≡ ok s') × Inv intr s'
  unfolding step_at
  from_cleared e = (
    record s { lock = record s.lock { locked = 0 }; pc = update s.pc i stored },
    refl,
    record {
      one = λ j k p q.
          ground (arith, v.one j k, v.one i j, v.one i k, v.taken j, v.taken k, v.taken i);
      taken = λ j p. ground (arith, v.taken j, v.one i j);
      held = λ h. absurd (h refl);
      marked = λ j p. ground (arith, v.marked j, v.taken j, v.one i j);
      unmarked = λ j p. ground (arith, v.unmarked j);
      quiet = λ j. ground (arith, v.quiet j, v.quiet i);
    },
  )

  from_stored : s.pc i ≡ stored → (s' : System) × (step_at stored i s ≡ ok s') × Inv intr s'
  unfolding step_at
  from_stored e = (
    record s {
      cpus = update s.cpus i (record { noff = 0; intena = intr i; intr = intr i });
      pc = update s.pc i outside;
    },
    ground (arith, v.quiet i),
    record {
      one = λ j k p q.
          ground (arith, v.one j k, v.one i j, v.one i k, v.taken j, v.taken k, v.taken i);
      taken = λ j p. ground (arith, v.taken j, v.one i j);
      held = λ h. let (j, o) = v.held h in (j, ground arith);
      marked = λ j p. ground (arith, v.marked j, v.taken j, v.one i j);
      unmarked = λ j p. ground (arith, v.unmarked j);
      quiet = λ j. ground (arith, v.quiet j, v.quiet i);
    },
  )

  -- Every access of every CPU succeeds, and keeps the invariant.
  pub step-Inv : (s' : System) × (step i s ≡ ok s') × Inv intr s'
  unfolding step
  step-Inv = by_place (s.pc i) refl
    where
      by_place : (p : Pc) → s.pc i ≡ p → (s' : System) × (step_at p i s ≡ ok s') × Inv intr s'
      by_place outside e = from_outside e
      by_place checking e = from_checking e
      by_place spinning e = from_spinning e
      by_place got e = from_got e
      by_place inside e = from_inside e
      by_place releasing e = from_releasing e
      by_place clearing e = from_clearing e
      by_place cleared e = from_cleared e
      by_place stored e = from_stored e
