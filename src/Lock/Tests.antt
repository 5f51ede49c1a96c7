-- ===== src/Lock/Tests.antt =====
-- Two CPUs that contend for a lock, and the theorems at concrete schedules.
use ntnu_courses.Base.{
  ℕ, ◌≡◌, ◌≢◌, ◌⊎◌, refl, Bool, true, false, List, [], ◌∷◌, ◌++◌, ◌≤◌, replicate, ok, ◌==◌,
}
use ntnu_courses.Lock.{Cpu, System, outside, spinning, got, inside, init, run}
use ntnu_courses.Lock.Inv.{owns}
use ntnu_courses.Lock.Safety.{mutual_exclusion, interrupts, no_deadlock}
use ntnu_courses.Lock.Sleep.{Sleeplock}

-- Interrupts are on at CPU 0 only.
abbrev first_on : ℕ → Bool
first_on i = i == 0

-- CPU 0 gets the lock, CPU 1 spins.
abbrev contended : List ℕ
contended = 0 ∷ 1 ∷ 0 ∷ 1 ∷ 0 ∷ 1 ∷ []

contended_runs :
    (s : System) × (run contended (init first_on) ≡ ok s) × (s.pc 0 ≡ inside) × (s.pc 1 ≡ spinning)
unfolding run
contended_runs = (_, refl, refl, refl)

mutual_exclusion_example :
    (s : System) × (run contended (init first_on) ≡ ok s)
    × ((i j : ℕ) → s.pc i ≡ inside → s.pc j ≡ inside → i ≡ j)
mutual_exclusion_example = mutual_exclusion first_on contended

interrupts_example :
    (s : System) × (run contended (init first_on) ≡ ok s)
    × ((i : ℕ) → s.pc i ≢ outside → (s.cpus i).intr ≡ false)
    × ((i : ℕ) → s.pc i ≡ outside → (s.cpus i).intr ≡ first_on i)
interrupts_example = interrupts first_on contended

no_deadlock_example :
    (s : System) × (run contended (init first_on) ≡ ok s)
    × ((i : ℕ)
        → s.pc i ≡ spinning
        → (s.lock.locked ≡ 0) × ((s' : System) × (run (i ∷ []) s ≡ ok s') × (s'.pc i ≡ got))
          ⊎ ((j : ℕ) × (n : ℕ) × (s' : System) × (owns (s.pc j) ≡ true)
              × (n ≤ 5)
              × (run (replicate n j ++ i ∷ []) s ≡ ok s')
              × (s'.pc i ≡ got)))
no_deadlock_example = no_deadlock first_on contended

abbrev idle : Cpu
idle = record { noff = 0; intena = false; intr = true }

abbrev held : Sleeplock
held = record { locked = 1; pid = 3 }
