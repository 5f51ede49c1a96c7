-- ===== src/Lock.antt =====
-- TDT4186 - OS/Labs/Lab3/kernel/spinlock.c: spinlocks with the nesting of interrupt-off sections, one
-- lock among any number of CPUs. `acquire` and `release` are cut at every access of the lock, the two
-- reads of `holding` included, and the CPUs' accesses are interleaved in any order; push_off and
-- pop_off touch only their own CPU.  An access is atomic and seen at once by all
-- CPUs (the fences of the code order them).
pub mod Nesting
pub mod Inv
pub mod Safety
pub mod Sleep
mod Tests
use ntnu_courses.Base.{
  ℕ, zero, suc, ◌+◌, ◌-◌, Bool, ◌&&◌, true, false, not, Option, none, some, List, [], ◌∷◌, ltb,
  ◌==◌, if◌then◌else◌, update, Result, ok, panic, ◌>>=◌, ◌>>◌, panic_if,
}

-- The part of `struct cpu` that locks use, and the hart's interrupt-enable bit.
pub record Cpu : Type 0 where
  pub noff : ℕ
  pub intena : Bool
  pub intr : Bool

pub record Spinlock : Type 0 where
  pub locked : ℕ
  pub cpu : Option ℕ

unfoldable pub push_off : Cpu → Cpu
push_off c = record {
  noff = c.noff + 1;
  intena = if c.noff == 0 then c.intr else c.intena;
  intr = false;
}

unfoldable pub pop_off : Cpu → Result Cpu
pop_off c = do
  panic_if c.intr "pop_off - interruptible"
  panic_if (ltb c.noff 1) "pop_off"
  ok (record c { noff = c.noff - 1; intr = if c.noff - 1 == 0 && c.intena then true else c.intr })

abbrev pub is_cpu : Option ℕ → ℕ → Bool
is_cpu none id = false
is_cpu (some i) id = i == id

-- Where a CPU stands in `acquire` and `release`.
pub data Pc : Type 0 where
  outside : Pc  -- before `acquire`, whose first access is the read of lk->locked in `holding`
  checking : Pc  -- before the read of lk->cpu in its call of `holding`
  spinning : Pc  -- before the swap of the `while`
  got : Pc  -- before lk->cpu = mycpu()
  inside : Pc  -- `acquire` has returned, `release` has not begun
  releasing : Pc  -- `release` has read lk->locked in `holding`, and not yet lk->cpu
  clearing : Pc  -- before lk->cpu = 0
  cleared : Pc  -- before __sync_lock_release
  stored : Pc  -- before pop_off

pub record System : Type 0 where
  pub lock : Spinlock
  pub cpus : ℕ → Cpu
  pub pc : ℕ → Pc

-- initlock, and CPUs that hold no lock.
abbrev pub init : (ℕ → Bool) → System
init intr = record {
  lock = record { locked = 0; cpu = none };
  cpus = λ i. record { noff = 0; intena = false; intr = intr i };
  pc = λ _. outside;
}

step_at : Pc → ℕ → System → Result System
unfolding push_off pop_off
step_at outside i s = ok (record s {
  cpus = update s.cpus i (push_off (s.cpus i));
  pc = update s.pc i (if s.lock.locked == 0 then spinning else checking);
})
step_at checking i s = do
  panic_if (is_cpu s.lock.cpu i) "acquire"
  ok (record s { pc = update s.pc i spinning })
step_at spinning i s = ok (record s {
  lock = record s.lock { locked = 1 };
  pc = update s.pc i (if s.lock.locked == 0 then got else spinning);
})
step_at got i s = ok (record s { lock = record s.lock { cpu = some i }; pc = update s.pc i inside })
step_at inside i s = do
  panic_if (s.lock.locked == 0) "release"
  ok (record s { pc = update s.pc i releasing })
step_at releasing i s = do
  panic_if (not (is_cpu s.lock.cpu i)) "release"
  ok (record s { pc = update s.pc i clearing })
step_at clearing i s =
    ok (record s { lock = record s.lock { cpu = none }; pc = update s.pc i cleared })
step_at cleared i s =
    ok (record s { lock = record s.lock { locked = 0 }; pc = update s.pc i stored })
step_at stored i s = do
  c ← pop_off (s.cpus i)
  ok (record s { cpus = update s.cpus i c; pc = update s.pc i outside })

-- CPU `i` makes its next access. From `inside` it may also wait: then it is not scheduled.
pub step : ℕ → System → Result System
unfolding step_at
step i s = step_at (s.pc i) i s

-- A schedule is the list of the CPUs in the order of their accesses.
pub run : List ℕ → System → Result System
unfolding step
run [] s = ok s
run (i ∷ is) s = step i s >>= λ s'. run is s'
