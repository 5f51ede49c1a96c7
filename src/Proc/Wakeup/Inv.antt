-- ===== src/Proc/Wakeup/Inv.antt =====
-- TDT4186 - OS/Labs/Lab3/kernel/proc.c: who holds which lock in sleep and wakeup, line by line.
use ntnu_courses.Base.{◌≡◌, ◌≢◌, ◌⊎◌, Bool, true, false, arith}
use ntnu_courses.Proc.{sleeping, runnable}
use ntnu_courses.Proc.Wakeup.{
  SleeperPc, WakerPc, State, Step, Reach, initial, test, lock_p, drop_lk, mark, switch, out, tidy,
  unlock_p, take_lk, past, start, set, wake_lock, wake_test, wake_unlock, leave, done, free,
  by_sleeper, by_waker, passes, waits, locks_p, drops_lk, marks, switches, resumes, tidies,
  unlocks_p, takes_lk, starts, sets, wake_locks, wakes, skips, wake_unlocks, leaves, here, next,
}

-- The sleeper by its place: does it hold lk, does it hold p->lock?
abbrev pub sleeper_lk : SleeperPc → Bool
sleeper_lk test = true
sleeper_lk lock_p = true
sleeper_lk drop_lk = true
sleeper_lk past = true
sleeper_lk mark = false
sleeper_lk switch = false
sleeper_lk out = false
sleeper_lk tidy = false
sleeper_lk unlock_p = false
sleeper_lk take_lk = false

abbrev pub sleeper_p : SleeperPc → Bool
sleeper_p drop_lk = true
sleeper_p mark = true
sleeper_p switch = true
sleeper_p tidy = true
sleeper_p unlock_p = true
sleeper_p test = false
sleeper_p lock_p = false
sleeper_p out = false
sleeper_p take_lk = false
sleeper_p past = false

-- The waker by its place: does it hold lk, does it hold p->lock, has it set the condition, has it
-- looked at the state?
abbrev pub waker_lk : WakerPc → Bool
waker_lk start = false
waker_lk done = false
waker_lk set = true
waker_lk wake_lock = true
waker_lk wake_test = true
waker_lk wake_unlock = true
waker_lk leave = true

abbrev pub waker_p : WakerPc → Bool
waker_p wake_test = true
waker_p wake_unlock = true
waker_p start = false
waker_p set = false
waker_p wake_lock = false
waker_p leave = false
waker_p done = false

abbrev pub has_set : WakerPc → Bool
has_set start = false
has_set set = false
has_set wake_lock = true
has_set wake_test = true
has_set wake_unlock = true
has_set leave = true
has_set done = true

abbrev pub has_looked : WakerPc → Bool
has_looked wake_unlock = true
has_looked leave = true
has_looked done = true
has_looked start = false
has_looked set = false
has_looked wake_lock = false
has_looked wake_test = false

-- On its way to sleep, the sleeper has seen the condition false.
abbrev pub committed : SleeperPc → Bool
committed lock_p = true
committed drop_lk = true
committed mark = true
committed switch = true
committed test = false
committed out = false
committed tidy = false
committed unlock_p = false
committed take_lk = false
committed past = false

pub record Inv (s : State) : Type 0 where
  pub lk_sleeper : sleeper_lk s.sleeper ≡ true → s.lk ≡ by_sleeper
  pub lk_waker : waker_lk s.waker ≡ true → s.lk ≡ by_waker
  pub p_sleeper : sleeper_p s.sleeper ≡ true → s.p_lock ≡ by_sleeper
  pub p_waker : waker_p s.waker ≡ true → s.p_lock ≡ by_waker
  pub known : has_set s.waker ≡ s.condition
  pub asleep_on : s.sleeper ≡ out → s.on_chan ≡ true
  pub way_down : committed s.sleeper ≡ true → sleeper_lk s.sleeper ≡ true → s.condition ≡ false
  pub looked_down : has_looked s.waker ≡ true → committed s.sleeper ≡ false
  pub looked_out : has_looked s.waker ≡ true → s.sleeper ≡ out → s.state ≢ sleeping
  pub marked : s.sleeper ≡ switch → (s.on_chan ≡ true) × (s.state ≡ sleeping)
  pub lk_free : sleeper_lk s.sleeper ≡ false → waker_lk s.waker ≡ false → s.lk ≡ free
  pub p_free : sleeper_p s.sleeper ≡ false → waker_p s.waker ≡ false → s.p_lock ≡ free
  pub out_state : s.sleeper ≡ out → (s.state ≡ sleeping) ⊎ (s.state ≡ runnable)

initial-Inv : Inv initial
initial-Inv = ground arith

Step-Inv : {s t : State} → Step s t → Inv s → Inv t
Step-Inv (passes a b) h = ground arith
Step-Inv (waits a b) h = ground arith
Step-Inv (locks_p a b) h = ground arith
Step-Inv (drops_lk a) h = ground arith
Step-Inv (marks a) h = ground arith
Step-Inv (switches a) h = ground arith
Step-Inv (resumes a b c) h = ground arith
Step-Inv (tidies a) h = ground arith
Step-Inv (unlocks_p a) h = ground arith
Step-Inv (takes_lk a b) h = ground arith
Step-Inv (starts a b) h = ground arith
Step-Inv (sets a) h = ground arith
Step-Inv (wake_locks a b) h = ground arith
Step-Inv (wakes a b c) h = ground arith
Step-Inv (skips a b) h = ground arith
Step-Inv (wake_unlocks a) h = ground arith
Step-Inv (leaves a) h = ground arith

pub Reach-Inv : {s : State} → Reach initial s → Inv s
Reach-Inv here = initial-Inv
Reach-Inv (next r st) = Step-Inv st (Reach-Inv r)
