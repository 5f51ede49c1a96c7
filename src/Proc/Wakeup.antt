-- ===== src/Proc/Wakeup.antt =====
-- TDT4186 - OS/Labs/Lab3/kernel/proc.c: sleep(chan, lk) and wakeup(chan) on two CPUs, one line a
-- step: a process that waits for a condition under the lock `lk`, in the loop that every caller of
-- sleep has, and a process that makes the condition true under `lk` and calls wakeup once.
pub mod Inv
pub mod Safety
use ntnu_courses.Base.{ℕ, ◌≡◌, ◌≢◌, ◌⊎◌, ◌<◌, refl, inl, inr, Bool, true, false, arith}
use ntnu_courses.Proc.{sleeping, runnable, running}

-- Where the sleeper stands: at the test of the condition, at acquire(&p->lock), at release(lk), at the
-- assignment of chan and state, at the call of sched, switched out, back from sched, at the release of
-- p->lock, at acquire(lk), and past the loop.
pub data SleeperPc : Type 0 where
  test : SleeperPc
  lock_p : SleeperPc
  drop_lk : SleeperPc
  mark : SleeperPc
  switch : SleeperPc
  out : SleeperPc
  tidy : SleeperPc
  unlock_p : SleeperPc
  take_lk : SleeperPc
  past : SleeperPc

-- Where the waker stands: at acquire(lk), at the assignment of the condition, in wakeup at
-- acquire(&p->lock), at the test of the state, at the release of p->lock, at release(lk), and done.
pub data WakerPc : Type 0 where
  start : WakerPc
  set : WakerPc
  wake_lock : WakerPc
  wake_test : WakerPc
  wake_unlock : WakerPc
  leave : WakerPc
  done : WakerPc

pub data Holder : Type 0 where
  free : Holder
  by_sleeper : Holder
  by_waker : Holder
  by_scheduler : Holder

pub record State : Type 0 where
  pub sleeper : SleeperPc
  pub waker : WakerPc
  pub condition : Bool
  pub on_chan : Bool
  pub state : ℕ
  pub lk : Holder
  pub p_lock : Holder

pub data Step (s : State) : State → Type 0 where
  passes : s.sleeper ≡ test → s.condition ≡ true → Step s (record s { sleeper = past })
  waits : s.sleeper ≡ test → s.condition ≡ false → Step s (record s { sleeper = lock_p })
  locks_p :
      s.sleeper ≡ lock_p
      → s.p_lock ≡ free
      → Step s (record s { sleeper = drop_lk; p_lock = by_sleeper })
  drops_lk : s.sleeper ≡ drop_lk → Step s (record s { sleeper = mark; lk = free })
  marks :
      s.sleeper ≡ mark → Step s (record s { sleeper = switch; on_chan = true; state = sleeping })
  -- The scheduler releases p->lock for the process that has switched to it.
  switches : s.sleeper ≡ switch → Step s (record s { sleeper = out; p_lock = free })
  -- The scheduler takes p->lock and finds the process runnable.
  resumes :
      s.sleeper ≡ out
      → s.p_lock ≡ free
      → s.state ≡ runnable
      → Step s (record s { sleeper = tidy; p_lock = by_sleeper; state = running })
  tidies : s.sleeper ≡ tidy → Step s (record s { sleeper = unlock_p; on_chan = false })
  unlocks_p : s.sleeper ≡ unlock_p → Step s (record s { sleeper = take_lk; p_lock = free })
  takes_lk :
      s.sleeper ≡ take_lk → s.lk ≡ free → Step s (record s { sleeper = test; lk = by_sleeper })
  starts : s.waker ≡ start → s.lk ≡ free → Step s (record s { waker = set; lk = by_waker })
  sets : s.waker ≡ set → Step s (record s { waker = wake_lock; condition = true })
  wake_locks :
      s.waker ≡ wake_lock
      → s.p_lock ≡ free
      → Step s (record s { waker = wake_test; p_lock = by_waker })
  wakes :
      s.waker ≡ wake_test
      → s.state ≡ sleeping
      → s.on_chan ≡ true
      → Step s (record s { waker = wake_unlock; state = runnable })
  skips :
      s.waker ≡ wake_test
      → (s.state ≢ sleeping) ⊎ (s.on_chan ≡ false)
      → Step s (record s { waker = wake_unlock })
  wake_unlocks : s.waker ≡ wake_unlock → Step s (record s { waker = leave; p_lock = free })
  leaves : s.waker ≡ leave → Step s (record s { waker = done; lk = free })

pub data Reach (s0 : State) : State → Type 0 where
  here : Reach s0 s0
  next : {s t : State} → Reach s0 s → Step s t → Reach s0 t

-- The sleeper holds lk and tests the condition; the waker has not started.
abbrev pub initial : State
initial = record {
  sleeper = test;
  waker = start;
  condition = false;
  on_chan = false;
  state = running;
  lk = by_sleeper;
  p_lock = free;
}
