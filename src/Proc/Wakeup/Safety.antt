-- ===== src/Proc/Wakeup/Safety.antt =====
-- TDT4186 - OS/Labs/Lab3/kernel/proc.c: no wakeup is lost.
use ntnu_courses.Base.{ℕ, ◌≡◌, ◌≢◌, ◌⊎◌, ◌<◌, refl, inl, inr, false, arith}
use ntnu_courses.Proc.{sleeping, running}
use ntnu_courses.Proc.Wakeup.{
  SleeperPc, State, Step, Reach, initial, test, lock_p, drop_lk, mark, switch, out, tidy, unlock_p,
  take_lk, past, done, free, by_sleeper, passes, waits, locks_p, drops_lk, marks, switches, resumes,
  tidies, unlocks_p, takes_lk, starts, sets, wake_locks, wakes, skips, wake_unlocks, leaves,
}
use ntnu_courses.Proc.Wakeup.Inv.{Inv, Reach-Inv}

-- The lines that the sleeper has left once the condition is true.
abbrev pub left : SleeperPc → ℕ
left past = 0
left test = 1
left take_lk = 2
left unlock_p = 3
left tidy = 4
left out = 5
left switch = 6
left mark = 7
left drop_lk = 8
left lock_p = 9

-- The wakeup is not lost: in every interleaving, once the waker is done the process is not asleep; it
-- is past its loop or some step is possible, and every step brings it nearer to the end of the loop
-- and leaves the waker done.
pub no_lost_wakeup :
    {s : State}
    → Reach initial s
    → s.waker ≡ done
    → (s.sleeper ≡ out → s.state ≢ sleeping)
      × ((s.sleeper ≡ past) ⊎ ((t : State) × Step s t))
      × ((t : State) → Step s t → (left t.sleeper < left s.sleeper) × (t.waker ≡ done))
no_lost_wakeup {s} r e =
    let h = Reach-Inv r in
    (ground (arith, h.looked_out), enabled h s.sleeper refl, λ t st. nearer h st)
  where
    enabled :
        Inv s → (p : SleeperPc) → s.sleeper ≡ p → (s.sleeper ≡ past) ⊎ ((t : State) × Step s t)
    enabled h past q = inl q
    enabled h test q = inr (record s { sleeper = past }, passes q (ground arith))
    enabled h take_lk q =
        inr (record s { sleeper = test; lk = by_sleeper }, takes_lk q (ground arith))
    enabled h unlock_p q = inr (record s { sleeper = take_lk; p_lock = free }, unlocks_p q)
    enabled h tidy q = inr (record s { sleeper = unlock_p; on_chan = false }, tidies q)
    enabled h out q = inr (
      record s { sleeper = tidy; p_lock = by_sleeper; state = running },
      resumes q (ground arith) (ground arith),
    )
    enabled h switch q = ground arith
    enabled h mark q = ground arith
    enabled h drop_lk q = ground arith
    enabled h lock_p q = ground arith

    nearer : Inv s → {t : State} → Step s t → (left t.sleeper < left s.sleeper) × (t.waker ≡ done)
    nearer h (passes a b) = ground arith
    nearer h (waits a b) = ground arith
    nearer h (locks_p a b) = ground arith
    nearer h (drops_lk a) = ground arith
    nearer h (marks a) = ground arith
    nearer h (switches a) = ground arith
    nearer h (resumes a b c) = ground arith
    nearer h (tidies a) = ground arith
    nearer h (unlocks_p a) = ground arith
    nearer h (takes_lk a b) = ground arith
    nearer h (starts a b) = ground arith
    nearer h (sets a) = ground arith
    nearer h (wake_locks a b) = ground arith
    nearer h (wakes a b c) = ground arith
    nearer h (skips a b) = ground arith
    nearer h (wake_unlocks a) = ground arith
    nearer h (leaves a) = ground arith
