-- ===== src/Lock/Sleep.antt =====
-- TDT4186 - OS/Labs/Lab3/kernel/sleeplock.c. The inner spinlock makes each operation one step.
use ntnu_courses.Base.{
  ℕ, ◌≡◌, ◌↔◌, refl, Bool, ◌&&◌, true, false, not, Option, none, some, ◌==◌, if◌then◌else◌, arith,
}

pub record Sleeplock : Type 0 where
  pub locked : ℕ
  pub pid : ℕ

unfoldable pub initsleeplock : Sleeplock
initsleeplock = record { locked = 0; pid = 0 }

-- One round of the `while`: `none` means that the caller sleeps on the lock, and makes the same
-- test when it has been woken.
unfoldable pub acquiresleep : ℕ → Sleeplock → Option Sleeplock
acquiresleep pid lk = if not (lk.locked == 0) then none else some (record { locked = 1; pid = pid })

-- The wakeup of those that sleep on the lock is `Proc.wakeup`.
unfoldable pub releasesleep : Sleeplock → Sleeplock
releasesleep lk = record { locked = 0; pid = 0 }

unfoldable pub holdingsleep : ℕ → Sleeplock → Bool
holdingsleep pid lk = not (lk.locked == 0) && lk.pid == pid

-- A lock that a process has got is held by that process and by no other; nobody else gets it until
-- it is released, and then anybody does.
pub acquiresleep_lem :
    (pid other : ℕ) (lk held : Sleeplock)
    → acquiresleep pid lk ≡ some held
    → (holdingsleep other held ≡ true ↔ (other ≡ pid))
      × (acquiresleep other held ≡ none)
      × (holdingsleep other (releasesleep held) ≡ false)
      × (acquiresleep other (releasesleep held) ≡ some (record { locked = 1; pid = other }))
unfolding acquiresleep releasesleep holdingsleep
acquiresleep_lem pid other lk held e =
    ((λ h. ground arith, λ h. ground arith), ground arith, refl, refl)
