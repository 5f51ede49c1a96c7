-- ===== src/Proc/Reach.antt =====
-- TDT4186 - OS/Labs/Lab3/kernel/proc.c: sequences of the operations on the process table.
use ntnu_courses.Base.{ℕ, ◌+◌, ◌^◌, ◌≤◌, ◌<◌, ◌≡◌, ◌≢◌, refl, ok, Bool-cases, ◌==◌, inl, inr, arith}
use ntnu_courses.Proc.{
  Table, unused, runnable, running, wakeup, kill, setkilled, yield, sleep_start, sleep_end,
  schedule_at,
}
use ntnu_courses.Proc.Life.{
  Services, Kernel, exit, exit_table, wait_scan, fork, Waited, reaped, error, sleeps,
}
use ntnu_courses.Proc.Inv.{
  Same, Same-refl, IsValid, Same-IsValid, update-Same, wakeup-Same, kill-Same, exit_table-Same,
}
use ntnu_courses.Proc.Fork.{fork-IsValid, fork-nextpid}
use ntnu_courses.Proc.Exit.{exit-ok}
use ntnu_courses.Proc.Wait.{WaitResult, collected, not_copied, no_point, waits, wait_scan_lem}

-- The calls that processes in use and the scheduler make, in any order.
pub data Step {S : Type 0} (sv : Services S) (k : Kernel S) : Kernel S → Type 0 where
  forks : (me : ℕ) → (k.proc me).state ≢ unused → Step sv k (fork sv me k).1
  exits :
      {k' : Kernel S} (me status : ℕ)
      → (k.proc me).state ≢ unused
      → exit sv me status k ≡ ok k'
      → Step sv k k'
  waits_for : (me addr : ℕ) → Step sv k (wait_scan sv me addr k).1
  kills : (pid : ℕ) → Step sv k (record k { proc = (kill pid k.proc).1 })
  sets_killed : (i : ℕ) → Step sv k (record k { proc = setkilled i k.proc })
  wakes : (me chan : ℕ) → Step sv k (record k { proc = wakeup me chan k.proc })
  falls_asleep :
      (me chan : ℕ)
      → (k.proc me).state ≢ unused
      → Step sv k (record k { proc = sleep_start me chan k.proc })
  gets_up : (me : ℕ) → Step sv k (record k { proc = sleep_end me k.proc })
  yields : (me : ℕ) → (k.proc me).state ≢ unused → Step sv k (record k { proc = yield me k.proc })
  runs : (i : ℕ) → Step sv k (record k { proc = (schedule_at i k.proc).1 })

pub data Reach {S : Type 0} (sv : Services S) (k0 : Kernel S) : Kernel S → Type 0 where
  here : Reach sv k0 k0
  next : {k k' : Kernel S} → Reach sv k0 k → Step sv k k' → Reach sv k0 k'

-- The calls of fork in a sequence: each uses up one pid.
abbrev pub pids_used : {S : Type 0} {sv : Services S} {k k' : Kernel S} → Step sv k k' → ℕ
pids_used (forks me live) = 1
pids_used _ = 0

abbrev pub forked : {S : Type 0} {sv : Services S} {k0 k : Kernel S} → Reach sv k0 k → ℕ
forked here = 0
forked (next r st) = forked r + pids_used st

pub record Good {S : Type 0} (k : Kernel S) : Type 0 where
  pub valid : IsValid k.proc k.nextpid
  pub some_pid : 0 < k.nextpid

same :
    {S : Type 0} (k : Kernel S) (t : Table)
    → ((q : ℕ) → Same (k.proc q) (t q))
    → Good k
    → Good (record k { proc = t })
same k t s g = record { valid = Same-IsValid k.proc t k.nextpid s g.valid; some_pid = g.some_pid }

after_wait :
    {S : Type 0} (sv : Services S) (me addr : ℕ) (k : Kernel S) (r : Waited × Kernel S)
    → WaitResult sv me addr k r
    → Good k
    → Good r.1
after_wait sv me addr k (reaped pid, k') (collected i lt c z w e u par others n) g = record {
  valid = record {
    positive = λ q lq us. ground (arith, others q, g.valid.positive q lq);
    below = λ q lq us. ground (arith, others q, g.valid.below q lq);
    distinct = λ p q lp lq up uq eq.
        g.valid.distinct p q lp lq (ground (arith, others p)) (ground (arith, others q))
          (ground (arith, others p, others q));
  };
  some_pid = omega (arith, g.some_pid);
}
after_wait sv me addr k (error, k') (not_copied i lt c z a w e n) g = record {
  valid = rw (e, n) g.valid;
  some_pid = omega (arith, g.some_pid);
}
after_wait sv me addr k (error, k') (no_point a b) g = g
after_wait sv me addr k (sleeps, k') (waits a i lt c d) g = g

after_exit :
    {S : Type 0} (sv : Services S) (me status : ℕ) (k k' : Kernel S)
    → (k.proc me).state ≢ unused
    → exit sv me status k ≡ ok k'
    → Good k
    → Good k'
after_exit sv me status k k' live e g =
    let (procs, n) = exit-ok sv me status k k' e in
    record {
      valid =
          rw (procs, n)
            (Same-IsValid k.proc (exit_table k.initproc me status k.proc) k.nextpid
              (λ q. exit_table-Same k.initproc me status k.proc q live) g.valid);
      some_pid = omega (arith, n, g.some_pid);
    }

-- Each step keeps the pids of the processes in use different, positive and below nextpid.
pub Step-Good :
    {S : Type 0} (sv : Services S) {k k' : Kernel S} (st : Step sv k k')
    → k.nextpid + pids_used st < 2 ^ 31
    → Good k
    → Good k'
unfolding setkilled sleep_start sleep_end yield schedule_at
Step-Good sv {k} (forks me live) room g = record {
  valid = fork-IsValid sv me k live g.some_pid room g.valid;
  some_pid = omega (arith, fork-nextpid sv me k live room, g.some_pid);
}
Step-Good sv {k} {k'} (exits me status live e) room g = after_exit sv me status k k' live e g
Step-Good sv {k} (waits_for me addr) room g =
    after_wait sv me addr k (wait_scan sv me addr k) (wait_scan_lem sv me addr k) g
Step-Good sv {k} (kills pid) room g = same k (kill pid k.proc).1 (kill-Same pid k.proc) g
Step-Good sv {k} (wakes me chan) room g =
    same k (wakeup me chan k.proc) (wakeup-Same me chan k.proc) g
Step-Good sv {k} (sets_killed i) room g =
    same k (setkilled i k.proc)
      (λ q.
        update-Same k.proc i (record (k.proc i) { killed = 1 }) q
          (record { pid = refl; stays = λ u. u; was = λ u. u }))
      g
Step-Good sv {k} (falls_asleep me chan live) room g =
    same k (sleep_start me chan k.proc)
      (λ q.
        update-Same k.proc me (record (k.proc me) { chan = chan; state = 2 }) q
          (record { pid = refl; stays = λ u. omega arith; was = λ u. live }))
      g
Step-Good sv {k} (gets_up me) room g =
    same k (sleep_end me k.proc)
      (λ q.
        update-Same k.proc me (record (k.proc me) { chan = 0 }) q
          (record { pid = refl; stays = λ u. u; was = λ u. u }))
      g
Step-Good sv {k} (yields me live) room g =
    same k (yield me k.proc)
      (λ q.
        update-Same k.proc me (record (k.proc me) { state = runnable }) q
          (record { pid = refl; stays = λ u. omega arith; was = λ u. live }))
      g
Step-Good sv {k} (runs i) room g = same k (schedule_at i k.proc).1 (λ q. scheduled q) g
  where
    scheduled : (q : ℕ) → Same (k.proc q) ((schedule_at i k.proc).1 q)
    scheduled q = elim (Bool-cases ((k.proc i).state == runnable)) [
      | inl hit ↦ rw hit (
          update-Same k.proc i (record (k.proc i) { state = running }) q
            (record { pid = refl; stays = λ u. omega arith; was = λ u. ground arith }))
      | inr off ↦ rw off (Same-refl (k.proc q))
    ]

wait-nextpid :
    {S : Type 0} (sv : Services S) (me addr : ℕ) (k : Kernel S) (r : Waited × Kernel S)
    → WaitResult sv me addr k r
    → r.1.nextpid ≡ k.nextpid
wait-nextpid sv me addr k (reaped pid, k') (collected i lt c z w e u par others n) = n
wait-nextpid sv me addr k (error, k') (not_copied i lt c z a w e n) = n
wait-nextpid sv me addr k (error, k') (no_point a b) = refl
wait-nextpid sv me addr k (sleeps, k') (waits a i lt c d) = refl

Step-nextpid :
    {S : Type 0} (sv : Services S) {k k' : Kernel S} (st : Step sv k k')
    → k.nextpid + pids_used st < 2 ^ 31
    → k'.nextpid ≤ k.nextpid + pids_used st
Step-nextpid sv {k} (forks me live) room = (fork-nextpid sv me k live room).1
Step-nextpid sv {k} {k'} (exits me status live e) room =
    omega (arith, (exit-ok sv me status k k' e).1)
Step-nextpid sv {k} (waits_for me addr) room =
    omega (arith, wait-nextpid sv me addr k (wait_scan sv me addr k) (wait_scan_lem sv me addr k))
Step-nextpid sv _ room = omega arith

-- From a table where the processes in use have different pids between 1 and nextpid, every sequence
-- of calls leads to such a table, and every pid is then a positive int, as long as nextpid and the
-- number of calls of fork together are below 2^31.
pub Reach-Good :
    {S : Type 0} (sv : Services S) {k0 k : Kernel S} (r : Reach sv k0 k)
    → k0.nextpid + forked r < 2 ^ 31
    → Good k0
    → Good k × (k.nextpid ≤ k0.nextpid + forked r)
Reach-Good sv here room g = (g, omega arith)
Reach-Good sv (next r st) room g =
    let (g', few) = Reach-Good sv r (omega (arith, room)) g in
    (
      Step-Good sv st (omega (arith, room, few)) g',
      omega (arith, few, Step-nextpid sv st (omega (arith, room, few))),
    )
