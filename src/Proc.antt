-- ===== src/Proc.antt =====
-- TDT4186 - OS/Labs/Lab3/kernel/proc.c: the process table. A pointer to proc[i] is the number i + 1
-- and a null pointer is 0; states are the numbers of enum procstate. Each function runs here as if
-- no other CPU came between the processes that its loop locks one after the other; Proc.Wakeup has
-- the interleavings of sleep with a waker. Page tables, files and inodes are behind `Services`.
pub mod Scan
pub mod Wakeup
pub mod Inv
pub mod Life
pub mod Fork
pub mod Kill
pub mod Exit
pub mod Wait
pub mod Reach
pub mod Ps
mod Tests
use ntnu_courses.Base.{
  ℕ, zero, suc, ◌+◌, ◌-◌, ◌<◌, Bool, ◌&&◌, true, false, not, Option, none, some, List, [], ◌∷◌, ltb,
  ◌==◌, if◌then◌else◌, update, Result, ok, panic, ◌>>=◌, ◌>>◌, panic_if,
}

abbrev pub nproc : ℕ
nproc = 64

abbrev pub unused : ℕ
unused = 0

abbrev pub used : ℕ
used = 1

abbrev pub sleeping : ℕ
sleeping = 2

abbrev pub runnable : ℕ
runnable = 3

abbrev pub running : ℕ
running = 4

abbrev pub zombie : ℕ
zombie = 5

pub record Proc : Type 0 where
  pub state : ℕ
  pub chan : ℕ
  pub killed : ℕ
  pub xstate : ℕ
  pub pid : ℕ
  pub parent : ℕ
  pub sz : ℕ
  pub pagetable : ℕ
  pub trapframe : ℕ
  pub ofile : List ℕ
  pub cwd : ℕ
  pub name : List ℕ

abbrev pub Table : Type 0
Table = ℕ → Proc

-- The address of proc[i].
abbrev pub ptr : ℕ → ℕ
ptr i = i + 1

-- The first of the `k` processes from `i` on that passes the test.
unfoldable pub find : (Proc → Bool) → Table → ℕ → ℕ → Option ℕ
find f t zero i = none
find f t (suc k) i = let rest = find f t k (i + 1) in if f (t i) then some i else rest

unfoldable pub wakeup_from : ℕ → ℕ → ℕ → ℕ → Table → Table
wakeup_from me chan zero i t = t
wakeup_from me chan (suc k) i t = wakeup_from me chan k (i + 1) (
    if not (i == me) && (t i).state == sleeping && (t i).chan == chan
    then update t i (record (t i) { state = runnable })
    else t)

-- wakeup(chan) by the process `me`.
unfoldable pub wakeup : ℕ → ℕ → Table → Table
unfolding wakeup_from
wakeup me chan t = wakeup_from me chan nproc 0 t

-- The victim of kill, at its place.
abbrev pub kill_at : ℕ → Table → Table
kill_at i t =
    update t i (record (t i) {
      killed = 1;
      state = if (t i).state == sleeping then runnable else (t i).state;
    })

-- kill(pid) once the scan has ended; `false` is the -1 of the code.
abbrev pub kill_found : Option ℕ → Table → Bool × Table
kill_found none t = (false, t)
kill_found (some i) t = (true, kill_at i t)

unfoldable pub kill : ℕ → Table → Bool × Table
unfolding find
kill pid t = kill_found (find (λ p. p.pid == pid) t nproc 0) t

unfoldable pub setkilled : ℕ → Table → Table
setkilled i t = update t i (record (t i) { killed = 1 })

unfoldable pub yield : ℕ → Table → Table
yield me t = update t me (record (t me) { state = runnable })

-- sleep(chan, lk) up to its call of sched, and from there on.
unfoldable pub sleep_start : ℕ → ℕ → Table → Table
sleep_start me chan t = update t me (record (t me) { chan = chan; state = sleeping })

unfoldable pub sleep_end : ℕ → Table → Table
sleep_end me t = update t me (record (t me) { chan = 0 })

-- One turn of the loop of reparent for the process `p`, in the process `me`.
unfoldable pub adopt : ℕ → ℕ → ℕ → ℕ → Table → Table
unfolding wakeup
adopt me initproc p i t =
    if (t i).parent == ptr p
    then wakeup me (ptr initproc) (update t i (record (t i) { parent = ptr initproc }))
    else t

unfoldable pub reparent_from : ℕ → ℕ → ℕ → ℕ → ℕ → Table → Table
unfolding adopt
reparent_from me initproc p zero i t = t
reparent_from me initproc p (suc k) i t =
    reparent_from me initproc p k (i + 1) (adopt me initproc p i t)

unfoldable pub reparent : ℕ → ℕ → Table → Table
unfolding reparent_from
reparent initproc p t = reparent_from p initproc p nproc 0 t

-- One turn of the scheduler's inner loop at the place `i`: whether it switches to that process.
unfoldable pub schedule_at : ℕ → Table → Bool × Table
schedule_at i t =
    if (t i).state == runnable
    then (true, update t i (record (t i) { state = running }))
    else (false, t)

-- The scan of rr_scheduler from `i` on, up to the next process to run or the end of the table.
unfoldable pub rr_scan : ℕ → ℕ → Table → Option ℕ × Table
unfolding schedule_at
rr_scan zero i t = (none, t)
rr_scan (suc k) i t =
    let rest = rr_scan k (i + 1) t in
    if (schedule_at i t).0 then (some i, (schedule_at i t).1) else rest
