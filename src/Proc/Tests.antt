-- ===== src/Proc/Tests.antt =====
-- A process table with concrete services: init at 0, its child at 1, which has a child at 2.
use ntnu_courses.Base.{
  ℕ, ◌+◌, ◌≤◌, ◌≡◌, ◌≢◌, ◌⊎◌, refl, true, some, [], ◌∷◌, ok, ◌<◌, update, panic, arith,
}
use ntnu_courses.Proc.{Proc, Table, unused, sleeping, runnable, running, ptr, kill}
use ntnu_courses.Proc.Wakeup.{
  State, Reach, here, next, Step, initial, free, past, out, done, locks_p, waits, drops_lk, marks,
  switches, starts, sets, wake_locks, wakes, wake_unlocks, leaves,
}
use ntnu_courses.Proc.Wakeup.Safety.{left, no_lost_wakeup}
use ntnu_courses.Proc.Life.{
  Services, Kernel, close_files, exit, exit_table, wait_scan, fork, sleeps,
}
use ntnu_courses.Proc.Fork.{Forked, fork_lem}
use ntnu_courses.Proc.Kill.{kill_zero}
use ntnu_courses.Proc.Exit.{Exited, exit_lem}
use ntnu_courses.Proc.Wait.{WaitResult, wait_scan_lem, wait_after_exit}
use ntnu_courses.Proc.Reach as Seq

abbrev services : Services ℕ
services = record {
  kalloc = λ s. (s, s + 1);
  kfree = λ p s. s;
  proc_pagetable = λ f s. (s, s + 1);
  proc_freepagetable = λ p sz s. s;
  uvmcopy = λ p q sz s. (true, s);
  uvmalloc = λ p old new s. (new, s);
  uvmdealloc = λ p old new s. (new, s);
  copyout = λ p a x s. (true, s);
  copy_trapframe = λ p q s. s;
  filedup = λ f s. s;
  fileclose = λ f s. s;
  idup = λ i s. s;
  iput = λ i s. s;
}

abbrev empty : Proc
empty = record {
  state = unused;
  chan = 0;
  killed = 0;
  xstate = 0;
  pid = 0;
  parent = 0;
  sz = 0;
  pagetable = 0;
  trapframe = 0;
  ofile = [];
  cwd = 0;
  name = [];
}

abbrev procs : Table
procs =
    update
      (update
        (update (λ q. empty) 0 (record empty { state = sleeping; chan = ptr 0; pid = 1; cwd = 1 }))
        1 (record empty { state = running; pid = 2; parent = ptr 0; cwd = 1; ofile = 0 ∷ 9 ∷ [] }))
      2 (record empty { state = runnable; pid = 3; parent = ptr 1; cwd = 1 })

abbrev kernel : Kernel ℕ
kernel = record { proc = procs; nextpid = 4; initproc = 0; rest = 1 }

kernel-Good : Seq.Good kernel
kernel-Good = record {
  valid = record {
    positive = λ q lt u. ground arith;
    below = λ q lt u. ground arith;
    distinct = λ p q lp lq up uq e. ground arith;
  };
  some_pid = omega arith;
}

in_use : (procs 1).state ≢ unused
in_use = omega arith

fork_lem_example : Forked 1 kernel (fork services 1 kernel)
fork_lem_example = fork_lem services 1 kernel in_use

exit_lem_example :
    ((kernel.initproc + 1 ≡ kernel.initproc) × (exit services 1 7 kernel ≡ panic "init exiting"))
    ⊎ (kernel.initproc + 1 ≢ kernel.initproc)
      × ((k' : Kernel ℕ) × (exit services 1 7 kernel ≡ ok k') × Exited 0 1 7 procs k'.proc)
exit_lem_example = exit_lem services 1 7 kernel

wait_scan_lem_example : WaitResult services 1 0 kernel (wait_scan services 1 0 kernel)
wait_scan_lem_example = wait_scan_lem services 1 0 kernel

Reach-Good_example : Seq.Good (fork services 1 kernel).1 × ((fork services 1 kernel).1.nextpid ≤ 5)
Reach-Good_example =
    Seq.Reach-Good services (Seq.next Seq.here (Seq.forks 1 in_use)) (omega arith) kernel-Good

forked_after_kill : (fork services 1 (record kernel { proc = (kill 0 procs).1 })).0 ≡ some 4
unfolding fork kill
forked_after_kill = refl

kill_zero_example :
    ((kill 0 procs).0 ≡ true)
    × ((c : ℕ) × (((fork services 1 (record kernel { proc = (kill 0 procs).1 })).1.proc c).pid ≡ 4)
        × (((fork services 1 (record kernel { proc = (kill 0 procs).1 })).1.proc c).killed ≡ 1))
kill_zero_example =
    kill_zero services 1 3 4 kernel in_use kernel-Good.valid (λ q lt u. ground arith) (omega arith)
      refl forked_after_kill

abbrev exited : Kernel ℕ
exited = record kernel { proc = exit_table 0 1 7 procs; rest = 1 }

exits : exit services 1 7 kernel ≡ ok exited
unfolding exit close_files
exits = refl

wait_after_exit_example : (wait_scan services 0 0 exited).0 ≢ sleeps
wait_after_exit_example =
    wait_after_exit services 1 0 7 0 kernel exited (omega arith) (omega arith) refl exits

-- The process goes to sleep, and the waker finds it asleep.
abbrev asleep : State
asleep = record initial { sleeper = out; on_chan = true; state = sleeping; lk = free }

abbrev woken_up : State
woken_up = record asleep { waker = done; condition = true; state = runnable }

to_sleep : Reach initial asleep
to_sleep =
    next
      (next (next (next (next here (waits refl refl)) (locks_p refl refl)) (drops_lk refl))
        (marks refl))
      (switches refl)

to_wake : Reach initial woken_up
to_wake =
    next
      (next
        (next (next (next (next to_sleep (starts refl refl)) (sets refl)) (wake_locks refl refl))
          (wakes refl refl refl))
        (wake_unlocks refl))
      (leaves refl)

no_lost_wakeup_example :
    (woken_up.sleeper ≡ out → woken_up.state ≢ sleeping)
    × ((woken_up.sleeper ≡ past) ⊎ ((t : State) × Step woken_up t))
    × ((t : State) → Step woken_up t → (left t.sleeper < left woken_up.sleeper) × (t.waker ≡ done))
no_lost_wakeup_example = no_lost_wakeup to_wake refl
