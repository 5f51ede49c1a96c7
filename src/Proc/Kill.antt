-- ===== src/Proc/Kill.antt =====
-- TDT4186 - OS/Labs/Lab3/kernel/proc.c: kill with the pid 0, and the fork that follows.
use ntnu_courses.Base.{
  ℕ, ◌<◌, ◌≡◌, ◌≢◌, refl, ap, ◌∙◌, Bool, true, false, Option, none, some, ℕ_discrete, arith,
}
use ntnu_courses.Proc.{Table, nproc, unused, kill}
use ntnu_courses.Proc.Scan.{Killed, no_such, victim, kill_lem}
use ntnu_courses.Proc.Life.{Services, Kernel, fork}
use ntnu_courses.Proc.Inv.{IsValid, kill-Same}
use ntnu_courses.Proc.Fork.{Forked, failed, child, fork_lem}

-- kill(0) is aimed at no process. For a table with valid pids where the unused processes have the pid 0, as freeproc leaves them,
-- and one is free, it reports success, and when the fork that follows makes a child, that child is
-- killed at its birth.
pub kill_zero :
    {S : Type 0} (sv : Services S) (me i pid : ℕ) (k : Kernel S)
    → (k.proc me).state ≢ unused
    → IsValid k.proc k.nextpid
    → ((q : ℕ) → q < nproc → (k.proc q).state ≡ unused → (k.proc q).pid ≡ 0)
    → i < nproc
    → (k.proc i).state ≡ unused
    → (fork sv me (record k { proc = (kill 0 k.proc).1 })).0 ≡ some pid
    → ((kill 0 k.proc).0 ≡ true)
      × ((c : ℕ) × (((fork sv me (record k { proc = (kill 0 k.proc).1 })).1.proc c).pid ≡ pid)
          × (((fork sv me (record k { proc = (kill 0 k.proc).1 })).1.proc c).killed ≡ 1))
kill_zero {S = S} sv me i pid k live v zeros lt gone e =
    go (kill 0 k.proc) (kill_lem 0 k.proc) (fork sv me (record k { proc = (kill 0 k.proc).1 }))
      (fork_lem sv me (record k { proc = (kill 0 k.proc).1 }) still) e
  where
    still : ((kill 0 k.proc).1 me).state ≢ unused
    still = (kill-Same 0 k.proc me).stays live

    go :
        (r : Bool × Table)
        → Killed 0 k.proc r
        → (f : Option ℕ × Kernel S) → Forked me (record k { proc = r.1 }) f
        → f.0 ≡ some pid
        → (r.0 ≡ true) × ((c : ℕ) × ((f.1.proc c).pid ≡ pid) × ((f.1.proc c).killed ≡ 1))
    go (false, t) (no_such none_of) f h e = absurd (none_of i lt (zeros i lt gone))
    go (true, t) (victim j lj zero_pid fst same_pid ki ns st woke others) (none, k') (failed a b c)
          e =
        cc
    go (true, t) (victim j lj zero_pid fst same_pid ki ns st woke others) (some p, k')
          (child c lc un before new np run pa kept sz fi cw na rest n) e =
        (refl, (c, ground arith, kept ∙ ap (λ x. (t x).killed) same ∙ ki))
      where
        dead : (k.proc j).state ≡ unused
        dead = elim (ℕ_discrete (k.proc j).state unused) [
          | yes u ↦ u
          | no u ↦ absurd (ground (arith, v.positive j lj u))
        ]

        same : c ≡ j
        same = elim (ℕ_discrete c j) [
          | yes u ↦ u
          | no u ↦
              ground
                (arith, dead, before j, st (omega (arith, dead)), others c u, zeros c lc, fst c)
        ]
