-- ===== src/Proc/Exit.antt =====
-- TDT4186 - OS/Labs/Lab3/kernel/proc.c: exit. The children of a process that exits pass to init, and
-- its parent is awake.
use ntnu_courses.Base.{
  ℕ, zero, suc, ◌+◌, ◌<◌, ◌≡◌, ◌≢◌, ◌⊎◌, sym, ap, ◌∙◌, inl, inr, ◌&&◌, ltb, leb, ◌==◌,
  if◌then◌else◌, update, subst, Bool-cases, ℕ_discrete, ==_iff, ==_ne, Result, ok, panic,
  ok-injective, arith,
}
use ntnu_courses.Proc.{Table, nproc, sleeping, zombie, ptr, wakeup, reparent, reparent_from, adopt}
use ntnu_courses.Proc.Scan.{wakeup_lem}
use ntnu_courses.Proc.Life.{Services, Kernel, close_files, no_files, exit_table, exit}

wakeup-parent : (me chan : ℕ) (t : Table) (q : ℕ) → (wakeup me chan t q).parent ≡ (t q).parent
wakeup-parent me chan t q = ap (λ p. p.parent) (wakeup_lem me chan t q) ∙ ground arith

wakeup-awake :
    (me chan : ℕ) (t : Table) (q : ℕ)
    → q < nproc
    → q ≢ me
    → ¬ (((wakeup me chan t q).state ≡ sleeping) × ((wakeup me chan t q).chan ≡ chan))
wakeup-awake me chan t q lt ne = rw (wakeup_lem me chan t q) (ground arith)

adopt-parent :
    (me init p i : ℕ) (t : Table) (q : ℕ)
    → (adopt me init p i t q).parent
      ≡ (if i == q && (t q).parent == ptr p then ptr init else (t q).parent)
unfolding adopt
adopt-parent me init p i t q = elim (Bool-cases ((t i).parent == ptr p)) [
  | inl child ↦ rw child (wakeup-parent me (ptr init) t1 q ∙ ground arith)
  | inr other ↦ rw other (ground arith)
]
  where
    t1 : Table
    t1 = update t i (record (t i) { parent = ptr init })

in-Range :
    (i k q a p new b : ℕ)
    → b ≡ (if i == q && a == p then new else a)
    → (if leb (i + 1) q && ltb q (i + 1 + k) && b == p then new else b)
      ≡ (if leb i q && ltb q (i + suc k) && a == p then new else a)
in-Range i k q a p new b e = ground arith

-- reparent passes exactly the children of the process to init.
reparent_from-parent :
    (me init p k i : ℕ) (t : Table) (q : ℕ)
    → (reparent_from me init p k i t q).parent
      ≡ (if leb i q && ltb q (i + k) && (t q).parent == ptr p then ptr init else (t q).parent)
unfolding reparent_from
reparent_from-parent me init p zero i t q = ground arith
reparent_from-parent me init p (suc k) i t q =
    reparent_from-parent me init p k (i + 1) (adopt me init p i t) q
    ∙ in-Range i k q (t q).parent (ptr p) (ptr init) (adopt me init p i t q).parent
        (adopt-parent me init p i t q)

pub reparent-parent :
    (init p : ℕ) (t : Table) (q : ℕ)
    → (reparent init p t q).parent
      ≡ (if ltb q nproc && (t q).parent == ptr p then ptr init else (t q).parent)
unfolding reparent
reparent-parent init p t q = reparent_from-parent p init p nproc 0 t q ∙ ground arith

-- What exit(status) by `me` leaves in the table.
pub record Exited (init me status : ℕ) (t t' : Table) : Type 0 where
  pub is_zombie : (t' me).state ≡ zombie
  pub returned : (t' me).xstate ≡ status
  pub parent :
      (q : ℕ)
      → (t' q).parent ≡ (if ltb q nproc && (t q).parent == ptr me then ptr init else (t q).parent)
  -- The parent does not wait for a child any more.
  pub awake :
      (q : ℕ)
      → q < nproc
      → q ≢ me
      → (t' me).parent ≡ ptr q
      → ¬ (((t' q).state ≡ sleeping) × ((t' q).chan ≡ ptr q))

-- The last assignment of exit.
exits :
    (init me status : ℕ) (t t3 : Table)
    → ((q : ℕ)
        → (t3 q).parent
          ≡ (if ltb q nproc && (t q).parent == ptr me then ptr init else (t q).parent))
    → ((q : ℕ)
        → q < nproc
        → q ≢ me
        → (t3 me).parent ≡ ptr q
        → ¬ (((t3 q).state ≡ sleeping) × ((t3 q).chan ≡ ptr q)))
    → Exited init me status t (update t3 me (record (t3 me) { xstate = status; state = zombie }))
exits init me status t t3 par aw = record {
  is_zombie = ground arith;
  returned = ground arith;
  parent = λ q. ground (arith, par q);
  awake = λ q lt ne e. ground (arith, aw q lt ne);
}

no_files-parent :
    (t : Table) (me q : ℕ)
    → (update t me (record (t me) { ofile = no_files (t me).ofile; cwd = 0 }) q).parent
      ≡ (t q).parent
no_files-parent t me q = ground arith

exit_table-Exited :
    (init me status : ℕ) (t : Table) → Exited init me status t (exit_table init me status t)
unfolding exit_table
exit_table-Exited init me status t =
    exits init me status t t3
      (λ q.
        wakeup-parent me (t2 me).parent t2 q
        ∙ reparent-parent init me t1 q
        ∙ ap (λ x. if ltb q nproc && x == ptr me then ptr init else x) (no_files-parent t me q))
      (λ q lt ne e.
        subst (λ c. ¬ (((t3 q).state ≡ sleeping) × ((t3 q).chan ≡ c)))
          (sym (wakeup-parent me (t2 me).parent t2 me) ∙ e)
          (wakeup-awake me (t2 me).parent t2 q lt ne))
  where
    t1 : Table
    t1 = update t me (record (t me) { ofile = no_files (t me).ofile; cwd = 0 })

    t2 : Table
    t2 = reparent init me t1

    t3 : Table
    t3 = wakeup me (t2 me).parent t2

pub exit-branches :
    {S : Type 0} (sv : Services S) (me status : ℕ) (k : Kernel S)
    → (me ≡ k.initproc → exit sv me status k ≡ panic "init exiting")
      × (me ≢ k.initproc
          → (k' : Kernel S) × (exit sv me status k ≡ ok k')
            × Exited k.initproc me status k.proc k'.proc)
unfolding exit
exit-branches sv me status k = (
  λ e. rw ((==_iff me k.initproc).1 e),
  λ ne. (
    record k {
      proc = exit_table k.initproc me status k.proc;
      rest = sv.iput (k.proc me).cwd (close_files sv (k.proc me).ofile k.rest);
    },
    rw (==_ne me k.initproc ne),
    exit_table-Exited k.initproc me status k.proc,
  ),
)

-- exit panics for init, and only for init; every other process it leaves a zombie with the status, its
-- children with init, and its parent not asleep on itself.
pub exit_lem :
    {S : Type 0} (sv : Services S) (me status : ℕ) (k : Kernel S)
    → ((me ≡ k.initproc) × (exit sv me status k ≡ panic "init exiting"))
      ⊎ (me ≢ k.initproc)
        × ((k' : Kernel S) × (exit sv me status k ≡ ok k')
            × Exited k.initproc me status k.proc k'.proc)
exit_lem sv me status k = elim (ℕ_discrete me k.initproc) [
  | yes init ↦ inl (init, (exit-branches sv me status k).0 init)
  | no other ↦ inr (other, (exit-branches sv me status k).1 other)
]

pub exit-ok :
    {S : Type 0} (sv : Services S) (me status : ℕ) (k k' : Kernel S)
    → exit sv me status k ≡ ok k'
    → (k'.proc ≡ exit_table k.initproc me status k.proc) × (k'.nextpid ≡ k.nextpid)
unfolding exit
exit-ok {S = S} sv me status k k' e = elim (ℕ_discrete me k.initproc) [
  | yes init ↦ no_ok (exit sv me status k) ((exit-branches sv me status k).0 init) e
  | no ne ↦
      let same : end ≡ k' = ok-injective end k' (sym (rw (==_ne me k.initproc ne)) ∙ e) in
      (sym (ap (λ z. z.proc) same), sym (ap (λ z. z.nextpid) same))
]
  where
    end : Kernel S
    end = record k {
      proc = exit_table k.initproc me status k.proc;
      rest = sv.iput (k.proc me).cwd (close_files sv (k.proc me).ofile k.rest);
    }

    no_ok :
        (r : Result (Kernel S))
        → r ≡ panic "init exiting"
        → r ≡ ok k'
        → (k'.proc ≡ exit_table k.initproc me status k.proc) × (k'.nextpid ≡ k.nextpid)
    no_ok r p q = cc
