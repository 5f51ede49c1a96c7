-- ===== src/Proc/Inv.antt =====
-- TDT4186 - OS/Labs/Lab3/kernel/proc.c: what the operations keep of every process, and that the
-- processes in use have different pids.
use ntnu_courses.Base.{
  ℕ, zero, suc, ◌+◌, ◌<◌, ◌≡◌, ◌≢◌, refl, ◌∙◌, inl, inr, Bool, true, false, ◌==◌, update,
  Bool-cases, ℕ_discrete, arith,
}
use ntnu_courses.Proc.{
  Proc, Table, nproc, unused, zombie, ptr, wakeup, kill, reparent, reparent_from, adopt,
}
use ntnu_courses.Proc.Scan.{wakeup_lem, Killed, no_such, victim, kill_lem}
use ntnu_courses.Proc.Life.{no_files, exit_table}

-- One process before and after: the same pid, and in use if and only if it was.
pub record Same (p p' : Proc) : Type 0 where
  pub pid : p'.pid ≡ p.pid
  pub stays : p.state ≢ unused → p'.state ≢ unused
  pub was : p'.state ≢ unused → p.state ≢ unused

pub Same-refl : (p : Proc) → Same p p
Same-refl p = record { pid = refl; stays = λ u. u; was = λ u. u }

pub Same-trans : (p q r : Proc) → Same p q → Same q r → Same p r
Same-trans p q r a b = record {
  pid = b.pid ∙ a.pid;
  stays = λ u. b.stays (a.stays u);
  was = λ u. a.was (b.was u);
}

pub wakeup-Same : (me chan : ℕ) (t : Table) (q : ℕ) → Same (t q) (wakeup me chan t q)
wakeup-Same me chan t q =
    rw (wakeup_lem me chan t q)
      (record { pid = ground arith; stays = λ u. ground arith; was = λ u. ground arith })

adopt-Same : (me init p i : ℕ) (t : Table) (q : ℕ) → Same (t q) (adopt me init p i t q)
unfolding adopt
adopt-Same me init p i t q = elim (Bool-cases ((t i).parent == ptr p)) [
  | inl child ↦ rw child (
      Same-trans (t q) (t1 q) (wakeup me (ptr init) t1 q)
        (record { pid = ground arith; stays = λ u. ground arith; was = λ u. ground arith })
        (wakeup-Same me (ptr init) t1 q))
  | inr other ↦ rw other (Same-refl (t q))
]
  where
    t1 : Table
    t1 = update t i (record (t i) { parent = ptr init })

reparent_from-Same :
    (me init p k i : ℕ) (t : Table) (q : ℕ) → Same (t q) (reparent_from me init p k i t q)
unfolding reparent_from
reparent_from-Same me init p zero i t q = Same-refl (t q)
reparent_from-Same me init p (suc k) i t q =
    Same-trans (t q) (adopt me init p i t q)
      (reparent_from me init p k (i + 1) (adopt me init p i t) q) (adopt-Same me init p i t q)
      (reparent_from-Same me init p k (i + 1) (adopt me init p i t) q)

pub reparent-Same : (init p : ℕ) (t : Table) (q : ℕ) → Same (t q) (reparent init p t q)
unfolding reparent
reparent-Same init p t q = reparent_from-Same p init p nproc 0 t q

pub update-Same :
    (t : Table) (i : ℕ) (p : Proc) (q : ℕ) → Same (t i) p → Same (t q) (update t i p q)
update-Same t i p q h = elim (Bool-cases (i == q)) [
  | inl here ↦ record {
    pid = ground (arith, h.pid);
    stays = λ u. ground (arith, h.stays);
    was = λ u. ground (arith, h.was);
  }
  | inr other ↦ record { pid = ground arith; stays = λ u. ground arith; was = λ u. ground arith }
]

pub kill-Same : (pid : ℕ) (t : Table) (q : ℕ) → Same (t q) ((kill pid t).1 q)
kill-Same pid t q = marked (kill pid t) (kill_lem pid t)
  where
    marked : (r : Bool × Table) → Killed pid t r → Same (t q) (r.1 q)
    marked (false, t') (no_such none_of) = Same-refl (t q)
    marked (true, t') (victim i lt hit fst same_pid ki awake st woke others) =
        elim (ℕ_discrete q i) [
          | yes here ↦
              rw here
                (record { pid = same_pid; stays = λ u. ground arith; was = λ u. ground arith })
          | no off ↦ rw (others q off) (Same-refl (t q))
        ]

-- The last change of exit is made to a process in use.
pub exit_table-Same :
    (init me status : ℕ) (t : Table) (q : ℕ)
    → (t me).state ≢ unused
    → Same (t q) (exit_table init me status t q)
unfolding exit_table
exit_table-Same init me status t q live =
    let t1 : Table = update t me (record (t me) { ofile = no_files (t me).ofile; cwd = 0 }) in
    let t2 : Table = reparent init me t1 in
    let t3 : Table = wakeup me (t2 me).parent t2 in
    let to3 : (x : ℕ) → Same (t x) (t3 x) = λ x.
      Same-trans (t x) (t1 x) (t3 x)
        (update-Same t me (record (t me) { ofile = no_files (t me).ofile; cwd = 0 }) x
          (record { pid = refl; stays = λ u. u; was = λ u. u }))
        (Same-trans (t1 x) (t2 x) (t3 x) (reparent-Same init me t1 x)
          (wakeup-Same me (t2 me).parent t2 x)) in
    Same-trans (t q) (t3 q) (update t3 me (record (t3 me) { xstate = status; state = zombie }) q)
      (to3 q)
      (update-Same t3 me (record (t3 me) { xstate = status; state = zombie }) q
        (record { pid = refl; stays = λ u. omega arith; was = λ u. (to3 me).stays live }))

-- The processes in use have pids between 1 and nextpid, all different.
pub record IsValid (t : Table) (nextpid : ℕ) : Type 0 where
  pub positive : (q : ℕ) → q < nproc → (t q).state ≢ unused → 0 < (t q).pid
  pub below : (q : ℕ) → q < nproc → (t q).state ≢ unused → (t q).pid < nextpid
  pub distinct :
      (p q : ℕ)
      → p < nproc
      → q < nproc
      → (t p).state ≢ unused
      → (t q).state ≢ unused
      → (t p).pid ≡ (t q).pid
      → p ≡ q

pub Same-IsValid :
    (t t' : Table) (n : ℕ) → ((q : ℕ) → Same (t q) (t' q)) → IsValid t n → IsValid t' n
Same-IsValid t t' n same v = record {
  positive = λ q lt u. omega (arith, (same q).pid, v.positive q lt ((same q).was u));
  below = λ q lt u. omega (arith, (same q).pid, v.below q lt ((same q).was u));
  distinct = λ p q lp lq up uq e.
      v.distinct p q lp lq ((same p).was up) ((same q).was uq)
        (omega (arith, (same p).pid, (same q).pid));
}

-- A process that is not in use any more.
pub freed-IsValid :
    (t : Table) (n i : ℕ) (p : Proc) → p.state ≡ unused → IsValid t n → IsValid (update t i p) n
freed-IsValid t n i p free v = record {
  positive = λ q lt u. ground (arith, v.positive q lt);
  below = λ q lt u. ground (arith, v.below q lt);
  distinct = λ x y lx ly ux uy e. ground (arith, v.distinct x y lx ly);
}

-- A process that has just got the next pid.
pub new-IsValid :
    (t : Table) (n i : ℕ) (p : Proc)
    → p.pid ≡ n
    → 0 < n
    → IsValid t n
    → IsValid (update t i p) (n + 1)
new-IsValid t n i p fresh pos v = record {
  positive = λ q lt u. ground (arith, v.positive q lt);
  below = λ q lt u. ground (arith, v.below q lt);
  distinct = λ x y lx ly ux uy e. ground (arith, v.distinct x y lx ly, v.below x lx, v.below y ly);
}
