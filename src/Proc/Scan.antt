-- ===== src/Proc/Scan.antt =====
-- TDT4186 - OS/Labs/Lab3/kernel/proc.c: the scans of the process table, and what wakeup, kill,
-- reparent and the scheduler do to every process.
use ntnu_courses.Base.{
  ℕ, zero, suc, ◌+◌, ◌≤◌, ◌<◌, ◌≡◌, ◌≢◌, refl, ◌∙◌, inl, inr, Bool, ◌&&◌, not, true, false, Option,
  none, some, ltb, leb, ◌==◌, if◌then◌else◌, update, Bool-cases, arith,
}
use ntnu_courses.Proc.{
  Proc, Table, nproc, sleeping, runnable, running, find, wakeup, wakeup_from, kill, kill_found,
  schedule_at, rr_scan,
}

-- The place that find returns passes the test, and no place before it does.
pub find-some :
    (f : Proc → Bool) (t : Table) (k i j : ℕ)
    → find f t k i ≡ some j
    → (f (t j) ≡ true) × (i ≤ j) × (j < i + k) × ((q : ℕ) → i ≤ q → q < j → f (t q) ≡ false)
unfolding find
find-some f t zero i j e = ground arith
find-some f t (suc k) i j e = elim (Bool-cases (f (t i))) [
  | inl hit ↦ ground arith
  | inr miss ↦
      let (h, lo, hi, before) = find-some f t k (i + 1) j (rw miss at e) in
      (
        h,
        omega arith,
        omega arith,
        λ q le lt. elim (Bool-cases (q == i)) [
          | inl here ↦ ground arith
          | inr other ↦ before q (ground arith) lt
        ],
      )
]

pub find-none :
    (f : Proc → Bool) (t : Table) (k i : ℕ)
    → find f t k i ≡ none
    → (q : ℕ) → i ≤ q
    → q < i + k
    → f (t q) ≡ false
unfolding find
find-none f t zero i e q le lt = ground arith
find-none f t (suc k) i e q le lt = elim (Bool-cases (f (t i))) [
  | inl hit ↦ ground arith
  | inr miss ↦ elim (Bool-cases (q == i)) [
    | inl here ↦ ground arith
    | inr other ↦ find-none f t k (i + 1) (rw miss at e) q (ground arith) (omega arith)
  ]
]

-- What wakeup(chan) by `me` makes of the process at `q`.
abbrev pub woken : ℕ → ℕ → ℕ → Proc → Proc
woken me chan q p =
    if not (q == me) && p.state == sleeping && p.chan == chan
    then record p { state = runnable }
    else p

wakeup_from-at :
    (me chan k i : ℕ) (t : Table) (q : ℕ)
    → wakeup_from me chan k i t q
      ≡ (if leb i q && ltb q (i + k) then woken me chan q (t q) else t q)
unfolding wakeup_from
wakeup_from-at me chan zero i t q = ground arith
wakeup_from-at me chan (suc k) i t q =
    wakeup_from-at me chan k (i + 1)
      (if not (i == me) && (t i).state == sleeping && (t i).chan == chan
        then update t i (record (t i) { state = runnable })
        else t)
      q
    ∙ ground arith

-- wakeup makes runnable exactly the processes other than the caller that sleep on the channel, and
-- changes nothing else of them or of the others.
pub wakeup_lem :
    (me chan : ℕ) (t : Table) (q : ℕ)
    → wakeup me chan t q ≡ (if ltb q nproc then woken me chan q (t q) else t q)
unfolding wakeup
wakeup_lem me chan t q = wakeup_from-at me chan nproc 0 t q ∙ ground arith

-- What kill(pid) does: without such a process it changes nothing and fails; otherwise the first
-- such process is marked and does not sleep any more, and no other process changes.
pub data Killed (pid : ℕ) (t : Table) : Bool × Table → Type 0 where
  no_such : ((q : ℕ) → q < nproc → (t q).pid ≢ pid) → Killed pid t (false, t)
  victim :
      {t' : Table} (i : ℕ)
      → i < nproc
      → (t i).pid ≡ pid
      → ((q : ℕ) → q < i → (t q).pid ≢ pid)
      → (t' i).pid ≡ (t i).pid
      → (t' i).killed ≡ 1
      → (t' i).state ≢ sleeping
      → ((t i).state ≢ sleeping → (t' i).state ≡ (t i).state)
      → ((t i).state ≡ sleeping → (t' i).state ≡ runnable)
      → ((q : ℕ) → q ≢ i → t' q ≡ t q)
      → Killed pid t (true, t')

-- kill behaves as Killed says on every table.
pub kill_lem : (pid : ℕ) (t : Table) → Killed pid t (kill pid t)
unfolding kill
kill_lem pid t = found (find hit t nproc 0) refl
  where
    hit : Proc → Bool
    hit p = p.pid == pid

    found : (o : Option ℕ) → find hit t nproc 0 ≡ o → Killed pid t (kill_found o t)
    found none e = no_such (λ q lt. ground (arith, find-none hit t nproc 0 e q (omega arith) lt))
    found (some i) e =
        let (h, lo, hi, before) = find-some hit t nproc 0 i e in
        victim i hi (ground (arith, h)) (λ q lt. ground (arith, before q (omega arith) lt))
          (ground arith) (ground arith) (ground arith) (λ ne. ground arith) (λ at. ground arith)
          (λ q ne. ground arith)

-- The scheduler's scan takes the first runnable process from `i` on, and makes nothing but it run.
pub data Picked (k i : ℕ) (t : Table) : Option ℕ × Table → Type 0 where
  idle : ((q : ℕ) → i ≤ q → q < i + k → (t q).state ≢ runnable) → Picked k i t (none, t)
  picks :
      {t' : Table} (j : ℕ)
      → i ≤ j
      → j < i + k
      → (t j).state ≡ runnable
      → ((q : ℕ) → i ≤ q → q < j → (t q).state ≢ runnable)
      → t' ≡ update t j (record (t j) { state = running })
      → Picked k i t (some j, t')

-- The scan of rr_scheduler from `i` on switches to the first runnable process and makes it running,
-- and nothing else changes; it ends without one only if none of the scanned processes is runnable.
pub rr_scan_lem : (k i : ℕ) (t : Table) → Picked k i t (rr_scan k i t)
unfolding rr_scan schedule_at
rr_scan_lem zero i t = idle (λ q le lt. omega arith)
rr_scan_lem (suc k) i t = elim (Bool-cases ((t i).state == runnable)) [
  | inl hit ↦
      rw hit (picks i (omega arith) (omega arith) (ground arith) (λ q le lt. omega arith) refl)
  | inr miss ↦ rw miss (later (rr_scan k (i + 1) t) (rr_scan_lem k (i + 1) t) (ground arith))
]
  where
    later :
        (r : Option ℕ × Table)
        → Picked k (i + 1) t r
        → (t i).state ≢ runnable
        → Picked (suc k) i t r
    later (none, t) (idle none_of) ne = idle (λ q le lt. elim (Bool-cases (q == i)) [
      | inl here ↦ ground arith
      | inr other ↦ none_of q (ground arith) (omega arith)
    ])
    later (some n, t') (picks j lo hi at before e) ne =
        picks j (omega arith) (omega arith) at
          (λ q le lt. elim (Bool-cases (q == i)) [
            | inl here ↦ ground arith
            | inr other ↦ before q (ground arith) lt
          ])
          e
