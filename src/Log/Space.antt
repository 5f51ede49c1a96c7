-- ===== src/Log/Space.antt =====
-- Room in the log: what begin_op reserves, log_write uses and end_op gives back.
use ntnu_courses.Base.{
  ℕ, zero, suc, ◌+◌, ◌-◌, ◌*◌, ◌≤◌, ◌<◌, ◌≡◌, refl, ◌∙◌, inl, inr, ◌||◌, true, false, some, List,
  [], ◌∷◌, ◌++◌, length, length-append, ok, panic, ◌==◌, Bool-cases, arith,
}
use ntnu_courses.Log.{
  Block, Log, Store, bpin, logsize, maxopblocks, begin_op, end_op_start, end_op_commit, log_write,
  logged, initlog,
}

logged-append : (b x : ℕ) (l : List ℕ) → logged b (l ++ x ∷ []) ≡ (logged b l || x == b)
unfolding logged
logged-append b x [] = ground arith
logged-append b x (y ∷ l) = ground (arith, logged-append b x l)

-- A log with the blocks that the open transactions may still add, all together: each may add
-- maxopblocks of them.
pub record System : Type 0 where
  pub log : Log
  pub store : Store
  pub room : ℕ

-- The calls of the file system, in any order. A transaction adds a block only while it has not used
-- up its share, and gives back what it has not used when it ends.
pub data Step (s : System) : System → Type 0 where
  begin :
      {log : Log}
      → begin_op s.log ≡ some log
      → Step s (record s { log = log; room = s.room + maxopblocks })
  write :
      {log : Log} {store : Store} (b : ℕ)
      → 0 < s.room
      → log_write b s.log s.store ≡ ok (log, store)
      → Step s
          (record { log = log; store = store; room = s.room + length s.log.lh - length log.lh })
  finish :
      {log : Log} (unused : ℕ)
      → unused ≤ maxopblocks
      → unused ≤ s.room
      → s.room - unused ≤ (s.log.outstanding - 1) * maxopblocks
      → 0 < s.log.outstanding
      → end_op_start s.log ≡ ok (false, log)
      → Step s (record s { log = log; room = s.room - unused })
  commit :
      {log : Log}
      → 0 < s.log.outstanding
      → end_op_start s.log ≡ ok (true, log)
      → Step s (record {
        log = (end_op_commit log s.store).0;
        store = (end_op_commit log s.store).1;
        room = 0;
      })

pub data Reach (start : System) : System → Type 0 where
  here : Reach start start
  next : {s t : System} → Reach start s → Step s t → Reach start t

-- What is in the log and what may still come fit in it, and nothing is committing between calls.
pub record HasRoom (s : System) : Type 0 where
  pub fits : length s.log.lh + s.room ≤ logsize
  pub shares : s.room ≤ s.log.outstanding * maxopblocks
  pub open_now : s.log.committing ≡ false

log_write-length :
    (b : ℕ) (log log' : Log) (s s' : Store)
    → log_write b log s ≡ ok (log', s')
    → (length log.lh ≤ length log'.lh)
      × (length log'.lh ≤ length log.lh + 1)
      × (log'.outstanding ≡ log.outstanding)
      × (log'.committing ≡ log.committing)
      × (log'.size ≡ log.size)
unfolding log_write
log_write-length b log log' s s' e = ground (arith, length-append log.lh (b ∷ []))

Step-HasRoom : {s t : System} → Step s t → HasRoom s → HasRoom t
unfolding begin_op end_op_start end_op_commit
Step-HasRoom (begin e) h = ground arith
Step-HasRoom {s} (write {log = log} {store = store} b pos e) h = record {
  fits = omega (arith, log_write-length b s.log log s.store store e);
  shares = omega (arith, log_write-length b s.log log s.store store e);
  open_now = (log_write-length b s.log log s.store store e).3 ∙ h.open_now;
}
Step-HasRoom (finish unused le have left pos e) h = ground arith
Step-HasRoom (commit pos e) h = record {
  fits = ground arith;
  shares = ground arith;
  open_now = refl;
}

-- The system after initlog.
unfoldable pub boot : ℕ → ℕ → (ℕ → Block) → System
boot start size disk = record {
  log = (initlog start size disk).0;
  store = (initlog start size disk).1;
  room = 0;
}

boot-HasRoom : (start size : ℕ) (disk : ℕ → Block) → HasRoom (boot start size disk)
unfolding boot initlog
boot-HasRoom start size disk = record {
  fits = ground arith;
  shares = ground arith;
  open_now = refl;
}

-- Whatever the file system does, the log's entries and the blocks that open transactions may still
-- add fit in the log's thirty places, and no commit is pending between two calls.
pub Reach-HasRoom :
    (start size : ℕ) (disk : ℕ → Block) {s : System} → Reach (boot start size disk) s → HasRoom s
Reach-HasRoom start size disk here = boot-HasRoom start size disk
Reach-HasRoom start size disk (next r st) = Step-HasRoom st (Reach-HasRoom start size disk r)

-- When the log on the disk has more than thirty blocks, log_write never panics in a transaction that
-- has not used up its share.
pub log_write_fits :
    (start size : ℕ) (disk : ℕ → Block) {s : System} (b : ℕ)
    → Reach (boot start size disk) s
    → 0 < s.room
    → 30 < s.log.size
    → (log : Log) × (store : Store) × (log_write b s.log s.store ≡ ok (log, store))
unfolding log_write
log_write_fits start size disk {s} b r pos big =
    let h = Reach-HasRoom start size disk r in
    elim (Bool-cases (logged b s.log.lh)) [
      | inl e ↦ (s.log, s.store, ground (arith, h.fits, h.shares))
      | inr e ↦ (
        record s.log { lh = s.log.lh ++ b ∷ [] },
        bpin b s.store,
        ground (arith, h.fits, h.shares),
      )
    ]

-- The log of a disk that mkfs makes has thirty blocks, and three transactions are open that have
-- written `n` different blocks together.
record Filled (start : ℕ) (disk : ℕ → Block) (n : ℕ) (s : System) : Type 0 where
  reach : Reach (boot start 30 disk) s
  entries : length s.log.lh ≡ n
  left : s.room ≡ 30 - n
  three : s.log.outstanding ≡ 3
  blocks : s.log.size ≡ 30
  fresh : (b : ℕ) → n ≤ b → logged b s.log.lh ≡ false

abbrev opened : ℕ → (ℕ → Block) → ℕ → System
opened start disk n = record (boot start 30 disk) {
  log = record (boot start 30 disk).log { outstanding = n };
  room = n * maxopblocks;
}

three_open : (start : ℕ) (disk : ℕ → Block) → Filled start disk 0 (opened start disk 3)
unfolding boot initlog begin_op logged
three_open start disk = record {
  reach =
      next {s = opened start disk 2}
        (next {s = opened start disk 1} (next {s = opened start disk 0} here (begin refl))
          (begin refl))
        (begin refl);
  entries = refl;
  left = refl;
  three = refl;
  blocks = refl;
  fresh = λ b le. refl;
}

one_more :
    (start : ℕ) (disk : ℕ → Block) (n : ℕ) (s : System)
    → n < 29
    → Filled start disk n s
    → (t : System) × Filled start disk (suc n) t
unfolding log_write
one_more start disk n s lt f = (
  record { log = log; store = bpin n s.store; room = s.room + length s.log.lh - length log.lh },
  record {
    reach = next f.reach (write n (omega (arith, f.left)) written);
    entries = omega (arith, grows, f.entries);
    left = omega (arith, f.left, grows);
    three = f.three;
    blocks = f.blocks;
    fresh = λ b le. logged-append b n s.log.lh ∙ ground (arith, f.fresh b (omega arith));
  },
)
  where
    log : Log
    log = record s.log { lh = s.log.lh ++ n ∷ [] }

    grows : length log.lh ≡ length s.log.lh + 1
    grows = length-append s.log.lh (n ∷ [])

    written : log_write n s.log s.store ≡ ok (log, bpin n s.store)
    written = ground (arith, f.entries, f.three, f.blocks, f.fresh n (omega arith))

fill : (start : ℕ) (disk : ℕ → Block) (n : ℕ) → n ≤ 29 → (s : System) × Filled start disk n s
fill start disk zero le = (opened start disk 3, three_open start disk)
fill start disk (suc n) le =
    let (s, f) = fill start disk n (omega arith) in one_more start disk n s (omega arith) f

-- With the log of thirty blocks that mkfs makes, a run within every reservation reaches a state
-- where a transaction may still add a block, by what begin_op has reserved, and log_write panics
-- whatever the block.
pub log_write_overflow :
    (start : ℕ) (disk : ℕ → Block)
    → (s : System) × Reach (boot start 30 disk) s
      × (s.room ≡ 1)
      × ((b : ℕ) → log_write b s.log s.store ≡ panic "too big a transaction")
unfolding log_write
log_write_overflow start disk =
    let (s, f) = fill start disk 29 (omega arith) in
    (s, f.reach, f.left, λ b. ground (arith, f.entries, f.blocks))
