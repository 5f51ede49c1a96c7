-- ===== src/Log.antt =====
-- TDT4186 - OS/Labs/Lab3/kernel/log.c: the redo log. log.lock makes begin_op, log_write and the two
-- locked parts of end_op one step each. Of the buffer cache the log sees the contents of blocks:
-- `cache b` is what bread(b) returns, `disk b` what the disk holds, `pins b` the references that
-- bpin has added; each write of the disk is recorded in order, so that a crash can be placed between
-- any two. A block is a sequence of 32-bit words. The in-memory header is the list of the first
-- lh.n entries of lh.block.
pub mod Header
pub mod Replay
pub mod Commit
pub mod Crash
pub mod Atomic
pub mod Space
mod Tests
use ntnu_courses.Base.{
  ℕ, zero, suc, ◌+◌, ◌-◌, ◌*◌, Bool, ◌||◌, true, false, not, Option, none, some, List, [], ◌∷◌,
  ◌++◌, length, ltb, leb, ◌==◌, if◌then◌else◌, update, Result, ok, panic, ◌>>=◌, ◌>>◌, panic_if,
}

abbrev pub Block : Type 0
Block = ℕ → ℕ

abbrev pub Write : Type 0
Write = ℕ × Block

pub record Store : Type 0 where
  pub disk : ℕ → Block
  pub cache : ℕ → Block
  pub pins : ℕ → ℕ
  pub writes : List Write

-- A change of the data of the buffer that bread(b) returned.
abbrev pub put : ℕ → Block → Store → Store
put b v s = record s { cache = update s.cache b v }

abbrev pub bwrite : ℕ → Store → Store
bwrite b s = record s {
  disk = update s.disk b (s.cache b);
  writes = s.writes ++ (b, s.cache b) ∷ [];
}

abbrev pub bpin : ℕ → Store → Store
bpin b s = record s { pins = update s.pins b (s.pins b + 1) }

abbrev pub bunpin : ℕ → Store → Store
bunpin b s = record s { pins = update s.pins b (s.pins b - 1) }

abbrev pub logsize : ℕ
logsize = 30

abbrev pub maxopblocks : ℕ
maxopblocks = 10

pub record Log : Type 0 where
  pub start : ℕ
  pub size : ℕ
  pub outstanding : ℕ
  pub committing : Bool
  pub lh : List ℕ

-- log.lh.block[i] = lh->block[i], from `i` on with `k` entries to go.
pub read_words : ℕ → ℕ → Block → List ℕ
read_words zero i hb = []
read_words (suc k) i hb = hb (i + 1) ∷ read_words k (i + 1) hb

unfoldable pub read_head : ℕ → Store → List ℕ
unfolding read_words
read_head start s = read_words (s.cache start 0) 0 (s.cache start)

-- hb->block[i] = log.lh.block[i], from `i` on. The words behind stay.
pub write_words : List ℕ → ℕ → Block → Block
write_words [] i hb = hb
write_words (b ∷ l) i hb = write_words l (i + 1) (update hb (i + 1) b)

pub encode : List ℕ → Block → Block
unfolding write_words
encode lh hb = write_words lh 0 (update hb 0 (length lh))

unfoldable pub write_head : ℕ → List ℕ → Store → Store
unfolding encode
write_head start lh s = bwrite start (put start (encode lh (s.cache start)) s)

-- From `tail` on, for the blocks that are left: copy the log block to its home and write it.
unfoldable pub install_trans : Bool → ℕ → ℕ → List ℕ → Store → Store
install_trans recovering start tail [] s = s
install_trans recovering start tail (b ∷ l) s =
    let s' : Store = bwrite b (put b (s.cache (start + tail + 1)) s) in
    install_trans recovering start (tail + 1) l (if recovering then s' else bunpin b s')

-- From `tail` on, for the blocks that are left: copy the cached block to the log and write it.
unfoldable pub write_log : ℕ → ℕ → List ℕ → Store → Store
write_log start tail [] s = s
write_log start tail (b ∷ l) s =
    write_log start (tail + 1) l (bwrite (start + tail + 1) (put (start + tail + 1) (s.cache b) s))

-- The header after the commit is empty.
unfoldable pub commit : ℕ → List ℕ → Store → Store
unfolding write_log write_head install_trans
commit start [] s = s
commit start (b ∷ l) s =
    let s1 : Store = write_log start 0 (b ∷ l) s in
    let s2 : Store = write_head start (b ∷ l) s1 in
    let s3 : Store = install_trans false start 0 (b ∷ l) s2 in write_head start [] s3

unfoldable pub recover_from_log : ℕ → Store → Store
unfolding read_head install_trans write_head
recover_from_log start s = write_head start [] (install_trans true start 0 (read_head start s) s)

-- initlog at boot: the state in memory is new, and the cache holds what the disk does.
abbrev pub rebooted : (ℕ → Block) → Store
rebooted disk = record { disk = disk; cache = disk; pins = λ _. 0; writes = [] }

unfoldable pub initlog : ℕ → ℕ → (ℕ → Block) → Log × Store
unfolding recover_from_log
initlog start size disk = (
  record { start = start; size = size; outstanding = 0; committing = false; lh = [] },
  recover_from_log start (rebooted disk),
)

-- One round of the loop of begin_op: `none` means that the caller sleeps on the log.
unfoldable pub begin_op : Log → Option Log
begin_op log =
    if log.committing
    then none
    else if ltb logsize (length log.lh + (log.outstanding + 1) * maxopblocks)
    then none
    else some (record log { outstanding = log.outstanding + 1 })

-- The first locked part of end_op, and whether this call has to commit. It is never called with
-- nothing outstanding (`outstanding` would go below 0 in C).
unfoldable pub end_op_start : Log → Result (Bool × Log)
end_op_start log = do
  panic_if log.committing "log.committing"
  ok (
      if log.outstanding - 1 == 0
      then (true, record log { outstanding = 0; committing = true })
      else (false, record log { outstanding = log.outstanding - 1 }))

-- The commit of end_op and its second locked part.
unfoldable pub end_op_commit : Log → Store → Log × Store
unfolding commit
end_op_commit log s = (record log { lh = []; committing = false }, commit log.start log.lh s)

pub logged : ℕ → List ℕ → Bool
logged b [] = false
logged b (x ∷ l) = x == b || logged b l

-- The scan of log_write ends at the entry of the block, or behind the last one; the store that
-- follows puts the number in that place.
unfoldable pub log_write : ℕ → Log → Store → Result (Log × Store)
unfolding logged
log_write b log s = do
  panic_if (leb logsize (length log.lh) || leb (log.size - 1) (length log.lh))
      "too big a transaction"
  panic_if (ltb log.outstanding 1) "log_write outside of trans"
  ok (if logged b log.lh then (log, s) else (record log { lh = log.lh ++ b ∷ [] }, bpin b s))
