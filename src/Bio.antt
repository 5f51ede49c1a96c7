-- ===== src/Bio.antt =====
-- TDT4186 - OS/Labs/Lab3/kernel/bio.c: the buffer cache. The doubly linked list from bcache.head is
-- the list of its buffers' numbers, most recently used first; a pointer to a buffer is its number.
-- bcache.lock makes each operation on the list one step. What the disk driver does to a buffer's
-- data is a parameter.
pub mod Inv
pub mod Get
pub mod Lru
mod Tests
use ntnu_courses.Base.{
  ℕ, zero, suc, ◌+◌, ◌-◌, ◌%◌, ◌^◌, Bool, ◌&&◌, true, false, not, Option, none, some, List, [], ◌∷◌,
  ◌++◌, ◌==◌, if◌then◌else◌, update, Result, ok, panic, ◌>>=◌, ◌>>◌, panic_if,
}
use ntnu_courses.Lock.Sleep.{Sleeplock, initsleeplock, acquiresleep, releasesleep, holdingsleep}

-- The contents of a block: its bytes.
abbrev pub Block : Type 0
Block = ℕ → ℕ

-- `struct buf` without its list pointers.
pub record Buf : Type 0 where
  pub valid : Bool
  pub dev : ℕ
  pub blockno : ℕ
  pub lock : Sleeplock
  pub refcnt : ℕ
  pub content : Block

pub record Bcache : Type 0 where
  pub bufs : ℕ → Buf
  pub order : List ℕ

abbrev pub nbuf : ℕ
nbuf = 30

-- The loop of binit puts each buffer in turn behind the head.
push_front : ℕ → ℕ → List ℕ → List ℕ
push_front zero b order = order
push_front (suc k) b order = push_front k (b + 1) (b ∷ order)

pub binit : (ℕ → Buf) → Bcache
unfolding push_front initsleeplock
binit bufs = record {
  bufs = λ b. record (bufs b) { lock = initsleeplock };
  order = push_front nbuf 0 [];
}

abbrev pub set_buf : ℕ → Buf → Bcache → Bcache
set_buf b v c = record c { bufs = update c.bufs b v }

-- for(b = head.next; ...) if(b->dev == dev && b->blockno == blockno)
pub find_cached : (ℕ → Buf) → ℕ → ℕ → List ℕ → Option ℕ
find_cached bufs dev blockno [] = none
find_cached bufs dev blockno (b ∷ l) =
    let rest = find_cached bufs dev blockno l in
    if (bufs b).dev == dev && (bufs b).blockno == blockno then some b else rest

-- for(b = head.prev; ...) if(b->refcnt == 0): the list is walked from its end.
pub find_unused : (ℕ → Buf) → List ℕ → Option ℕ
find_unused bufs [] = none
find_unused bufs (b ∷ l) = elim (find_unused bufs l) [
  | some r ↦ some r
  | none ↦ if (bufs b).refcnt == 0 then some b else none
]

-- refcnt is a uint.
abbrev pub inc32 : ℕ → ℕ
inc32 n = (n + 1) % 2 ^ 32

abbrev pub dec32 : ℕ → ℕ
dec32 n = (n + 2 ^ 32 - 1) % 2 ^ 32

-- The part of bget under bcache.lock. The caller then waits for the buffer's sleep lock.
pub recycle : ℕ → ℕ → Bcache → Option ℕ → Result (ℕ × Bcache)
recycle dev blockno c none = panic "bget: no buffers"
recycle dev blockno c (some b) =
    ok (
      b,
      set_buf b (record (c.bufs b) { dev = dev; blockno = blockno; valid = false; refcnt = 1 }) c,
    )

pub take_cached : ℕ → ℕ → Bcache → Option ℕ → Result (ℕ × Bcache)
unfolding recycle
take_cached dev blockno c (some b) =
    ok (b, set_buf b (record (c.bufs b) { refcnt = inc32 (c.bufs b).refcnt }) c)
take_cached dev blockno c none = recycle dev blockno c (find_unused c.bufs c.order)

unfoldable pub bget : ℕ → ℕ → Bcache → Result (ℕ × Bcache)
unfolding take_cached
bget dev blockno c = take_cached dev blockno c (find_cached c.bufs dev blockno c.order)

-- acquiresleep(&b->lock) by the process `pid`: `none` while another process has the buffer.
unfoldable pub block : ℕ → ℕ → Bcache → Option Bcache
unfolding acquiresleep
block pid b c = elim (acquiresleep pid (c.bufs b).lock) [
  | none ↦ none
  | some lk ↦ some (set_buf b (record (c.bufs b) { lock = lk }) c)
]

-- The rest of bread, with the buffer locked: `disk` is what virtio_disk_rw(b, 0) reads.
unfoldable pub bread_fill : (ℕ → ℕ → Block) → ℕ → Bcache → Bcache
bread_fill disk b c =
    if (c.bufs b).valid
    then c
    else set_buf b
        (record (c.bufs b) { content = disk (c.bufs b).dev (c.bufs b).blockno; valid = true }) c

-- bwrite: the block of the disk that is written, and what is written.
unfoldable pub bwrite : ℕ → ℕ → Bcache → Result (ℕ × ℕ × Block)
unfolding holdingsleep
bwrite pid b c = do
  panic_if (not (holdingsleep pid (c.bufs b).lock)) "bwrite"
  ok ((c.bufs b).dev, (c.bufs b).blockno, (c.bufs b).content)

pub remove : ℕ → List ℕ → List ℕ
remove b [] = []
remove b (x ∷ l) = if x == b then l else x ∷ remove b l

-- The part of brelse under bcache.lock.
pub drop_ref : ℕ → Bcache → Bcache
unfolding remove
drop_ref b c =
    let c' : Bcache = set_buf b (record (c.bufs b) { refcnt = dec32 (c.bufs b).refcnt }) c in
    if (c'.bufs b).refcnt == 0 then record c' { order = b ∷ remove b c'.order } else c'

unfoldable pub brelse : ℕ → ℕ → Bcache → Result Bcache
unfolding holdingsleep releasesleep drop_ref
brelse pid b c = do
  panic_if (not (holdingsleep pid (c.bufs b).lock)) "brelse"
  ok (drop_ref b (set_buf b (record (c.bufs b) { lock = releasesleep (c.bufs b).lock }) c))

unfoldable pub bpin : ℕ → Bcache → Bcache
bpin b c = set_buf b (record (c.bufs b) { refcnt = inc32 (c.bufs b).refcnt }) c

unfoldable pub bunpin : ℕ → Bcache → Bcache
bunpin b c = set_buf b (record (c.bufs b) { refcnt = dec32 (c.bufs b).refcnt }) c
