-- ===== src/Bio/Tests.antt =====
-- A cache of three buffers, and the theorems at concrete states.
use ntnu_courses.Base.{ℕ, ◌≡◌, refl, inl, true, [], ◌∷◌, ok, get_or, arith}
use ntnu_courses.Lock.Sleep.{holdingsleep}
use ntnu_courses.Bio.{Buf, Bcache, bget, brelse, find_cached}
use ntnu_courses.Bio.Inv.{In, Holds}
use ntnu_courses.Bio.Get.{referenced}
use ntnu_courses.Bio.Lru.{Released, brelse-Released}

abbrev buf : ℕ → ℕ → ℕ → Buf
buf dev blockno refcnt = record {
  valid = true;
  dev = dev;
  blockno = blockno;
  lock = record { locked = refcnt; pid = 7 };
  refcnt = refcnt;
  content = λ _. 0;
}

-- Buffer 2 holds block 9 for process 7; buffers 0 and 1 are free, 1 for longer.
abbrev bufs : ℕ → Buf
bufs b = get_or (buf 1 5 0 ∷ buf 1 6 0 ∷ buf 1 9 1 ∷ []) b (buf 0 0 0)

abbrev cache : Bcache
cache = record { bufs = bufs; order = 2 ∷ 0 ∷ 1 ∷ [] }

bget_hits : bget 1 9 cache ≡ ok (2, referenced 2 cache)
unfolding bget find_cached
bget_hits = refl

absent : (b : ℕ) → In b cache.order → ¬ Holds bufs 1 8 b
absent b m h = ground arith

brelse-Released_example : (c' : Bcache) × (brelse 7 2 cache ≡ ok c') × Released 2 0 cache c'
unfolding holdingsleep
brelse-Released_example = brelse-Released 7 2 0 cache (inl refl) refl refl (omega arith)
