-- ===== src/Bio/Get.antt =====
-- bget: a cached block is found, an uncached one takes the least recently used free buffer.
use ntnu_courses.Base.{
  ℕ, ◌≡◌, ◌≢◌, ◌⊎◌, refl, false, List, ◌∷◌, ◌++◌, All, ok, panic, Option-cases, inl, inr, arith,
}
use ntnu_courses.Bio.{Bcache, set_buf, inc32, find_cached, find_unused, recycle, take_cached, bget}
use ntnu_courses.Bio.Inv.{
  In, IsValid, Holds, find_cached-some, find_cached-none, find_unused-some, find_unused-none,
}

-- The cache with one more reference to `b`.
abbrev pub referenced : ℕ → Bcache → Bcache
referenced b c = set_buf b (record (c.bufs b) { refcnt = inc32 (c.bufs b).refcnt }) c

-- The cache with `b` given over to another block.
abbrev pub recycled : ℕ → ℕ → ℕ → Bcache → Bcache
recycled dev blockno b c =
    set_buf b (record (c.bufs b) { dev = dev; blockno = blockno; valid = false; refcnt = 1 }) c

-- A block that is cached in `b` is found there, with one more reference; nothing is evicted.
pub bget_cached :
    (dev blockno b : ℕ) (c : Bcache)
    → IsValid c
    → dev ≢ 0
    → In b c.order
    → Holds c.bufs dev blockno b
    → bget dev blockno c ≡ ok (b, referenced b c)
unfolding bget take_cached
bget_cached dev blockno b c v d m h = elim (Option-cases (find_cached c.bufs dev blockno c.order)) [
  | inl e ↦ absurd (find_cached-none c.bufs dev blockno c.order e b m h)
  | inr (a, e) ↦
      let (ma, ha) = find_cached-some c.bufs dev blockno c.order a e in
      let same : a ≡ b = v a b ma m (ground arith) (ground arith) (ground arith) in rw (e, same)
]

-- A block that no buffer holds takes the buffer nearest to the old end of the list that has no
-- reference; its old contents are marked as not read. If every buffer has a reference, bget panics.
pub bget_uncached :
    (dev blockno : ℕ) (c : Bcache)
    → ((b : ℕ) → In b c.order → ¬ Holds c.bufs dev blockno b)
    → ((bget dev blockno c ≡ panic "bget: no buffers") × All (λ x. (c.bufs x).refcnt ≢ 0) c.order)
      ⊎ ((b : ℕ) × (newer : List ℕ) × (older : List ℕ) × (bget dev blockno c
            ≡ ok (b, recycled dev blockno b c))
          × (c.order ≡ newer ++ b ∷ older)
          × ((c.bufs b).refcnt ≡ 0)
          × All (λ x. (c.bufs x).refcnt ≢ 0) older)
unfolding bget take_cached recycle
bget_uncached dev blockno c un = elim (Option-cases (find_cached c.bufs dev blockno c.order)) [
  | inr (a, e) ↦
      let (ma, ha) = find_cached-some c.bufs dev blockno c.order a e in absurd (un a ma ha)
  | inl e ↦ elim (Option-cases (find_unused c.bufs c.order)) [
    | inl q ↦ inl (rw (e, q) refl, find_unused-none c.bufs c.order q)
    | inr (b, q) ↦
        let (newer, older, el, z, all) = find_unused-some c.bufs c.order b q in
        inr (b, newer, older, rw (e, q) refl, el, z, all)
  ]
]

-- The block was in `b` already, which has one more reference and still counts as read or not.
pub record Hit (dev blockno b : ℕ) (c c' : Bcache) : Type 0 where
  pub cached : Holds c.bufs dev blockno b
  pub more : (c'.bufs b).refcnt ≡ inc32 (c.bufs b).refcnt
  pub still : (c'.bufs b).valid ≡ (c.bufs b).valid

-- The block was in no buffer: `b` had no reference and all that are older in the list had one; now it
-- has one reference and has to be read.
pub record Miss (dev blockno b : ℕ) (c c' : Bcache) : Type 0 where
  pub uncached : (a : ℕ) → In a c.order → ¬ Holds c.bufs dev blockno a
  pub no_ref : (c.bufs b).refcnt ≡ 0
  pub oldest :
      (newer : List ℕ) × (older : List ℕ) × (c.order ≡ newer ++ b ∷ older)
      × All (λ x. (c.bufs x).refcnt ≢ 0) older
  pub first : (c'.bufs b).refcnt ≡ 1
  pub unread : (c'.bufs b).valid ≡ false

-- What a successful bget gives: a buffer of the cache that holds the block.
pub record Got (dev blockno b : ℕ) (c c' : Bcache) : Type 0 where
  pub member : In b c.order
  pub holds : Holds c'.bufs dev blockno b
  pub found : Hit dev blockno b c c' ⊎ Miss dev blockno b c c'
  pub rest : ((c'.bufs b).content ≡ (c.bufs b).content) × ((c'.bufs b).lock ≡ (c.bufs b).lock)
  pub order : c'.order ≡ c.order
  pub others : (a : ℕ) → a ≢ b → c'.bufs a ≡ c.bufs a
  pub valid : IsValid c'
