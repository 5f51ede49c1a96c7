-- ===== src/Bio/Inv.antt =====
-- No block is cached twice, and the list of buffers is always the same set in another order.
use ntnu_courses.Base.{
  ℕ, ◌≡◌, ◌≢◌, ◌⊎◌, ap, ◌&&◌, none, some, List, [], ◌∷◌, ◌++◌, All, Bool-cases, ◌==◌, Option-cases,
  inl, inr, arith,
}
use ntnu_courses.Bio.{Buf, Bcache, find_cached, find_unused}

abbrev pub In : ℕ → List ℕ → Type 0
In b [] = ⊥
In b (x ∷ l) = (b ≡ x) ⊎ In b l

-- Two buffers that hold a block of a device are one if they hold the same block. (Device 0 marks a
-- buffer that has never been used.)
abbrev pub IsValid : Bcache → Type 0
IsValid c =
    (a b : ℕ)
    → In a c.order
    → In b c.order
    → (c.bufs a).dev ≢ 0
    → (c.bufs a).dev ≡ (c.bufs b).dev
    → (c.bufs a).blockno ≡ (c.bufs b).blockno
    → a ≡ b

abbrev pub Holds : (ℕ → Buf) → ℕ → ℕ → ℕ → Type 0
Holds bufs dev blockno b = ((bufs b).dev ≡ dev) × ((bufs b).blockno ≡ blockno)

-- The search finds a buffer of the list that holds the block.
pub find_cached-some :
    (bufs : ℕ → Buf) (dev blockno : ℕ) (l : List ℕ) (b : ℕ)
    → find_cached bufs dev blockno l ≡ some b
    → In b l × Holds bufs dev blockno b
unfolding find_cached
find_cached-some bufs dev blockno [] b e = cc
find_cached-some bufs dev blockno (x ∷ l) b e =
    elim (Bool-cases ((bufs x).dev == dev && (bufs x).blockno == blockno)) [
      | inl here ↦ ground arith
      | inr other ↦ let (m, h) = find_cached-some bufs dev blockno l b (rw other at e) in (inr m, h)
    ]

-- It fails only if no buffer of the list holds the block.
pub find_cached-none :
    (bufs : ℕ → Buf) (dev blockno : ℕ) (l : List ℕ)
    → find_cached bufs dev blockno l ≡ none
    → (b : ℕ) → In b l
    → ¬ Holds bufs dev blockno b
unfolding find_cached
find_cached-none bufs dev blockno [] e b m h = m
find_cached-none bufs dev blockno (x ∷ l) e b (inl q) h = ground arith
find_cached-none bufs dev blockno (x ∷ l) e b (inr m) h = ground (
  arith,
  λ (q : find_cached bufs dev blockno l ≡ none). find_cached-none bufs dev blockno l q b m h,
)

pub find_unused-none :
    (bufs : ℕ → Buf) (l : List ℕ) → find_unused bufs l ≡ none → All (λ x. (bufs x).refcnt ≢ 0) l
unfolding find_unused
find_unused-none bufs [] e = tt
find_unused-none bufs (x ∷ l) e = elim (Option-cases (find_unused bufs l)) [
  | inl q ↦ (ground arith, find_unused-none bufs l q)
  | inr (r, q) ↦ absurd (ground arith)
]

-- The search from the end finds the last buffer of the list with no reference.
pub find_unused-some :
    (bufs : ℕ → Buf) (l : List ℕ) (b : ℕ)
    → find_unused bufs l ≡ some b
    → (newer : List ℕ) × (older : List ℕ) × (l ≡ newer ++ b ∷ older)
      × ((bufs b).refcnt ≡ 0)
      × All (λ x. (bufs x).refcnt ≢ 0) older
unfolding find_unused
find_unused-some bufs [] b e = absurd (ground arith)
find_unused-some bufs (x ∷ l) b e = elim (Option-cases (find_unused bufs l)) [
  | inl q ↦ ([], l, ground arith, ground arith, find_unused-none bufs l q)
  | inr (r, q) ↦
      let (newer, older, el, z, all) = find_unused-some bufs l b (ground arith) in
      (x ∷ newer, older, ap (λ k. x ∷ k) el, z, all)
]
