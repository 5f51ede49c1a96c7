-- ===== src/Bio/Lru.antt =====
-- brelse: when the last reference goes, the buffer becomes the most recently used.
use ntnu_courses.Base.{
  ℕ, suc, ◌^◌, ◌<◌, ◌≡◌, ◌≢◌, refl, ap, true, false, List, [], ◌∷◌, ◌++◌, ◌==◌, ==_iff, ok, panic,
  ℕ_discrete, Bool-cases, inl, inr, arith,
}
use ntnu_courses.Lock.Sleep.{releasesleep, holdingsleep}
use ntnu_courses.Bio.{Buf, Bcache, set_buf, remove, drop_ref, brelse}
use ntnu_courses.Bio.Inv.{In, IsValid}

-- Moving a member to the front loses no member and adds none.
In-move :
    (b x : ℕ) (newer older : List ℕ)
    → (In x (newer ++ b ∷ older) → In x (b ∷ newer ++ older))
      × (In x (b ∷ newer ++ older) → In x (newer ++ b ∷ older))
In-move b x [] older = (λ m. m, λ m. m)
In-move b x (y ∷ newer) older =
    let (to, from) = In-move b x newer older in (λ m. there to m, λ m. back from m)
  where
    there :
        (In x (newer ++ b ∷ older) → In x (b ∷ newer ++ older))
        → In x (y ∷ newer ++ b ∷ older)
        → In x (b ∷ y ∷ newer ++ older)
    there to (inl e) = inr (inl e)
    there to (inr m) = elim (to m) [ inl e ↦ inl e | inr k ↦ inr (inr k) ]

    back :
        (In x (b ∷ newer ++ older) → In x (newer ++ b ∷ older))
        → In x (b ∷ y ∷ newer ++ older)
        → In x (y ∷ newer ++ b ∷ older)
    back from (inl e) = inr (from (inl e))
    back from (inr (inl e)) = inl e
    back from (inr (inr m)) = inr (from (inr m))

-- The buffers that the list holds are the same.
abbrev pub SameMembers : List ℕ → List ℕ → Type 0
SameMembers l k = (x : ℕ) → (In x l → In x k) × (In x k → In x l)

-- What a brelse of `b` leaves: one reference fewer, the sleep lock free, every other buffer as it
-- was; at the last reference `b` stands first, and the others behind it in their order.
pub record Released (b n : ℕ) (c c' : Bcache) : Type 0 where
  pub refcnt : (c'.bufs b).refcnt ≡ n
  pub lock : ((c'.bufs b).lock.locked ≡ 0) × ((c'.bufs b).lock.pid ≡ 0)
  pub block :
      ((c'.bufs b).dev ≡ (c.bufs b).dev)
      × ((c'.bufs b).blockno ≡ (c.bufs b).blockno)
      × ((c'.bufs b).valid ≡ (c.bufs b).valid)
      × ((c'.bufs b).content ≡ (c.bufs b).content)
  pub others : (a : ℕ) → a ≢ b → c'.bufs a ≡ c.bufs a
  pub stays : n ≢ 0 → c'.order ≡ c.order
  pub moved :
      n ≡ 0
      → (newer : List ℕ) × (older : List ℕ) × (c.order ≡ newer ++ b ∷ older)
        × (c'.order ≡ b ∷ newer ++ older)

-- A member of the list stands somewhere in it, and remove takes out just that place.
remove-In_split :
    (b : ℕ) (l : List ℕ)
    → In b l
    → (newer : List ℕ) × (older : List ℕ) × (l ≡ newer ++ b ∷ older) × (remove b l ≡ newer ++ older)
unfolding remove
remove-In_split b [] m = absurd m
remove-In_split b (x ∷ l) m = elim (Bool-cases (x == b)) [
  | inl here ↦ ([], l, ap (λ y. y ∷ l) ((==_iff x b).0 here), rw here refl)
  | inr other ↦
      let (newer, older, e, r) = remove-In_split b l (in_rest b x l m other) in
      (x ∷ newer, older, ap (λ k. x ∷ k) e, rw other (ap (λ k. x ∷ k) r))
]
  where
    in_rest : (b x : ℕ) (l : List ℕ) → In b (x ∷ l) → (x == b) ≡ false → In b l
    in_rest b x l (inl e) off = absurd (ground (arith, e, off))
    in_rest b x l (inr k) off = k

-- brelse by the process that holds the buffer's sleep lock, of a buffer of the list with n + 1
-- references, succeeds: the buffer has n references, its lock is free, it holds the same block, and
-- no other buffer changes. At n = 0 the buffer is moved to the front of the list and the others keep
-- their order, else the list stays.
pub brelse-Released :
    (pid b n : ℕ) (c : Bcache)
    → In b c.order
    → holdingsleep pid (c.bufs b).lock ≡ true
    → (c.bufs b).refcnt ≡ suc n
    → suc n < 2 ^ 32
    → (c' : Bcache) × (brelse pid b c ≡ ok c') × Released b n c c'
unfolding brelse drop_ref releasesleep
brelse-Released pid b n c m h e lt =
    let s : Bcache = set_buf b (record (c.bufs b) { lock = releasesleep (c.bufs b).lock }) c in
    (
      drop_ref b s,
      rw h refl,
      record {
        refcnt = ground arith;
        lock = (ground arith, ground arith);
        block = (ground arith, ground arith, ground arith, ground arith);
        others = λ a ne. ground arith;
        stays = λ ne. ground arith;
        moved = λ z.
            let (newer, older, at, without) = remove-In_split b c.order m in
            (newer, older, at, ground (arith, without));
      },
    )

-- Without the buffer's lock brelse panics.
pub brelse_refuses :
    (pid b : ℕ) (c : Bcache)
    → holdingsleep pid (c.bufs b).lock ≡ false
    → brelse pid b c ≡ panic "brelse"
unfolding brelse
brelse_refuses pid b c h = rw h refl

Released-IsValid :
    (pid b n : ℕ) (c c' : Bcache)
    → IsValid c
    → In b c.order
    → Released b n c c'
    → IsValid c' × SameMembers c.order c'.order
Released-IsValid pid b n c c' v m r = (valid, same)
  where
    same : (x : ℕ) → (In x c.order → In x c'.order) × (In x c'.order → In x c.order)
    same x = elim (ℕ_discrete n 0) [
      | yes last ↦ let (newer, older, e, e') = r.moved last in rw (e, e') (In-move b x newer older)
      | no more ↦ rw (r.stays more) (λ k. k, λ k. k)
    ]

    dev_same :
        (x : ℕ) → ((c'.bufs x).dev ≡ (c.bufs x).dev) × ((c'.bufs x).blockno ≡ (c.bufs x).blockno)
    dev_same x = elim (Bool-cases (x == b)) [
      | inl e ↦ let q : x ≡ b = ground arith in rw q (r.block.0, r.block.1)
      | inr ne ↦
          let q : c'.bufs x ≡ c.bufs x = r.others x (ground arith) in
          (ap (λ (u : Buf). u.dev) q, ap (λ (u : Buf). u.blockno) q)
    ]

    valid : IsValid c'
    valid x y mx my nz p q =
        v x y ((same x).1 mx) ((same y).1 my) (ground (arith, dev_same x))
          (ground (arith, dev_same x, dev_same y)) (ground (arith, dev_same x, dev_same y))

-- A brelse by the process that holds the sleep lock of a referenced buffer of the list succeeds, keeps
-- each block in one buffer, and leaves the list with the same members.
pub brelse-IsValid :
    (pid b n : ℕ) (c : Bcache)
    → IsValid c
    → In b c.order
    → holdingsleep pid (c.bufs b).lock ≡ true
    → (c.bufs b).refcnt ≡ suc n
    → suc n < 2 ^ 32
    → (c' : Bcache) × (brelse pid b c ≡ ok c') × IsValid c' × SameMembers c.order c'.order
brelse-IsValid pid b n c v m held refs few =
    let (c', e, r) = brelse-Released pid b n c m held refs few in
    let (v', same) = Released-IsValid pid b n c c' v m r in (c', e, v', same)
