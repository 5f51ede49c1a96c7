-- ===== src/Log/Crash.antt =====
-- Crashes: what is on the disk after a crash at any point and the recovery that follows it.
use ntnu_courses.Base.{
  ℕ, ◌<◌, ◌≡◌, ◌≢◌, ◌⊎◌, refl, sym, subst, ap, ◌∙◌, inl, inr, true, false, List, [], ◌∷◌, ◌++◌,
  length, All, update, update_self, update_ne, ◌==◌, Bool-cases, arith,
}
use ntnu_courses.Log.{Block, Write, Store, recover_from_log, rebooted}
use ntnu_courses.Log.Header.{decode, decode-encode}
use ntnu_courses.Log.Replay.{apply, apply-append, At, apply-miss, At-prefix, At-weaken}
use ntnu_courses.Log.Commit.{
  Did, log_writes, home_writes, Logged, home_copies, home_writes-Logged, Outside, Copy,
  log_writes-Copy, home_copies-Outside, Logged-eq, commit_header, commit_end, committed-Logged,
  recovery_writes, recover-Did,
}

-- The disk after a boot from `d`, and the recovery that it does.
abbrev pub recovered : ℕ → (ℕ → Block) → ℕ → Block
recovered start d = (recover_from_log start (rebooted d)).disk

abbrev pub In : ℕ → List ℕ → Type 0
In x [] = ⊥
In x (b ∷ l) = (x ≡ b) ⊎ In x l

In-dec : (x : ℕ) (l : List ℕ) → In x l ⊎ ¬ In x l
In-dec x [] = inr (λ m. m)
In-dec x (b ∷ l) = elim (Bool-cases (x == b)) [
  | inl e ↦ inl (inl (ground arith))
  | inr ne ↦ elim (In-dec x l) [ inl m ↦ inl (inr m) | inr n ↦ inr (λ k. ground arith) ]
]

-- Copies that come last leave a block as they would have it, if it was so before.
home-keeps : (l : List ℕ) (c d : ℕ → Block) (x : ℕ) → d x ≡ c x → apply (home_copies l c) d x ≡ c x
home-keeps [] c d x h = h
home-keeps (b ∷ l) c d x h = home-keeps l c (update d b (c b)) x (once (Bool-cases (b == x)))
  where
    once : ((b == x) ≡ true) ⊎ ((b == x) ≡ false) → update d b (c b) x ≡ c x
    once (inl e) = let q : b ≡ x = ground arith in rw (q, update_self d x (c x))
    once (inr e) = update_ne d b x (c b) (ground arith) ∙ h

home-sets : (l : List ℕ) (c d : ℕ → Block) (x : ℕ) → In x l → apply (home_copies l c) d x ≡ c x
home-sets [] c d x m = absurd m
home-sets (b ∷ l) c d x (inl e) = home-keeps l c (update d b (c b)) x (rw e (update_self d b (c b)))
home-sets (b ∷ l) c d x (inr m) = home-sets l c (update d b (c b)) x m

home_copies-In :
    (l k : List ℕ) (c : ℕ → Block)
    → ((x : ℕ) → In x l → In x k)
    → At (λ b. In b k) (home_copies l c)
home_copies-In [] k c f = tt
home_copies-In (b ∷ l) k c f = (f b (inl refl), home_copies-In l k c (λ x m. f x (inr m)))

-- Where a disk agrees with `c` off the blocks of `l`, the copies make it agree everywhere, also
-- after some of them have been made already.
settled :
    (l : List ℕ) (c d : ℕ → Block) (r : List Write) (x : ℕ)
    → At (λ b. In b l) r
    → (¬ In x l → d x ≡ c x)
    → apply (home_copies l c) (apply r d) x ≡ c x
settled l c d r x h clean = elim (In-dec x l) [
  | inl m ↦ home-sets l c (apply r d) x m
  | inr n ↦ home-keeps l c (apply r d) x (
      apply-miss r d x
        (At-weaken (λ b. In b l) (λ b. b ≢ x) r (λ b m e. n (subst (λ k. In k l) e m)) h)
      ∙ clean n)
]

module _ (start size : ℕ) where
  abbrev pub Out : ℕ → Type 0
  Out = Outside start size

  not-start : (x : ℕ) → 0 < size → Out x → start ≢ x
  not-start x pos out e = omega arith

  -- The recovery copies the blocks that the header names to their homes, and does no more off the
  -- header.
  recovered-copies :
      (l : List ℕ) (d : ℕ → Block) (x : ℕ)
      → decode (d start) ≡ l
      → All Out l
      → length l < size
      → Out x
      → recovered start d x ≡ apply (home_writes start 0 l d) d x
  recovered-copies l d x e h lt out =
      ap (λ (f : ℕ → Block). f x) did.disk
      ∙ ap (λ (f : ℕ → Block). f x) (apply-append (home_writes start 0 (decode (d start)) d) _ d)
      ∙ update_ne (apply (home_writes start 0 (decode (d start)) d) d) start x _
          (not-start x (omega arith) out)
      ∙ ap (λ k. apply (home_writes start 0 k d) d x) e
    where
      did : Did (recovery_writes start size d) (rebooted d) (recover_from_log start (rebooted d))
      did =
          recover-Did start size (rebooted d) (subst (λ k. All Out k) (sym e) h)
            (subst (λ (k : List ℕ). length k < size) (sym e) lt)

  recovered-full :
      (l : List ℕ) (c d : ℕ → Block) (x : ℕ)
      → All Out l
      → length l < size
      → decode (d start) ≡ l
      → Logged start 0 l d c
      → Out x
      → recovered start d x ≡ apply (home_copies l c) d x
  recovered-full l c d x h lt e log out =
      recovered-copies l d x e h lt out
      ∙ ap (λ (ws : List Write). apply ws d x) (home_writes-Logged start 0 l d c log)

  -- What a transaction needs: the blocks that it changes lie off the log and fit in it, no
  -- transaction stands on the disk, and off the log the cache differs from the disk in those blocks
  -- only.
  pub record Pending (l : List ℕ) (s : Store) : Type 0 where
    pub outside : All Out l
    pub fits : length l < size
    pub empty : decode (s.disk start) ≡ []
    pub clean : (x : ℕ) → Out x → ¬ In x l → s.disk x ≡ s.cache x

  module _ (b : ℕ) (k : List ℕ) (s : Store) (v : Pending (b ∷ k) s) where
    abbrev pub l : List ℕ
    l = b ∷ k

    abbrev pub c : ℕ → Block
    c = s.cache

    abbrev pub logged : ℕ → Block
    logged = apply (log_writes start 0 l c) s.disk

    abbrev pub headed : ℕ → Block
    headed = update logged start (commit_header start size l c)

    At-Copy : At (Copy start size) (log_writes start 0 l c)
    At-Copy = log_writes-Copy start size 0 l c (omega (arith, v.fits))

    At-Out : At Out (home_copies l c)
    At-Out = home_copies-Outside start size l c v.outside

    Copy-ne : (x : ℕ) → Out x → (a : ℕ) → Copy start size a → a ≢ x
    Copy-ne x out a copy e = omega arith

    log-misses : (x : ℕ) → Out x → logged x ≡ s.disk x
    log-misses x out =
        apply-miss (log_writes start 0 l c) s.disk x (
          At-weaken (Copy start size) (λ a. a ≢ x) (log_writes start 0 l c) (Copy-ne x out) At-Copy)

    -- A crash before the header is written: the old contents.
    pub before :
        (p r : List Write)
        → p ++ r ≡ log_writes start 0 l c
        → (x : ℕ) → Out x
        → recovered start (apply p s.disk) x ≡ s.disk x
    before p r e x out =
        recovered-copies [] (apply p s.disk) x (ap decode same_header ∙ v.empty) tt
          (omega (arith, v.fits)) out
        ∙ apply-miss p s.disk x (At-weaken (Copy start size) (λ a. a ≢ x) p (Copy-ne x out) in_log)
      where
        in_log : At (Copy start size) p
        in_log = At-prefix (Copy start size) p r (log_writes start 0 l c) e At-Copy

        same_header : apply p s.disk start ≡ s.disk start
        same_header =
            apply-miss p s.disk start
              (At-weaken (Copy start size) (λ a. a ≢ start) p (λ a copy q. omega arith) in_log)

    headed-header : decode (headed start) ≡ l
    headed-header =
        ap decode (update_self logged start (commit_header start size l c)) ∙ decode-encode l _

    headed-clean : (x : ℕ) → Out x → ¬ In x l → headed x ≡ c x
    headed-clean x out n =
        update_ne logged start x (commit_header start size l c)
          (not-start x (omega (arith, v.fits)) out)
        ∙ log-misses x out
        ∙ v.clean x out n

    -- A crash with the header written and the homes not all: the new contents.
    pub middle :
        (p r : List Write)
        → p ++ r ≡ home_copies l c
        → (x : ℕ) → Out x
        → recovered start (apply p headed) x ≡ c x
    middle p r e x out =
        recovered-full l c (apply p headed) x v.outside v.fits
          (ap decode (miss start (λ a o q. omega (arith, v.fits))) ∙ headed-header)
          (Logged-eq start size 0 l headed (apply p headed) c (omega (arith, v.fits))
            (λ a copy. miss a (λ y o q. omega arith))
            (committed-Logged start size l c s.disk (commit_header start size l c) v.fits))
          out
        ∙ settled l c headed p x
            (At-prefix (λ a. In a l) p r (home_copies l c) e (home_copies-In l l c (λ y m. m)))
            (headed-clean x out)
      where
        miss : (a : ℕ) → ((y : ℕ) → Out y → y ≢ a) → apply p headed a ≡ headed a
        miss a f =
            apply-miss p headed a
              (At-weaken Out (λ y. y ≢ a) p f (At-prefix Out p r (home_copies l c) e At-Out))

    -- The disk when the commit is complete.
    abbrev pub complete : ℕ → Block
    complete = update (apply (home_copies l c) headed) start (commit_end start size l c)

    pub complete-header : decode (complete start) ≡ []
    complete-header =
        ap decode (update_self (apply (home_copies l c) headed) start (commit_end start size l c))
        ∙ decode-encode [] _

    pub complete-block : (x : ℕ) → Out x → complete x ≡ c x
    complete-block x out =
        update_ne (apply (home_copies l c) headed) start x (commit_end start size l c)
          (not-start x (omega (arith, v.fits)) out)
        ∙ settled l c headed [] x tt (headed-clean x out)

    pub after : (x : ℕ) → Out x → recovered start complete x ≡ c x
    after x out =
        recovered-copies [] complete x complete-header tt (omega (arith, v.fits)) out
        ∙ complete-block x out
