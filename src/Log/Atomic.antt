-- ===== src/Log/Atomic.antt =====
-- The promise of the log: a commit is durable, and a crash leaves all of it or nothing.
use ntnu_courses.Base.{ℕ, ◌≡◌, ◌⊎◌, ap, ◌∙◌, inl, inr, append-nil, List, [], ◌∷◌, ◌++◌}
use ntnu_courses.Log.{Block, Write, Store, commit}
use ntnu_courses.Log.Header.{decode}
use ntnu_courses.Log.Replay.{apply, apply-append, prefix-split, cons-head, cons-tail}
use ntnu_courses.Log.Commit.{
  Did, log_writes, home_copies, Outside, commit_header, commit_end, commit_writes, commit-Did,
}
use ntnu_courses.Log.Crash.{
  recovered, Pending, headed, complete, before, middle, after, complete-header, complete-block,
}

module _ (start size b : ℕ) (k : List ℕ) (s : Store) (v : Pending start size (b ∷ k) s) where
  abbrev log_part : List Write
  log_part = log_writes start 0 (b ∷ k) s.cache

  abbrev home_part : List Write
  home_part = home_copies (b ∷ k) s.cache

  abbrev header : Write
  header = (start, commit_header start size (b ∷ k) s.cache)

  abbrev last : Write
  last = (start, commit_end start size (b ∷ k) s.cache)

  did : Did (commit_writes start size (b ∷ k) s.cache) s (commit start (b ∷ k) s)
  did = commit-Did start size b k s v.outside v.fits

  -- The disk when the header and then `r` have been written.
  past-header :
      (r : List Write) → apply (log_part ++ header ∷ r) s.disk ≡ apply r (headed start size b k s v)
  past-header r = apply-append log_part (header ∷ r) s.disk

  past-homes :
      (r : List Write)
      → apply (log_part ++ header ∷ (home_part ++ r)) s.disk
        ≡ apply r (apply home_part (headed start size b k s v))
  past-homes r = past-header (home_part ++ r) ∙ apply-append home_part r (headed start size b k s v)

  -- When a commit has returned, every block off the log is on the disk as it is in the cache, and no
  -- transaction is left in the header.
  pub commit_durable :
      ((x : ℕ) → Outside start size x → (commit start (b ∷ k) s).disk x ≡ s.cache x)
      × (decode ((commit start (b ∷ k) s).disk start) ≡ [])
  commit_durable = (
    λ x out. ap (λ (f : ℕ → Block). f x) whole ∙ complete-block start size b k s v x out,
    ap (λ (f : ℕ → Block). decode (f start)) whole ∙ complete-header start size b k s v,
  )
    where
      whole : (commit start (b ∷ k) s).disk ≡ complete start size b k s v
      whole = did.disk ∙ past-homes (last ∷ [])

  abbrev Old : (ℕ → Block) → Type 0
  Old d = (x : ℕ) → Outside start size x → d x ≡ s.disk x

  abbrev New : (ℕ → Block) → Type 0
  New d = (x : ℕ) → Outside start size x → d x ≡ s.cache x

  -- Behind the header every crash gives the new contents.
  crash_late :
      (r q : List Write)
      → r ++ q ≡ home_part ++ last ∷ []
      → New (recovered start (apply (log_part ++ header ∷ r) s.disk))
  crash_late r q e x out = go (prefix-split r q home_part (last ∷ []) e)
    where
      go :
          ((t : List Write) × (r ++ t ≡ home_part))
            ⊎ ((t : List Write) × (r ≡ home_part ++ t) × (t ++ q ≡ last ∷ []))
          → recovered start (apply (log_part ++ header ∷ r) s.disk) x ≡ s.cache x
      go (inl (t, f)) =
          ap (λ (d : ℕ → Block). recovered start d x) (past-header r)
          ∙ middle start size b k s v r t f x out
      go (inr ([], f, g)) =
          ap (λ (d : ℕ → Block). recovered start d x) (past-header r)
          ∙ middle start size b k s v r [] (append-nil r ∙ f ∙ append-nil home_part) x out
      go (inr (z ∷ [], f, g)) =
          ap (λ (d : ℕ → Block). recovered start d x)
            (ap (λ (w : List Write). apply (log_part ++ header ∷ w) s.disk)
                (f ∙ ap (λ (w : Write). home_part ++ w ∷ []) (cons-head z q last [] g))
              ∙ past-homes (last ∷ []))
          ∙ after start size b k s v x out
      go (inr (z ∷ y ∷ t, f, g)) = absurd (no_more y (t ++ q) (cons-tail z (y ∷ t ++ q) last [] g))
        where
          no_more : (y : Write) (l : List Write) → y ∷ l ≡ [] → ⊥
          no_more y l h = cc

  -- Atomicity. Let a crash fall between any two writes of a commit, or before the first or behind
  -- the last: `p` are the writes that reached the disk. After the recovery at the next boot every
  -- block off the log is as it was before the commit, or every one is as the transaction left it in
  -- the cache.
  pub commit_atomic :
      (p q : List Write)
      → s.writes ≡ []
      → p ++ q ≡ (commit start (b ∷ k) s).writes
      → Old (recovered start (apply p s.disk)) ⊎ New (recovered start (apply p s.disk))
  commit_atomic p q none e =
      go (prefix-split p q log_part (header ∷ (home_part ++ last ∷ [])) trace)
    where
      trace : p ++ q ≡ log_part ++ header ∷ (home_part ++ last ∷ [])
      trace =
          e
          ∙ did.writes
          ∙ ap (λ (l : List Write). l ++ commit_writes start size (b ∷ k) s.cache) none

      go :
          ((r : List Write) × (p ++ r ≡ log_part))
            ⊎ ((r : List Write) × (p ≡ log_part ++ r)
                × (r ++ q ≡ header ∷ (home_part ++ last ∷ [])))
          → Old (recovered start (apply p s.disk)) ⊎ New (recovered start (apply p s.disk))
      go (inl (r, f)) = inl (before start size b k s v p r f)
      go (inr ([], f, g)) =
          inl (before start size b k s v p [] (append-nil p ∙ f ∙ append-nil log_part))
      go (inr (z ∷ r, f, g)) = inr (λ x out.
          ap (λ (w : List Write). recovered start (apply w s.disk) x)
            (f
              ∙ ap (λ (w : Write). log_part ++ w ∷ r)
                  (cons-head z (r ++ q) header (home_part ++ last ∷ []) g))
          ∙ crash_late r q (cons-tail z (r ++ q) header (home_part ++ last ∷ []) g) x out)
