-- ===== src/Log/Commit.antt =====
-- The writes of a commit and of a recovery, in order.
use ntnu_courses.Base.{
  ℕ, ◌+◌, ◌≤◌, ◌<◌, ◌≡◌, ◌≢◌, ◌⊎◌, refl, sym, subst, ap, ap₂, ◌∙◌, Bool, true, false, List, [], ◌∷◌,
  ◌++◌, map, append_assoc, append-nil, length, All, update, update_self, update_ne, if◌then◌else◌,
  arith,
}
use ntnu_courses.Log.{
  Block, Write, Store, put, bwrite, bunpin, encode, write_head, write_log, install_trans, commit,
  recover_from_log, read_head,
}
use ntnu_courses.Log.Header.{decode}
use ntnu_courses.Log.Replay.{apply, apply-append, At, apply-miss}

-- `s'` is `s` after the writes `ws`, which the disk and the cache have both seen.
pub record Did (ws : List Write) (s s' : Store) : Type 0 where
  pub writes : s'.writes ≡ s.writes ++ ws
  pub disk : s'.disk ≡ apply ws s.disk
  pub cache : s'.cache ≡ apply ws s.cache

Did-none : (s : Store) → Did [] s s
Did-none s = record { writes = sym (append-nil s.writes); disk = refl; cache = refl }

pub Did-then : (us vs : List Write) (s t u : Store) → Did us s t → Did vs t u → Did (us ++ vs) s u
Did-then us vs s t u d e = record {
  writes = e.writes ∙ ap (λ l. l ++ vs) d.writes ∙ append_assoc s.writes us vs;
  disk = e.disk ∙ ap (apply vs) d.disk ∙ sym (apply-append us vs s.disk);
  cache = e.cache ∙ ap (apply vs) d.cache ∙ sym (apply-append us vs s.cache);
}

-- A change of a buffer that is written at once.
write_through : (b : ℕ) (v : Block) (s : Store) → Did ((b, v) ∷ []) s (bwrite b (put b v s))
write_through b v s = record {
  writes = rw (update_self s.cache b v) refl;
  disk = rw (update_self s.cache b v) refl;
  cache = refl;
}

Did-unpinned : (b : ℕ) (ws : List Write) (s t : Store) → Did ws s t → Did ws s (bunpin b t)
Did-unpinned b ws s t d = record { writes = d.writes; disk = d.disk; cache = d.cache }

-- The log copies of the blocks `l`, whose contents are `c`.
abbrev pub log_writes : ℕ → ℕ → List ℕ → (ℕ → Block) → List Write
log_writes start tail [] c = []
log_writes start tail (b ∷ l) c = (start + tail + 1, c b) ∷ log_writes start (tail + 1) l c

-- The copies from the log `d` to the home blocks `l`.
abbrev pub home_writes : ℕ → ℕ → List ℕ → (ℕ → Block) → List Write
home_writes start tail [] d = []
home_writes start tail (b ∷ l) d = (b, d (start + tail + 1)) ∷ home_writes start (tail + 1) l d

-- The log copies in `d` are the contents `c`.
abbrev pub Logged : ℕ → ℕ → List ℕ → (ℕ → Block) → (ℕ → Block) → Type 0
Logged start tail [] d c = Unit
Logged start tail (b ∷ l) d c = (d (start + tail + 1) ≡ c b) × Logged start (tail + 1) l d c

abbrev pub home_copies : List ℕ → (ℕ → Block) → List Write
home_copies l c = map (λ b. (b, c b)) l

pub home_writes-Logged :
    (start tail : ℕ) (l : List ℕ) (d c : ℕ → Block)
    → Logged start tail l d c
    → home_writes start tail l d ≡ home_copies l c
home_writes-Logged start tail [] d c h = refl
home_writes-Logged start tail (b ∷ l) d c h =
    ap₂ ◌∷◌ (ap (λ (v : Block). (b, v)) h.0) (home_writes-Logged start (tail + 1) l d c h.1)

-- One round of install_trans.
abbrev installed : Bool → ℕ → Block → Store → Store
installed recovering b v s =
    if recovering then bwrite b (put b v s) else bunpin b (bwrite b (put b v s))

installed-Did :
    (recovering : Bool) (b : ℕ) (v : Block) (s : Store)
    → Did ((b, v) ∷ []) s (installed recovering b v s)
installed-Did true b v s = write_through b v s
installed-Did false b v s =
    Did-unpinned b ((b, v) ∷ []) s (bwrite b (put b v s)) (write_through b v s)

-- The log has `size` blocks from `start` on, its header first.
module _ (start size : ℕ) where
  abbrev pub Outside : ℕ → Type 0
  Outside b = (b < start) ⊎ (start + size ≤ b)

  abbrev pub Copy : ℕ → Type 0
  Copy b = (start < b) × (b < start + size)

  pub log_writes-Copy :
      (tail : ℕ) (l : List ℕ) (c : ℕ → Block)
      → tail + length l < size
      → At Copy (log_writes start tail l c)
  log_writes-Copy tail [] c h = tt
  log_writes-Copy tail (b ∷ l) c h =
      ((omega arith, omega arith), log_writes-Copy (tail + 1) l c (omega arith))

  pub home_copies-Outside :
      (l : List ℕ) (c : ℕ → Block) → All Outside l → At Outside (home_copies l c)
  home_copies-Outside [] c h = tt
  home_copies-Outside (b ∷ l) c h = (h.0, home_copies-Outside l c h.1)

  log_writes-eq :
      (tail : ℕ) (l : List ℕ) (c d : ℕ → Block)
      → All Outside l
      → ((b : ℕ) → Outside b → c b ≡ d b)
      → log_writes start tail l c ≡ log_writes start tail l d
  log_writes-eq tail [] c d h same = refl
  log_writes-eq tail (b ∷ l) c d h same =
      ap₂ ◌∷◌ (ap (λ (v : Block). (start + tail + 1, v)) (same b h.0))
        (log_writes-eq (tail + 1) l c d h.1 same)

  write_log-Did :
      (tail : ℕ) (l : List ℕ) (s : Store)
      → All Outside l
      → tail + length l < size
      → Did (log_writes start tail l s.cache) s (write_log start tail l s)
  unfolding write_log
  write_log-Did tail [] s h lt = Did-none s
  write_log-Did tail (b ∷ l) s h lt =
      let a : ℕ = start + tail + 1 in
      let t : Store = bwrite a (put a (s.cache b) s) in
      let rest = write_log-Did (tail + 1) l t h.1 (omega arith) in
      let same =
        log_writes-eq (tail + 1) l t.cache s.cache h.1
          (λ x out. update_ne s.cache a x (s.cache b) (omega arith)) in
      Did-then ((a, s.cache b) ∷ []) (log_writes start (tail + 1) l s.cache) s t
        (write_log start (tail + 1) l t) (write_through a (s.cache b) s) (rw same at rest)

  home_writes-eq :
      (tail : ℕ) (l : List ℕ) (c d : ℕ → Block)
      → tail + length l < size
      → ((b : ℕ) → Copy b → c b ≡ d b)
      → home_writes start tail l c ≡ home_writes start tail l d
  home_writes-eq tail [] c d lt same = refl
  home_writes-eq tail (b ∷ l) c d lt same =
      ap₂ ◌∷◌ (ap (λ (v : Block). (b, v)) (same (start + tail + 1) (omega arith, omega arith)))
        (home_writes-eq (tail + 1) l c d (omega arith) same)

  install_trans-Did :
      (recovering : Bool) (tail : ℕ) (l : List ℕ) (s : Store)
      → All Outside l
      → tail + length l < size
      → Did (home_writes start tail l s.cache) s (install_trans recovering start tail l s)
  unfolding install_trans
  install_trans-Did recovering tail [] s h lt = Did-none s
  install_trans-Did recovering tail (b ∷ l) s h lt =
      let v : Block = s.cache (start + tail + 1) in
      let t : Store = installed recovering b v s in
      let d = installed-Did recovering b v s in
      let rest = install_trans-Did recovering (tail + 1) l t h.1 (omega arith) in
      let same =
        home_writes-eq (tail + 1) l t.cache s.cache (omega arith)
          (λ x copy. ap (λ (f : ℕ → Block). f x) d.cache ∙ update_ne s.cache b x v (omega arith)) in
      Did-then ((b, v) ∷ []) (home_writes start (tail + 1) l s.cache) s t
        (install_trans recovering start (tail + 1) l t) d (rw same at rest)

  pub write_head-Did :
      (lh : List ℕ) (s : Store)
      → Did ((start, encode lh (s.cache start)) ∷ []) s (write_head start lh s)
  unfolding write_head
  write_head-Did lh s = write_through start (encode lh (s.cache start)) s

  -- The same, with the cache known by an equation.
  write_head-Did_of :
      (lh : List ℕ) (s : Store) (f : ℕ → Block)
      → s.cache ≡ f
      → Did ((start, encode lh (f start)) ∷ []) s (write_head start lh s)
  write_head-Did_of lh s f e =
      subst (λ (g : ℕ → Block). Did ((start, encode lh (g start)) ∷ []) s (write_head start lh s)) e
        (write_head-Did lh s)

  log_writes-later :
      (t tail : ℕ) (l : List ℕ) (c : ℕ → Block)
      → t < tail
      → At (λ x. x ≢ start + t + 1) (log_writes start tail l c)
  log_writes-later t tail [] c lt = tt
  log_writes-later t tail (b ∷ l) c lt =
      ((omega arith), log_writes-later t (tail + 1) l c (omega arith))

  -- After the log has been written it holds the blocks.
  pub log_writes-Logged :
      (tail : ℕ) (l : List ℕ) (c d : ℕ → Block)
      → Logged start tail l (apply (log_writes start tail l c) d) c
  log_writes-Logged tail [] c d = tt
  log_writes-Logged tail (b ∷ l) c d = (
    apply-miss (log_writes start (tail + 1) l c) (update d (start + tail + 1) (c b))
          (start + tail + 1) (log_writes-later tail (tail + 1) l c (omega arith))
        ∙ update_self d (start + tail + 1) (c b),
    log_writes-Logged (tail + 1) l c (update d (start + tail + 1) (c b)),
  )

  pub Logged-eq :
      (tail : ℕ) (l : List ℕ) (d e c : ℕ → Block)
      → tail + length l < size
      → ((x : ℕ) → Copy x → e x ≡ d x)
      → Logged start tail l d c
      → Logged start tail l e c
  Logged-eq tail [] d e c lt same h = tt
  Logged-eq tail (b ∷ l) d e c lt same h = (
    same (start + tail + 1) (omega arith, omega arith) ∙ h.0,
    Logged-eq (tail + 1) l d e c (omega arith) same h.1,
  )

  -- The contents of the cache and the disk at the stages of a commit of `l` from the cache `c`; for
  -- the disk, start from what the disk holds.
  abbrev pub commit_header : List ℕ → (ℕ → Block) → Block
  commit_header l c = encode l (apply (log_writes start 0 l c) c start)

  abbrev pub commit_end : List ℕ → (ℕ → Block) → Block
  commit_end l c = encode [] (
      apply (home_copies l c) (update (apply (log_writes start 0 l c) c) start (commit_header l c))
        start)

  abbrev pub commit_writes : List ℕ → (ℕ → Block) → List Write
  commit_writes l c =
      log_writes start 0 l c
      ++ (((start, commit_header l c) ∷ []) ++ (home_copies l c ++ ((start, commit_end l c) ∷ [])))

  -- The header is no log block.
  header-Copy : (d : ℕ → Block) (v : Block) (x : ℕ) → Copy x → update d start v x ≡ d x
  header-Copy d v x copy = update_ne d start x v (omega arith)

  pub committed-Logged :
      (l : List ℕ) (c d : ℕ → Block) (h : Block)
      → length l < size
      → Logged start 0 l (update (apply (log_writes start 0 l c) d) start h) c
  committed-Logged l c d h lt =
      Logged-eq 0 l (apply (log_writes start 0 l c) d)
        (update (apply (log_writes start 0 l c) d) start h) c (omega arith)
        (header-Copy (apply (log_writes start 0 l c) d) h) (log_writes-Logged 0 l c d)

  -- A commit writes the blocks to the log, then the header, then the blocks to their homes, and then
  -- an empty header.
  pub commit-Did :
      (b : ℕ) (l : List ℕ) (s : Store)
      → All Outside (b ∷ l)
      → length (b ∷ l) < size
      → Did (commit_writes (b ∷ l) s.cache) s (commit start (b ∷ l) s)
  unfolding commit
  commit-Did b k s h lt = Did-then (log_writes start 0 l c) _ s s1 s4 d1 (
      Did-then ((start, commit_header l c) ∷ []) _ s1 s2 s4 d2
        (Did-then (home_copies l c) ((start, commit_end l c) ∷ []) s2 s3 s4 d3 d4))
    where
      l : List ℕ
      l = b ∷ k

      c : ℕ → Block
      c = s.cache

      s1 : Store
      s1 = write_log start 0 l s

      s2 : Store
      s2 = write_head start l s1

      s3 : Store
      s3 = install_trans false start 0 l s2

      s4 : Store
      s4 = write_head start [] s3

      d1 : Did (log_writes start 0 l c) s s1
      d1 = write_log-Did 0 l s h (omega arith)

      d2 : Did ((start, commit_header l c) ∷ []) s1 s2
      d2 = write_head-Did_of l s1 (apply (log_writes start 0 l c) c) d1.cache

      cache2 : s2.cache ≡ update (apply (log_writes start 0 l c) c) start (commit_header l c)
      cache2 = d2.cache ∙ ap (λ f. update f start (commit_header l c)) d1.cache

      copies : home_writes start 0 l s2.cache ≡ home_copies l c
      copies =
          ap (home_writes start 0 l) cache2
          ∙ home_writes-Logged start 0 l
              (update (apply (log_writes start 0 l c) c) start (commit_header l c)) c
              (committed-Logged l c c (commit_header l c) lt)

      d3 : Did (home_copies l c) s2 s3
      d3 = rw copies at (install_trans-Did false 0 l s2 h (omega arith))

      d4 : Did ((start, commit_end l c) ∷ []) s3 s4
      d4 =
          write_head-Did_of [] s3
            (apply (home_copies l c)
              (update (apply (log_writes start 0 l c) c) start (commit_header l c)))
            (d3.cache ∙ ap (apply (home_copies l c)) cache2)

  -- A recovery copies the blocks that the header on disk names to their homes, and then writes an
  -- empty header.
  abbrev pub recovery_writes : (ℕ → Block) → List Write
  recovery_writes d =
      home_writes start 0 (decode (d start)) d
      ++ ((start, encode [] (apply (home_writes start 0 (decode (d start)) d) d start)) ∷ [])

  pub recover-Did :
      (s : Store)
      → All Outside (decode (s.cache start))
      → length (decode (s.cache start)) < size
      → Did (recovery_writes s.cache) s (recover_from_log start s)
  unfolding recover_from_log read_head
  recover-Did s h lt =
      Did-then (home_writes start 0 l s.cache) _ s s1 (write_head start [] s1) d1
        (write_head-Did_of [] s1 (apply (home_writes start 0 l s.cache) s.cache) d1.cache)
    where
      l : List ℕ
      l = decode (s.cache start)

      s1 : Store
      s1 = install_trans true start 0 l s

      d1 : Did (home_writes start 0 l s.cache) s s1
      d1 = install_trans-Did true 0 l s h (omega arith)
