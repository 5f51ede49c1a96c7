-- ===== src/File/Refs.antt =====
-- TDT4186 - OS/Labs/Lab3/kernel/file.c: the references of a file.
use ntnu_courses.Base.{
  ℕ, zero, suc, ◌+◌, ◌-◌, ◌≤◌, ◌<◌, ◌≡◌, ◌≢◌, refl, ap, ◌∙◌, update_self, inl, inr, true, false,
  Option, none, some, List, [], ◌∷◌, ltb, ◌==◌, update, Bool-cases, Result, ok, ◌>>=◌, arith,
}
use ntnu_courses.File.{
  File, Ftable, FileType, fd_none, fd_pipe, fd_inode, fd_device, nfile, set_ref, alloc_from,
  filealloc, Closing, nothing, closing, fileclose,
}

-- What filealloc does: the first file without references gets one, or every file has some.
pub data Allocated (k i : ℕ) (t : Ftable) : Option ℕ × Ftable → Type 0 where
  full : ((f : ℕ) → i ≤ f → f < i + k → (t f).ref ≢ 0) → Allocated k i t (none, t)
  taken :
      {t' : Ftable} (f : ℕ)
      → i ≤ f
      → f < i + k
      → (t f).ref ≡ 0
      → (t' f).ref ≡ 1
      → ((g : ℕ) → g ≢ f → t' g ≡ t g)
      → Allocated k i t (some f, t')

alloc_from-Allocated : (k i : ℕ) (t : Ftable) → Allocated k i t (alloc_from k i t)
unfolding alloc_from
alloc_from-Allocated zero i t = full (λ f le lt. absurd (omega arith))
alloc_from-Allocated (suc k) i t = elim (Bool-cases ((t i).ref == 0)) [
  | inl free ↦
      rw free
        (taken i (omega arith) (omega arith) (ground arith) (ground arith) (λ g ne. ground arith))
  | inr busy ↦
      rw busy (later (alloc_from k (i + 1) t) (alloc_from-Allocated k (i + 1) t) (ground arith))
]
  where
    later :
        (r : Option ℕ × Ftable) → Allocated k (i + 1) t r → (t i).ref ≢ 0 → Allocated (suc k) i t r
    later (none, t') (full h) ne = full (λ f le lt. elim (Bool-cases (f == i)) [
      | inl here ↦ ground arith
      | inr off ↦ h f (ground arith) (omega arith)
    ])
    later (some g, t') (taken f lo hi zero_refs one_ref others) ne =
        taken f (omega arith) (omega arith) zero_refs one_ref others

-- filealloc returns a file that had no reference and has one now, and changes no other file; it fails only
-- when every file of the table has a reference.
pub filealloc_lem : (t : Ftable) → Allocated nfile 0 t (filealloc t)
unfolding filealloc
filealloc_lem t = alloc_from-Allocated nfile 0 t

-- `n` calls of fileclose on the file, with what each of them goes on to call.
pub closes : ℕ → ℕ → Ftable → Result (List Closing × Ftable)
closes zero f t = ok ([], t)
closes (suc n) f t = do (c, t1) ← fileclose f t; (l, t2) ← closes n f t1; ok (c ∷ l, t2)

-- The table after all references are closed.
pub record Closed (f : ℕ) (t t' : Ftable) : Type 0 where
  pub free : (t' f).ref ≡ 0
  pub kind : (t' f).kind ≡ fd_none
  pub others : (g : ℕ) → g ≢ f → t' g ≡ t g

abbrev pub last_call : ℕ → Closing → List Closing
last_call zero c = c ∷ []
last_call (suc n) c = nothing ∷ last_call n c

fileclose-kept :
    (n f : ℕ) (t : Ftable)
    → (t f).ref ≡ suc (suc n)
    → fileclose f t ≡ ok (nothing, set_ref f (suc n) t)
unfolding fileclose
fileclose-kept n f t e =
    let some_ref : ltb (suc (suc n)) 1 ≡ false = ground arith in
    let one_less : suc (suc n) - 1 ≡ suc n = omega arith in
    let still : ltb 0 (suc n) ≡ true = ground arith in rw (e, some_ref, one_less, still) refl

fileclose-last :
    (f : ℕ) (t : Ftable)
    → (t f).ref ≡ 1
    → fileclose f t
      ≡ ok (closing (t f).kind (t f), update t f (record (t f) { ref = 0; kind = fd_none }))
unfolding fileclose
fileclose-last f t e = rw e refl

closing-ref : (c : FileType) (p : File) (n : ℕ) → closing c (record p { ref = n }) ≡ closing c p
closing-ref fd_none p n = refl
closing-ref fd_pipe p n = refl
closing-ref fd_inode p n = refl
closing-ref fd_device p n = refl

-- A file with n + 1 references survives n calls of fileclose, which go on to nothing; the last call
-- frees its place, goes on to close the pipe end or the inode that the file had at the start, and no
-- other file has changed.
pub closes_lem :
    (n f : ℕ) (t : Ftable)
    → (t f).ref ≡ suc n
    → (t' : Ftable) × (closes (suc n) f t ≡ ok (last_call n (closing (t f).kind (t f)), t'))
      × Closed f t t'
unfolding closes
closes_lem zero f t e = (
  update t f (record (t f) { ref = 0; kind = fd_none }),
  rw (fileclose-last f t e) refl,
  record { free = ground arith; kind = ground arith; others = λ g ne. ground arith },
)
closes_lem (suc n) f t e =
    let t1 : Ftable = set_ref f (suc n) t in
    let same : t1 f ≡ record (t f) { ref = suc n } =
      update_self t f (record (t f) { ref = suc n }) in
    let (t', run, c) = closes_lem n f t1 (ap (λ p. p.ref) same) in
    (
      t',
      rw (fileclose-kept n f t e) (
          ap (λ r. r >>= λ (l, t2). ok (nothing ∷ l, t2)) run
          ∙ ap (λ p. ok (nothing ∷ last_call n (closing p.kind p), t')) same
          ∙ ap (λ k. ok (nothing ∷ last_call n k, t')) (closing-ref (t f).kind (t f) (suc n))),
      record { free = c.free; kind = c.kind; others = λ g ne. c.others g ne ∙ ground arith },
    )
