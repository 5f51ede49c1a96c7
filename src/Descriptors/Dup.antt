-- ===== src/Descriptors/Dup.antt =====
-- TDT4186 - OS/Labs/Lab3/kernel/sysfile.c: fdalloc, and sys_dup undone by sys_close.
use ntnu_courses.Base.{
  ℕ, zero, suc, ◌+◌, ◌-◌, ◌≤◌, ◌<◌, ◌≡◌, ◌≢◌, ◌⊎◌, refl, sym, ap, ◌∙◌, inl, inr, Option, none, some,
  Option-cases, update, update_self, update_ne, ℕ_discrete, arith, ltb-eq-false, lt→ltb, ok,
}
use ntnu_courses.File.{File, Ftable, nothing, set_ref, filedup, fileclose}
use ntnu_courses.Descriptors.{
  Files, nofile, set_ofile, argfd, fdalloc_from, fdalloc, sys_dup, sys_close, dup_into, dup_file,
  close_file,
}

-- What fdalloc does: all descriptors from `fd` on, `k` of them, are in use, or the first free one is taken.
abbrev pub Takes : ℕ → ℕ → ℕ → Files → Option ℕ × Files → Type 0
Takes k fd f s run =
    ((run ≡ (none, s)) × ((q : ℕ) → fd ≤ q → q < fd + k → s.ofile q ≢ none))
    ⊎ ((r : ℕ) × (run ≡ (some r, set_ofile r (some f) s))
        × (fd ≤ r)
        × (r < fd + k)
        × (s.ofile r ≡ none)
        × ((q : ℕ) → fd ≤ q → q < r → s.ofile q ≢ none))

pub some_ne-none : (o : Option ℕ) (g : ℕ) → o ≡ some g → o ≢ none
some_ne-none o g e z = cc

take_now :
    (k fd f : ℕ) (s : Files)
    → s.ofile fd ≡ none
    → fdalloc_from (suc k) fd f s ≡ (some fd, set_ofile fd (some f) s)
unfolding fdalloc_from
take_now k fd f s free = rw (fdalloc_from, free) refl

take_later :
    (k fd f g : ℕ) (s : Files)
    → s.ofile fd ≡ some g
    → fdalloc_from (suc k) fd f s ≡ fdalloc_from k (fd + 1) f s
unfolding fdalloc_from
take_later k fd f g s used = rw (fdalloc_from, used) refl

fdalloc_from-Takes : (k fd f : ℕ) (s : Files) → Takes k fd f s (fdalloc_from k fd f s)
unfolding fdalloc_from
fdalloc_from-Takes zero fd f s = inl (refl, λ q lo hi. absurd (omega (arith, lo, hi)))
fdalloc_from-Takes (suc k) fd f s = elim (Option-cases (s.ofile fd)) [
  | inl free ↦ inr (
    fd,
    take_now k fd f s free,
    omega arith,
    omega arith,
    free,
    λ q lo hi. absurd (omega (arith, lo, hi)),
  )
  | inr (g, used) ↦ elim (fdalloc_from-Takes k (fd + 1) f s) [
    | inl (e, all) ↦ inl (
      take_later k fd f g s used ∙ e,
      λ q lo hi. here g used q lo (λ more. all q more (omega (arith, hi))),
    )
    | inr (r, e, lo', hi', free, least) ↦ inr (
      r,
      take_later k fd f g s used ∙ e,
      omega (arith, lo'),
      omega (arith, hi'),
      free,
      λ q lo hi. here g used q lo (λ more. least q more hi),
    )
  ]
]
  where
    here :
        (g : ℕ)
        → s.ofile fd ≡ some g
        → (q : ℕ) → fd ≤ q
        → (fd + 1 ≤ q → s.ofile q ≢ none)
        → s.ofile q ≢ none
    here g used q lo rest = elim (ℕ_discrete fd q) [
      | yes e ↦ some_ne-none (s.ofile q) g (ap s.ofile (sym e) ∙ used)
      | no ne ↦ rest (omega (arith, lo, ne))
    ]

-- fdalloc takes the least descriptor that is free, or, with all 16 in use, returns -1 and changes
-- nothing.
pub fdalloc-Takes : (f : ℕ) (s : Files) → Takes nofile 0 f s (fdalloc f s)
unfolding fdalloc
fdalloc-Takes f s = fdalloc_from-Takes nofile 0 f s

dup_ok :
    (fd f r : ℕ) (s : Files)
    → argfd fd s ≡ some f
    → fdalloc f s ≡ (some r, set_ofile r (some f) s)
    → 0 < (s.table f).ref
    → sys_dup fd s
      ≡ ok (
        some r,
        record (set_ofile r (some f) s) { table = set_ref f ((s.table f).ref + 1) s.table },
      )
unfolding sys_dup filedup
dup_ok fd f r s a e pos =
    ap (λ o. dup_file o s) a ∙ ap (dup_into f) e ∙ rw (ltb-eq-false (s.table f).ref 1 pos) refl

close_ok :
    (fd f : ℕ) (s : Files)
    → argfd fd s ≡ some f
    → 1 < (s.table f).ref
    → sys_close fd s
      ≡ ok (
        some nothing,
        record (set_ofile fd none s) { table = set_ref f ((s.table f).ref - 1) s.table },
      )
unfolding sys_close fileclose
close_ok fd f s a more =
    ap (λ o. close_file fd o s) a
    ∙ rw
        (
          ltb-eq-false (s.table f).ref 1 (omega (arith, more)),
          lt→ltb 0 ((s.table f).ref - 1) (omega (arith, more)),
        )
        refl

ofile_back :
    (o : ℕ → Option ℕ) (r p f : ℕ) → o r ≡ none → update (update o r (some f)) r none p ≡ o p
ofile_back o r p f free = elim (ℕ_discrete r p) [
  | yes e ↦
      ap (update (update o r (some f)) r none) (sym e)
      ∙ update_self (update o r (some f)) r none
      ∙ sym free
      ∙ ap o e
  | no ne ↦ update_ne (update o r (some f)) r p none ne ∙ update_ne o r p (some f) ne
]

table_back :
    (t : Ftable) (f g : ℕ)
    → (let t1 : Ftable = set_ref f ((t f).ref + 1) t in set_ref f ((t1 f).ref - 1) t1 g) ≡ t g
table_back t f g =
    let t1 : Ftable = set_ref f ((t f).ref + 1) t in
    let one_more : t1 f ≡ record (t f) { ref = (t f).ref + 1 } =
      update_self t f (record (t f) { ref = (t f).ref + 1 }) in
    elim (ℕ_discrete f g) [
      | yes e ↦
          ap (set_ref f ((t1 f).ref - 1) t1) (sym e)
          ∙ update_self t1 f (record (t1 f) { ref = (t1 f).ref - 1 })
          ∙ ap (λ (x : File). record x { ref = x.ref - 1 }) one_more
          ∙ ap (λ n. record (t f) { ref = n }) (omega arith)
          ∙ ap t e
      | no ne ↦
          update_ne t1 f g (record (t1 f) { ref = (t1 f).ref - 1 }) ne
          ∙ update_ne t f g (record (t f) { ref = (t f).ref + 1 }) ne
    ]

-- sys_dup of an open descriptor, with a descriptor free, returns the least free one, which then means the
-- same file, and sys_close of it gives back every descriptor and every file as they were.
pub sys_close-sys_dup :
    (fd f : ℕ) (s : Files)
    → argfd fd s ≡ some f
    → 0 < (s.table f).ref
    → (q : ℕ) → q < nofile
    → s.ofile q ≡ none
    → (r : ℕ) × (s1 : Files) × (s2 : Files) × (sys_dup fd s ≡ ok (some r, s1))
      × (argfd r s1 ≡ some f)
      × ((p : ℕ) → p < r → s.ofile p ≢ none)
      × ((s1.table f).ref ≡ (s.table f).ref + 1)
      × (sys_close r s1 ≡ ok (some nothing, s2))
      × ((p : ℕ) → s2.ofile p ≡ s.ofile p)
      × ((g : ℕ) → s2.table g ≡ s.table g)
sys_close-sys_dup fd f s a pos q small free = elim (fdalloc-Takes f s) [
  | inl (e, all) ↦ absurd (all q (omega arith) small free)
  | inr (r, e, lo, hi, unused, least) ↦
      let t1 : Ftable = set_ref f ((s.table f).ref + 1) s.table in
      let s1 : Files = record (set_ofile r (some f) s) { table = t1 } in
      let there : argfd r s1 ≡ some f = ground (arith, hi, update_self s.ofile r (some f)) in
      let count : (t1 f).ref ≡ (s.table f).ref + 1 =
        ap (λ x. x.ref)
          (update_self s.table f (record (s.table f) { ref = (s.table f).ref + 1 })) in
      (
        r,
        s1,
        record (set_ofile r none s1) { table = set_ref f ((t1 f).ref - 1) t1 },
        dup_ok fd f r s a e pos,
        there,
        (λ p lt. least p (omega arith) lt),
        count,
        close_ok r f s1 there (omega (arith, count, pos)),
        (λ p. ofile_back s.ofile r p f unused),
        (λ g. table_back s.table f g),
      )
]
