-- ===== src/Pipe/Run.antt =====
-- What pipewrite and piperead do to the queue of a pipe.
use ntnu_courses.Base.{
  ℕ, zero, suc, ◌+◌, ◌^◌, ◌≤◌, ◌<◌, ◌≡◌, ◌⊎◌, refl, sym, ap, ◌∙◌, Bool, ◌||◌, not, true, false,
  Option, none, some, List, [], ◌∷◌, ◌++◌, append-nil, append_assoc, length, ◌==◌, Option-cases,
  Bool-cases, inl, inr, arith,
}
use ntnu_courses.Base.Ring
use ntnu_courses.Pipe.{
  Pipe, pipesize, u32, put, Outcome, fail, returns, sleeps, after_put, pipewrite, copy_out,
}
use ntnu_courses.Pipe.Fifo.{held, IsValid, contents, put_lem, taken, taken_lem}

-- The first `n` bytes that the user's memory holds from `i` on, up to one that cannot be read.
pub sent : (ℕ → Option ℕ) → ℕ → ℕ → List ℕ
sent user i zero = []
sent user i (suc n) = elim (user i) [ none ↦ [] | some ch ↦ ch ∷ sent user (i + 1) n ]

-- What each way to end says, after `n` of the `k` bytes from `i` have gone into the pipe `pi`.
abbrev pub Ends : Bool → (ℕ → Option ℕ) → ℕ → ℕ → ℕ → Pipe → Outcome → Type 0
Ends killed user k i n pi fail = (pi.readopen ≡ false) ⊎ (killed ≡ true)
Ends killed user k i n pi (returns c) = (c ≡ i + n) × ((n ≡ k) ⊎ (user c ≡ none))
Ends killed user k i n pi (sleeps c) = (c ≡ i + n) × (n < k) × (held pi ≡ pipesize)

pub record Wrote (killed : Bool) (user : ℕ → Option ℕ) (k i : ℕ) (pi : Pipe)
    (r : Outcome × List ℕ × Pipe) : Type 0 where
  pub valid : IsValid r.2
  pub grown : contents r.2 ≡ contents pi ++ r.1
  pub order : r.1 ≡ sent user i (length r.1)
  pub ends : Ends killed user k i (length r.1) r.2 r.0

Ends-later :
    (killed : Bool) (user : ℕ → Option ℕ) (k i n : ℕ) (pi : Pipe) (o : Outcome)
    → Ends killed user k (i + 1) n pi o
    → Ends killed user (suc k) i (suc n) pi o
Ends-later killed user k i n pi fail h = h
Ends-later killed user k i n pi (returns c) h = ground arith
Ends-later killed user k i n pi (sleeps c) h = omega arith

Wrote-later :
    (killed : Bool) (user : ℕ → Option ℕ) (k i ch : ℕ) (pi : Pipe) (r : Outcome × List ℕ × Pipe)
    → IsValid pi
    → held pi < pipesize
    → user i ≡ some ch
    → Wrote killed user k (i + 1) (put ch pi) r
    → Wrote killed user (suc k) i pi (after_put ch r)
unfolding sent
Wrote-later killed user k i ch pi r v room e w = record {
  valid = w.valid;
  grown = w.grown ∙ rw ((put_lem ch pi v room).0) (append_assoc (contents pi) (ch ∷ []) r.1);
  order = rw e (ap (λ l. ch ∷ l) w.order);
  ends = Ends-later killed user k i (length r.1) r.2 r.0 w.ends;
}

-- Nothing has been put yet.
Wrote-none :
    (killed : Bool) (user : ℕ → Option ℕ) (k i : ℕ) (pi : Pipe) (o : Outcome)
    → IsValid pi
    → Ends killed user k i 0 pi o
    → Wrote killed user k i pi (o, [], pi)
unfolding sent
Wrote-none killed user k i pi o v h = record {
  valid = v;
  grown = sym (append-nil (contents pi));
  order = refl;
  ends = h;
}

-- One stretch of pipewrite on a valid pipe leaves it valid and appends to its queue the bytes that
-- it reports, which are the user's next bytes in order. It fails only if no reader is left or the
-- process was killed; it returns the count of all bytes so far, having stopped at the end or at a
-- byte that cannot be read; it sleeps only at a full pipe with bytes to go.
pub pipewrite_lem :
    (killed : Bool) (user : ℕ → Option ℕ) (k i : ℕ) (pi : Pipe)
    → IsValid pi
    → Wrote killed user k i pi (pipewrite killed user k i pi)
unfolding pipewrite
pipewrite_lem killed user zero i pi v =
    Wrote-none killed user 0 i pi (returns i) v (omega arith, inl refl)
pipewrite_lem killed user (suc k) i pi v = elim (Bool-cases (not pi.readopen || killed)) [
  | inl stop ↦ rw stop (Wrote-none killed user (suc k) i pi fail v (ground arith))
  | inr go ↦ elim (Bool-cases (pi.nwrite == u32 (pi.nread + pipesize))) [
    | inl full ↦
        rw (go, full)
          (Wrote-none killed user (suc k) i pi (sleeps i) v
            (omega arith, omega arith, ground arith))
    | inr room ↦ elim (Option-cases (user i)) [
      | inl e ↦
          rw (go, room, e) (Wrote-none killed user (suc k) i pi (returns i) v (omega arith, inr e))
      | inr (ch, e) ↦
          rw (go, room, e)
            (Wrote-later killed user k i ch pi (pipewrite killed user k (i + 1) (put ch pi)) v
              (ground arith) e
              (pipewrite_lem killed user k (i + 1) (put ch pi) (put_lem ch pi v (ground arith)).1))
    ]
  ]
]

-- Why a copy of `n` bytes to `user` stopped at `c`, having copied `bytes` and left the pipe `pi'`.
abbrev pub Stopped : (ℕ → Bool) → ℕ → ℕ → List ℕ → Pipe → Pipe → Type 0
Stopped user n c bytes pi pi' =
    ((contents pi ≡ bytes ++ contents pi') × ((length bytes ≡ n) ⊎ (contents pi' ≡ [])))
    ⊎ ((lost : ℕ) × (contents pi ≡ bytes ++ lost ∷ contents pi')
        × (user c ≡ false)
        × (length bytes < n))

pub record Copied (user : ℕ → Bool) (n i : ℕ) (pi : Pipe) (r : ℕ × List ℕ × Pipe) : Type 0 where
  pub valid : IsValid r.2
  pub count : r.0 ≡ i + length r.1
  pub few : length r.1 ≤ n
  pub order : Stopped user n r.0 r.1 pi r.2

Stopped-later :
    (user : ℕ → Bool) (n c ch : ℕ) (bytes : List ℕ) (pi pi1 pi' : Pipe)
    → contents pi ≡ ch ∷ contents pi1
    → Stopped user n c bytes pi1 pi'
    → Stopped user (suc n) c (ch ∷ bytes) pi pi'
Stopped-later user n c ch bytes pi pi1 pi' e (inl (q, h)) = inl (rw (e, q), ground arith)
Stopped-later user n c ch bytes pi pi1 pi' e (inr (lost, q, h, few)) =
    inr (lost, rw (e, q), h, omega (arith, few))

contents-empty : (pi : Pipe) → IsValid pi → pi.nread ≡ pi.nwrite → contents pi ≡ []
unfolding Ring.window
contents-empty pi v e = let z : held pi ≡ 0 = omega arith in rw z window-zero
  where
    window-zero : Ring.window (2 ^ 32) pipesize pi.ring pi.nread 0 ≡ []
    window-zero = refl

-- The copy of up to n bytes leaves a valid pipe valid and hands out its oldest bytes in order, as
-- many as it counts. It stops at n bytes, at an empty pipe, or at an address that copyout refuses:
-- then the byte for that address has left the queue and is lost.
pub copy_out_lem :
    (user : ℕ → Bool) (n i : ℕ) (pi : Pipe) → IsValid pi → Copied user n i pi (copy_out user n i pi)
unfolding copy_out
copy_out_lem user zero i pi v = record {
  valid = v;
  count = omega arith;
  few = omega arith;
  order = inl (refl, inl refl);
}
copy_out_lem user (suc n) i pi v = elim (Bool-cases (pi.nread == pi.nwrite)) [
  | inl empty ↦ rw empty (record {
    valid = v;
    count = omega arith;
    few = omega arith;
    order = inl (refl, inr (contents-empty pi v (ground arith)));
  })
  | inr some_left ↦ elim (Bool-cases (user i)) [
    | inl good ↦
        let rest = copy_out_lem user n (i + 1) (taken pi) (taken_lem pi v (ground arith)).1 in
        rw (some_left, good)
          (record {
            valid = rest.valid;
            count = omega arith;
            few = omega arith;
            order =
                Stopped-later user n _ _ _ pi (taken pi) (copy_out user n (i + 1) (taken pi)).2
                  (taken_lem pi v (ground arith)).0 rest.order;
          })
    | inr bad ↦
        rw (some_left, bad)
          (record {
            valid = (taken_lem pi v (ground arith)).1;
            count = omega arith;
            few = omega arith;
            order = inr (_, (taken_lem pi v (ground arith)).0, bad, omega arith);
          })
  ]
]
