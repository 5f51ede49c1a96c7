-- ===== src/Fs/Blocks.antt =====
-- TDT4186 - OS/Labs/Lab3/kernel/fs.c: balloc and bfree against the set of the blocks in use.
use ntnu_courses.Base.{
  ℕ, zero, suc, ◌+◌, ◌-◌, ◌*◌, ◌/◌, ◌%◌, ◌≤◌, ◌<◌, ◌≡◌, ◌≢◌, ◌⊎◌, refl, sym, ap, ◌∙◌, inl, inr,
  Bool, true, false, none, some, ℕ_discrete, dec_lt, arith, Bool-cases, lt→ltb, ltb-eq-false,
  Result, ok,
}
use ntnu_courses.Fs.{
  Fs, bpb, bblock, bit, set_bit, log_block, bzero, find_free, balloc_from, balloc,
}

-- The bit of a block in the bitmap.
abbrev pub used : Fs → ℕ → Bool
used s b = bit (s.blocks (bblock b s)) (b % bpb)

-- The state after the block `b` was marked and zeroed.
abbrev pub taken : ℕ → Fs → Fs
taken b s = bzero b (log_block (bblock b s) (set_bit (s.blocks (bblock b s)) (b % bpb)) s)

-- The block is not one of the bitmap.
abbrev pub IsBlock : Fs → ℕ → Type 0
IsBlock s b = (c : ℕ) → c < s.size → b ≢ bblock c s

find_free_lem :
    (size b : ℕ) (content : ℕ → ℕ) (k bi : ℕ)
    → ((find_free size b content k bi ≡ none)
        × ((q : ℕ) → bi ≤ q → q < bi + k → b + q < size → bit content q ≡ true))
      ⊎ ((r : ℕ) × (find_free size b content k bi ≡ some r)
          × (bi ≤ r)
          × (r < bi + k)
          × (b + r < size)
          × (bit content r ≡ false)
          × ((q : ℕ) → bi ≤ q → q < r → bit content q ≡ true))
unfolding find_free
find_free_lem size b content zero bi = inl (refl, λ q lo hi lt. absurd (omega (arith, lo, hi)))
find_free_lem size b content (suc k) bi = elim (dec_lt (b + bi) size) [
  | no out ↦ inl (
    rw (ltb-eq-false (b + bi) size (omega (arith, out))) refl,
    λ q lo hi lt. absurd (omega (arith, out, lo, lt)),
  )
  | yes lt ↦ elim (Bool-cases (bit content bi)) [
    | inr free ↦ inr (
      bi,
      rw (lt→ltb (b + bi) size lt, free) refl,
      omega arith,
      omega arith,
      lt,
      free,
      λ q lo hi. absurd (omega (arith, lo, hi)),
    )
    | inl in_use ↦ elim (find_free_lem size b content k (bi + 1)) [
      | inl (e, all) ↦ inl (
        rw (lt→ltb (b + bi) size lt, in_use) e,
        λ q lo hi l. first_or bi q in_use lo (λ more. all q more (omega (arith, hi)) l),
      )
      | inr (r, e, lo', hi', l', free, least) ↦ inr (
        r,
        rw (lt→ltb (b + bi) size lt, in_use) e,
        omega (arith, lo'),
        omega (arith, hi'),
        l',
        free,
        λ q lo hi. first_or bi q in_use lo (λ more. least q more hi),
      )
    ]
  ]
]
  where
    first_or :
        (i q : ℕ)
        → bit content i ≡ true
        → i ≤ q
        → (i + 1 ≤ q → bit content q ≡ true)
        → bit content q ≡ true
    first_or i q on lo rest = elim (ℕ_discrete i q) [
      | yes e ↦ ap (bit content) (sym e) ∙ on
      | no ne ↦ rest (omega (arith, lo, ne))
    ]

-- What balloc does from block `b` on: no block is free, or the first free one is taken.
abbrev pub Allocates : ℕ → Fs → Result (ℕ × Fs) → Type 0
Allocates b s run =
    ((run ≡ ok (0, s)) × ((q : ℕ) → b ≤ q → q < s.size → used s q ≡ true))
    ⊎ ((r : ℕ) × (run ≡ ok (r, taken r s))
        × (b ≤ r)
        × (r < s.size)
        × (used s r ≡ false)
        × ((q : ℕ) → b ≤ q → q < r → used s q ≡ true))

balloc_stop : (fuel b : ℕ) (s : Fs) → s.size ≤ b → balloc_from (suc fuel) b s ≡ ok (0, s)
unfolding balloc_from
balloc_stop fuel b s le = rw (ltb-eq-false b s.size le) refl

balloc_next :
    (fuel b : ℕ) (s : Fs)
    → b < s.size
    → find_free s.size b (s.blocks (bblock b s)) bpb 0 ≡ none
    → balloc_from (suc fuel) b s ≡ balloc_from fuel (b + bpb) s
unfolding balloc_from
balloc_next fuel b s lt e = rw (lt→ltb b s.size lt, e) refl

balloc_found :
    (fuel b bi : ℕ) (s : Fs)
    → b < s.size
    → find_free s.size b (s.blocks (bblock b s)) bpb 0 ≡ some bi
    → balloc_from (suc fuel) b s
      ≡ ok (b + bi, bzero (b + bi) (log_block (bblock b s) (set_bit (s.blocks (bblock b s)) bi) s))
unfolding balloc_from
balloc_found fuel b bi s lt e = rw (lt→ltb b s.size lt, e) refl

-- The bit of a block is in the group's part of the bitmap.
in_group :
    (g q : ℕ) (s : Fs)
    → g * bpb ≤ q
    → q < g * bpb + bpb
    → used s q ≡ bit (s.blocks (bblock (g * bpb) s)) (q - g * bpb)
in_group g q s lo hi =
    let same : q / bpb + s.bmapstart ≡ g * bpb / bpb + s.bmapstart = omega (arith, lo, hi) in
    let here : q % bpb ≡ q - g * bpb = omega (arith, lo, hi) in
    ap (λ z. bit (s.blocks z) (q % bpb)) same ∙ ap (bit (s.blocks (bblock (g * bpb) s))) here

taken_in :
    (g bi : ℕ) (s : Fs)
    → bi < bpb
    → bzero
        (g * bpb + bi)
        (log_block (bblock (g * bpb) s) (set_bit (s.blocks (bblock (g * bpb) s)) bi) s)
      ≡ taken (g * bpb + bi) s
taken_in g bi s lt =
    let same : g * bpb / bpb + s.bmapstart ≡ (g * bpb + bi) / bpb + s.bmapstart =
      omega (arith, lt) in
    let here : bi ≡ (g * bpb + bi) % bpb = omega (arith, lt) in
    ap (λ z. bzero (g * bpb + bi) (log_block z (set_bit (s.blocks z) bi) s)) same
    ∙ ap
        (λ z.
          bzero (g * bpb + bi) (
            log_block (bblock (g * bpb + bi) s) (set_bit (s.blocks (bblock (g * bpb + bi) s)) z) s))
        here

-- The blocks of a group that is in use, and those behind it.
group_then :
    (g q hi : ℕ) (s : Fs)
    → ((q : ℕ)
        → 0 ≤ q
        → q < 0 + bpb
        → g * bpb + q < s.size
        → bit (s.blocks (bblock (g * bpb) s)) q ≡ true)
    → hi ≤ s.size
    → ((q : ℕ) → suc g * bpb ≤ q → q < hi → used s q ≡ true)
    → g * bpb ≤ q
    → q < hi
    → used s q ≡ true
group_then g q hi s all le rest lo lt = elim (dec_lt q (g * bpb + bpb)) [
  | yes small ↦
      in_group g q s lo small
      ∙ all (q - g * bpb) (omega arith) (omega (arith, small, lo)) (omega (arith, lt, le, lo))
  | no big ↦ rest q (omega (arith, big)) lt
]

balloc_round :
    (k g : ℕ) (s : Fs)
    → (g * bpb < s.size → Allocates (suc g * bpb) s (balloc_from k (suc g * bpb) s))
    → Allocates (g * bpb) s (balloc_from (suc k) (g * bpb) s)
balloc_round k g s rest = elim (dec_lt (g * bpb) s.size) [
  | no out ↦ inl (
    balloc_stop k (g * bpb) s (omega (arith, out)),
    λ q lo lt. absurd (omega (arith, out, lo, lt)),
  )
  | yes lt ↦ elim (find_free_lem s.size (g * bpb) (s.blocks (bblock (g * bpb) s)) bpb 0) [
    | inr (bi, e, lo, hi, below, free, least) ↦ inr (
      g * bpb + bi,
      balloc_found k (g * bpb) bi s lt e ∙ ap (λ t. ok (g * bpb + bi, t)) (taken_in g bi s hi),
      omega arith,
      below,
      in_group g (g * bpb + bi) s (omega arith) (omega (arith, hi))
          ∙ ap (bit (s.blocks (bblock (g * bpb) s))) (omega arith)
          ∙ free,
      (λ q l h.
          in_group g q s l (omega (arith, h, hi))
          ∙ least (q - g * bpb) (omega arith) (omega (arith, h, l))),
    )
    | inl (e, all) ↦
        let next : balloc_from (suc k) (g * bpb) s ≡ balloc_from k (suc g * bpb) s =
          balloc_next k (g * bpb) s lt e ∙ ap (λ b. balloc_from k b s) (omega arith) in
        elim (rest lt) [
          | inl (run, others) ↦
              inl (next ∙ run, λ q lo l. group_then g q s.size s all (omega arith) others lo l)
          | inr (r, run, lo, small, free, least) ↦ inr (
            r,
            next ∙ run,
            omega (arith, lo),
            small,
            free,
            λ q l h. group_then g q r s all (omega (arith, small)) least l h,
          )
        ]
  ]
]

balloc_from-Allocates :
    (k g : ℕ) (s : Fs)
    → s.size ≤ (g + k) * bpb
    → Allocates (g * bpb) s (balloc_from (suc k) (g * bpb) s)
balloc_from-Allocates zero g s f = balloc_round zero g s (λ lt. absurd (omega (arith, f, lt)))
balloc_from-Allocates (suc k) g s f =
    balloc_round (suc k) g s (λ lt. balloc_from-Allocates k (suc g) s (omega (arith, f)))

-- balloc takes the first block of the disk that is not in use, or, with all in use, returns 0 and
-- changes nothing; its loops always end.
pub balloc-Allocates : (s : Fs) → Allocates 0 s (balloc s)
unfolding balloc
balloc-Allocates s = balloc_from-Allocates (s.size / bpb + 1) 0 s (omega arith)
