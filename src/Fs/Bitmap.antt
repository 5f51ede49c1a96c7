-- ===== src/Fs/Bitmap.antt =====
-- TDT4186 - OS/Labs/Lab3/kernel/fs.c: what balloc and bfree do to the set of the blocks in use.
use ntnu_courses.Base.{
  ℕ, ◌%◌, ◌<◌, ◌≡◌, ◌≢◌, ◌⊎◌, refl, sym, ap, ◌∙◌, inl, inr, Bool, true, false, ltb, if◌then◌else◌,
  update, update_ne, update_self, ℕ_discrete, arith, Bool-cases, lt→ltb, ok, panic,
}
use ntnu_courses.Fs.{
  Fs, bpb, bsize, bblock, bit, set_bit, clear_bit, log_block, bzero, balloc, bfree,
}
use ntnu_courses.Fs.Bits.{bit-set_bit, bit-clear_bit}
use ntnu_courses.Fs.Blocks.{used, taken, IsBlock, balloc-Allocates}

-- The bitmap does not see the zeroing of a block that is not part of it.
used-bzero : (s : Fs) (b c : ℕ) → b ≢ bblock c s → used (bzero b s) c ≡ used s c
used-bzero s b c ne =
    ap (λ z. bit z (c % bpb))
      (update_ne s.blocks b (bblock c s) (λ i. if ltb i bsize then 0 else s.blocks b i) ne)

-- A change of one bit of the bitmap.
one_bit :
    (s : Fs) (b c : ℕ) (content : ℕ → ℕ) (v : Bool)
    → bit content (b % bpb) ≡ v
    → ((j : ℕ) → b % bpb ≢ j → bit content j ≡ bit (s.blocks (bblock b s)) j)
    → (used (log_block (bblock b s) content s) b ≡ v)
      × (b ≢ c → used (log_block (bblock b s) content s) c ≡ used s c)
one_bit s b c content v here there = (
  ap (λ z. bit z (b % bpb)) (update_self s.blocks (bblock b s) content) ∙ here,
  λ ne. elim (ℕ_discrete (bblock b s) (bblock c s)) [
    | no off ↦ ap (λ z. bit z (c % bpb)) (update_ne s.blocks (bblock b s) (bblock c s) content off)
    | yes same ↦
        ap (λ z. bit (update s.blocks (bblock b s) content z) (c % bpb)) (sym same)
        ∙ ap (λ z. bit z (c % bpb)) (update_self s.blocks (bblock b s) content)
        ∙ there (c % bpb) (λ z. ne (omega (arith, same, z)))
        ∙ ap (λ z. bit (s.blocks z) (c % bpb)) same
  ],
)

-- A free block outside the bitmap that is taken is in use and holds zeros; every other block's use is
-- as before.
pub taken_lem :
    (s : Fs) (b : ℕ)
    → b < s.size
    → used s b ≡ false
    → IsBlock s b
    → (used (taken b s) b ≡ true)
      × ((c : ℕ) → c < s.size → b ≢ c → used (taken b s) c ≡ used s c)
      × ((i : ℕ) → i < bsize → (taken b s).blocks b i ≡ 0)
      × ((c : ℕ) → c ≢ b → c ≢ bblock b s → (taken b s).blocks c ≡ s.blocks c)
taken_lem s b lt free apart =
    let content : ℕ → ℕ = set_bit (s.blocks (bblock b s)) (b % bpb) in
    let (on, others) = bit-set_bit (s.blocks (bblock b s)) (b % bpb) free in
    let marked : Fs = log_block (bblock b s) content s in
    (
      used-bzero marked b b (apart b lt) ∙ (one_bit s b b content true on others).0,
      (λ c l ne. used-bzero marked b c (apart c l) ∙ (one_bit s b c content true on others).1 ne),
      (λ i l.
          ap (λ z. z i)
            (update_self marked.blocks b (λ q. if ltb q bsize then 0 else marked.blocks b q))
          ∙ rw (lt→ltb i bsize l) refl),
      (λ c n1 n2.
          update_ne marked.blocks b c (λ q. if ltb q bsize then 0 else marked.blocks b q)
            (λ z. n1 (sym z))
          ∙ update_ne s.blocks (bblock b s) c content (λ z. n2 (sym z))),
    )

freed_in : (s : Fs) (b : ℕ) → used s b ≡ false → bfree b s ≡ panic "freeing free block"
unfolding bfree
freed_in s b h = rw h refl

freed_ok :
    (s : Fs) (b : ℕ)
    → used s b ≡ true
    → bfree b s ≡ ok (log_block (bblock b s) (clear_bit (s.blocks (bblock b s)) (b % bpb)) s)
unfolding bfree
freed_ok s b h = rw h refl

-- bfree of a block in use makes it free and leaves every other block's use; of a free block it panics.
pub bfree_lem :
    (s : Fs) (b : ℕ)
    → ((used s b ≡ false) × (bfree b s ≡ panic "freeing free block"))
      ⊎ ((used s b ≡ true)
          × (s' : Fs) × (bfree b s ≡ ok s')
          × (used s' b ≡ false)
          × ((c : ℕ) → b ≢ c → used s' c ≡ used s c))
bfree_lem s b = elim (Bool-cases (used s b)) [
  | inr free ↦ inl (free, freed_in s b free)
  | inl on ↦
      let content : ℕ → ℕ = clear_bit (s.blocks (bblock b s)) (b % bpb) in
      let (off, others) = bit-clear_bit (s.blocks (bblock b s)) (b % bpb) on in
      inr (
        on,
        log_block (bblock b s) content s,
        freed_ok s b on,
        (one_bit s b b content false off others).0,
        λ c ne. (one_bit s b c content false off others).1 ne,
      )
]

pub on_off : (v : Bool) → v ≡ true → v ≡ false → ⊥
on_off v a b = cc

-- On a disk whose free blocks lie outside the bitmap, a block that balloc returned (not all are in use)
-- was the first free one and is filled with zeros, and bfree of it succeeds and gives back the use of
-- every block as it was before balloc.
pub bfree-balloc :
    (s : Fs)
    → ((b : ℕ) → b < s.size → used s b ≡ false → IsBlock s b)
    → (b : ℕ) → b < s.size
    → used s b ≡ false
    → (r : ℕ) × (s1 : Fs) × (s2 : Fs) × (balloc s ≡ ok (r, s1))
      × (bfree r s1 ≡ ok s2)
      × (used s r ≡ false)
      × ((q : ℕ) → q < r → used s q ≡ true)
      × ((i : ℕ) → i < bsize → s1.blocks r i ≡ 0)
      × ((c : ℕ) → c < s.size → used s2 c ≡ used s c)
bfree-balloc s apart b lt free = elim (balloc-Allocates s) [
  | inl (run, all) ↦ absurd (on_off (used s b) (all b (omega arith) lt) free)
  | inr (r, run, lo, small, unused, least) ↦
      let (on, same, zeros, others) = taken_lem s r small unused (apart r small unused) in
      elim (bfree_lem (taken r s) r) [
        | inl (off, p) ↦ absurd (on_off (used (taken r s) r) on off)
        | inr (o, s2, freed, off, kept) ↦ (
          r,
          taken r s,
          s2,
          run,
          freed,
          unused,
          (λ q h. least q (omega arith) h),
          zeros,
          λ c l. elim (ℕ_discrete r c) [
            | yes e ↦ ap (used s2) (sym e) ∙ off ∙ sym unused ∙ ap (used s) e
            | no ne ↦ kept c ne ∙ same c l ne
          ],
        )
      ]
]
