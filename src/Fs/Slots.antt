-- ===== src/Fs/Slots.antt =====
-- TDT4186 - OS/Labs/Lab3/kernel/fs.c: the two places where bmap finds or puts the address of a block.
use ntnu_courses.Base.{
  ℕ, ◌+◌, ◌-◌, ◌*◌, ◌/◌, ◌%◌, ◌^◌, ◌≤◌, ◌<◌, ◌≡◌, ◌≢◌, ◌⊎◌, refl, sym, ap, ◌∙◌, inl, inr, ◌==◌,
  ◌&&◌, if◌then◌else◌, update_self, true, false, ℕ_discrete, ==_ne, arith, ok,
}
use ntnu_courses.Fs.{
  Fs, Inode, bpb, bblock, balloc_reads, bit, balloc, get_uint, put_uint, set_addr, log_block,
  bmap_slot, bmap_entry,
}
use ntnu_courses.Fs.Blocks.{used, taken, IsBlock, balloc-Allocates}
use ntnu_courses.Fs.Bitmap.{taken_lem, on_off}

get-put_uint : (content : ℕ → ℕ) (i v : ℕ) → v < 2 ^ 32 → get_uint (put_uint content i v) i ≡ v
get-put_uint content i v lt =
    let b0 : put_uint content i v (4 * i) ≡ v % 256 = ground arith in
    let b1 : put_uint content i v (4 * i + 1) ≡ v / 2 ^ 8 % 256 = ground arith in
    let b2 : put_uint content i v (4 * i + 2) ≡ v / 2 ^ 16 % 256 = ground arith in
    let b3 : put_uint content i v (4 * i + 3) ≡ v / 2 ^ 24 % 256 = ground arith in
    omega (arith, b0, b1, b2, b3, lt)

-- No free block of the disk is a block of the bitmap.
abbrev pub FreeOutside : Fs → Type 0
FreeOutside s = (b : ℕ) → b < s.size → used s b ≡ false → IsBlock s b

-- A block of the disk that is in use, and no block of the bitmap.
abbrev pub InUse : Fs → ℕ → Type 0
InUse s b = (b < s.size) × (used s b ≡ true) × IsBlock s b

-- Why balloc returned `a` and left `s'`.
abbrev Because : ℕ → Fs → Fs → Type 0
Because a s s' =
    (a ≡ 0) × (0 < s.size → used s 0 ≡ true)
    ⊎ (a < s.size) × (used s a ≡ false) × (FreeOutside s → InUse s' a)

balloc_small :
    (s : Fs)
    → s.size < 2 ^ 32
    → (a : ℕ) × (s' : Fs) × (balloc s ≡ ok (a, s'))
      × (a < 2 ^ 32)
      × (s'.size ≡ s.size)
      × Because a s s'
balloc_small s lt = elim (balloc-Allocates s) [
  | inl (run, all) ↦ (0, s, run, omega arith, refl, inl (refl, λ pos. all 0 (omega arith) pos))
  | inr (r, run, lo, small, free, least) ↦ (
    r,
    taken r s,
    run,
    omega (arith, small, lt),
    refl,
    inr (
      small,
      free,
      λ out. (small, (taken_lem s r small free (out r small free)).0, out r small free),
    ),
  )
]

-- A block in use that is none of the bitmap is not read by balloc.
not_scanned : (b a : ℕ) (s s' : Fs) → InUse s b → Because a s s' → balloc_reads b a s ≡ false
not_scanned b a s s' (lt, on, apart) (inl (z, boot)) =
    let out : ¬ ((s.bmapstart ≤ b) × (b < s.bmapstart + (s.size + bpb - 1) / bpb)) =
      λ (lo, hi). apart ((b - s.bmapstart) * bpb) (omega (arith, lo, hi)) (omega (arith, lo)) in
    rw (z, boot (omega (arith, lt))) (ground (arith, out))
not_scanned b a s s' (lt, on, apart) (inr (small, free, later)) =
    let out : ¬ ((s.bmapstart ≤ b) × (b ≤ bblock a s)) = λ (lo, hi).
      apart ((b - s.bmapstart) * bpb) (omega (arith, lo, hi, small)) (omega (arith, lo)) in
    let other : b ≢ a = λ z. on_off (used s b) on (ap (used s) z ∙ free) in
    rw not_none (ground (arith, out, other))
  where
    not_none : (a == 0 && bit (s.blocks (bblock 0 s)) 0) ≡ false
    not_none = elim (ℕ_discrete a 0) [
      | yes z ↦ rw z (ap (used s) (sym z) ∙ free)
      | no ne ↦ rw (==_ne a 0 ne) refl
    ]

-- A call of balloc has returned 0 and left `s'`.
abbrev pub NoBlock : Fs → Type 0
NoBlock s' = (t : Fs) × (balloc t ≡ ok (0, s'))

-- The array of the inode but for one place.
abbrev pub Elsewhere : ℕ → Inode → Inode → Type 0
Elsewhere i ip ip' = (j : ℕ) → j ≢ i → ip'.addrs j ≡ ip.addrs j

pub slot_hit :
    (i : ℕ) (ip : Inode) (s : Fs) → ip.addrs i ≢ 0 → bmap_slot i ip s ≡ ok (ip.addrs i, ip, s)
slot_hit i ip s ne = rw (==_ne (ip.addrs i) 0 ne) refl

pub entry_hit :
    (b bn : ℕ) (ip : Inode) (s : Fs)
    → get_uint (s.blocks b) bn ≢ 0
    → bmap_entry b bn ip s ≡ ok (get_uint (s.blocks b) bn, ip, s)
entry_hit b bn ip s ne = rw (==_ne (get_uint (s.blocks b) bn) 0 ne) refl

slot_new :
    (i a : ℕ) (ip : Inode) (s s' : Fs)
    → ip.addrs i ≡ 0
    → balloc s ≡ ok (a, s')
    → bmap_slot i ip s ≡ (if a == 0 then ok (0, ip, s') else ok (a, set_addr i a ip, s'))
slot_new i a ip s s' z e = rw (z, e) refl

entry_new :
    (b bn a : ℕ) (ip : Inode) (s s' : Fs)
    → get_uint (s.blocks b) bn ≡ 0
    → balloc s ≡ ok (a, s')
    → balloc_reads b a s ≡ false
    → bmap_entry b bn ip s ≡ (
        if a == 0 then ok (0, ip, s') else ok (a, ip, log_block b (put_uint (s'.blocks b) bn a) s'))
entry_new b bn a ip s s' z e off = rw (z, e, off) refl

allocated : (a : ℕ) (s s' : Fs) → Because a s s' → a ≢ 0 → FreeOutside s → InUse s' a
allocated a s s' (inl (z, boot)) ne out = absurd (ne z)
allocated a s s' (inr (small, free, later)) ne out = later out

-- The slot of the inode after bmap_slot: it holds the address that was returned, if that is not 0.
pub slot_lem :
    (i : ℕ) (ip : Inode) (s : Fs)
    → s.size < 2 ^ 32
    → (a : ℕ) × (ip' : Inode) × (s' : Fs) × (bmap_slot i ip s ≡ ok (a, ip', s'))
      × (s'.size ≡ s.size)
      × Elsewhere i ip ip'
      × ((a ≡ 0) × NoBlock s'
          ⊎ (a ≢ 0)
            × (ip'.addrs i ≡ a)
            × (FreeOutside s → (ip.addrs i ≢ 0 → InUse s (ip.addrs i)) → InUse s' a))
slot_lem i ip s lt = elim (ℕ_discrete (ip.addrs i) 0) [
  | no ne ↦ (
    ip.addrs i,
    ip,
    s,
    slot_hit i ip s ne,
    refl,
    (λ j off. refl),
    inr (ne, refl, λ out held. held ne),
  )
  | yes z ↦
      let (a, s', e, small, size, why) = balloc_small s lt in
      elim (ℕ_discrete a 0) [
        | yes none_left ↦ (
          0,
          ip,
          s',
          slot_new i a ip s s' z e ∙ rw (none_left) refl,
          size,
          (λ j off. refl),
          inl (refl, (s, rw none_left at e)),
        )
        | no ne ↦ (
          a,
          set_addr i a ip,
          s',
          slot_new i a ip s s' z e ∙ rw (==_ne a 0 ne) refl,
          size,
          (λ j off. ground arith),
          inr (ne, update_self ip.addrs i a, λ out held. allocated a s s' why ne out),
        )
      ]
]

-- The same of the entry of an indirect block.
pub entry_lem :
    (b bn : ℕ) (ip : Inode) (s : Fs)
    → s.size < 2 ^ 32
    → InUse s b
    → (a : ℕ) × (s' : Fs) × (bmap_entry b bn ip s ≡ ok (a, ip, s'))
      × ((a ≡ 0) × NoBlock s' ⊎ (a ≢ 0) × (get_uint (s'.blocks b) bn ≡ a))
entry_lem b bn ip s lt held = elim (ℕ_discrete (get_uint (s.blocks b) bn) 0) [
  | no ne ↦ (get_uint (s.blocks b) bn, s, entry_hit b bn ip s ne, inr (ne, refl))
  | yes z ↦
      let (a, s', e, small, size, why) = balloc_small s lt in
      elim (ℕ_discrete a 0) [
        | yes none_left ↦ (
          0,
          s',
          entry_new b bn a ip s s' z e (not_scanned b a s s' held why) ∙ rw (none_left) refl,
          inl (refl, (s, rw none_left at e)),
        )
        | no ne ↦ (
          a,
          log_block b (put_uint (s'.blocks b) bn a) s',
          entry_new b bn a ip s s' z e (not_scanned b a s s' held why) ∙ rw (==_ne a 0 ne) refl,
          inr (
            ne,
            ap (λ c. get_uint c bn) (update_self s'.blocks b (put_uint (s'.blocks b) bn a))
                ∙ get-put_uint (s'.blocks b) bn a small,
          ),
        )
      ]
]
