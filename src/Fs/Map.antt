-- ===== src/Fs/Map.antt =====
-- TDT4186 - OS/Labs/Lab3/kernel/fs.c: bmap, the blocks of a file.
use ntnu_courses.Base.{
  ℕ, ◌+◌, ◌-◌, ◌^◌, ◌≤◌, ◌<◌, ◌≡◌, ◌≢◌, ◌⊎◌, refl, sym, ap, ◌∙◌, inl, inr, ◌==◌, if◌then◌else◌, ltb,
  ℕ_discrete, dec_lt, ==_ne, arith, lt→ltb, ltb-eq-false, ok,
}
use ntnu_courses.Fs.{Fs, Inode, bpb, ndirect, nindirect, get_uint, bmap_slot, bmap_entry, bmap}
use ntnu_courses.Fs.Slots.{
  NoBlock, Elsewhere, FreeOutside, InUse, slot_hit, slot_lem, entry_hit, entry_lem,
}

bmap_direct : (bn : ℕ) (ip : Inode) (s : Fs) → bn < ndirect → bmap bn ip s ≡ bmap_slot bn ip s
unfolding bmap
bmap_direct bn ip s lt = rw (lt→ltb bn ndirect lt) refl

bmap_indirect :
    (bn : ℕ) (ip ip' : Inode) (a : ℕ) (s s' : Fs)
    → ndirect ≤ bn
    → bn < ndirect + nindirect
    → bmap_slot ndirect ip s ≡ ok (a, ip', s')
    → bmap bn ip s ≡ (if a == 0 then ok (0, ip', s') else bmap_entry a (bn - ndirect) ip' s')
unfolding bmap
bmap_indirect bn ip ip' a s s' lo hi e =
    rw (ltb-eq-false bn ndirect lo, lt→ltb (bn - ndirect) nindirect (omega (arith, lo, hi)), e) refl

-- The address of a file's block, as the inode and its indirect block have it; 0 if there is none.
abbrev pub address : ℕ → Inode → Fs → ℕ
address bn ip s =
    if ltb bn ndirect
    then ip.addrs bn
    else if ip.addrs ndirect == 0
    then 0
    else get_uint (s.blocks (ip.addrs ndirect)) (bn - ndirect)

-- The place of the inode's array that the block's address hangs on.
abbrev pub slot_of : ℕ → ℕ
slot_of bn = if ltb bn ndirect then bn else ndirect

address_direct : (bn : ℕ) (ip : Inode) (s : Fs) → bn < ndirect → address bn ip s ≡ ip.addrs bn
address_direct bn ip s lt = rw (lt→ltb bn ndirect lt) refl

address_indirect :
    (bn b : ℕ) (ip : Inode) (s : Fs)
    → ndirect ≤ bn
    → ip.addrs ndirect ≡ b
    → b ≢ 0
    → address bn ip s ≡ get_uint (s.blocks b) (bn - ndirect)
address_indirect bn b ip s lo e ne =
    rw (ltb-eq-false bn ndirect lo, ==_ne (ip.addrs ndirect) 0 (λ z. ne (sym e ∙ z)), e) refl

-- A block with an address is found, and nothing changes.
bmap_found :
    (bn : ℕ) (ip : Inode) (s : Fs)
    → bn < ndirect + nindirect
    → address bn ip s ≢ 0
    → bmap bn ip s ≡ ok (address bn ip s, ip, s)
bmap_found bn ip s hi ne = elim (dec_lt bn ndirect) [
  | yes low ↦
      let e : address bn ip s ≡ ip.addrs bn = address_direct bn ip s low in
      bmap_direct bn ip s low ∙ slot_hit bn ip s (λ z. ne (e ∙ z)) ∙ ap (λ a. ok (a, ip, s)) (sym e)
  | no high ↦
      let lo : ndirect ≤ bn = omega (arith, high) in
      elim (ℕ_discrete (ip.addrs ndirect) 0) [
        | yes z ↦ absurd (ne (rw (ltb-eq-false bn ndirect lo, z) refl))
        | no some_block ↦
            let b : ℕ = ip.addrs ndirect in
            let e : address bn ip s ≡ get_uint (s.blocks b) (bn - ndirect) =
              address_indirect bn b ip s lo refl some_block in
            bmap_indirect bn ip ip b s s lo hi (slot_hit ndirect ip s some_block)
            ∙ rw (==_ne b 0 some_block) (entry_hit b (bn - ndirect) ip s (λ z. ne (e ∙ z)))
            ∙ ap (λ a. ok (a, ip, s)) (sym e)
      ]
]

-- bmap of a block number below MAXFILE, on a disk of at most 2^31 - BPB blocks (so that balloc's ints do
-- not overflow) whose free blocks lie outside the bitmap, of an inode whose indirect block, if it has
-- one, is in use and outside the bitmap; where log_write and bread do not panic. A block that has an address is found there, and nothing changes. In every case
-- bmap returns (it never waits for the buffer of the indirect block, which it holds), and changes no place of the inode's array but the block's own or that of the indirect
-- block: it returns 0 only because balloc has returned 0; otherwise what it returns is the address
-- that the inode and its indirect block now have for this block number.
pub bmap_lem :
    (bn : ℕ) (ip : Inode) (s : Fs)
    → s.size + bpb ≤ 2 ^ 31
    → bn < ndirect + nindirect
    → FreeOutside s
    → (ip.addrs ndirect ≢ 0 → InUse s (ip.addrs ndirect))
    → (address bn ip s ≢ 0 → bmap bn ip s ≡ ok (address bn ip s, ip, s))
      × ((a : ℕ) × (ip' : Inode) × (s' : Fs) × (bmap bn ip s ≡ ok (a, ip', s'))
          × Elsewhere (slot_of bn) ip ip'
          × ((a ≡ 0) × NoBlock s' ⊎ (a ≢ 0) × (address bn ip' s' ≡ a)))
bmap_lem bn ip s small hi out indirect = (
  bmap_found bn ip s hi,
  elim (dec_lt bn ndirect) [
    | yes low ↦
        let (a, ip', s', e, size, off, r) = slot_lem bn ip s (omega (arith, small)) in
        (
          a,
          ip',
          s',
          bmap_direct bn ip s low ∙ e,
          rw (lt→ltb bn ndirect low) off,
          elim r [
            | inl z ↦ inl z
            | inr (ne, here, held) ↦ inr (ne, address_direct bn ip' s' low ∙ here)
          ],
        )
    | no high ↦
        let lo : ndirect ≤ bn = omega (arith, high) in
        let (b, ip', s1, e, size, off, r) = slot_lem ndirect ip s (omega (arith, small)) in
        elim r [
          | inl (z, none_left) ↦ (
            0,
            ip',
            s1,
            bmap_indirect bn ip ip' b s s1 lo hi e ∙ rw z refl,
            rw (ltb-eq-false bn ndirect lo) off,
            inl (refl, none_left),
          )
          | inr (ne, here, held) ↦
              let (a, s', e', r') =
                entry_lem b (bn - ndirect) ip' s1 (omega (arith, size, small))
                  (held out indirect) in
              (
                a,
                ip',
                s',
                bmap_indirect bn ip ip' b s s1 lo hi e ∙ rw (==_ne b 0 ne) e',
                rw (ltb-eq-false bn ndirect lo) off,
                elim r' [
                  | inl z ↦ inl z
                  | inr (ne', there) ↦ inr (ne', address_indirect bn b ip' s' lo here ne ∙ there)
                ],
              )
        ]
  ],
)
