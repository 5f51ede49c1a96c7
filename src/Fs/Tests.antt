-- ===== src/Fs/Tests.antt =====
-- TDT4186 - OS/Labs/Lab3/kernel/fs.c: a disk of 100 blocks, and a path.
use ntnu_courses.Base.{
  ℕ, ◌+◌, ◌<◌, ◌≡◌, ◌≢◌, ◌⊎◌, refl, sym, ap, ◌∙◌, Bool, true, false, some, ltb, ◌==◌, if◌then◌else◌,
  arith, [], ok,
}
use ntnu_courses.Str.{Mem}
use ntnu_courses.Fs.{Fs, Inode, bsize, balloc, bfree, bmap, skipelem, slash}
use ntnu_courses.Fs.Blocks.{used, IsBlock}
use ntnu_courses.Fs.Bitmap.{bfree-balloc}
use ntnu_courses.Fs.Slots.{NoBlock, Elsewhere}
use ntnu_courses.Fs.Map.{address, slot_of, bmap_lem}
use ntnu_courses.Fs.Path.{skipelem_lem, HoldsName, IsNameByte}

-- The blocks below 56 are in use; the bitmap is block 45.
abbrev small_disk : Fs
small_disk = record {
  size = 100;
  bmapstart = 45;
  blocks = λ b i. if ltb i 7 then 255 else 0;
  logged = [];
}

bitmap_used : used small_disk 45 ≡ true
bitmap_used = refl

outside_bitmap : (b : ℕ) → b < 100 → used small_disk b ≡ false → IsBlock small_disk b
outside_bitmap b lt free c l e =
    let here : b ≡ 45 = omega (arith, e, l) in
    clash (used small_disk 45) bitmap_used (ap (used small_disk) (sym here) ∙ free)
  where
    clash : (v : Bool) → v ≡ true → v ≡ false → ⊥
    clash v x y = cc

bfree-balloc_example :
    (r : ℕ) × (s1 : Fs) × (s2 : Fs) × (balloc small_disk ≡ ok (r, s1))
    × (bfree r s1 ≡ ok s2)
    × (used small_disk r ≡ false)
    × ((q : ℕ) → q < r → used small_disk q ≡ true)
    × ((i : ℕ) → i < bsize → s1.blocks r i ≡ 0)
    × ((c : ℕ) → c < 100 → used s2 c ≡ used small_disk c)
bfree-balloc_example = bfree-balloc small_disk outside_bitmap 70 (omega arith) refl

abbrev empty_file : Inode
empty_file = record { addrs = λ i. 0; size = 0 }

-- Block 20 of a file without blocks: the indirect block and the block are allocated.
bmap_lem_example :
    (address 20 empty_file small_disk ≢ 0
      → bmap 20 empty_file small_disk
        ≡ ok (address 20 empty_file small_disk, empty_file, small_disk))
    × ((a : ℕ) × (ip' : Inode) × (s' : Fs) × (bmap 20 empty_file small_disk ≡ ok (a, ip', s'))
        × Elsewhere (slot_of 20) empty_file ip'
        × ((a ≡ 0) × NoBlock s' ⊎ (a ≢ 0) × (address 20 ip' s' ≡ a)))
bmap_lem_example =
    bmap_lem 20 empty_file small_disk (omega arith) (omega arith) outside_bitmap
      (λ ne. absurd (ne refl))

-- "/ab//c" at 100.
abbrev some_path : Mem
some_path a =
    if a == 100
    then slash
    else if a == 101
    then 97
    else if a == 102
    then 98
    else if a == 103
    then slash
    else if a == 104
    then slash
    else if a == 105
    then 99
    else 0

one_slash : (i : ℕ) → i < 1 → some_path (100 + i) ≡ slash
one_slash i lt = let z : i ≡ 0 = omega (arith, lt) in rw (z) refl

name_ab : (i : ℕ) → i < 2 → IsNameByte (some_path (101 + i))
name_ab i lt = (λ z. ground (arith, z, lt), λ z. ground (arith, z, lt))

two_slashes : (i : ℕ) → i < 2 → some_path (103 + i) ≡ slash
two_slashes i lt = ground (arith, lt)

skipelem_lem_example :
    (m' : Mem) × (skipelem 10 100 500 some_path ≡ ok (some 105, m'))
    × HoldsName 500 101 2 some_path m'
skipelem_lem_example =
    skipelem_lem 10 100 500 1 2 2 some_path (omega arith) (omega arith) (omega arith) (omega arith)
      one_slash name_ab two_slashes (omega arith) (omega arith) (omega arith)
