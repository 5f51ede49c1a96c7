-- ===== src/Fs.antt =====
-- TDT4186 - OS/Labs/Lab3/kernel/fs.c, kernel/fs.h: the bitmap of blocks, the blocks of a file, and the
-- names in a path. `blocks` holds each block as the buffer cache presents it to the holder of its
-- buffer, so that bread and brelse leave no trace, but where a buffer is held through another call;
-- log_write keeps the order of its calls. That bread may panic for want of a buffer and log_write for
-- want of room in the log is left to Bio and Log. A uint in
-- a block is four bytes, the lowest first.
pub mod Bits
pub mod Blocks
pub mod Bitmap
pub mod Slots
pub mod Map
pub mod Path
mod Tests
use ntnu_courses.Base.{
  ℕ, zero, suc, ◌+◌, ◌-◌, ◌*◌, ◌/◌, ◌%◌, ◌^◌, Bool, ◌&&◌, ◌||◌, true, false, not, Option, none,
  some, ltb, leb, ◌==◌, if◌then◌else◌, List, [], ◌∷◌, ◌++◌, update, Result, ok, panic, out_of_fuel,
  ◌>>=◌, ◌>>◌, panic_if, ℤ,
}
use ntnu_courses.Str.{Mem, memmove, strncmp}

abbrev pub bsize : ℕ
bsize = 1024

abbrev pub bpb : ℕ
bpb = 8192

abbrev pub ndirect : ℕ
ndirect = 12

abbrev pub nindirect : ℕ
nindirect = 256

abbrev pub dirsiz : ℕ
dirsiz = 14

pub record Fs : Type 0 where
  pub size : ℕ  -- sb.size
  pub bmapstart : ℕ  -- sb.bmapstart
  pub blocks : ℕ → ℕ → ℕ
  pub logged : List ℕ  -- the blocks of the calls of log_write, the last one first

abbrev pub bblock : ℕ → Fs → ℕ
bblock b s = b / bpb + s.bmapstart

-- A buffer's new contents, with log_write.
abbrev pub log_block : ℕ → (ℕ → ℕ) → Fs → Fs
log_block b content s = record s { blocks = update s.blocks b content; logged = b ∷ s.logged }

abbrev pub bzero : ℕ → Fs → Fs
bzero bno s = log_block bno (λ i. if ltb i bsize then 0 else s.blocks bno i) s

-- (data[bi/8] & m) != 0, for m = 1 << (bi % 8).
abbrev pub bit : (ℕ → ℕ) → ℕ → Bool
bit content bi = content (bi / 8) / 2 ^ (bi % 8) % 2 == 1

-- data[bi/8] |= m, of a bit that is clear; data[bi/8] &= ~m, of one that is set.
abbrev pub set_bit : (ℕ → ℕ) → ℕ → ℕ → ℕ
set_bit content bi = update content (bi / 8) (content (bi / 8) + 2 ^ (bi % 8))

abbrev pub clear_bit : (ℕ → ℕ) → ℕ → ℕ → ℕ
clear_bit content bi = update content (bi / 8) (content (bi / 8) - 2 ^ (bi % 8))

-- The inner loop of balloc from `bi` on, with `k` rounds left.
unfoldable pub find_free : ℕ → ℕ → (ℕ → ℕ) → ℕ → ℕ → Option ℕ
find_free size b content zero bi = none
find_free size b content (suc k) bi =
    let rest = find_free size b content k (bi + 1) in
    if not (ltb (b + bi) size) then none else if bit content bi then rest else some bi

-- The outer loop, with one round for each block of the bitmap and one to see the end. The code's b is an
-- int, so this is its loop for a disk of at most 2^31 - BPB blocks, where b does not overflow.
unfoldable pub balloc_from : ℕ → ℕ → Fs → Result (ℕ × Fs)
balloc_from zero b s = out_of_fuel
balloc_from (suc fuel) b s =
    let rest = balloc_from fuel (b + bpb) s in
    let found =
      λ (bi : ℕ). bzero (b + bi) (log_block (bblock b s) (set_bit (s.blocks (bblock b s)) bi) s) in
    if not (ltb b s.size)
    then ok (0, s)
    else elim (find_free s.size b (s.blocks (bblock b s)) bpb 0) [
      | none ↦ rest
      | some bi ↦ ok (b + bi, found bi)
    ]

unfoldable pub balloc : Fs → Result (ℕ × Fs)
unfolding balloc_from
balloc s = balloc_from (suc (s.size / bpb + 1)) 0 s

unfoldable pub bfree : ℕ → Fs → Result Fs
bfree b s = do
  panic_if (not (bit (s.blocks (bblock b s)) (b % bpb))) "freeing free block"
  ok (log_block (bblock b s) (clear_bit (s.blocks (bblock b s)) (b % bpb)) s)

-- ((uint*)data)[i], and the store to it.
abbrev pub get_uint : (ℕ → ℕ) → ℕ → ℕ
get_uint content i =
    content (4 * i)
    + content (4 * i + 1) * 2 ^ 8
    + content (4 * i + 2) * 2 ^ 16
    + content (4 * i + 3) * 2 ^ 24

abbrev pub put_uint : (ℕ → ℕ) → ℕ → ℕ → ℕ → ℕ
put_uint content i v =
    update
      (update (update (update content (4 * i) (v % 256)) (4 * i + 1) (v / 2 ^ 8 % 256)) (4 * i + 2)
        (v / 2 ^ 16 % 256))
      (4 * i + 3) (v / 2 ^ 24 % 256)

-- The fields of an inode that its contents hang on.
pub record Inode : Type 0 where
  pub addrs : ℕ → ℕ
  pub size : ℕ

abbrev pub set_addr : ℕ → ℕ → Inode → Inode
set_addr i addr ip = record ip { addrs = update ip.addrs i addr }

-- The address in the array of the inode, with a block allocated if it is 0 and there is one.
abbrev pub bmap_slot : ℕ → Inode → Fs → Result (ℕ × Inode × Fs)
bmap_slot i ip s =
    if not (ip.addrs i == 0)
    then ok (ip.addrs i, ip, s)
    else balloc s >>= λ (addr, s').
        if addr == 0 then ok (0, ip, s') else ok (addr, set_addr i addr ip, s')

-- Whether balloc, which returned `addr`, reads the block `b`: it reads the bitmap up to the block of
-- `addr`, or to its end if no block is free, and then the block `addr` to zero it.
abbrev pub balloc_reads : ℕ → ℕ → Fs → Bool
balloc_reads b addr s =
    if addr == 0 && bit (s.blocks (bblock 0 s)) 0
    then leb s.bmapstart b && ltb b (s.bmapstart + (s.size + bpb - 1) / bpb)
    else leb s.bmapstart b && leb b (bblock addr s) || b == addr

-- The address in the indirect block `b`, whose buffer stays locked through balloc: if balloc reads that
-- block, it waits for itself and never returns.
abbrev pub bmap_entry : ℕ → ℕ → Inode → Fs → Result (ℕ × Inode × Fs)
bmap_entry b bn ip s =
    if not (get_uint (s.blocks b) bn == 0)
    then ok (get_uint (s.blocks b) bn, ip, s)
    else balloc s >>= λ (addr, s').
        if balloc_reads b addr s
        then out_of_fuel
        else if addr == 0
        then ok (0, ip, s')
        else ok (addr, ip, log_block b (put_uint (s'.blocks b) bn addr) s')

unfoldable pub bmap : ℕ → Inode → Fs → Result (ℕ × Inode × Fs)
bmap bn ip s =
    if ltb bn ndirect
    then bmap_slot bn ip s
    else if ltb (bn - ndirect) nindirect
    then bmap_slot ndirect ip s >>= (λ (addr, ip', s').
      if addr == 0 then ok (0, ip', s') else bmap_entry addr (bn - ndirect) ip' s')
    else panic "bmap: out of range"

-- The loops of itrunc over the inode's and the indirect block's addresses, from `i` on.
unfoldable pub free_slots : ℕ → ℕ → Inode → Fs → Result (Inode × Fs)
unfolding bfree
free_slots zero i ip s = ok (ip, s)
free_slots (suc k) i ip s =
    let rest = free_slots k (i + 1) ip s in
    let freed = bfree (ip.addrs i) s >>= λ s'. free_slots k (i + 1) (set_addr i 0 ip) s' in
    if ip.addrs i == 0 then rest else freed

unfoldable pub free_listed : ℕ → (ℕ → ℕ) → ℕ → Fs → Result Fs
unfolding bfree
free_listed zero content j s = ok s
free_listed (suc k) content j s =
    let rest = free_listed k content (j + 1) s in
    let freed = bfree (get_uint content j) s >>= λ s'. free_listed k content (j + 1) s' in
    if get_uint content j == 0 then rest else freed

-- itrunc up to its call of iupdate.
unfoldable pub itrunc : Inode → Fs → Result (Inode × Fs)
unfolding free_slots free_listed
itrunc ip s = do
  (ip1, s1) ← free_slots ndirect 0 ip s
  (ip2, s2) ←
      if ip1.addrs ndirect == 0
      then ok (ip1, s1)
      else free_listed nindirect (s1.blocks (ip1.addrs ndirect)) 0 s1
        >>= (λ t. bfree (ip1.addrs ndirect) t)
        >>= (λ t. ok (set_addr ndirect 0 ip1, t))
  ok (record ip2 { size = 0 }, s2)

abbrev pub namecmp : Mem → ℕ → ℕ → ℤ
namecmp m s t = strncmp m s t dirsiz

abbrev pub slash : ℕ
slash = 47

-- while(*path == '/') path++;
unfoldable pub skip_slashes : ℕ → ℕ → Mem → Result ℕ
skip_slashes zero path m = out_of_fuel
skip_slashes (suc fuel) path m =
    let rest = skip_slashes fuel (path + 1) m in if m path == slash then rest else ok path

-- while(*path != '/' && *path != 0) path++;
unfoldable pub skip_name : ℕ → ℕ → Mem → Result ℕ
skip_name zero path m = out_of_fuel
skip_name (suc fuel) path m =
    let rest = skip_name fuel (path + 1) m in
    if not (m path == slash) && not (m path == 0) then rest else ok path

-- name holds at most DIRSIZ bytes, and a null if there is room for one.
abbrev pub put_name : ℕ → ℕ → ℕ → Mem → Mem
put_name name s len m =
    if leb dirsiz len then memmove m name s dirsiz else update (memmove m name s len) (name + len) 0

-- The rest of the path, `none` for the null pointer, and the memory.
unfoldable pub skipelem : ℕ → ℕ → ℕ → Mem → Result (Option ℕ × Mem)
unfolding skip_slashes skip_name
skipelem fuel path name m = skip_slashes fuel path m >>= λ s.
    if m s == 0
    then ok (none, m)
    else skip_name fuel s m >>= λ e. skip_slashes fuel e (put_name name s (e - s) m) >>= λ rest.
        ok (some rest, put_name name s (e - s) m)
