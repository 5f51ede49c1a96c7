-- ===== src/File.antt =====
-- TDT4186 - OS/Labs/Lab3/kernel/file.c: the table of open files and the loop of filewrite on an
-- inode. ftable.lock makes each call on the table one step; a file is its place in the table. What
-- writei returns is an argument.
pub mod Refs
pub mod Write
mod Tests
use ntnu_courses.Base.{
  ℕ, zero, suc, ◌+◌, ◌-◌, ◌*◌, ◌/◌, ◌%◌, ◌^◌, ◌<◌, Bool, true, false, Option, none, some, List, [],
  ◌∷◌, ltb, ◌==◌, if◌then◌else◌, update, ℤ, pos, negsuc, Result, ok, panic, ◌>>=◌, ◌>>◌, panic_if,
}

abbrev pub nfile : ℕ
nfile = 100

pub data FileType : Type 0 where
  fd_none : FileType
  fd_pipe : FileType
  fd_inode : FileType
  fd_device : FileType

pub record File : Type 0 where
  pub kind : FileType
  pub ref : ℕ
  pub readable : Bool
  pub writable : Bool
  pub pipe : ℕ
  pub ip : ℕ
  pub off : ℕ
  pub major : ℕ

abbrev pub Ftable : Type 0
Ftable = ℕ → File

abbrev pub set_ref : ℕ → ℕ → Ftable → Ftable
set_ref f n t = update t f (record (t f) { ref = n })

-- The loop of filealloc over the `k` files from `f` on; `none` is the null pointer.
unfoldable pub alloc_from : ℕ → ℕ → Ftable → Option ℕ × Ftable
alloc_from zero f t = (none, t)
alloc_from (suc k) f t =
    let rest = alloc_from k (f + 1) t in if (t f).ref == 0 then (some f, set_ref f 1 t) else rest

unfoldable pub filealloc : Ftable → Option ℕ × Ftable
unfolding alloc_from
filealloc t = alloc_from nfile 0 t

unfoldable pub filedup : ℕ → Ftable → Result Ftable
filedup f t = do panic_if (ltb (t f).ref 1) "filedup"; ok (set_ref f ((t f).ref + 1) t)

-- What fileclose calls when it has let go of the table.
pub data Closing : Type 0 where
  nothing : Closing
  close_pipe : ℕ → Bool → Closing
  put_inode : ℕ → Closing

abbrev pub closing : FileType → File → Closing
closing fd_none ff = nothing
closing fd_pipe ff = close_pipe ff.pipe ff.writable
closing fd_inode ff = put_inode ff.ip
closing fd_device ff = put_inode ff.ip

unfoldable pub fileclose : ℕ → Ftable → Result (Closing × Ftable)
fileclose f t = do
  panic_if (ltb (t f).ref 1) "fileclose"
  ok (
      if ltb 0 ((t f).ref - 1)
      then (nothing, set_ref f ((t f).ref - 1) t)
      else (closing (t f).kind (t f), update t f (record (t f) { ref = 0; kind = fd_none })))

-- ((MAXOPBLOCKS-1-1-2) / 2) * BSIZE.
abbrev pub max_bytes : ℕ
max_bytes = (10 - 1 - 1 - 2) / 2 * 1024

-- f->off += r, for r > 0.
abbrev pub advance : ℤ → ℕ → ℕ
advance (pos r) off = (off + r) % 2 ^ 32
advance (negsuc r) off = off

abbrev pub chunk : ℕ → ℕ
chunk left = if ltb max_bytes left then max_bytes else left

abbrev pub equals : ℤ → ℕ → Bool
equals (pos r) n = r == n
equals (negsuc r) n = false

-- The loop of filewrite from `i` on, on fuel: `writei a off n1` is what writei returns for the bytes
-- from addr + a. The sizes of the transactions, the last `i` and the offset.
unfoldable pub write_loop : (ℕ → ℕ → ℕ → ℤ) → ℕ → ℕ → ℕ → ℕ → List ℕ × ℕ × ℕ
write_loop writei zero i n off = ([], i, off)
write_loop writei (suc fuel) i n off =
    let n1 : ℕ = chunk (n - i) in
    let r : ℤ = writei i off n1 in
    let rest = write_loop writei fuel (i + n1) n (advance r off) in
    if ltb i n
    then if equals r n1 then (n1 ∷ rest.0, rest.1, rest.2) else (n1 ∷ [], i, advance r off)
    else ([], i, off)

-- filewrite of `n` bytes on an inode: the sizes of the transactions, what it returns, `none` for -1,
-- and the offset of the file.
unfoldable pub write_inode : (ℕ → ℕ → ℕ → ℤ) → ℕ → ℕ → List ℕ × Option ℕ × ℕ
unfolding write_loop
write_inode writei n off =
    let done = write_loop writei n 0 n off in (done.0, if done.1 == n then some n else none, done.2)
