-- ===== src/File/Tests.antt =====
-- A file with two references on pipe 5, and a write of 4000 bytes.
use ntnu_courses.Base.{
  ℕ, ◌+◌, ◌%◌, ◌^◌, ◌≤◌, ◌≡◌, refl, true, false, some, All, update, ℤ, pos, arith,
}
use ntnu_courses.File.{File, Ftable, fd_none, fd_pipe, write_inode}
use ntnu_courses.File.Write.{sum, write_inode_lem}

abbrev empty : File
empty = record {
  kind = fd_none;
  ref = 0;
  readable = false;
  writable = false;
  pipe = 0;
  ip = 0;
  off = 0;
  major = 0;
}

abbrev files : Ftable
files = update (λ f. empty) 0 (record empty { kind = fd_pipe; ref = 2; writable = true; pipe = 5 })

abbrev writes_all : ℕ → ℕ → ℕ → ℤ
writes_all a o n1 = pos n1

write_inode_lem_example :
    All (λ x. x ≤ 3072) (write_inode writes_all 4000 7).0
    × (sum (write_inode writes_all 4000 7).0 ≡ 4000)
    × ((write_inode writes_all 4000 7).1 ≡ some 4000)
    × ((write_inode writes_all 4000 7).2 ≡ (7 + 4000) % 2 ^ 32)
write_inode_lem_example = write_inode_lem writes_all 4000 7 (λ a o n1. refl) (omega arith)
