-- ===== src/Descriptors.antt =====
-- TDT4186 - OS/Labs/Lab3/kernel/sysfile.c: the descriptors of the running process and the system calls
-- that move them. A file is its place in the table of open files. What pipealloc and copyout
-- return to sys_pipe are arguments.
pub mod Dup
pub mod Pipes
mod Tests
use ntnu_courses.Base.{
  ℕ, zero, suc, ◌+◌, ◌^◌, ◌≤◌, ◌<◌, Bool, ◌&&◌, true, false, not, Option, none, some, ltb, leb,
  if◌then◌else◌, update, Result, ok, ◌>>=◌, List, [], ◌∷◌,
}
use ntnu_courses.File.{Ftable, Closing, filedup, fileclose}

abbrev pub nofile : ℕ
nofile = 16

-- p->ofile, `none` for the null pointer, and the table of open files.
pub record Files : Type 0 where
  pub ofile : ℕ → Option ℕ
  pub table : Ftable

abbrev pub set_ofile : ℕ → Option ℕ → Files → Files
set_ofile fd f s = record s { ofile = update s.ofile fd f }

-- The argument is an int as a number below 2^32; `none` is the -1.
abbrev pub argfd : ℕ → Files → Option ℕ
argfd fd s = if leb (2 ^ 31) fd then none else if leb nofile fd then none else s.ofile fd

-- The loop of fdalloc with `k` rounds left.
unfoldable pub fdalloc_from : ℕ → ℕ → ℕ → Files → Option ℕ × Files
fdalloc_from zero fd f s = (none, s)
fdalloc_from (suc k) fd f s =
    let rest = fdalloc_from k (fd + 1) f s in
    elim (s.ofile fd) [ none ↦ (some fd, set_ofile fd (some f) s) | some g ↦ rest ]

unfoldable pub fdalloc : ℕ → Files → Option ℕ × Files
fdalloc f s = fdalloc_from nofile 0 f s

-- filedup behind fdalloc.
abbrev pub dup_into : ℕ → Option ℕ × Files → Result (Option ℕ × Files)
dup_into f (none, s) = ok (none, s)
dup_into f (some fd, s) = filedup f s.table >>= λ t. ok (some fd, record s { table = t })

abbrev pub dup_file : Option ℕ → Files → Result (Option ℕ × Files)
dup_file none s = ok (none, s)
dup_file (some f) s = dup_into f (fdalloc f s)

unfoldable pub sys_dup : ℕ → Files → Result (Option ℕ × Files)
sys_dup fd s = dup_file (argfd fd s) s

-- Whether it is closed, and what fileclose then does.
abbrev pub close_file : ℕ → Option ℕ → Files → Result (Option Closing × Files)
close_file fd none s = ok (none, s)
close_file fd (some f) s =
    fileclose f s.table >>= λ (c, t). ok (some c, record (set_ofile fd none s) { table = t })

unfoldable pub sys_close : ℕ → Files → Result (Option Closing × Files)
sys_close fd s = close_file fd (argfd fd s) s

-- fileclose(rf); fileclose(wf); and what they then do.
abbrev pub close_both : ℕ → ℕ → Files → Result (List Closing × Files)
close_both rf wf s = fileclose rf s.table >>= λ (c, t).
    fileclose wf t >>= λ (d, t'). ok (c ∷ d ∷ [], record s { table = t' })

abbrev pub close_failed : ℕ → ℕ → Files → Result (Option (ℕ × ℕ) × List Closing × Files)
close_failed rf wf s = close_both rf wf s >>= λ (c, t). ok (none, c, t)

-- sys_pipe with both descriptors, by whether both calls of copyout succeed.
abbrev pub pipe_copied :
    Bool → ℕ → ℕ → ℕ → ℕ → Files → Result (Option (ℕ × ℕ) × List Closing × Files)
pipe_copied true rf wf fd0 fd1 s = ok (some (fd0, fd1), [], s)
pipe_copied false rf wf fd0 fd1 s = close_failed rf wf (set_ofile fd1 none (set_ofile fd0 none s))

-- sys_pipe with the first descriptor.
abbrev pub pipe_second :
    Bool → ℕ → ℕ → ℕ → Option ℕ × Files → Result (Option (ℕ × ℕ) × List Closing × Files)
pipe_second copied rf wf fd0 (none, s) = close_failed rf wf (set_ofile fd0 none s)
pipe_second copied rf wf fd0 (some fd1, s) = pipe_copied copied rf wf fd0 fd1 s

abbrev pub pipe_first :
    Bool → ℕ → ℕ → Option ℕ × Files → Result (Option (ℕ × ℕ) × List Closing × Files)
pipe_first copied rf wf (none, s) = close_failed rf wf s
pipe_first copied rf wf (some fd0, s) = pipe_second copied rf wf fd0 (fdalloc wf s)

-- sys_pipe once pipealloc has made the files `rf` and `wf`: the descriptors, `none` for -1, and what
-- the calls of fileclose then do.
unfoldable pub sys_pipe : Bool → ℕ → ℕ → Files → Result (Option (ℕ × ℕ) × List Closing × Files)
sys_pipe copied rf wf s = pipe_first copied rf wf (fdalloc rf s)
