-- ===== src/Descriptors/Tests.antt =====
-- TDT4186 - OS/Labs/Lab3/kernel/sysfile.c: a process with three descriptors.
use ntnu_courses.Base.{
  ℕ, ◌≡◌, ◌≢◌, ◌⊎◌, refl, true, false, none, some, ltb, ◌==◌, if◌then◌else◌, arith, ok, List, [],
}
use ntnu_courses.File.{File, Closing, fd_pipe, fd_device}
use ntnu_courses.Descriptors.{Files, argfd, sys_pipe}
use ntnu_courses.Descriptors.Pipes.{BothClosed, sys_pipe_lem}

-- The console at 0, 1 and 2; the files 5 and 6 are a new pipe.
abbrev console : File
console = record {
  kind = fd_device;
  ref = 3;
  readable = true;
  writable = true;
  pipe = 0;
  ip = 0;
  off = 0;
  major = 1;
}

abbrev pipe_end : File
pipe_end = record {
  kind = fd_pipe;
  ref = 1;
  readable = true;
  writable = false;
  pipe = 9;
  ip = 0;
  off = 0;
  major = 0;
}

abbrev three_open : Files
three_open = record {
  ofile = λ fd. if ltb fd 3 then some 4 else none;
  table = λ f. if f == 4 then console else pipe_end;
}

sys_pipe_lem_example :
    ((fd0 : ℕ) × (fd1 : ℕ) × (s' : Files) × (sys_pipe false 5 6 three_open
        ≡ ok (some (fd0, fd1), [], s'))
      × (false ≡ true)
      × (fd0 ≢ fd1)
      × (three_open.ofile fd0 ≡ none)
      × (three_open.ofile fd1 ≡ none)
      × (argfd fd0 s' ≡ some 5)
      × (argfd fd1 s' ≡ some 6)
      × ((p : ℕ) → p ≢ fd0 → p ≢ fd1 → s'.ofile p ≡ three_open.ofile p))
    ⊎ ((calls : List Closing) × (s' : Files) × (sys_pipe false 5 6 three_open
          ≡ ok (none, calls, s'))
        × ((p : ℕ) → s'.ofile p ≡ three_open.ofile p)
        × BothClosed 5 6 three_open.table s'.table calls)
sys_pipe_lem_example = sys_pipe_lem false 5 6 three_open (omega arith) refl refl
