-- ===== src/Syscall/Tests.antt =====
-- System calls of a process with 4096 bytes of memory, with two handlers.
use ntnu_courses.Base.{
  ℕ, ◌+◌, ◌-◌, ◌^◌, ◌≡◌, refl, Option, some, none, if◌then◌else◌, negsuc, [], ◌==◌, ok, update,
  arith,
}
use ntnu_courses.Proc.{Proc, Table, unused, running}
use ntnu_courses.Proc.Inv.{IsValid}
use ntnu_courses.Syscall.{Trapframe, argraw, to_int}

abbrev frame : Trapframe
frame = record { a0 = 5; a1 = 6; a2 = 0; a3 = 0; a4 = 0; a5 = 0; a7 = 1 }

abbrev handlers : ℕ → Option (ℕ → ℕ × ℕ)
handlers num = if num == 1 then some (λ s. (s, s + 1)) else none

second_argument : argraw 1 frame ≡ ok 6
unfolding argraw
second_argument = refl

minus_one : to_int (2 ^ 64 - 1) ≡ negsuc 0
unfolding to_int
minus_one = refl

abbrev memory : ℕ → Option ℕ
memory a = some a

abbrev empty : Proc
empty = record {
  state = unused;
  chan = 0;
  killed = 0;
  xstate = 0;
  pid = 0;
  parent = 0;
  sz = 0;
  pagetable = 0;
  trapframe = 0;
  ofile = [];
  cwd = 0;
  name = [];
}

abbrev procs : Table
procs = update (λ q. empty) 3 (record empty { state = running; pid = 9; pagetable = 77 })

procs-IsValid : IsValid procs 10
procs-IsValid = record {
  positive = λ q lt u. ground arith;
  below = λ q lt u. ground arith;
  distinct = λ p q lp lq up uq e. ground arith;
}
