-- ===== src/Pipe.antt =====
-- TDT4186 - OS/Labs/Lab3/kernel/pipe.c: the byte ring of a pipe, with its uint counters that wrap.
-- pi->lock is held from the start of an operation to its end, or to the point where it sleeps: such
-- a stretch is one step. `copyin`, `copyout` and `killed` of the calling process are parameters.
pub mod Fifo
pub mod Run
pub mod Close
mod Tests
use ntnu_courses.Base.{
  ℕ, zero, suc, ◌+◌, ◌-◌, ◌%◌, ◌^◌, Bool, ◌&&◌, ◌||◌, true, false, not, Option, none, some, List,
  [], ◌∷◌, ◌++◌, ltb, ◌==◌, if◌then◌else◌, update,
}

abbrev pub pipesize : ℕ
pipesize = 512

abbrev pub u32 : ℕ → ℕ
u32 n = n % 2 ^ 32

-- `struct pipe` without its lock. `ring` is `data`.
pub record Pipe : Type 0 where
  pub ring : ℕ → ℕ
  pub nread : ℕ
  pub nwrite : ℕ
  pub readopen : Bool
  pub writeopen : Bool

-- The part of pipealloc that fills in the pipe.
unfoldable pub init : (ℕ → ℕ) → Pipe
init junk = record { ring = junk; nread = 0; nwrite = 0; readopen = true; writeopen = true }

-- How a stretch ends: the call returns `-1` (fail) or a count, or it sleeps and goes on with the
-- loop variable that is given.
pub data Outcome : Type 0 where
  fail : Outcome
  returns : ℕ → Outcome
  sleeps : ℕ → Outcome

-- pi->data[pi->nwrite++ % PIPESIZE] = ch;
abbrev pub put : ℕ → Pipe → Pipe
put ch pi = record pi {
  ring = update pi.ring (pi.nwrite % pipesize) ch;
  nwrite = u32 (pi.nwrite + 1);
}

abbrev after_put : ℕ → Outcome × List ℕ × Pipe → Outcome × List ℕ × Pipe
after_put ch r = (r.0, ch ∷ r.1, r.2)

-- The loop of pipewrite from `i` with `k` bytes to go; `user j` is what copyin finds at addr + j.
-- The bytes that were put in the ring are returned beside the outcome. Every stretch but one that
-- fails ends in wakeup(&pi->nread), which has no part in the pipe's own state.
pub pipewrite : Bool → (ℕ → Option ℕ) → ℕ → ℕ → Pipe → Outcome × List ℕ × Pipe
pipewrite killed user zero i pi = (returns i, [], pi)
pipewrite killed user (suc k) i pi =
    let go_on = λ (ch : ℕ). after_put ch (pipewrite killed user k (i + 1) (put ch pi)) in
    if not pi.readopen || killed
    then (fail, [], pi)
    else if pi.nwrite == u32 (pi.nread + pipesize)
    then (sleeps i, [], pi)
    else elim (user i) [ none ↦ (returns i, [], pi) | some ch ↦ go_on ch ]

-- The copy loop of piperead from `i` with `k` bytes to go; `user j` tells whether copyout to
-- addr + j succeeds. The bytes that were copied out are returned beside the count. A byte that
-- copyout does not take has left the pipe all the same.
pub copy_out : (ℕ → Bool) → ℕ → ℕ → Pipe → ℕ × List ℕ × Pipe
copy_out user zero i pi = (i, [], pi)
copy_out user (suc k) i pi =
    let pi' : Pipe = record pi { nread = u32 (pi.nread + 1) } in
    let rest = copy_out user k (i + 1) pi' in
    if pi.nread == pi.nwrite
    then (i, [], pi)
    else if user i
    then (rest.0, pi.ring (pi.nread % pipesize) ∷ rest.1, rest.2)
    else (i, [], pi')

-- piperead of `n` bytes: the wait at an empty pipe with a writer, then the copy.
pub piperead : Bool → (ℕ → Bool) → ℕ → Pipe → Outcome × List ℕ × Pipe
unfolding copy_out
piperead killed user n pi =
    let copied = copy_out user n 0 pi in
    if pi.nread == pi.nwrite && pi.writeopen
    then (if killed then fail else sleeps 0, [], pi)
    else (returns copied.0, copied.1, copied.2)

-- Returns whether the pipe's page is freed.
pub pipeclose : Bool → Pipe → Bool × Pipe
pipeclose writable pi =
    let pi' : Pipe =
      if writable then record pi { writeopen = false } else record pi { readopen = false } in
    (not pi'.readopen && not pi'.writeopen, pi')

-- A stretch of a call of one of the processes that share a pipe; `read` has the answers of copyout.
pub data Call : Type 0 where
  write : Bool → (ℕ → Option ℕ) → ℕ → ℕ → Call
  read : Bool → (ℕ → Bool) → ℕ → Call
  close : Bool → Call

-- The calls one after the other, with the bytes that went in and those that came out.
pub run : List Call → Pipe → List ℕ × List ℕ × Pipe
unfolding pipewrite piperead pipeclose
run [] pi = ([], [], pi)
run (write killed user k i ∷ cs) pi =
    let w = pipewrite killed user k i pi in let rest = run cs w.2 in (w.1 ++ rest.0, rest.1, rest.2)
run (read killed user n ∷ cs) pi =
    let r = piperead killed user n pi in let rest = run cs r.2 in (rest.0, r.1 ++ rest.1, rest.2)
run (close writable ∷ cs) pi = run cs (pipeclose writable pi).1
