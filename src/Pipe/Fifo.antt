-- ===== src/Pipe/Fifo.antt =====
-- The ring holds a queue of bytes, also when its counters have wrapped.
use ntnu_courses.Base.{
  ℕ, suc, ◌+◌, ◌-◌, ◌%◌, ◌^◌, ◌≤◌, ◌<◌, ◌≡◌, ◌≢◌, List, [], ◌∷◌, ◌++◌, length, arith,
}
use ntnu_courses.Base.Ring
use ntnu_courses.Pipe.{Pipe, pipesize, u32, put}

-- How many bytes the pipe holds, by its counters.
abbrev pub held : Pipe → ℕ
held pi = u32 (pi.nwrite + 2 ^ 32 - pi.nread)

pub record IsValid (pi : Pipe) : Type 0 where
  pub read_in : pi.nread < 2 ^ 32
  pub write_in : pi.nwrite < 2 ^ 32
  pub few : held pi ≤ pipesize

abbrev pub contents : Pipe → List ℕ
contents pi = Ring.window (2 ^ 32) pipesize pi.ring pi.nread (held pi)

-- A byte that is put in a pipe with room joins the end of its queue.
pub put_lem :
    (ch : ℕ) (pi : Pipe)
    → IsValid pi
    → held pi < pipesize
    → (contents (put ch pi) ≡ contents pi ++ ch ∷ []) × IsValid (put ch pi)
put_lem ch pi v room =
    let e : held (put ch pi) ≡ suc (held pi) = omega arith in
    (
      rw e (
          Ring.window-update_end (2 ^ 32) pipesize (held pi) pi.nread (pi.nwrite % pipesize) ch
            pi.ring v.read_in (λ j h. omega arith) (omega arith)),
      omega arith,
    )

-- The pipe after its oldest byte has been read.
abbrev pub taken : Pipe → Pipe
taken pi = record pi { nread = u32 (pi.nread + 1) }

-- Of a pipe whose counters differ the oldest byte is the one at nread.
pub taken_lem :
    (pi : Pipe)
    → IsValid pi
    → pi.nread ≢ pi.nwrite
    → (contents pi ≡ pi.ring (pi.nread % pipesize) ∷ contents (taken pi)) × IsValid (taken pi)
taken_lem pi v ne =
    let e : held (taken pi) ≡ held pi - 1 = omega arith in
    (
      rw e (Ring.window_of_ne_zero (2 ^ 32) pipesize pi.ring pi.nread (held pi) (omega arith)),
      omega arith,
    )

pub length-contents : (pi : Pipe) → length (contents pi) ≡ held pi
length-contents pi = Ring.length-window (2 ^ 32) pipesize pi.ring pi.nread (held pi)
