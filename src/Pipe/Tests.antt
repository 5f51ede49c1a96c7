-- ===== src/Pipe/Tests.antt =====
-- A pipe whose counters are about to wrap, and the theorems at concrete histories.
use ntnu_courses.Base.{
  ℕ, ◌==◌, ◌≤◌, ◌+◌, ◌-◌, ◌^◌, ◌≡◌, ◌++◌, refl, true, false, some, List, [], ◌∷◌, arith,
}
use ntnu_courses.Base.Ring
use ntnu_courses.Pipe.{Pipe, Call, write, read, run}
use ntnu_courses.Pipe.Fifo.{IsValid, contents}
use ntnu_courses.Pipe.Close.{Loses, bad_reads, run_fifo}

abbrev fresh : Pipe
fresh =
    record (record { ring = λ _. 0; nread = 0; nwrite = 0; readopen = true; writeopen = true }) {
      nread = 2 ^ 32 - 1;
      nwrite = 2 ^ 32 - 1;
    }

fresh-IsValid : IsValid fresh
fresh-IsValid = omega arith

-- Three bytes go in, two come out, one more goes in, and copyout refuses the second byte of a read.
abbrev history : List Call
history =
    write false (λ i. some (b'a' + i)) 3 0
    ∷ read false (λ _. true) 2
    ∷ write false (λ _. some b'z') 2 0
    ∷ read false (λ i. i == 0) 3
    ∷ []

history_runs :
    let (sent, got, pi) = run history fresh in
    (got ≡ b'a' ∷ b'b' ∷ b'c' ∷ []) × (contents pi ≡ b'z' ∷ [])
unfolding run Ring.window
history_runs = (refl, refl)

run_fifo_example :
    let (sent, got, pi) = run history fresh in
    (left : List ℕ) × (lost : ℕ) × (contents fresh ++ sent ≡ left ++ contents pi)
    × Loses lost left got
    × (lost ≤ bad_reads history)
    × IsValid pi
run_fifo_example = run_fifo history fresh fresh-IsValid
