-- ===== src/Lock/Nesting.antt =====
-- push_off and pop_off are matched: the outermost pair gives the interrupts back as they were.
use ntnu_courses.Base.{◌<◌, ◌≡◌, refl, false, Result, ok, ◌>>=◌, arith}
use ntnu_courses.Lock.{Cpu, push_off, pop_off}

-- A balanced use of the two: pairs, one after another and inside one another.
pub data Section : Type 0 where
  done : Section
  pair : Section → Section → Section  -- push_off; the first; pop_off; the second

pub run_section : Section → Cpu → Result Cpu
run_section done c = ok c
run_section (pair inner after) c =
    run_section inner (push_off c) >>= λ c'. pop_off c' >>= λ c''. run_section after c''

deeper : (c : Cpu) → 0 < (push_off c).noff
unfolding push_off
deeper c = omega arith

off : (c : Cpu) → (push_off c).intr ≡ false
unfolding push_off
off c = refl

pop-push_inside : (c : Cpu) → 0 < c.noff → c.intr ≡ false → pop_off (push_off c) ≡ ok c
unfolding push_off pop_off
pop-push_inside c n q = ground arith

run_inside : (x : Section) (c : Cpu) → 0 < c.noff → c.intr ≡ false → run_section x c ≡ ok c
unfolding run_section
run_inside done c n q = refl
run_inside (pair x y) c n q =
    rw (run_inside x (push_off c) (deeper c) (off c), pop-push_inside c n q) (run_inside y c n q)

-- The CPU after an outermost pair: only the saved state has changed.
abbrev saved : Cpu → Cpu
saved c = record c { intena = c.intr }

pop-push : (c : Cpu) → c.noff ≡ 0 → pop_off (push_off c) ≡ ok (saved c)
unfolding push_off pop_off
pop-push c n = ground arith

-- A balanced section ends, whatever its shape, with the nesting count that it began with and with
-- interrupts enabled exactly if they were enabled before, when it begins outside every section.
pub run_section_lem :
    (x : Section) (c : Cpu)
    → c.noff ≡ 0
    → (c' : Cpu) × (run_section x c ≡ ok c') × (c'.noff ≡ 0) × (c'.intr ≡ c.intr)
unfolding run_section
run_section_lem done c n = (c, refl, n, refl)
run_section_lem (pair x y) c n =
    let (c', run, z, q) = run_section_lem y (saved c) n in
    (c', rw (run_inside x (push_off c) (deeper c) (off c), pop-push c n) run, z, q)
