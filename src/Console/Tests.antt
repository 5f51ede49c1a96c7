-- ===== src/Console/Tests.antt =====
-- Typing at the console, and its theorems at concrete states.
use ntnu_courses.Base.{ℕ, ◌+◌, ◌-◌, ◌^◌, ◌≡◌, refl, true, false, some, List, [], ◌∷◌, arith}
use ntnu_courses.Base.Ring
use ntnu_courses.Console.{
  Cons, ctrl_u, delete_key, carriage_return, newline, kill_line, add_char, consoleintr, consoleread,
  consolewrite,
}
use ntnu_courses.Console.Inv.{IsValid}
use ntnu_courses.Console.Edit.{view, edit, OneLine, consoleintr-view}

-- Counters about to wrap.
abbrev fresh : Cons
fresh = record { buf = λ _. 0; r = 2 ^ 32 - 2; w = 2 ^ 32 - 2; e = 2 ^ 32 - 2 }

fresh-IsValid : IsValid fresh
fresh-IsValid = omega arith

fresh-OneLine : OneLine fresh
unfolding Ring.window
fresh-OneLine = tt

type_all : List ℕ → Cons → Cons
type_all [] c = c
type_all (ch ∷ l) c = type_all l (consoleintr ch c).1

-- "xy", Control-U, "az", Delete, "b", Return: the reader gets "ab" and a line feed.
typed :
    (consoleread false
      (λ _. true)
      10
      10
      (type_all
        (b'x' ∷ b'y' ∷ ctrl_u ∷ b'a' ∷ b'z' ∷ delete_key ∷ b'b' ∷ carriage_return ∷ [])
        fresh)).1
    ≡ b'a' ∷ b'b' ∷ newline ∷ []
unfolding type_all consoleintr kill_line add_char consoleread
typed = refl

consolewrite_stops : consolewrite (λ i. some (b'a' + i)) 2 0 ≡ (b'a' ∷ b'b' ∷ [], 2)
unfolding consolewrite
consolewrite_stops = refl

consoleintr-view_example : view (consoleintr ctrl_u fresh).1 ≡ edit ctrl_u (view fresh)
consoleintr-view_example = consoleintr-view ctrl_u fresh fresh-IsValid fresh-OneLine
