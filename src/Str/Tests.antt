-- ===== src/Str/Tests.antt =====
-- Runs of the routines of string.c on small memories, and their theorems at concrete inputs.
use ntnu_courses.Base.{◌≡◌, refl, [], ◌∷◌, get_or, pos, negsuc}
use ntnu_courses.Str.{Mem, memmove, strncmp}
use ntnu_courses.Str.Move.{moved, memmove_lem}
use ntnu_courses.Str.Compare.{bytes}

-- "cat" at 0, "car" at 4, zeros behind.
abbrev words : Mem
words a = get_or (b'c' ∷ b'a' ∷ b't' ∷ 0 ∷ b'c' ∷ b'a' ∷ b'r' ∷ 0 ∷ []) a 0

strncmp_differs : strncmp words 0 4 3 ≡ pos 2
unfolding strncmp
strncmp_differs = refl

strncmp_below : strncmp words 4 0 8 ≡ negsuc 1
unfolding strncmp
strncmp_below = refl

-- Two overlapping moves, one in each direction.
memmove_up : bytes (memmove words 1 0 3) 0 4 ≡ b'c' ∷ b'c' ∷ b'a' ∷ b't' ∷ []
unfolding memmove bytes
memmove_up = refl

memmove_down : bytes (memmove words 0 1 3) 0 4 ≡ b'a' ∷ b't' ∷ 0 ∷ 0 ∷ []
unfolding memmove bytes
memmove_down = refl

memmove_lem_example : memmove words 1 0 3 2 ≡ moved words 1 0 3 2
memmove_lem_example = memmove_lem words 1 0 3 2
