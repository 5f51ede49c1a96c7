-- ===== src/Ulib/Memory.antt =====
-- TDT4186 - OS/Labs/Lab3/user/ulib.c, kernel/string.c: the user's memmove against the kernel's, and gets.
use ntnu_courses.Base.{
  ℕ, ◌+◌, ◌<◌, ◌≡◌, sym, ◌∙◌, ◌&&◌, false, ltb, dec_lt, lt→ltb, ltb-eq-false, arith,
}
use ntnu_courses.Str.{Mem, copy_up, copy_down}
use ntnu_courses.Str.Move.{copy_up_lem, copy_down_lem, memmove_lem, moved}
use ntnu_courses.Ulib.{memmove}

moves : (m : Mem) (dst src n a : ℕ) → memmove m dst src n a ≡ moved m dst src n a
unfolding memmove
moves m dst src n a = elim (dec_lt dst src) [
  | yes lt ↦ rw (lt→ltb dst src lt) (copy_up_lem n src dst m a (up lt))
  | no ge ↦
      rw (ltb-eq-false dst src (omega (arith, ge)))
        (copy_down_lem n src dst m a (omega (arith, ge)))
]
  where
    up : dst < src → (ltb src dst && ltb dst (src + n)) ≡ false
    up lt = ground (arith, lt)

-- The user's memmove and the kernel's, which choose the direction of the copy by different tests, leave
-- the same memory, whatever the ranges.
pub memmove-memmove :
    (m : Mem) (dst src n a : ℕ) → memmove m dst src n a ≡ ntnu_courses.Str.memmove m dst src n a
memmove-memmove m dst src n a = moves m dst src n a ∙ sym (memmove_lem m dst src n a)
