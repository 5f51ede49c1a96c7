-- ===== src/Str/Move.antt =====
-- What `memset` and `memmove` leave in memory, at every address.
use ntnu_courses.Base.{
  ℕ, zero, suc, ◌+◌, ◌-◌, ◌%◌, ◌≤◌, ◌≡◌, ◌∙◌, ◌&&◌, false, ltb, leb, if◌then◌else◌, update,
  ℕ_discrete, arith,
}
use ntnu_courses.Str.{Mem, fill, memset, copy_up, copy_down, memmove}

fill_lem :
    (k i dst c : ℕ) (m : Mem) (a : ℕ)
    → fill k i dst c m a ≡ (if leb (dst + i) a && ltb a (dst + i + k) then c % 256 else m a)
unfolding fill
fill_lem zero i dst c m a = ground arith
fill_lem (suc k) i dst c m a =
    ground (arith, fill_lem k (i + 1) dst c (update m (dst + i) (c % 256)) a)

-- After memset(dst, c, n) the n bytes from dst on are the low byte of c, and every other byte of
-- memory is what it was.
pub memset_lem :
    (m : Mem) (dst c n a : ℕ)
    → memset m dst c n a ≡ (if leb dst a && ltb a (dst + n) then c % 256 else m a)
unfolding memset
memset_lem m dst c n a = ground (arith, fill_lem n 0 dst c m a)

-- What a move leaves at `a`.
abbrev pub moved : Mem → ℕ → ℕ → ℕ → ℕ → ℕ
moved m dst src n a = if leb dst a && ltb a (dst + n) then m (src + (a - dst)) else m a

pub copy_up_lem :
    (k s d : ℕ) (m : Mem) (a : ℕ)
    → (ltb s d && ltb d (s + k)) ≡ false
    → copy_up k s d m a ≡ moved m d s k a
unfolding copy_up
copy_up_lem zero s d m a h = ground arith
copy_up_lem (suc k) s d m a h = ground (arith, copy_up_lem k (s + 1) (d + 1) (update m d (m s)) a)

moved_last :
    (m : Mem) (d s k a : ℕ)
    → s ≤ d
    → moved (update m (d + k) (m (s + k))) d s k a ≡ moved m d s (suc k) a
moved_last m d s k a h = elim (ℕ_discrete (d + k) a) [
  | yes e ↦ rw (← e) (ground arith)
  | no ne ↦ ground arith
]

pub copy_down_lem :
    (k s d : ℕ) (m : Mem) (a : ℕ) → s ≤ d → copy_down k (s + k) (d + k) m a ≡ moved m d s k a
unfolding copy_down
copy_down_lem zero s d m a h = ground arith
copy_down_lem (suc k) s d m a h =
    let es : s + suc k - 1 ≡ s + k = omega arith in
    let ed : d + suc k - 1 ≡ d + k = omega arith in
    rw (es, ed) (copy_down_lem k s d (update m (d + k) (m (s + k))) a h ∙ moved_last m d s k a h)

-- memmove(dst, src, n) copies the n bytes from src as they were before the call to dst, and changes
-- no other byte, also when the two ranges overlap in either direction.
pub memmove_lem : (m : Mem) (dst src n a : ℕ) → memmove m dst src n a ≡ moved m dst src n a
unfolding memmove
memmove_lem m dst src n a = ground (arith, copy_up_lem n src dst m a, copy_down_lem n src dst m a)
