-- ===== src/File/Write.antt =====
-- TDT4186 - OS/Labs/Lab3/kernel/file.c: filewrite on an inode, in transactions of bounded size.
use ntnu_courses.Base.{
  ℕ, zero, suc, ◌+◌, ◌-◌, ◌%◌, ◌^◌, ◌≤◌, ◌<◌, ◌≡◌, refl, ap, ◌∙◌, ==_refl, ==_iff, inl, inr, some,
  List, [], ◌∷◌, ltb, All, ℤ, pos, Bool-cases, arith,
}
use ntnu_courses.File.{max_bytes, advance, chunk, equals, write_loop, write_inode}

abbrev pub sum : List ℕ → ℕ
sum [] = 0
sum (x ∷ l) = x + sum l

chunk-le : (n : ℕ) → chunk n ≤ max_bytes
chunk-le n = ground arith

-- Every transaction is small, whatever writei returns.
write_loop-small :
    (writei : ℕ → ℕ → ℕ → ℤ) (fuel i n off : ℕ)
    → All (λ x. x ≤ max_bytes) (write_loop writei fuel i n off).0
unfolding write_loop
write_loop-small writei zero i n off = tt
write_loop-small writei (suc fuel) i n off = elim (Bool-cases (ltb i n)) [
  | inr over ↦ rw over tt
  | inl more ↦ elim (Bool-cases (equals (writei i off (chunk (n - i))) (chunk (n - i)))) [
    | inl whole ↦
        rw (more, whole)
          (
            chunk-le (n - i),
            write_loop-small writei fuel (i + chunk (n - i)) n
                (advance (writei i off (chunk (n - i))) off),
          )
    | inr part ↦ rw (more, part) (chunk-le (n - i), tt)
  ]
]

-- What the loop does when every writei succeeds.
record Whole (i n off : ℕ) (r : List ℕ × ℕ × ℕ) : Type 0 where
  bytes : sum r.0 ≡ n - i
  end : r.1 ≡ n
  offset : r.2 ≡ (off + (n - i)) % 2 ^ 32

write_loop-Whole :
    (writei : ℕ → ℕ → ℕ → ℤ)
    → ((a o n1 : ℕ) → writei a o n1 ≡ pos n1)
    → (fuel i n off : ℕ) → i ≤ n
    → n - i ≤ fuel
    → off < 2 ^ 32
    → Whole i n off (write_loop writei fuel i n off)
unfolding write_loop
write_loop-Whole writei good zero i n off le enough word = record {
  bytes = omega arith;
  end = omega arith;
  offset = omega arith;
}
write_loop-Whole writei good (suc fuel) i n off le enough word = elim (Bool-cases (ltb i n)) [
  | inr over ↦
      let e : i ≡ n = ground (arith, over) in
      rw over (record { bytes = omega arith; end = e; offset = omega arith })
  | inl more ↦
      let lt : i < n = ground (arith, more) in
      let size : (0 < chunk (n - i)) × (chunk (n - i) ≤ n - i) = ground arith in
      rw (more, good i off (chunk (n - i)), ==_refl (chunk (n - i)))
        (after (chunk (n - i)) size (
          write_loop-Whole writei good fuel (i + chunk (n - i)) n ((off + chunk (n - i)) % 2 ^ 32)
            (omega arith) (omega arith) (omega arith)))
]
  where
    after :
        (c : ℕ)
        → (0 < c) × (c ≤ n - i)
        → Whole
            (i + c)
            n
            ((off + c) % 2 ^ 32)
            (write_loop writei fuel (i + c) n ((off + c) % 2 ^ 32))
        → Whole i n off (
          c ∷ (write_loop writei fuel (i + c) n ((off + c) % 2 ^ 32)).0,
          (write_loop writei fuel (i + c) n ((off + c) % 2 ^ 32)).1,
          (write_loop writei fuel (i + c) n ((off + c) % 2 ^ 32)).2,
        )
    after c (a, b) w = record {
      bytes = omega (arith, w.bytes);
      end = w.end;
      offset = omega (arith, w.offset);
    }

-- When every call of writei writes all its bytes, filewrite on an inode returns n, in transactions of
-- 3072 bytes at most that together have n bytes, and moves the offset on by n.
pub write_inode_lem :
    (writei : ℕ → ℕ → ℕ → ℤ) (n off : ℕ)
    → ((a o n1 : ℕ) → writei a o n1 ≡ pos n1)
    → off < 2 ^ 32
    → All (λ x. x ≤ 3072) (write_inode writei n off).0
      × (sum (write_inode writei n off).0 ≡ n)
      × ((write_inode writei n off).1 ≡ some n)
      × ((write_inode writei n off).2 ≡ (off + n) % 2 ^ 32)
unfolding write_inode
write_inode_lem writei n off good word =
    let w : Whole 0 n off (write_loop writei n 0 n off) =
      write_loop-Whole writei good n 0 n off (omega arith) (omega arith) word in
    (
      write_loop-small writei n 0 n off,
      w.bytes ∙ omega arith,
      rw ((==_iff (write_loop writei n 0 n off).1 n).1 w.end) refl,
      w.offset ∙ ap (λ k. (off + k) % 2 ^ 32) (omega arith),
    )
