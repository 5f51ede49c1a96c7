-- ===== src/Console/Read.antt =====
-- What a read of the console hands out.
use ntnu_courses.Base.{
  ℕ, zero, suc, ◌+◌, ◌-◌, ◌%◌, ◌^◌, ◌≤◌, ◌≡◌, ◌≢◌, ◌⊎◌, refl, Bool, not, true, false, List, [], ◌∷◌,
  ◌++◌, length, ltb, ◌==◌, if◌then◌else◌, Bool-cases, inl, inr, arith,
}
use ntnu_courses.Base.Ring
use ntnu_courses.Console.{
  Cons, ctrl_d, newline, input_buf_size, u32, sub32, Outcome, fail, returns, sleeps, consoleread,
}
use ntnu_courses.Console.Inv.{IsValid}
use ntnu_courses.Console.Edit.{view}

-- The count that a stretch reports, having copied `bytes` of the `n` that were to go.
abbrev pub Counts : ℕ → ℕ → List ℕ → Outcome → Type 0
Counts target n bytes fail = Unit
Counts target n bytes (returns k) = k ≡ target - n + length bytes
Counts target n bytes (sleeps k) = k + length bytes ≡ n

-- At most the last byte is a line end.
abbrev pub UpToLine : List ℕ → Type 0
UpToLine [] = Unit
UpToLine (x ∷ xs) = ((x ≢ newline) ⊎ (xs ≡ [])) × UpToLine xs

pub record Took (target n : ℕ) (c : Cons) (r : Outcome × List ℕ × Cons) : Type 0 where
  pub order :
      ((view c).committed ≡ r.1 ++ (view r.2).committed)
      ⊎ ((x : ℕ) × ((view c).committed ≡ r.1 ++ x ∷ (view r.2).committed))
  pub pending : (view r.2).pending ≡ (view c).pending
  pub count : Counts target n r.1 r.0
  pub line : UpToLine r.1

abbrev next : Cons → Cons
next c = record c { r = u32 (c.r + 1) }

next_lem :
    (c : Cons)
    → IsValid c
    → c.r ≢ c.w
    → ((view c).committed ≡ c.buf (c.r % input_buf_size) ∷ (view (next c)).committed)
      × IsValid (next c)
next_lem c v ne =
    let e : sub32 c.w (u32 (c.r + 1)) ≡ sub32 c.w c.r - 1 = omega arith in
    (
      rw e (Ring.window_of_ne_zero (2 ^ 32) input_buf_size c.buf c.r (sub32 c.w c.r) (omega arith)),
      omega arith,
    )

Counts-later :
    (target n ch : ℕ) (bytes : List ℕ) (o : Outcome)
    → suc n ≤ target
    → Counts target n bytes o
    → Counts target (suc n) (ch ∷ bytes) o
Counts-later target n ch bytes fail le h = tt
Counts-later target n ch bytes (returns k) le h = omega arith
Counts-later target n ch bytes (sleeps k) le h = omega arith

Took-later :
    (target n : ℕ) (c : Cons) (r : Outcome × List ℕ × Cons)
    → IsValid c
    → c.r ≢ c.w
    → suc n ≤ target
    → c.buf (c.r % input_buf_size) ≢ newline
    → Took target n (next c) r
    → Took target (suc n) c (r.0, c.buf (c.r % input_buf_size) ∷ r.1, r.2)
Took-later target n c r v ne le mid t = record {
  order = later t.order;
  pending = t.pending;
  count = Counts-later target n (c.buf (c.r % input_buf_size)) r.1 r.0 le t.count;
  line = (inl mid, t.line);
}
  where
    later :
        ((view (next c)).committed ≡ r.1 ++ (view r.2).committed)
          ⊎ ((x : ℕ) × ((view (next c)).committed ≡ r.1 ++ x ∷ (view r.2).committed))
        → ((view c).committed ≡ c.buf (c.r % input_buf_size) ∷ (r.1 ++ (view r.2).committed))
          ⊎ ((x : ℕ) × ((view c).committed
                ≡ c.buf (c.r % input_buf_size) ∷ (r.1 ++ x ∷ (view r.2).committed)))
    later (inl q) = inl (rw ((next_lem c v ne).0, q))
    later (inr (x, q)) = inr (x, rw ((next_lem c v ne).0, q))

-- A reader takes committed bytes only, and never touches the line that is being typed. What it
-- copied out, followed by what is left, are the bytes that were committed, but for an end-of-file
-- mark or a byte that could not be copied, which is taken off between them. At most the last byte
-- that it copies ends a line, and the count that it returns, or sleeps with, is that of its bytes.
pub consoleread_lem :
    (killed : Bool) (user : ℕ → Bool) (target n : ℕ) (c : Cons)
    → IsValid c
    → n ≤ target
    → Took target n c (consoleread killed user target n c)
unfolding consoleread
consoleread_lem killed user target zero c v le = record {
  order = inl refl;
  pending = refl;
  count = omega arith;
  line = tt;
}
consoleread_lem killed user target (suc n) c v le = elim (Bool-cases (c.r == c.w)) [
  | inl empty ↦
      rw empty (record { order = inl refl; pending = refl; count = waiting killed; line = tt })
  | inr more ↦
      let ne : c.r ≢ c.w = ground arith in
      elim (Bool-cases (c.buf (c.r % input_buf_size) == ctrl_d)) [
        | inl eof ↦ rw (more, eof) (at_eof (ltb (suc n) target) ne)
        | inr text ↦ elim (Bool-cases (not (user (target - suc n)))) [
          | inl bad ↦
              rw (more, text, bad)
                (record {
                  order = inr (_, (next_lem c v ne).0);
                  pending = refl;
                  count = omega arith;
                  line = tt;
                })
          | inr good ↦ elim (Bool-cases (c.buf (c.r % input_buf_size) == newline)) [
            | inl end ↦
                rw (more, text, good, end)
                  (record {
                    order = inl ((next_lem c v ne).0);
                    pending = refl;
                    count = omega arith;
                    line = (inr refl, tt);
                  })
            | inr mid ↦
                rw (more, text, good, mid)
                  (Took-later target n c (consoleread killed user target n (next c)) v ne le
                    (ground arith)
                    (consoleread_lem killed user target n (next c) (next_lem c v ne).1
                      (omega arith)))
          ]
        ]
      ]
]
  where
    waiting : (b : Bool) → Counts target (suc n) [] (if b then fail else sleeps (suc n))
    waiting true = tt
    waiting false = omega arith

    at_eof :
        (b : Bool)
        → c.r ≢ c.w
        → Took target (suc n) c (
          returns (target - suc n),
          [],
          (if b then record (next c) { r = sub32 (u32 (c.r + 1)) 1 } else next c),
        )
    at_eof true ne =
        let e : sub32 (u32 (c.r + 1)) 1 ≡ c.r = omega (arith, v.r_in) in
        record { order = inl (rw e refl); pending = refl; count = omega arith; line = tt }
    at_eof false ne = record {
      order = inr (_, (next_lem c v ne).0);
      pending = refl;
      count = omega arith;
      line = tt;
    }
