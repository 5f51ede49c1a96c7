-- ===== src/Console/Edit.antt =====
-- The console's ring as a line editor: what has been committed to readers, and the line that is
-- being typed.
use ntnu_courses.Base.{
  ℕ, zero, suc, ◌+◌, ◌%◌, ◌^◌, ◌<◌, ◌≡◌, ◌≢◌, refl, ap, ap₂, ◌∙◌, ◌&&◌, ◌||◌, not, List, [], ◌∷◌,
  ◌++◌, length, All, ltb, ◌==◌, if◌then◌else◌, Bool-cases, inl, inr, arith,
}
use ntnu_courses.Base.Ring
use ntnu_courses.Console.{
  Cons, ctrl_d, ctrl_h, ctrl_p, ctrl_u, newline, carriage_return, delete_key, input_buf_size, u32,
  sub32, kill_line, add_char, consoleintr, rub_out, store,
}
use ntnu_courses.Console.Inv.{IsValid}

pub record Line : Type 0 where
  pub committed : List ℕ
  pub pending : List ℕ

abbrev pub window : Cons → ℕ → ℕ → List ℕ
window c r n = Ring.window (2 ^ 32) input_buf_size c.buf r n

abbrev pub view : Cons → Line
view c = record { committed = window c c.r (sub32 c.w c.r); pending = window c c.w (sub32 c.e c.w) }

unfoldable pub drop_last : List ℕ → List ℕ
drop_last [] = []
drop_last (x ∷ []) = []
drop_last (x ∷ y ∷ ys) = x ∷ drop_last (y ∷ ys)

drop_last-nil : drop_last [] ≡ []
unfolding drop_last
drop_last-nil = refl

drop_last-append : (xs : List ℕ) (x : ℕ) → drop_last (xs ++ x ∷ []) ≡ xs
unfolding drop_last
drop_last-append [] x = refl
drop_last-append (y ∷ []) x = refl
drop_last-append (y ∷ z ∷ zs) x = ap (λ l. y ∷ l) (drop_last-append (z ∷ zs) x)

-- What a line editor does at a character: Control-U throws the line away, Control-H and Delete its
-- last character; any other joins the line, if committed and pending text leave it room, and the
-- line is committed at its end, at Control-D and when the room is used up.
unfoldable pub commit : ℕ → Line → Line
commit ch l =
    if ch == newline || ch == ctrl_d || length l.committed + length l.pending == input_buf_size
    then record { committed = l.committed ++ l.pending; pending = [] }
    else l

abbrev pub type_in : ℕ → Line → Line
type_in ch l = commit ch (record l { pending = l.pending ++ ch ∷ [] })

unfoldable pub edit : ℕ → Line → Line
edit ch l =
    if ch == ctrl_p
    then l
    else if ch == ctrl_u
    then record l { pending = [] }
    else if ch == ctrl_h || ch == delete_key
    then record l { pending = drop_last l.pending }
    else if not (ch == 0) && ltb (length l.committed + length l.pending) input_buf_size
    then type_in (if ch == carriage_return then newline else ch) l
    else l

-- No line end stands in the line that is being typed.
abbrev pub OneLine : Cons → Type 0
OneLine c = All (λ x. x ≢ newline) (view c).pending

All-before :
    (xs : List ℕ) (x : ℕ) → All (λ y. y ≢ newline) (xs ++ x ∷ []) → All (λ y. y ≢ newline) xs
All-before [] x h = tt
All-before (y ∷ ys) x h = (h.0, All-before ys x h.1)

All-last : (xs : List ℕ) (x : ℕ) → All (λ y. y ≢ newline) (xs ++ x ∷ []) → x ≢ newline
All-last [] x h = h.0
All-last (y ∷ ys) x h = All-last ys x h.1

All-snoc :
    (xs : List ℕ) (x : ℕ)
    → All (λ y. y ≢ newline) xs
    → x ≢ newline
    → All (λ y. y ≢ newline) (xs ++ x ∷ [])
All-snoc [] x h k = (k, tt)
All-snoc (y ∷ ys) x h k = (h.0, All-snoc ys x h.1 k)

module _ (c : Cons) (v : IsValid c) where
  -- The line that is typed, with its last character apart.
  pending-split :
      c.e ≢ c.w
      → (view c).pending ≡ (view (rub_out c)).pending ++ c.buf (sub32 c.e 1 % input_buf_size) ∷ []
  unfolding Ring.window
  pending-split ne =
      let k : sub32 c.e c.w ≡ sub32 (sub32 c.e 1) c.w + 1 = omega arith in
      let p : (c.w + sub32 (sub32 c.e 1) c.w) % 2 ^ 32 ≡ sub32 c.e 1 = omega arith in
      ap (λ n. window c c.w n) k
      ∙ Ring.window-append (2 ^ 32) input_buf_size (sub32 (sub32 c.e 1) c.w) 1 c.w c.buf v.w_in
      ∙ ap (λ q. (view (rub_out c)).pending ++ c.buf (q % input_buf_size) ∷ []) p

  rub_out-IsValid : c.e ≢ c.w → IsValid (rub_out c)
  rub_out-IsValid ne = omega arith

  rub_out-view : c.e ≢ c.w → drop_last (view c).pending ≡ (view (rub_out c)).pending
  rub_out-view ne = rw (pending-split ne) (drop_last-append (view (rub_out c)).pending _)

  pending-empty : c.e ≡ c.w → (view c).pending ≡ []
  unfolding Ring.window
  pending-empty e = let z : sub32 c.e c.w ≡ 0 = omega arith in rw z

  length-view : length (view c).committed + length (view c).pending ≡ sub32 c.e c.r
  length-view = omega (
    arith,
    Ring.length-window (2 ^ 32) input_buf_size c.buf c.r (sub32 c.w c.r),
    Ring.length-window (2 ^ 32) input_buf_size c.buf c.w (sub32 c.e c.w),
  )

  joined : window c c.r (sub32 c.e c.r) ≡ (view c).committed ++ (view c).pending
  joined =
      let k : sub32 c.e c.r ≡ sub32 c.w c.r + sub32 c.e c.w = omega arith in
      let p : (c.r + sub32 c.w c.r) % 2 ^ 32 ≡ c.w = omega arith in
      ap (λ n. window c c.r n) k
      ∙ Ring.window-append (2 ^ 32) input_buf_size (sub32 c.w c.r) (sub32 c.e c.w) c.r c.buf v.r_in
      ∙ ap (λ q. (view c).committed ++ window c q (sub32 c.e c.w)) p

  module _ (room : sub32 c.e c.r < input_buf_size) (ch : ℕ) where
    store-IsValid : IsValid (store ch c)
    store-IsValid = omega arith

    store-pending : (view (store ch c)).pending ≡ (view c).pending ++ ch ∷ []
    store-pending =
        let k : sub32 (u32 (c.e + 1)) c.w ≡ suc (sub32 c.e c.w) = omega arith in
        rw k (
          Ring.window-update_end (2 ^ 32) input_buf_size (sub32 c.e c.w) c.w (c.e % input_buf_size)
            ch c.buf v.w_in (λ j h. omega arith) (omega arith))

    store-committed : (view (store ch c)).committed ≡ (view c).committed
    store-committed =
        Ring.window-update (2 ^ 32) input_buf_size (sub32 c.w c.r) c.r (c.e % input_buf_size) ch
          c.buf v.r_in (λ j h. omega arith)

-- With the buffer's size and one more as fuel, Control-U throws away all of the line.
kill_line-view :
    (f : ℕ) (c : Cons)
    → IsValid c
    → OneLine c
    → sub32 c.e c.w < f
    → view (kill_line f c).1 ≡ record { committed = (view c).committed; pending = [] }
unfolding kill_line
kill_line-view zero c v one lt = absurd (omega arith)
kill_line-view (suc f) c v one lt = elim (Bool-cases (c.e == c.w)) [
  | inl empty ↦ ground (arith, pending-empty c v)
  | inr more ↦
      let ne : c.e ≢ c.w = ground arith in
      let split = pending-split c v ne in
      let one' = rw split at one in
      ground (
        arith,
        All-last (view (rub_out c)).pending (c.buf (sub32 c.e 1 % input_buf_size)) one',
        kill_line-view f (rub_out c) (rub_out-IsValid c v ne)
            (All-before (view (rub_out c)).pending (c.buf (sub32 c.e 1 % input_buf_size)) one'),
      )
]

-- The state after the line has been committed.
abbrev committed_state : Cons → Cons
committed_state c = record c { w = c.e }

commit-view :
    (c : Cons)
    → IsValid c
    → view (committed_state c)
      ≡ record { committed = (view c).committed ++ (view c).pending; pending = [] }
unfolding Ring.window
commit-view c v = let z : sub32 c.e c.e ≡ 0 = omega (arith, v.e_in) in rw (z, joined c v)

module _ (ch : ℕ) (c : Cons) (v : IsValid c) (room : sub32 c.e c.r < input_buf_size) where
  store-view :
      view (store ch c)
      ≡ record { committed = (view c).committed; pending = (view c).pending ++ ch ∷ [] }
  store-view = ap₂ line (store-committed c v room ch) (store-pending c v room ch)
    where
      line : List ℕ → List ℕ → Line
      line a b = record { committed = a; pending = b }

  add_char-view : view (add_char ch c).1 ≡ type_in ch (view c)
  unfolding add_char commit
  add_char-view = ground (
    arith,
    store-view,
    store-committed c v room ch,
    store-pending c v room ch,
    length-view (store ch c) (store-IsValid c v room ch),
    commit-view (store ch c) (store-IsValid c v room ch),
  )

-- Every character does to the console what it does to the line editor: the bytes that readers may
-- take and the line that is being typed are afterwards those of `edit`.
pub consoleintr-view :
    (ch : ℕ) (c : Cons) → IsValid c → OneLine c → view (consoleintr ch c).1 ≡ edit ch (view c)
unfolding consoleintr edit
consoleintr-view ch c v one = ground (
  arith,
  kill_line-view (input_buf_size + 1) c v one,
  v.few,
  v.ordered,
  rub_out-view c v,
  pending-empty c v,
  drop_last-nil,
  length-view c v,
  add_char-view (if ch == carriage_return then newline else ch) c v,
)

All-drop_last : (xs : List ℕ) → All (λ y. y ≢ newline) xs → All (λ y. y ≢ newline) (drop_last xs)
unfolding drop_last
All-drop_last [] h = tt
All-drop_last (x ∷ []) h = tt
All-drop_last (x ∷ y ∷ ys) h = (h.0, All-drop_last (y ∷ ys) h.1)

edit-OneLine :
    (ch : ℕ) (l : Line)
    → All (λ y. y ≢ newline) l.pending
    → All (λ y. y ≢ newline) (edit ch l).pending
unfolding edit commit
edit-OneLine ch l h = ground (
  arith,
  All-drop_last l.pending h,
  All-snoc l.pending (if ch == carriage_return then newline else ch) h,
)

-- No line end is ever left in the line that is being typed, whatever character arrives.
pub consoleintr-OneLine : (ch : ℕ) (c : Cons) → IsValid c → OneLine c → OneLine (consoleintr ch c).1
consoleintr-OneLine ch c v one =
    rw (ap (λ (l : Line). l.pending) (consoleintr-view ch c v one)) (edit-OneLine ch (view c) one)
