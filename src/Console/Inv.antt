-- ===== src/Console/Inv.antt =====
-- The three indices of the console's buffer stay in order, less than a buffer apart.
use ntnu_courses.Base.{ℕ, zero, suc, ◌+◌, ◌^◌, ◌≤◌, ◌<◌, ◌≡◌, Bool, ◌==◌, if◌then◌else◌, arith}
use ntnu_courses.Console.{
  Cons, carriage_return, newline, input_buf_size, u32, sub32, kill_line, add_char, consoleintr,
  consoleread, rub_out,
}

-- r ≤ w ≤ e in the order of the wrapping counters, and all within one buffer.
pub record IsValid (c : Cons) : Type 0 where
  pub r_in : c.r < 2 ^ 32
  pub w_in : c.w < 2 ^ 32
  pub e_in : c.e < 2 ^ 32
  pub few : sub32 c.e c.r ≤ input_buf_size
  pub ordered : sub32 c.w c.r + sub32 c.e c.w ≡ sub32 c.e c.r

kill_line-IsValid : (f : ℕ) (c : Cons) → IsValid c → IsValid (kill_line f c).1
unfolding kill_line
kill_line-IsValid zero c v = v
kill_line-IsValid (suc f) c v = ground (arith, kill_line-IsValid f (rub_out c))

add_char-IsValid :
    (ch : ℕ) (c : Cons) → IsValid c → sub32 c.e c.r < input_buf_size → IsValid (add_char ch c).1
unfolding add_char
add_char-IsValid ch c v room = ground arith

-- Whatever character the UART delivers, the console's indices stay in order: the read index never
-- passes the write index, nor that the edit index, and never more than a buffer lies between them.
pub consoleintr-IsValid : (ch : ℕ) (c : Cons) → IsValid c → IsValid (consoleintr ch c).1
unfolding consoleintr
consoleintr-IsValid ch c v = ground (
  arith,
  kill_line-IsValid (input_buf_size + 1) c,
  add_char-IsValid (if ch == carriage_return then newline else ch) c,
)

-- A read of any size keeps the indices in order too.
pub consoleread-IsValid :
    (killed : Bool) (user : ℕ → Bool) (target n : ℕ) (c : Cons)
    → IsValid c
    → IsValid (consoleread killed user target n c).2
unfolding consoleread
consoleread-IsValid killed user target zero c v = v
consoleread-IsValid killed user target (suc n) c v =
    ground (arith, consoleread-IsValid killed user target n (record c { r = u32 (c.r + 1) }))
