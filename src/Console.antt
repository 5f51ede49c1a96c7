-- ===== src/Console.antt =====
-- TDT4186 - OS/Labs/Lab3/kernel/console.c: the line discipline of the console. cons.lock is held
-- from the start of a routine to its end, or to the point where it sleeps: such a stretch is one
-- step. What is sent to the UART and what becomes of procdump and wakeup is returned as a list of
-- effects.
pub mod Inv
pub mod Edit
pub mod Read
mod Tests
use ntnu_courses.Base.{
  ℕ, zero, suc, ◌+◌, ◌-◌, ◌%◌, ◌^◌, Bool, ◌&&◌, ◌||◌, true, false, not, Option, none, some, List,
  [], ◌∷◌, ◌++◌, ltb, ◌==◌, if◌then◌else◌, update,
}

abbrev pub input_buf_size : ℕ
input_buf_size = 128

abbrev pub u32 : ℕ → ℕ
u32 n = n % 2 ^ 32

-- Control-x is x - '@'.
abbrev pub ctrl_d : ℕ
ctrl_d = b'D' - b'@'

abbrev pub ctrl_h : ℕ
ctrl_h = b'H' - b'@'

abbrev pub ctrl_p : ℕ
ctrl_p = b'P' - b'@'

abbrev pub ctrl_u : ℕ
ctrl_u = b'U' - b'@'

abbrev pub newline : ℕ
newline = 10

abbrev pub carriage_return : ℕ
carriage_return = 13

abbrev pub delete_key : ℕ
delete_key = 0x7f

abbrev pub backspace : ℕ
backspace = 0x100

-- The bytes that consputc hands to uartputc_sync: '\b' is 8.
unfoldable pub consputc : ℕ → List ℕ
consputc c = if c == backspace then 8 ∷ b' ' ∷ 8 ∷ [] else c ∷ []

pub record Cons : Type 0 where
  pub buf : ℕ → ℕ
  pub r : ℕ
  pub w : ℕ
  pub e : ℕ

pub data Effect : Type 0 where
  echo : List ℕ → Effect
  dump : Effect  -- procdump()
  wake : Effect  -- wakeup(&cons.r)

-- uint subtraction wraps.
abbrev pub sub32 : ℕ → ℕ → ℕ
sub32 a b = u32 (a + 2 ^ 32 - b)

-- cons.e--; consputc(BACKSPACE);
abbrev pub rub_out : Cons → Cons
rub_out c = record c { e = sub32 c.e 1 }

-- The `while` of Control-U, with fuel.
pub kill_line : ℕ → Cons → List Effect × Cons
kill_line zero c = ([], c)
kill_line (suc f) c =
    let rest = kill_line f (rub_out c) in
    if not (c.e == c.w) && not (c.buf (sub32 c.e 1 % input_buf_size) == newline)
    then (echo (consputc backspace) ∷ rest.0, rest.1)
    else ([], c)

-- The default case, for a character that has a place in the buffer.
abbrev pub store : ℕ → Cons → Cons
store ch c = record c { buf = update c.buf (c.e % input_buf_size) ch; e = u32 (c.e + 1) }

abbrev pub end_of_line : ℕ → Cons → Bool
end_of_line ch c = ch == newline || ch == ctrl_d || sub32 c.e c.r == input_buf_size

pub add_char : ℕ → Cons → List Effect × Cons
unfolding consputc
add_char ch c =
    let c' : Cons = store ch c in
    if end_of_line ch c'
    then (echo (consputc ch) ∷ wake ∷ [], record c' { w = c'.e })
    else (echo (consputc ch) ∷ [], c')

-- Control-U takes at most as many rounds as the buffer has bytes.
pub consoleintr : ℕ → Cons → List Effect × Cons
consoleintr ch c =
    if ch == ctrl_p
    then (dump ∷ [], c)
    else if ch == ctrl_u
    then kill_line (input_buf_size + 1) c
    else if ch == ctrl_h || ch == delete_key
    then (if not (c.e == c.w) then (echo (consputc backspace) ∷ [], rub_out c) else ([], c))
    else if not (ch == 0) && ltb (sub32 c.e c.r) input_buf_size
    then add_char (if ch == carriage_return then newline else ch) c
    else ([], c)

-- How a stretch of consoleread ends: with -1, with a count, or asleep with `n` bytes still to go.
pub data Outcome : Type 0 where
  fail : Outcome
  returns : ℕ → Outcome
  sleeps : ℕ → Outcome

-- The loop of consoleread with `n` of `target` bytes to go; `user j` tells whether either_copyout
-- succeeds at the j-th byte. The bytes that were copied out are returned beside the outcome.
pub consoleread : Bool → (ℕ → Bool) → ℕ → ℕ → Cons → Outcome × List ℕ × Cons
consoleread killed user target zero c = (returns target, [], c)
consoleread killed user target (suc n) c =
    let ch : ℕ = c.buf (c.r % input_buf_size) in
    let c' : Cons = record c { r = u32 (c.r + 1) } in
    let rest = consoleread killed user target n c' in
    if c.r == c.w
    then (if killed then fail else sleeps (suc n), [], c)
    else if ch == ctrl_d
    then (
      returns (target - suc n),
      [],
      (if ltb (suc n) target then record c' { r = sub32 c'.r 1 } else c'),
    )
    else if not (user (target - suc n))
    then (returns (target - suc n), [], c')
    else if ch == newline
    then (returns (target - n), ch ∷ [], c')
    else (rest.0, ch ∷ rest.1, rest.2)

-- The loop of consolewrite from `i` with `k` bytes to go: the bytes given to uartputc, and the count.
pub consolewrite : (ℕ → Option ℕ) → ℕ → ℕ → List ℕ × ℕ
consolewrite user zero i = ([], i)
consolewrite user (suc k) i =
    let rest = consolewrite user k (i + 1) in
    elim (user i) [ none ↦ ([], i) | some ch ↦ (ch ∷ rest.0, rest.1) ]
