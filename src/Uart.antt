-- ===== src/Uart.antt =====
-- TDT4186 - OS/Labs/Lab3/kernel/uart.c: the transmit buffer. uart_tx_lock makes each call one step.
-- What the device answers is an argument: `idle` lists, for the reads of LSR that a call makes, whether
-- LSR_TX_IDLE is set, and a device that has no more answers is busy. `sent` is what went to THR.
-- The kernel has not panicked (uartputc would spin).
pub mod Fifo
mod Tests
use ntnu_courses.Base.{
  ℕ, ◌+◌, ◌-◌, ◌%◌, ◌^◌, Bool, true, false, Option, none, some, List, [], ◌∷◌, ◌++◌, ◌==◌,
  if◌then◌else◌, update,
}

abbrev pub uart_tx_buf_size : ℕ
uart_tx_buf_size = 32

-- uint64.
abbrev pub u64 : ℕ → ℕ
u64 n = n % 2 ^ 64

pub record Uart : Type 0 where
  pub tx_buf : ℕ → ℕ
  pub tx_w : ℕ
  pub tx_r : ℕ
  pub sent : List ℕ

-- The body of the loop of uartstart behind its two tests.
abbrev pub send_next : Uart → Uart
send_next s = record s {
  tx_r = u64 (s.tx_r + 1);
  sent = s.sent ++ s.tx_buf (s.tx_r % uart_tx_buf_size) ∷ [];
}

unfoldable pub uartstart : List Bool → Uart → Uart
uartstart [] s = s
uartstart (busy_or_idle ∷ idle) s =
    let next = uartstart idle (send_next s) in
    if s.tx_w == s.tx_r then s else if busy_or_idle then next else s

-- The byte in its place, and the counter.
abbrev pub enqueue : ℕ → Uart → Uart
enqueue c s = record s {
  tx_buf = update s.tx_buf (s.tx_w % uart_tx_buf_size) c;
  tx_w = u64 (s.tx_w + 1);
}

-- One round of the loop of uartputc: `none` means that the caller sleeps for room in the buffer.
unfoldable pub uartputc : List Bool → ℕ → Uart → Option Uart
unfolding uartstart
uartputc idle c s =
    if s.tx_w == u64 (s.tx_r + uart_tx_buf_size) then none else some (uartstart idle (enqueue c s))

-- uartgetc by the two registers that it reads; `none` is the -1 of the code.
abbrev pub uartgetc : Bool → ℕ → Option ℕ
uartgetc rx_ready rhr = if rx_ready then some rhr else none

-- uartintr: `input` are the bytes that are ready when it runs, which it gives to `consoleintr` one by
-- one; then it sends.
pub take_input : {C : Type 0} → (ℕ → C → C) → List ℕ → C → C
take_input consoleintr [] k = k
take_input consoleintr (c ∷ input) k = take_input consoleintr input (consoleintr c k)

abbrev pub uartintr : {C : Type 0} → (ℕ → C → C) → List ℕ → List Bool → C × Uart → C × Uart
uartintr consoleintr input idle (k, s) = (take_input consoleintr input k, uartstart idle s)

-- The calls on the transmit buffer.
pub data Call : Type 0 where
  put : ℕ → Call
  interrupt : Call

-- A byte in front of those that the later calls took.
abbrev pub took : ℕ → List ℕ × Uart → List ℕ × Uart
took c (l, s) = (c ∷ l, s)

-- The rest of a sequence, `later`, behind a call of uartputc by its outcome.
abbrev pub put_result : (Uart → List ℕ × Uart) → ℕ → Uart → Option Uart → List ℕ × Uart
put_result later c s none = later s
put_result later c s (some s') = took c (later s')

-- A sequence of calls with the answers of the device to each, and the bytes that uartputc took; a
-- caller that has to wait has not put its byte.
unfoldable pub run : List (List Bool × Call) → Uart → List ℕ × Uart
run [] s = ([], s)
run ((idle, interrupt) ∷ l) s = run l (uartstart idle s)
run ((idle, put c) ∷ l) s = put_result (λ t. run l t) c s (uartputc idle c s)
