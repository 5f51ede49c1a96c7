-- ===== src/Uart/Fifo.antt =====
-- TDT4186 - OS/Labs/Lab3/kernel/uart.c: what goes in at uartputc comes out at THR, once and in order.
use ntnu_courses.Base.{
  ℕ, suc, ◌+◌, ◌-◌, ◌%◌, ◌^◌, ◌≤◌, ◌<◌, ◌≡◌, ◌≢◌, refl, sym, ◌∙◌, ap, Bool, true, false, Option,
  none, some, List, [], ◌∷◌, ◌++◌, append-nil, append_assoc, ◌==◌, if◌then◌else◌, inl, inr,
  Bool-cases, ==_iff, arith,
}
use ntnu_courses.Base.Ring
use ntnu_courses.Uart.{
  Uart, uart_tx_buf_size, u64, send_next, uartstart, enqueue, uartputc, Call, put, interrupt,
  put_result, run,
}

abbrev pub held : Uart → ℕ
held s = u64 (s.tx_w + 2 ^ 64 - s.tx_r)

pub record IsValid (s : Uart) : Type 0 where
  pub read_in : s.tx_r < 2 ^ 64
  pub write_in : s.tx_w < 2 ^ 64
  pub few : held s ≤ uart_tx_buf_size

abbrev pub waiting : Uart → List ℕ
waiting s = Ring.window (2 ^ 64) uart_tx_buf_size s.tx_buf s.tx_r (held s)

-- The bytes sent so far and those that wait.
abbrev pub stream : Uart → List ℕ
stream s = s.sent ++ waiting s

send_next-stream :
    (s : Uart)
    → IsValid s
    → s.tx_w ≢ s.tx_r
    → (stream (send_next s) ≡ stream s) × IsValid (send_next s)
send_next-stream s v ne =
    let e : held (send_next s) ≡ held s - 1 = omega arith in
    (
      append_assoc s.sent (s.tx_buf (s.tx_r % uart_tx_buf_size) ∷ []) (waiting (send_next s))
          ∙ ap (λ (l : List ℕ). s.sent ++ l)
              (rw e (
                sym (
                  Ring.window_of_ne_zero (2 ^ 64) uart_tx_buf_size s.tx_buf s.tx_r (held s)
                    (omega arith)))),
      omega arith,
    )

-- One turn of the loop of uartstart, when the buffer is not empty.
turn :
    (b : Bool) (idle : List Bool) (s : Uart)
    → IsValid s
    → (stream (send_next s) ≡ stream s) × IsValid (send_next s)
    → (IsValid (send_next s)
        → (stream (uartstart idle (send_next s)) ≡ stream (send_next s))
          × IsValid (uartstart idle (send_next s)))
    → (stream (if b then uartstart idle (send_next s) else s) ≡ stream s)
      × IsValid (if b then uartstart idle (send_next s) else s)
turn false idle s v (e, w) later = (refl, v)
turn true idle s v (e, w) later = let (e2, w2) = later w in (e2 ∙ e, w2)

-- uartstart neither loses nor makes nor reorders a byte, however the device answers.
pub uartstart-stream :
    (idle : List Bool) (s : Uart)
    → IsValid s
    → (stream (uartstart idle s) ≡ stream s) × IsValid (uartstart idle s)
unfolding uartstart
uartstart-stream [] s v = (refl, v)
uartstart-stream (busy_or_idle ∷ idle) s v = elim (Bool-cases (s.tx_w == s.tx_r)) [
  | inl empty ↦ rw empty (refl, v)
  | inr some_byte ↦ rw some_byte (
      turn busy_or_idle idle s v (send_next-stream s v (ground (arith, some_byte)))
        (λ w. uartstart-stream idle (send_next s) w))
]

enqueue-stream :
    (c : ℕ) (s : Uart)
    → IsValid s
    → held s < uart_tx_buf_size
    → (stream (enqueue c s) ≡ stream s ++ c ∷ []) × IsValid (enqueue c s)
enqueue-stream c s v room =
    let e : held (enqueue c s) ≡ suc (held s) = omega arith in
    (
      ap (λ (l : List ℕ). s.sent ++ l)
            (rw e (
              Ring.window-update_end (2 ^ 64) uart_tx_buf_size (held s) s.tx_r
                (s.tx_w % uart_tx_buf_size) c s.tx_buf v.read_in (λ j h. omega arith)
                (omega arith)))
          ∙ sym (append_assoc s.sent (waiting s) (c ∷ [])),
      omega arith,
    )

-- What uartputc does: it waits exactly when thirty-two bytes wait, and otherwise adds the byte to the
-- stream and nothing else.
pub data Put (c : ℕ) (s : Uart) : Option Uart → Type 0 where
  full : held s ≡ uart_tx_buf_size → Put c s none
  taken :
      {s' : Uart}
      → held s < uart_tx_buf_size
      → stream s' ≡ stream s ++ c ∷ []
      → IsValid s'
      → Put c s (some s')

pub uartputc_lem : (idle : List Bool) (c : ℕ) (s : Uart) → IsValid s → Put c s (uartputc idle c s)
unfolding uartputc
uartputc_lem idle c s v = elim (Bool-cases (s.tx_w == u64 (s.tx_r + uart_tx_buf_size))) [
  | inl no_room ↦
      let e : s.tx_w ≡ u64 (s.tx_r + uart_tx_buf_size) =
        (==_iff s.tx_w (u64 (s.tx_r + uart_tx_buf_size))).0 no_room in
      rw no_room (full (omega arith))
  | inr room ↦
      let few : held s < uart_tx_buf_size = roomy room in
      let (e, w) = enqueue-stream c s v few in
      let (e2, w2) = uartstart-stream idle (enqueue c s) w in rw room (taken few (e2 ∙ e) w2)
]
  where
    roomy : (s.tx_w == u64 (s.tx_r + uart_tx_buf_size)) ≡ false → held s < uart_tx_buf_size
    roomy h =
        let ne : s.tx_w ≢ u64 (s.tx_r + uart_tx_buf_size) = (λ e. ground (arith, h, e)) in
        omega (arith, v.few)

after_put :
    (l : List (List Bool × Call)) (c : ℕ) (s : Uart) (o : Option Uart)
    → IsValid s
    → Put c s o
    → ((t : Uart)
        → IsValid t
        → (stream (run l t).1 ≡ stream t ++ (run l t).0) × IsValid (run l t).1)
    → (stream (put_result (λ t. run l t) c s o).1 ≡ stream s ++ (put_result (λ t. run l t) c s o).0)
      × IsValid (put_result (λ t. run l t) c s o).1
after_put l c s none v (full h) later = later s v
after_put l c s (some s') v (taken room e w) later =
    let (e2, w2) = later s' w in
    (
      e2 ∙ ap (λ (x : List ℕ). x ++ (run l s').0) e ∙ append_assoc (stream s) (c ∷ []) (run l s').0,
      w2,
    )

-- In every sequence of writes and interrupts, what has been sent and what waits is what was there
-- before and then the bytes that uartputc took, in their order.
pub run_fifo_uart :
    (l : List (List Bool × Call)) (s : Uart)
    → IsValid s
    → (stream (run l s).1 ≡ stream s ++ (run l s).0) × IsValid (run l s).1
unfolding run
run_fifo_uart [] s v = (sym (append-nil (stream s)), v)
run_fifo_uart ((idle, interrupt) ∷ l) s v =
    let (e, w) = uartstart-stream idle s v in
    let (e2, w2) = run_fifo_uart l (uartstart idle s) w in
    (e2 ∙ ap (λ (x : List ℕ). x ++ (run l (uartstart idle s)).0) e, w2)
run_fifo_uart ((idle, put c) ∷ l) s v =
    after_put l c s (uartputc idle c s) v (uartputc_lem idle c s v) (λ t w. run_fifo_uart l t w)
