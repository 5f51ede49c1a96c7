-- ===== src/Uart/Tests.antt =====
-- A transmit buffer whose counters are about to wrap.
use ntnu_courses.Base.{◌-◌, ◌^◌, ◌≡◌, ◌++◌, refl, Bool, true, false, List, [], ◌∷◌, arith}
use ntnu_courses.Uart.{Uart, uartstart, uartputc, Call, put, interrupt, run}
use ntnu_courses.Uart.Fifo.{IsValid, stream, run_fifo_uart}

abbrev fresh : Uart
fresh = record { tx_buf = λ i. 0; tx_w = 2 ^ 64 - 1; tx_r = 2 ^ 64 - 1; sent = [] }

fresh-IsValid : IsValid fresh
fresh-IsValid = omega arith

-- The device is busy for the first byte and idle for the second.
abbrev calls : List (List Bool × Call)
calls = ([], put b'a') ∷ ((true ∷ false ∷ []), put b'b') ∷ ((true ∷ []), interrupt) ∷ []

calls-run : ((run calls fresh).0 ≡ b'a' ∷ b'b' ∷ []) × ((run calls fresh).1.sent ≡ b'a' ∷ b'b' ∷ [])
unfolding run uartputc uartstart
calls-run = (refl, refl)

run_fifo_uart_example :
    (stream (run calls fresh).1 ≡ stream fresh ++ (run calls fresh).0) × IsValid (run calls fresh).1
run_fifo_uart_example = run_fifo_uart calls fresh fresh-IsValid
