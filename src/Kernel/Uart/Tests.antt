-- ===== src/Kernel/Uart/Tests.antt =====
-- Two characters over a line that is busy once.
use cr_ow_s.Base.{◌≡◌, refl, true, false, [], ◌∷◌, some, arith}
use cr_ow_s.Kernel.Uart.{uart_puts, uart_get, receive}
use cr_ow_s.Kernel.Uart.Traffic.{Sends, uart_puts-Sends}

uart_puts-Sends_example :
    Sends
      (b'h' ∷ b'i' ∷ [])
      (0x60 ∷ 0x40 ∷ 0x60 ∷ [])
      (uart_puts true (some (b'h' ∷ b'i' ∷ [])) (0x60 ∷ 0x40 ∷ 0x60 ∷ []))
uart_puts-Sends_example = uart_puts-Sends (b'h' ∷ b'i' ∷ []) (0x60 ∷ 0x40 ∷ 0x60 ∷ []) (omega arith)

uart_puts_disabled : uart_puts false (some (b'h' ∷ [])) [] ≡ some ([], [])
unfolding uart_puts
uart_puts_disabled = refl

uart_get_waits : uart_get true (0 ∷ 1 ∷ 65 ∷ []) ≡ some (65, [])
unfolding uart_get receive
uart_get_waits = refl
