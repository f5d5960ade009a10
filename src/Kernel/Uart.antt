-- ===== src/Kernel/Uart.antt =====
-- The serial port, src/kernel/drivers/uart.c, as port traffic. What the device answers when a port
-- is read is a list; a list that ends leaves a wait unfinished.
pub mod Traffic
mod Tests
use cr_ow_s.Base.{
  ℕ, ◌+◌, ◌/◌, ◌%◌, Bool, true, false, not, List, [], ◌∷◌, ◌++◌, Option, none, some, ◌==◌,
  if◌then◌else◌,
}

-- SERIAL_COM1
abbrev pub serial_com1 : ℕ
serial_com1 = 0x3F8

-- inb with what it returned, and outb.
pub data Io : Type 0 where
  inb outb : ℕ → ℕ → Io

-- uart_init: the traffic, its value, and whether uart_enabled is set behind it.
pub uart_init : List Io × ℕ × Bool
uart_init = (
  outb (serial_com1 + 1) 0x00
      ∷ outb (serial_com1 + 3) 0x80
      ∷ outb (serial_com1 + 0) 0x01
      ∷ outb (serial_com1 + 1) 0x00
      ∷ outb (serial_com1 + 3) 0x03
      ∷ outb (serial_com1 + 2) 0xC7
      ∷ outb (serial_com1 + 4) 0x0B
      ∷ [],
  0,
  true,
)

-- `status & 0x20` and `status & 0x01`, as tests.
abbrev pub is_send_ready : ℕ → Bool
is_send_ready status = not (status / 32 % 2 == 0)

abbrev pub is_recv_ready : ℕ → Bool
is_recv_ready status = not (status % 2 == 0)

-- The traffic of a call and the answers that are left, behind one more read of the line status.
abbrev pub polled : ℕ → Option (List Io × List ℕ) → Option (List Io × List ℕ)
polled status none = none
polled status (some (log, left)) = some (inb (serial_com1 + 5) status ∷ log, left)

-- The wait of uart_putc and the byte behind it.
pub send : ℕ → List ℕ → Option (List Io × List ℕ)
send value [] = none
send value (status ∷ answers) =
    let again = send value answers in
    polled status
      (if is_send_ready status then some (outb serial_com1 value ∷ [], answers) else again)

pub uart_putc : Bool → ℕ → List ℕ → Option (List Io × List ℕ)
uart_putc enabled value answers = if not enabled then some ([], answers) else send value answers

abbrev pub behind : List Io → Option (List Io × List ℕ) → Option (List Io × List ℕ)
behind before none = none
behind before (some (log, left)) = some (before ++ log, left)

abbrev pub chain :
    Option (List Io × List ℕ) → (List ℕ → Option (List Io × List ℕ)) → Option (List Io × List ℕ)
chain none next = none
chain (some (log, left)) next = behind log (next left)

-- The loop of uart_puts, over the characters before NUL.
pub put_each : Bool → List ℕ → List ℕ → Option (List Io × List ℕ)
put_each enabled [] answers = some ([], answers)
put_each enabled (c ∷ string) answers =
    chain (uart_putc enabled c answers) (put_each enabled string)

-- uart_puts; `none` is NULL.
pub uart_puts : Bool → Option (List ℕ) → List ℕ → Option (List Io × List ℕ)
uart_puts enabled none answers = some ([], answers)
uart_puts enabled (some string) answers =
    if not enabled then some ([], answers) else put_each enabled string answers

-- uart_get: the wait, and the byte that the device answers behind it.
pub receive : List ℕ → Option (ℕ × List ℕ)
receive [] = none
receive (status ∷ []) = none
receive (status ∷ value ∷ answers) =
    let again = receive (value ∷ answers) in
    if is_recv_ready status then some (value % 256, answers) else again

pub uart_get : Bool → List ℕ → Option (ℕ × List ℕ)
uart_get enabled answers = if not enabled then some (0, answers) else receive answers
