-- ===== src/Kernel/Uart/Traffic.antt =====
-- What uart_puts sends, and when.
use cr_ow_s.Base.{
  ℕ, suc, ◌+◌, ◌≤◌, ◌<◌, ◌≡◌, refl, true, false, List, [], ◌∷◌, Option, none, some, arith, length,
  Bool-cases, inl, inr, if◌then◌else◌,
}
use cr_ow_s.Kernel.Uart.{
  Io, inb, outb, serial_com1, is_send_ready, polled, send, uart_putc, behind, chain, put_each,
  uart_puts,
}

-- The traffic of a text over the answers: every byte follows, at once, an answer that the line is
-- ready, and the port is read again before the next byte.
pub data Transmits : List ℕ → List ℕ → List Io → List ℕ → Type 0 where
  done : (answers : List ℕ) → Transmits [] answers [] answers
  busy :
      (c status : ℕ) (text answers left : List ℕ) (log : List Io)
      → is_send_ready status ≡ false
      → Transmits (c ∷ text) answers log left
      → Transmits (c ∷ text) (status ∷ answers) (inb (serial_com1 + 5) status ∷ log) left
  ready :
      (c status : ℕ) (text answers left : List ℕ) (log : List Io)
      → is_send_ready status ≡ true
      → Transmits text answers log left
      → Transmits
          (c ∷ text)
          (status ∷ answers)
          (inb (serial_com1 + 5) status ∷ (outb serial_com1 c ∷ log))
          left

-- How many answers say that the line is ready.
abbrev pub ready_answers : List ℕ → ℕ
ready_answers [] = 0
ready_answers (a ∷ rest) = if is_send_ready a then suc (ready_answers rest) else ready_answers rest

-- A call that comes back, with the traffic of the text.
pub data Sends (text answers : List ℕ) : Option (List Io × List ℕ) → Type 0 where
  sends :
      (log : List Io) (left : List ℕ)
      → Transmits text answers log left
      → Sends text answers (some (log, left))

Sends-polled :
    (c status : ℕ) (text answers : List ℕ) (o : Option (List Io × List ℕ))
    → is_send_ready status ≡ false
    → Sends (c ∷ text) answers o
    → Sends (c ∷ text) (status ∷ answers) (polled status o)
Sends-polled c status text answers none e none_such = elim none_such [ ]
Sends-polled c status text answers (some _) e (sends log left t) =
    sends _ left (busy c status text answers left log e t)

Sends-sent :
    (c status : ℕ) (text answers : List ℕ) (o : Option (List Io × List ℕ))
    → is_send_ready status ≡ true
    → Sends text answers o
    → Sends
        (c ∷ text)
        (status ∷ answers)
        (behind (inb (serial_com1 + 5) status ∷ (outb serial_com1 c ∷ [])) o)
Sends-sent c status text answers none e none_such = elim none_such [ ]
Sends-sent c status text answers (some _) e (sends log left t) =
    sends _ left (ready c status text answers left log e t)

behind-polled :
    (status : ℕ) (log : List Io) (o : Option (List Io × List ℕ))
    → behind (inb (serial_com1 + 5) status ∷ log) o ≡ polled status (behind log o)
behind-polled status log none = refl
behind-polled status log (some (more, left)) = refl

chain-polled :
    (status : ℕ) (o : Option (List Io × List ℕ)) (next : List ℕ → Option (List Io × List ℕ))
    → chain (polled status o) next ≡ polled status (chain o next)
chain-polled status none next = refl
chain-polled status (some (log, left)) next = behind-polled status log (next left)

-- One byte, and a continuation that sends the rest of the text.
send-Sends :
    (c : ℕ) (text : List ℕ) (next : List ℕ → Option (List Io × List ℕ)) (answers : List ℕ)
    → ((left : List ℕ) → length text ≤ ready_answers left → Sends text left (next left))
    → length text < ready_answers answers
    → Sends (c ∷ text) answers (chain (send c answers) next)
unfolding send
send-Sends c text next [] good enough = absurd (omega arith)
send-Sends c text next (a ∷ rest) good enough = elim (Bool-cases (is_send_ready a)) [
  | inl e ↦
      let remain : length text ≤ ready_answers rest = ground (arith, e, enough) in
      rw e (Sends-sent c a text rest (next rest) e (good rest remain))
  | inr e ↦
      let remain : length text < ready_answers rest = ground (arith, e, enough) in
      rw (e, chain-polled a (send c rest) next)
        (Sends-polled c a text rest (chain (send c rest) next) e
          (send-Sends c text next rest good remain))
]

put_each-Sends :
    (text answers : List ℕ)
    → length text ≤ ready_answers answers
    → Sends text answers (put_each true text answers)
unfolding put_each uart_putc
put_each-Sends [] answers enough = sends [] answers (done answers)
put_each-Sends (c ∷ text) answers enough =
    send-Sends c text (put_each true text) answers (λ left h. put_each-Sends text left h)
      (omega arith)

-- On an enabled port whose device says at least once for each character that the line is ready,
-- uart_puts comes back. It has sent the characters of the string before its NUL, in order, each
-- one right behind such an answer to a read of the line status that nothing was sent on before.
pub uart_puts-Sends :
    (text answers : List ℕ)
    → length text ≤ ready_answers answers
    → Sends text answers (uart_puts true (some text) answers)
unfolding uart_puts
uart_puts-Sends text answers enough = put_each-Sends text answers enough
