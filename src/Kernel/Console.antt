-- ===== src/Kernel/Console.antt =====
-- What kinit of src/kernel/core/main.c tells the serial port while it goes over the memory map: its
-- lines are built with snprintf in a buffer on the stack, and sent with uart_puts. The stale string of
-- snprintf is taken to be the same at each call.
pub mod Buffer
pub mod Lines
pub mod Fields
pub mod Shows
pub mod Loop
pub mod Told
mod Tests
use cr_ow_s.Base.{
  ℕ, zero, suc, ◌+◌, ◌/◌, List, [], ◌∷◌, Option, none, some, ltb, ◌==◌, if◌then◌else◌,
}
use cr_ow_s.Base.Words.{add64}
use cr_ow_s.Base.Memory.{Memory}
use cr_ow_s.Kernel.{load32, load64}
use cr_ow_s.Kernel.Init.{Boot, map_header_bytes, visit}
use cr_ow_s.Kernel.Str.{Arg, Printed, printed, unsupported, overrun, undefined, snprintf}
use cr_ow_s.Kernel.Str.Exact.{prefix}
use cr_ow_s.Kernel.Str.Clearing.{clear_line}

-- The size of memmap_line.
abbrev pub line_bytes : ℕ
line_bytes = 256

-- The formats of the line before the loop and of the one for each entry.
abbrev pub map_line : List ℕ
map_line =
    b'I' ∷ b't' ∷ b'e' ∷ b'r' ∷ b'a' ∷ b't' ∷ b'i' ∷ b'n' ∷ b'g' ∷ b' ' ∷ b'M' ∷ b'e' ∷ b'm' ∷ b'o'
    ∷ b'r' ∷ b'y' ∷ b' ' ∷ b'M' ∷ b'a' ∷ b'p' ∷ b' ' ∷ b'p' ∷ b'r' ∷ b'o' ∷ b'v' ∷ b'i' ∷ b'd'
    ∷ b'e' ∷ b'd' ∷ b' ' ∷ b'b' ∷ b'y' ∷ b' ' ∷ b'M' ∷ b'u' ∷ b'l' ∷ b't' ∷ b'i' ∷ b'b' ∷ b'o'
    ∷ b'o' ∷ b't' ∷ b'2' ∷ b' ' ∷ b'(' ∷ b'%' ∷ b'u' ∷ b' ' ∷ b'b' ∷ b'y' ∷ b't' ∷ b'e' ∷ b's'
    ∷ b',' ∷ b' ' ∷ b'%' ∷ b'u' ∷ b' ' ∷ b'e' ∷ b'n' ∷ b't' ∷ b'r' ∷ b'i' ∷ b'e' ∷ b's' ∷ b')'
    ∷ b'.' ∷ 13 ∷ 10 ∷ []

abbrev pub entry_line : List ℕ
entry_line =
    b' ' ∷ b' ' ∷ b' ' ∷ b'B' ∷ b'a' ∷ b's' ∷ b'e' ∷ b' ' ∷ b'0' ∷ b'x' ∷ b'%' ∷ b'X' ∷ b' ' ∷ b'-'
    ∷ b'-' ∷ b' ' ∷ b'L' ∷ b'e' ∷ b'n' ∷ b'g' ∷ b't' ∷ b'h' ∷ b' ' ∷ b'0' ∷ b'x' ∷ b'%' ∷ b'X'
    ∷ b' ' ∷ b'-' ∷ b'-' ∷ b' ' ∷ b'T' ∷ b'y' ∷ b'p' ∷ b'e' ∷ b' ' ∷ b'%' ∷ b'd' ∷ 13 ∷ 10 ∷ []

-- The characters that uart_puts sends from an address: those before NUL, if one is met in so many
-- bytes.
pub string_at : ℕ → ℕ → Memory → Option (List ℕ)
string_at zero a m = none
string_at (suc reads) a m =
    let rest = string_at reads (a + 1) m in if m a == 0 then some [] else prefix (m a ∷ []) rest

abbrev pub with_memory : Memory → Option (List ℕ) → Option (Memory × List ℕ)
with_memory m none = none
with_memory m (some text) = some (m, text)

-- uart_puts of the buffer, whatever snprintf returned; `none` if its behaviour is undefined.
abbrev pub sent : ℕ → ℕ → Printed → Option (Memory × List ℕ)
sent reads line (printed n m) = with_memory m (string_at reads line m)
sent reads line (unsupported m) = with_memory m (string_at reads line m)
sent reads line overrun = none
sent reads line undefined = none

-- snprintf and uart_puts of memmap_line, which is at `line`: memory and the characters that are sent.
pub say : List ℕ → ℕ → ℕ → List ℕ → List Arg → Memory → Option (Memory × List ℕ)
say stale reads line fmt args m = sent reads line (snprintf stale line line_bytes fmt args m)

-- What the three statements before the choice do at the entry `p`.
pub say_entry : List ℕ → ℕ → ℕ → ℕ → Memory → Option (Memory × List ℕ)
say_entry stale reads line p m =
    let cleared = clear_line reads line m in
    say stale reads line entry_line
      (Arg.number (load64 cleared p)
        ∷ Arg.number (load64 cleared (p + 8))
        ∷ Arg.number (load32 cleared (p + 16))
        ∷ [])
      cleared

abbrev pub line_first : List ℕ → Option (Boot × List (List ℕ)) → Option (Boot × List (List ℕ))
line_first text none = none
line_first text (some (s, lines)) = some (s, text ∷ lines)

-- The rest of the program, behind a line that was sent.
abbrev pub behind_line :
    Option (Memory × List ℕ)
    → (Memory → Option (Boot × List (List ℕ)))
    → Option (Boot × List (List ℕ))
behind_line none next = none
behind_line (some (m, text)) next = line_first text (next m)

abbrev pub in_memory : Boot → Memory → Boot
in_memory s m = record { context = s.context; memory = m }

-- The loop, with its lines.
pub show_map : ℕ → List ℕ → ℕ → ℕ → ℕ → ℕ → Boot → Option (Boot × List (List ℕ))
show_map zero stale reads line at p s = none
show_map (suc fuel) stale reads line at p s =
    let next = λ (m : Memory).
      let after = visit p (in_memory s m) in
      show_map fuel stale reads line at (add64 p (load32 after.memory (at + 8))) after in
    if ltb p (add64 at (load32 s.memory (at + 4)))
    then behind_line (say_entry stale reads line p s.memory) next
    else some (s, [])

-- kinit from its first line, behind the assignment of memory_map, to the end of the loop.
pub tell_map : ℕ → List ℕ → ℕ → ℕ → ℕ → Boot → Option (Boot × List (List ℕ))
tell_map fuel stale reads line at s =
    let size = load32 s.memory (at + 4) in
    let entry_size = load32 s.memory (at + 8) in
    if entry_size == 0
    then none
    else behind_line
        (say stale reads line map_line (Arg.number size ∷ Arg.number (size / entry_size) ∷ [])
          s.memory)
        (λ m. show_map fuel stale reads line at (add64 at map_header_bytes) (in_memory s m))
