-- ===== src/Input.antt =====
-- Keyboard input of the loader, src/boot/mftah_uefi/input.c. The firmware's answers are a list of
-- rounds, one for each turn of the loop.
pub mod Editing
pub mod Session
pub mod Stale
pub mod Kept
pub mod Bounds
pub mod Cells
pub mod Exact
mod Tests
use cr_ow_s.Base.{
  ℕ, zero, suc, ◌+◌, ◌-◌, ◌*◌, Bool, true, false, ◌&&◌, ◌||◌, List, [], ◌∷◌, Option, none, some,
  ltb, leb, ◌==◌, if◌then◌else◌, set, get_or, replicate,
}
use cr_ow_s.Base.Words.{u8}
use cr_ow_s.Base.Status.{Status, is_error}

-- One turn of the loop: the statuses of WaitForEvent, ReadKeyStroke and Reset, and the key.
pub record Round : Type 0 where
  pub wait : Status
  pub read : Status
  pub unicode_char : ℕ
  pub reset : Status

-- `InputBuffer`, of MaxLength + 1 characters, and `InputLength`.
pub record Line : Type 0 where
  pub buffer : List ℕ
  pub length : ℕ

abbrev pub line_feed : ℕ
line_feed = 0x0a

abbrev pub carriage_return : ℕ
carriage_return = 0x0d

abbrev pub backspace : ℕ
backspace = 0x08

abbrev pub is_printable : ℕ → Bool
is_printable c = leb 0x20 c && leb c 0x7e

abbrev pub is_enter : ℕ → Bool
is_enter c = (c == line_feed) || (c == carriage_return)

-- What a key other than Enter does to the line.
unfoldable pub edit : ℕ → Line → ℕ → Line
edit max l c =
    if c == backspace
    then record {
      buffer = set l.buffer l.length 0;
      length = if ltb 0 l.length then l.length - 1 else l.length;
    }
    else if is_printable c && ltb l.length max
    then record { buffer = set l.buffer l.length c; length = u8 (l.length + 1) }
    else l

-- `returned` has the status, `InputBuffer`, and what was stored through `ResultingBufferLength`.
-- `waiting` is the loop after the given rounds.
pub data Reply : Type 0 where
  returned : Status → List ℕ → Option ℕ → Reply
  panicked : Reply
  waiting : Line → Reply

abbrev pub is_not_ready : Status → Bool
is_not_ready Status.not_ready = true
is_not_ready _ = false

-- The two errors of ReadKeyStroke that are a PANIC.
abbrev pub is_fatal : Status → Bool
is_fatal Status.device_error = true
is_fatal Status.unsupported = true
is_fatal _ = false

-- The loop, and what follows its `break`.
unfoldable pub read_loop : ℕ → Line → List Round → Reply
read_loop max l [] = waiting l
read_loop max l (r ∷ rs) =
    let l' = if is_not_ready r.read then l else edit max l r.unicode_char in
    let again = read_loop max l' rs in
    if is_error r.wait
    then returned r.wait l.buffer none
    else if is_not_ready r.read
    then again
    else if is_fatal r.read
    then panicked
    else if is_error r.read
    then returned r.read l.buffer none
    else if is_error r.reset
    then returned r.reset l.buffer none
    else if is_enter r.unicode_char
    then returned r.reset (set l.buffer max 0) (some (u8 (l.length * 2)))
    else again

-- ReadChar16KeyboardInput into a buffer that holds `before`, from the status of the first Reset.
unfoldable pub read_input : ℕ → List ℕ → Status → List Round → Reply
read_input max before reset rounds =
    if is_error reset
    then returned reset before none
    else read_loop max (record { buffer = replicate (suc max) 0; length = 0 }) rounds

-- What Confirm answers; `hung` is a PANIC below it, `asking` a prompt that is still open.
pub data Answer : Type 0 where
  answered : Status → Answer
  hung asking : Answer

-- The end of Confirm, from `UserInput[0]`.
pub judge : Bool → ℕ → Status
judge is_default_confirm c =
    if (c == b'Y') || (c == b'y')
    then Status.success
    else if (c == b'N') || (c == b'n')
    then Status.aborted
    else if c == 0
    then (if is_default_confirm then Status.success else Status.aborted)
    else Status.aborted

-- The answer to what is read.
abbrev pub judge_reply : Bool → Reply → Answer
judge_reply is_default_confirm (returned s buffer n) =
    answered (judge is_default_confirm (get_or buffer 0 0))
judge_reply is_default_confirm panicked = hung
judge_reply is_default_confirm (waiting l) = asking

-- Confirm. The status of the input routine is not looked at.
pub confirm : Bool → Status → List Round → Answer
confirm is_default_confirm reset rounds =
    judge_reply is_default_confirm (read_input 1 (0 ∷ 0 ∷ []) reset rounds)
