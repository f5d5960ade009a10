-- ===== src/Boot/Password.antt =====
-- GetPassword and CheckPassword, src/boot/mftah_uefi/main.c.
pub mod Typed
pub mod Check
pub mod Answers
pub mod Asked
use cr_ow_s.Base.{
  ℕ, ◌+◌, ◌/◌, ◌%◌, ◌^◌, Bool, true, false, not, ◌&&◌, List, [], ◌∷◌, Option, none, some, map, ltb,
  ◌==◌, if◌then◌else◌, take, replicate,
}
use cr_ow_s.Base.Status.{Status, is_error}
use cr_ow_s.Base.Memory.{Memory}
use cr_ow_s.Input.{Round, Reply, returned, panicked, waiting, read_input}
use cr_ow_s.Loader.{StringLib}
use cr_ow_s.Util.Worker.{MftahStatus}
use cr_ow_s.Boot.Files.{Handle, file_size, Mftah, write_bytes}
use cr_ow_s.Boot.Payload.{aes_block_bytes}

-- MFTAH_MAX_PW_LEN
abbrev pub max_pw_len : ℕ
max_pw_len = 32

-- A string in a buffer: its characters before NUL.
abbrev pub text_of : List ℕ → List ℕ
text_of [] = []
text_of (c ∷ cs) = if c == 0 then [] else c ∷ text_of cs

-- One prompt: the status of the first Reset, and the rounds of ReadChar16KeyboardInput.
pub record Prompt : Type 0 where
  pub reset : Status
  pub rounds : List Round

-- `entered` has the buffer and its length in bytes. `halted` is a PANIC, and `asking` a prompt that
-- is still open.
pub data Entry : Type 0 where
  entered : List ℕ → ℕ → Entry
  go_back shut_down halted asking : Entry

-- The loop's body behind the prompt.
unfoldable pub judge : StringLib → Bool → List ℕ → ℕ → Entry → Entry
judge lib multi buffer length again =
    if length == 0
    then again
    else if lib.strn_equal (text_of buffer) (b'q' ∷ []) 4
    then shut_down
    else if multi && lib.strn_equal (text_of buffer) (b'b' ∷ []) 4
    then go_back
    else entered buffer length

abbrev pub after_prompt : StringLib → Bool → Entry → Reply → Entry
after_prompt lib multi again (returned s buffer none) =
    if is_error s then halted else judge lib multi buffer 0 again
after_prompt lib multi again (returned s buffer (some length)) =
    if is_error s then halted else judge lib multi buffer length again
after_prompt lib multi again Reply.panicked = halted
after_prompt lib multi again (waiting l) = asking

-- GetPassword, for one of several payloads or for a single one. ZeroMem clears the buffer before
-- each prompt; the byte behind the array of 65 bytes that it clears too is left out.
unfoldable pub get_password : StringLib → Bool → List Prompt → Entry
get_password lib multi [] = asking
get_password lib multi (p ∷ ps) =
    let again = get_password lib multi ps in
    after_prompt lib multi again
      (read_input max_pw_len (replicate (max_pw_len + 1) 0) p.reset p.rounds)

-- PasswordBufferChar8: the low byte of each of the first `length / 2` characters.
unfoldable pub char8 : List ℕ → ℕ → List ℕ
char8 buffer length = map (λ c. c % 2 ^ 8) (take (length / 2) buffer)

-- The pools of CheckPassword, in the order in which it allocates them.
pub data Pool : Type 0 where
  first_buffer data_buffer loaded_payload password_buffer : Pool

-- The results: EFI_SUCCESS with PasswordActual, EFI_INVALID_PASSWORD, or an error.
pub data Verdict : Type 0 where
  right : List ℕ → Verdict
  wrong : Verdict
  failed : Status → Verdict

-- The verdict, the position at which the file is left, and the pools that are left allocated.
pub record Checked : Type 0 where
  pub verdict : Verdict
  pub position : ℕ
  pub left : List Pool

-- What the switch on the status of check_password makes of it.
abbrev pub verdict_of : MftahStatus → List ℕ → Verdict
verdict_of MftahStatus.success actual = right actual
verdict_of MftahStatus.invalid_password actual = wrong
verdict_of _ actual = failed Status.aborted

-- From the header in memory on.
unfoldable pub check_header : Mftah → ℕ → ℕ → List ℕ → Memory → Verdict
check_header mftah buffer length actual m =
    if mftah.is_failure (mftah.create_payload m buffer length)
    then failed Status.aborted
    else verdict_of (mftah.check_password m buffer length actual) actual

-- CheckPassword at a position of the file, with the second buffer's address and the status of
-- SetPosition. Its pools are taken to be given; all but the first are freed at the end.
unfoldable pub check_password : Mftah → Handle → ℕ → ℕ → Status → List ℕ → ℕ → Memory → Checked
check_password mftah h pos buffer rewound password length m =
    let initial = mftah.header_bytes + aes_block_bytes in
    let size = file_size h in
    let r = h.read pos initial in
    let m' = write_bytes buffer r.count r.bytes m in
    if ltb size initial
    then record { verdict = failed Status.aborted; position = pos; left = [] }
    else if not (size % aes_block_bytes == 0)
    then record { verdict = failed Status.aborted; position = pos; left = [] }
    else if is_error r.status
    then record {
      verdict = failed r.status;
      position = pos + r.count;
      left = Pool.first_buffer ∷ [];
    }
    else if not (r.count == initial)
    then record {
      verdict = failed Status.end_of_file;
      position = pos + r.count;
      left = Pool.first_buffer ∷ [];
    }
    else if is_error rewound
    then record {
      verdict = failed rewound;
      position = pos + r.count;
      left = Pool.first_buffer ∷ [];
    }
    else record {
      verdict = check_header mftah buffer initial (char8 password length) m';
      position = 0;
      left = Pool.first_buffer ∷ [];
    }
