-- ===== src/Boot/Password/Answers.antt =====
-- CheckPassword says `right` and `wrong` only where MFTAH does, whatever the file holds.
use cr_ow_s.Base.{
  ℕ, ◌≡◌, refl, true, false, not, List, [], ◌∷◌, ltb, ◌==◌, if_elim, if_both, ◌%◌, arith,
}
use cr_ow_s.Base.Status.{Status, is_error}
use cr_ow_s.Base.Memory.{Memory}
use cr_ow_s.Util.Worker.{MftahStatus}
use cr_ow_s.Boot.Files.{Handle, Mftah, file_size, write_bytes}
use cr_ow_s.Boot.Payload.{aes_block_bytes}
use cr_ow_s.Boot.Password.{Verdict, Checked, Pool, char8, verdict_of, check_header, check_password}
use cr_ow_s.Boot.Password.Check.{initial_length}

-- What CheckPassword gives to MFTAH: memory with the front of the file in the buffer.
abbrev pub front : Mftah → Handle → ℕ → Memory → Memory
front mftah h buffer before =
    let r = h.read 0 (initial_length mftah) in write_bytes buffer r.count r.bytes before

-- MFTAH gives this answer to the password for the header and the first block of the file, all of
-- which could be read.
pub record Asked (mftah : Mftah) (h : Handle) (password : List ℕ) (answer : MftahStatus)
    : Type 0 where
  pub buffer : ℕ
  pub before : Memory
  pub is_read : is_error (h.read 0 (initial_length mftah)).status ≡ false
  pub whole : (h.read 0 (initial_length mftah)).count ≡ initial_length mftah
  pub parsed :
      mftah.is_failure
        (mftah.create_payload (front mftah h buffer before) buffer (initial_length mftah))
      ≡ false
  pub answered :
      mftah.check_password (front mftah h buffer before) buffer (initial_length mftah) password
      ≡ answer

-- A verdict on the password, and the position at which the file is left.
pub data Answered (mftah : Mftah) (h : Handle) (actual : List ℕ) : Verdict → ℕ → Type 0 where
  confirmed :
      Asked mftah h actual MftahStatus.success → Answered mftah h actual (Verdict.right actual) 0
  denied :
      Asked mftah h actual MftahStatus.invalid_password → Answered mftah h actual Verdict.wrong 0
  not_answered : (s : Status) (pos : ℕ) → Answered mftah h actual (Verdict.failed s) pos

module _ (mftah : Mftah) (buffer : ℕ) (h : Handle) (actual : List ℕ) (before : Memory) where
  verdict_of-Answered :
      (s : MftahStatus) → Asked mftah h actual s → Answered mftah h actual (verdict_of s actual) 0
  verdict_of-Answered MftahStatus.success e = confirmed e
  verdict_of-Answered MftahStatus.invalid_password e = denied e
  verdict_of-Answered MftahStatus.invalid_parameter e = not_answered _ _
  verdict_of-Answered MftahStatus.thread_busy e = not_answered _ _
  verdict_of-Answered (MftahStatus.other n) e = not_answered _ _

  check_header-Answered :
      is_error (h.read 0 (initial_length mftah)).status ≡ false
      → (h.read 0 (initial_length mftah)).count ≡ initial_length mftah
      → Answered mftah h actual
          (check_header mftah buffer (initial_length mftah) actual (front mftah h buffer before))
          0
  unfolding check_header
  check_header-Answered is_read whole =
      if_elim (λ v. Answered mftah h actual v 0)
        (mftah.is_failure
          (mftah.create_payload (front mftah h buffer before) buffer (initial_length mftah)))
        (λ e. not_answered _ _)
        (λ e. verdict_of-Answered _ (record {
          buffer = buffer;
          before = before;
          is_read = is_read;
          whole = whole;
          parsed = e;
          answered = refl;
        }))

-- From the start of the file: a verdict is that of MFTAH, and leaves the file at its start again.
pub check_password-Answered :
    (mftah : Mftah) (buffer : ℕ) (h : Handle) (rewound : Status) (password : List ℕ) (length : ℕ)
    (before : Memory)
    → Answered mftah h
        (char8 password length)
        (check_password mftah h 0 buffer rewound password length before).verdict
        (check_password mftah h 0 buffer rewound password length before).position
unfolding check_password
check_password-Answered mftah buffer h rewound password length before =
    let actual = char8 password length in
    let Good = λ (c : Checked). Answered mftah h actual c.verdict c.position in
    let r = h.read 0 (initial_length mftah) in
    if_both Good (ltb (file_size h) (initial_length mftah)) (not_answered _ _) (
      if_both Good (not (file_size h % aes_block_bytes == 0)) (not_answered _ _) (
        if_elim Good (is_error r.status) (λ e. not_answered _ _)
          (λ is_read.
            if_elim Good (not (r.count == initial_length mftah)) (λ e. not_answered _ _)
              (λ whole. if_both Good (is_error rewound) (not_answered _ _) (
                check_header-Answered mftah buffer h actual before is_read
                  (ground (arith, whole)))))))

-- A file that is long enough, of whole blocks, and whose front can be read.
pub record IsReadable (mftah : Mftah) (h : Handle) : Type 0 where
  pub long : ltb (file_size h) (initial_length mftah) ≡ false
  pub aligned : (file_size h % aes_block_bytes == 0) ≡ true
  pub is_read : is_error (h.read 0 (initial_length mftah)).status ≡ false
  pub whole : ((h.read 0 (initial_length mftah)).count == initial_length mftah) ≡ true

-- If nothing fails on the way, the verdict is what the switch makes of MFTAH's answer.
pub check_password-verdict :
    (mftah : Mftah) (buffer : ℕ) (h : Handle) (rewound : Status) (password : List ℕ) (length : ℕ)
    (before : Memory) (answer : MftahStatus)
    → IsReadable mftah h
    → is_error rewound ≡ false
    → mftah.is_failure
        (mftah.create_payload (front mftah h buffer before) buffer (initial_length mftah))
      ≡ false
    → mftah.check_password
        (front mftah h buffer before)
        buffer
        (initial_length mftah)
        (char8 password length)
      ≡ answer
    → check_password mftah h 0 buffer rewound password length before ≡ record {
      verdict = verdict_of answer (char8 password length);
      position = 0;
      left = Pool.first_buffer ∷ [];
    }
unfolding check_password check_header
check_password-verdict mftah buffer h rewound password length before answer r back parsed answered =
    rw (r.long, r.aligned, r.is_read, r.whole, back, parsed, answered) refl
