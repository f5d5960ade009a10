-- ===== src/Boot/Files.antt =====
-- What main.c uses of code that is not in the repository: the file protocol and MFTAH.
use cr_ow_s.Base.{
  ℕ, ◌+◌, ◌-◌, ◌≤◌, ◌<◌, ◌≡◌, Bool, false, ◌&&◌, List, Option, none, some, leb, ltb, if◌then◌else◌,
}
use cr_ow_s.Base.Status.{Status}
use cr_ow_s.Base.Memory.{Memory}
use cr_ow_s.Util.Worker.{MftahStatus}

-- What EFI_FILE_PROTOCOL.Read reports: its status, the count that it stores, and the bytes that it
-- puts into the buffer.
pub record Reading : Type 0 where
  pub status : Status
  pub count : ℕ
  pub bytes : ℕ → ℕ

-- An open file: the size that LibFileInfo finds, if it finds any, and what Read answers at a
-- position for a number of bytes. The position itself is passed along.
pub record Handle : Type 0 where
  pub info : Option ℕ
  pub read : ℕ → ℕ → Reading

-- FileSize of util.c
unfoldable pub file_size : Handle → ℕ
file_size h = elim h.info [ none ↦ 0 | some size ↦ size ]

-- The documented behaviour for a file of `size` bytes: up to the end of the file, Read succeeds
-- and brings as many of the wanted bytes as there are.
pub record Serves (h : Handle) (content : ℕ → ℕ) (size : ℕ) : Type 0 where
  pub sized : file_size h ≡ size
  pub succeeds : (pos n : ℕ) → pos ≤ size → (h.read pos n).status ≡ Status.success
  pub counts :
      (pos n : ℕ)
      → pos ≤ size
      → (h.read pos n).count ≡ (if leb n (size - pos) then n else size - pos)
  pub brings :
      (pos n i : ℕ)
      → pos ≤ size
      → i < (h.read pos n).count
      → (h.read pos n).bytes i ≡ content (pos + i)

-- `count` bytes put into memory from `to` on.
abbrev pub write_bytes : ℕ → ℕ → (ℕ → ℕ) → Memory → Memory
write_bytes to count bytes m a = if leb to a && ltb a (to + count) then bytes (a - to) else m a

-- MFTAH, a submodule: the size of a payload's header, the macro MFTAH_ERROR, and its methods, each
-- with memory, a buffer's address and length, and the password where it takes one.
pub record Mftah : Type 0 where
  pub header_bytes : ℕ
  pub is_failure : MftahStatus → Bool
  pub create_payload : Memory → ℕ → ℕ → MftahStatus
  pub check_password : Memory → ℕ → ℕ → List ℕ → MftahStatus
  pub decrypt : Memory → ℕ → ℕ → List ℕ → MftahStatus × Memory
  pub get_buffer_base : Memory → ℕ → ℕ → MftahStatus × ℕ
  pub is_failure-success : is_failure MftahStatus.success ≡ false
