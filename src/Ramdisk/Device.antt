-- ===== src/Ramdisk/Device.antt =====
-- A ramdisk as its clients see it: an array of bytes that takes requests for whole blocks, and the
-- sessions of a client with the block I/O protocol of src/boot/mftah_uefi/ramdisk.c.
pub mod Steps
pub mod Sessions
use cr_ow_s.Base.{
  ℕ, zero, suc, ◌+◌, ◌-◌, ◌*◌, ◌%◌, ◌^◌, ◌≤◌, ◌<◌, ◌≡◌, ◌≢◌, ◌⊎◌, Bool, ◌&&◌, ◌||◌, List, [], ◌∷◌,
  ltb, leb, ◌==◌, if◌then◌else◌,
}
use cr_ow_s.Base.Status.{Status, is_success}
use cr_ow_s.Base.Memory.{Memory, EfiLib}
use cr_ow_s.Ramdisk.{PrivateData, block_bytes}
use cr_ow_s.Ramdisk.BlockIo.{read_blocks, write_blocks}

-- A block number, a length in bytes and a buffer's address; for a write, also the bytes that the
-- client puts into the buffer before.
pub data Request : Type 0 where
  reads : ℕ → ℕ → ℕ → Request
  writes : ℕ → ℕ → ℕ → (ℕ → ℕ) → Request

-- What the client sees: an error, or the bytes that were read.
pub data Answer : Type 0 where
  refused : Answer
  served : List ℕ → Answer

pub range : (ℕ → ℕ) → ℕ → ℕ → List ℕ
range content from zero = []
range content from (suc n) = content from ∷ range content (from + 1) n

-- `n` bytes laid over an array from `from` on.
abbrev pub overlay : ℕ → ℕ → (ℕ → ℕ) → (ℕ → ℕ) → ℕ → ℕ
overlay from n bytes content a =
    if leb from a && ltb a (from + n) then bytes (a - from) else content a

-- The abstract device: it takes requests for nothing, and for whole blocks inside it.
abbrev pub accepts : ℕ → ℕ → ℕ → Bool
accepts size lba n = (n == 0) || ((n % block_bytes == 0) && leb (lba * block_bytes + n) size)

pub serve : ℕ → Request → (ℕ → ℕ) → Answer × (ℕ → ℕ)
serve size (reads lba n buffer) content =
    if accepts size lba n
    then (served (range content (lba * block_bytes) n), content)
    else (refused, content)
serve size (writes lba n buffer bytes) content =
    if accepts size lba n
    then (served [], overlay (lba * block_bytes) n bytes content)
    else (refused, content)

pub expected : ℕ → List Request → (ℕ → ℕ) → List Answer
expected size [] content = []
expected size (r ∷ rs) content = let step = serve size r content in step.0 ∷ expected size rs step.1

-- The driver, called with the medium's own number.
abbrev pub answer_of : Status → List ℕ → Answer
answer_of s bytes = if is_success s then served bytes else refused

pub call : EfiLib → PrivateData → Request → Memory → Answer × Memory
call lib p (reads lba n buffer) m =
    let step = read_blocks lib p p.media.media_id lba n buffer m in
    (answer_of step.0 (range step.1 buffer n), step.1)
call lib p (writes lba n buffer bytes) m =
    let step = write_blocks lib p p.media.media_id lba n buffer (overlay buffer n bytes m) in
    (answer_of step.0 [], step.1)

pub session : EfiLib → PrivateData → List Request → Memory → List Answer
session lib p [] m = []
session lib p (r ∷ rs) m = let step = call lib p r m in step.0 ∷ session lib p rs step.1

-- A buffer that is given and lies beside the disk, and 64-bit numbers.
pub record Aside (p : PrivateData) (lba n buffer : ℕ) : Type 0 where
  pub given : buffer ≢ 0
  pub small_lba : lba < 2 ^ 64
  pub small_n : n < 2 ^ 64
  pub beside : (buffer + n ≤ p.starting_addr) ⊎ (p.starting_addr + p.size ≤ buffer)

abbrev pub IsAside : PrivateData → Request → Type 0
IsAside p (reads lba n buffer) = Aside p lba n buffer
IsAside p (writes lba n buffer bytes) = Aside p lba n buffer

abbrev pub AllAside : PrivateData → List Request → Type 0
AllAside p [] = Unit {0}
AllAside p (r ∷ rs) = IsAside p r × AllAside p rs
