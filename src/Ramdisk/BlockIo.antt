-- ===== src/Ramdisk/BlockIo.antt =====
-- EFI_BLOCK_IO_PROTOCOL and EFI_BLOCK_IO2_PROTOCOL of a ramdisk, in
-- src/boot/mftah_uefi/ramdisk.c. Memory is passed along; a NULL pointer is the address 0.
pub mod Bounds
pub mod Transfer
pub mod Tokens
mod Tests
use cr_ow_s.Base.{
  ℕ, ◌+◌, ◌/◌, ◌%◌, Bool, true, false, not, ◌&&◌, ltb, ◌==◌, if◌then◌else◌, Option, none, some,
}
use cr_ow_s.Base.Words.{add64, sub64}
use cr_ow_s.Base.Status.{Status, is_error}
use cr_ow_s.Base.Memory.{Memory, EfiLib}
use cr_ow_s.Ramdisk.{PrivateData}

-- RamDiskBlkIoReset, RamDiskBlkIo2Reset and RamDiskBlkIoFlushBlocks
pub reset : PrivateData → Bool → Status
reset p extended = Status.success

pub flush_blocks : PrivateData → Status
flush_blocks p = Status.success

-- RamDiskBlkIoReadBlocks
pub read_blocks : EfiLib → PrivateData → ℕ → ℕ → ℕ → ℕ → Memory → Status × Memory
read_blocks lib p media_id lba buffer_size buffer m =
    let block_size = p.media.block_size in
    let last_block = p.media.last_block in
    let number_of_blocks = buffer_size / block_size in
    if not (media_id == p.media.media_id)
    then (Status.media_changed, m)
    else if buffer == 0
    then (Status.invalid_parameter, m)
    else if buffer_size == 0
    then (Status.success, m)
    else if not (buffer_size % block_size == 0)
    then (Status.bad_buffer_size, m)
    else if ltb last_block lba
    then (Status.invalid_parameter, m)
    else if ltb last_block (sub64 (add64 lba number_of_blocks) 1)
    then (Status.invalid_parameter, m)
    else (
      Status.success,
      lib.copy_mem buffer (add64 p.starting_addr (lib.mult_u64x32 lba block_size)) buffer_size m,
    )

-- RamDiskBlkIoWriteBlocks
pub write_blocks : EfiLib → PrivateData → ℕ → ℕ → ℕ → ℕ → Memory → Status × Memory
write_blocks lib p media_id lba buffer_size buffer m =
    let block_size = p.media.block_size in
    let last_block = p.media.last_block in
    let number_of_blocks = buffer_size / block_size in
    if not (media_id == p.media.media_id)
    then (Status.media_changed, m)
    else if p.media.read_only
    then (Status.write_protected, m)
    else if buffer == 0
    then (Status.invalid_parameter, m)
    else if buffer_size == 0
    then (Status.success, m)
    else if not (buffer_size % block_size == 0)
    then (Status.bad_buffer_size, m)
    else if ltb last_block lba
    then (Status.invalid_parameter, m)
    else if ltb last_block (sub64 (add64 lba number_of_blocks) 1)
    then (Status.invalid_parameter, m)
    else (
      Status.success,
      lib.copy_mem (add64 p.starting_addr (lib.mult_u64x32 lba block_size)) buffer buffer_size m,
    )

-- EFI_BLOCK_IO2_TOKEN; the event 0 is NULL.
pub record Token : Type 0 where
  pub event : ℕ
  pub transaction_status : Status

-- What a call of the second protocol leaves behind: its status, memory, the caller's token, and
-- the event that it signalled.
pub record Reply : Type 0 where
  pub status : Status
  pub memory : Memory
  pub token : Option Token
  pub signalled : Option ℕ

-- The end of the three operations: `Token->TransactionStatus = EFI_SUCCESS` and SignalEvent.
pub signal : Memory → Option Token → Reply
signal m none = record { status = Status.success; memory = m; token = none; signalled = none }
signal m (some t) =
    if not (t.event == 0)
    then record {
      status = Status.success;
      memory = m;
      token = some (record t { transaction_status = Status.success });
      signalled = some (t.event);
    }
    else record { status = Status.success; memory = m; token = some t; signalled = none }

abbrev pub refuse : Status → Memory → Option Token → Reply
refuse s m token = record { status = s; memory = m; token = token; signalled = none }

-- RamDiskBlkIo2ReadBlocksEx
pub read_blocks_ex : EfiLib → PrivateData → ℕ → ℕ → Option Token → ℕ → ℕ → Memory → Reply
read_blocks_ex lib p media_id lba token buffer_size buffer m =
    let (s, m') = read_blocks lib p media_id lba buffer_size buffer m in
    if is_error s then refuse s m' token else signal m' token

-- RamDiskBlkIo2WriteBlocksEx
pub write_blocks_ex : EfiLib → PrivateData → ℕ → ℕ → Option Token → ℕ → ℕ → Memory → Reply
write_blocks_ex lib p media_id lba token buffer_size buffer m =
    let (s, m') = write_blocks lib p media_id lba buffer_size buffer m in
    if is_error s then refuse s m' token else signal m' token

-- RamDiskBlkIo2FlushBlocksEx
pub flush_blocks_ex : PrivateData → Option Token → Memory → Reply
flush_blocks_ex p token m =
    if p.media.read_only then refuse Status.write_protected m token else signal m token
