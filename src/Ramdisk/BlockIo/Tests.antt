-- ===== src/Ramdisk/BlockIo/Tests.antt =====
-- Requests to a disk of two blocks.
use cr_ow_s.Base.{ℕ, ◌+◌, ◌%◌, ◌≡◌, ◌≢◌, ◌↔◌, ◌⊎◌, false, some, refl, arith}
use cr_ow_s.Base.Status.{Status}
use cr_ow_s.Base.Memory.{Memory, plain_lib}
use cr_ow_s.Ramdisk.BlockIo.{Token, read_blocks, write_blocks, flush_blocks_ex, signal}
use cr_ow_s.Ramdisk.BlockIo.Bounds.{Fits, blocks-success_iff}
use cr_ow_s.Ramdisk.BlockIo.Transfer.{read_blocks-write_blocks}
use cr_ow_s.Ramdisk.BlockIo.Tokens.{}
use cr_ow_s.Ramdisk.Samples.{two_blocks, two_blocks-IsRegistered}

abbrev bytes : Memory
bytes a = a % 251

-- The requests that the driver refuses, in the order of its checks.
refusals :
    ((read_blocks plain_lib two_blocks 1 0 512 0x5000 bytes).0 ≡ Status.media_changed)
    × ((read_blocks plain_lib two_blocks 0 0 512 0 bytes).0 ≡ Status.invalid_parameter)
    × ((read_blocks plain_lib two_blocks 0 9 0 0x5000 bytes).0 ≡ Status.success)
    × ((read_blocks plain_lib two_blocks 0 0 100 0x5000 bytes).0 ≡ Status.bad_buffer_size)
    × ((read_blocks plain_lib two_blocks 0 1 1024 0x5000 bytes).0 ≡ Status.invalid_parameter)
    × ((read_blocks plain_lib two_blocks 0 1 512 0x5000 bytes).0 ≡ Status.success)
unfolding read_blocks
refusals = (refl, refl, refl, refl, refl, refl)

written_ok : (write_blocks plain_lib two_blocks 0 1 512 0x5000 bytes).0 ≡ Status.success
unfolding write_blocks
written_ok = refl

read_ok : (read_blocks plain_lib two_blocks 0 1 512 0x6000 bytes).0 ≡ Status.success
unfolding read_blocks
read_ok = refl

abbrev token : Token
token = record { event = 3; transaction_status = Status.not_ready }

flush_signals : flush_blocks_ex two_blocks (some token) bytes ≡ record {
  status = Status.success;
  memory = bytes;
  token = some (record token { transaction_status = Status.success });
  signalled = some 3;
}
unfolding flush_blocks_ex signal
flush_signals = refl

blocks-success_iff_example :
    (((read_blocks plain_lib two_blocks 0 1 512 0x6000 bytes).0 ≡ Status.success) ↔ (
      (◌≡◌ {A = ℕ} 0 0) × (◌≢◌ {A = ℕ} 0x6000 0) × ((◌≡◌ {A = ℕ} 512 0) ⊎ Fits two_blocks 1 512)))
    × (((write_blocks plain_lib two_blocks 0 1 512 0x6000 bytes).0 ≡ Status.success) ↔ (
        (◌≡◌ {A = ℕ} 0 0)
        × (two_blocks.media.read_only ≡ false)
        × (◌≢◌ {A = ℕ} 0x6000 0)
        × ((◌≡◌ {A = ℕ} 512 0) ⊎ Fits two_blocks 1 512)))
blocks-success_iff_example =
    blocks-success_iff plain_lib two_blocks-IsRegistered 0 1 512 0x6000 bytes (omega arith)
      (omega arith)

read_blocks-write_blocks_example :
    let m = (write_blocks plain_lib two_blocks 0 1 512 0x5000 bytes).1 in
    let (s, m') = read_blocks plain_lib two_blocks 0 1 512 0x6000 m in
    (s ≡ Status.success) × (m' (0x6000 + 3) ≡ bytes (0x5000 + 3))
read_blocks-write_blocks_example =
    read_blocks-write_blocks plain_lib two_blocks-IsRegistered 0 1 512 0x5000 0x6000 bytes
      (omega arith) (omega arith) written_ok (omega arith) 3 (omega arith)
