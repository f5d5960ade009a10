-- ===== src/Ramdisk/BlockIo/Bounds.antt =====
-- Which requests a registered disk serves: the bounds that the driver checks in 64-bit
-- arithmetic are those of the true numbers.
use cr_ow_s.Base.{ℕ, ◌+◌, ◌-◌, ◌*◌, ◌/◌, ◌%◌, ◌^◌, ◌≤◌, ◌<◌, ◌≡◌, ◌≢◌, ◌↔◌, ◌⊎◌, false, arith}
use cr_ow_s.Base.Words.{add64}
use cr_ow_s.Base.Status.{Status}
use cr_ow_s.Base.Memory.{Memory, EfiLib}
use cr_ow_s.Ramdisk.{PrivateData, init_block_io}
use cr_ow_s.Ramdisk.BlockIo.{read_blocks, write_blocks}

-- A disk of whole blocks that lies inside the 64-bit address space, with its media described.
pub record IsRegistered (p : PrivateData) : Type 0 where
  pub some_size : 0 < p.size
  pub whole : p.size % 512 ≡ 0
  pub in_space : p.starting_addr + p.size ≤ 2 ^ 64
  pub bounded : p.size < 2 ^ 64
  pub blocks : p.media.block_size ≡ 512
  pub last : p.media.last_block + 1 ≡ p.size / 512

-- A request for whole blocks of the disk, in true numbers.
abbrev pub Fits : PrivateData → ℕ → ℕ → Type 0
Fits p lba n = (n % 512 ≡ 0) × (lba * 512 + n ≤ p.size)

-- `RamDiskInitBlockIo` describes every disk that passes the checks of `RamDiskRegister`.
pub init_block_io-IsRegistered :
    (lib : EfiLib) (p : PrivateData)
    → 0 < p.size
    → p.size % 512 ≡ 0
    → p.starting_addr + p.size ≤ 2 ^ 64
    → p.size < 2 ^ 64
    → IsRegistered (init_block_io lib p)
unfolding init_block_io
init_block_io-IsRegistered lib p some_size whole in_space bounded =
    omega (arith, lib.div_u64x32_lem ((p.size + 512 + 2 ^ 64 - 1) % 2 ^ 64) 512)

module _ (lib : EfiLib) {p : PrivateData} (r : IsRegistered p) (media_id lba n buffer : ℕ)
    (m : Memory) (small_lba : lba < 2 ^ 64) (small_n : n < 2 ^ 64) where
  pub read_blocks-success_iff :
      ((read_blocks lib p media_id lba n buffer m).0 ≡ Status.success)
      ↔ ((media_id ≡ p.media.media_id) × (buffer ≢ 0) × ((n ≡ 0) ⊎ Fits p lba n))
  unfolding read_blocks
  read_blocks-success_iff = ground arith

  pub write_blocks-success_iff :
      ((write_blocks lib p media_id lba n buffer m).0 ≡ Status.success) ↔ (
        (media_id ≡ p.media.media_id)
        × (p.media.read_only ≡ false)
        × (buffer ≢ 0)
        × ((n ≡ 0) ⊎ Fits p lba n))
  unfolding write_blocks
  write_blocks-success_iff = ground arith

  -- A read succeeds exactly if it names the medium and a buffer, and asks for nothing or for whole
  -- blocks of the disk; a write, if also the medium is not write-protected. A block number or length
  -- whose sum would wrap is refused.
  pub blocks-success_iff :
      (((read_blocks lib p media_id lba n buffer m).0 ≡ Status.success)
        ↔ ((media_id ≡ p.media.media_id) × (buffer ≢ 0) × ((n ≡ 0) ⊎ Fits p lba n)))
      × (((write_blocks lib p media_id lba n buffer m).0 ≡ Status.success) ↔ (
          (media_id ≡ p.media.media_id)
          × (p.media.read_only ≡ false)
          × (buffer ≢ 0)
          × ((n ≡ 0) ⊎ Fits p lba n)))
  blocks-success_iff = (read_blocks-success_iff, write_blocks-success_iff)

  -- The address that the driver computes for a served request does not wrap.
  pub block_address :
      lba * 512 < p.size
      → add64 p.starting_addr (lib.mult_u64x32 lba p.media.block_size) ≡ p.starting_addr + lba * 512
  block_address h = ground (arith, lib.mult_u64x32_lem lba p.media.block_size)
