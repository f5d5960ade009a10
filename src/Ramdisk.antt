-- ===== src/Ramdisk.antt =====
-- The ramdisk driver, src/boot/mftah_uefi/ramdisk.c: its data, and the two initialisers that
-- RamDiskRegister calls. The children hold the block I/O protocols, the registration and the
-- publication in the ACPI tables.
pub mod Pools
pub mod BlockIo
pub mod Register
pub mod Device
pub mod Nfit
mod Samples
use cr_ow_s.Base.{ℕ, ◌+◌, ◌-◌, Bool, true, false}
use cr_ow_s.Base.Words.{add64, sub64}
use cr_ow_s.Base.Memory.{EfiLib}

-- RAM_DISK_BLOCK_SIZE
abbrev pub block_bytes : ℕ
block_bytes = 512

-- The fields of EFI_BLOCK_IO_MEDIA that the driver sets or reads.
pub record Media : Type 0 where
  pub media_id : ℕ
  pub removable_media : Bool
  pub media_present : Bool
  pub logical_partition : Bool
  pub read_only : Bool
  pub write_caching : Bool
  pub block_size : ℕ
  pub last_block : ℕ

-- RAMDISK_PRIVATE_DATA. `RAM_DISK_PRIVATE_FROM_BLKIO` finds this record again from a pointer to
-- one of the two protocol instances inside it, so the operations take the record itself.
pub record PrivateData : Type 0 where
  pub handle : ℕ
  pub media : Media
  pub device_path : ℕ
  pub starting_addr : ℕ
  pub size : ℕ
  pub type_guid : ℕ
  pub instance_number : ℕ

-- RamDiskInitBlockIo
unfoldable pub init_block_io : EfiLib → PrivateData → PrivateData
init_block_io lib p = record p {
  media = record (p.media) {
    removable_media = false;
    media_present = true;
    logical_partition = false;
    read_only = false;
    write_caching = false;
    block_size = block_bytes;
    last_block = sub64 (lib.div_u64x32 (sub64 (add64 p.size block_bytes) 1) block_bytes) 1;
  };
}

-- MEDIA_RAMDISK_DEVICE_PATH behind its header.
pub record DeviceNode : Type 0 where
  pub start : ℕ
  pub ending : ℕ
  pub type_guid : ℕ
  pub instance_number : ℕ

-- RamDiskInitDeviceNode. Its two assertions compare what was just copied.
pub init_device_node : PrivateData → DeviceNode
init_device_node p = record {
  start = p.starting_addr;
  ending = sub64 (add64 p.starting_addr p.size) 1;
  type_guid = p.type_guid;
  instance_number = p.instance_number;
}
