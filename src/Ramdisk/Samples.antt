-- ===== src/Ramdisk/Samples.antt =====
-- A registered disk for the tests.
use cr_ow_s.Base.{true, false, arith}
use cr_ow_s.Ramdisk.{PrivateData}
use cr_ow_s.Ramdisk.BlockIo.Bounds.{IsRegistered}

-- Two blocks at 1 MiB, as RamDiskRegister leaves them.
abbrev pub two_blocks : PrivateData
two_blocks = record {
  handle = 9;
  media = record {
    media_id = 0;
    removable_media = false;
    media_present = true;
    logical_partition = false;
    read_only = false;
    write_caching = false;
    block_size = 512;
    last_block = 1;
  };
  device_path = 7;
  starting_addr = 0x100000;
  size = 1024;
  type_guid = 5;
  instance_number = 0;
}

pub two_blocks-IsRegistered : IsRegistered two_blocks
two_blocks-IsRegistered = omega arith
