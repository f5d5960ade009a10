-- ===== src/Ramdisk/Register/Tests.antt =====
-- Registrations and publications at concrete firmwares.
use cr_ow_s.Base.{◌*◌, ◌+◌, ◌%◌, ◌≡◌, ◌↔◌, true, false, none, some, List, [], ◌∷◌, refl, arith}
use cr_ow_s.Base.Status.{Status}
use cr_ow_s.Base.Memory.{plain_lib}
use cr_ow_s.Util.{calculate_checksum8}
use cr_ow_s.Util.Checksum.{total}
use cr_ow_s.Ramdisk.{init_block_io}
use cr_ow_s.Ramdisk.Pools.{Pool, Event, ledger}
use cr_ow_s.Ramdisk.Nfit.{
  Acpi, Descriptor, memory_found, nfit_table, ssdt_table, publish_nfit, conclude, publish_found,
  fetch_map, covers,
}
use cr_ow_s.Ramdisk.Nfit.Search.{SomeInside, memory_found_iff}
use cr_ow_s.Ramdisk.Nfit.Table.{nfit_table-checksum_iff}
use cr_ow_s.Ramdisk.Nfit.Offers.{Fits, AllSound, publish_nfit-AllSound}
use cr_ow_s.Ramdisk.Nfit.Ledger.{}
use cr_ow_s.Ramdisk.Register.{Firmware, returned, register, register_disk, new_disk, finish}
use cr_ow_s.Ramdisk.Register.Checks.{Describes, register-Describes}
use cr_ow_s.Ramdisk.Register.Ledger.{register-ledger}
use cr_ow_s.Ramdisk.Register.Dangling.{serves, register-dangling}
use cr_ow_s.Ramdisk.Device.{Request, AllAside, session, expected}
use cr_ow_s.Ramdisk.Device.Sessions.{register-session}
use cr_ow_s.Ramdisk.Samples.{two_blocks}

-- One descriptor below the disk, and one that contains it.
abbrev low_and_high : List Descriptor
low_and_high =
    record { physical_start = 0; number_of_pages = 16 }
    ∷ record { physical_start = 0x100000; number_of_pages = 1 }
    ∷ []

memory_found_iff_example :
    (memory_found plain_lib two_blocks low_and_high ≡ true) ↔ SomeInside two_blocks low_and_high
memory_found_iff_example =
    memory_found_iff plain_lib two_blocks low_and_high (omega arith) (omega arith)

nfit_table-checksum_iff_example :
    let checksum = calculate_checksum8 0x9000 (nfit_table 0x20250101 two_blocks 0) in
    (total (nfit_table 0x20250101 two_blocks checksum) % 256 ≡ 2 * checksum % 256)
    × ((total (nfit_table 0x20250101 two_blocks checksum) % 256 ≡ 0) ↔ (checksum % 128 ≡ 0))
nfit_table-checksum_iff_example =
    nfit_table-checksum_iff 0x20250101 two_blocks 0x9000 (omega arith) (omega arith)

-- A map that comes at the second attempt, and no errors.
abbrev acpi : Acpi
acpi = record {
  present = true;
  attempts =
      record { pool = true; status = Status.buffer_too_small; descriptors = [] }
      ∷ record { pool = true; status = Status.success; descriptors = low_and_high }
      ∷ [];
  ssdt = Status.success;
  table = 0x9000;
  install = Status.success;
}

-- The same with an NFIT that the firmware refuses to find memory for.
abbrev lost : Acpi
lost = record acpi { table = 0 }

published_lost :
    publish_nfit plain_lib 0x20250101 two_blocks lost
    ≡ some (
      Status.out_of_resources,
      Event.allocated Pool.memory_map
          ∷ Event.freed Pool.memory_map
          ∷ Event.allocated Pool.memory_map
          ∷ Event.freed Pool.memory_map
          ∷ Event.ssdt_offered ssdt_table
          ∷ [],
    )
unfolding publish_nfit conclude publish_found fetch_map memory_found covers
published_lost = refl

published_all :
    publish_nfit plain_lib 0x20250101 two_blocks acpi
    ≡ some (
      Status.success,
      Event.allocated Pool.memory_map
          ∷ Event.freed Pool.memory_map
          ∷ Event.allocated Pool.memory_map
          ∷ Event.freed Pool.memory_map
          ∷ Event.ssdt_offered ssdt_table
          ∷ Event.allocated Pool.nfit
          ∷ Event.nfit_offered (
              nfit_table 0x20250101 two_blocks
                (calculate_checksum8 0x9000 (nfit_table 0x20250101 two_blocks 0)))
          ∷ Event.freed Pool.nfit
          ∷ [],
    )
unfolding publish_nfit conclude publish_found fetch_map memory_found covers
published_all = refl

two_blocks-Fits : Fits two_blocks
two_blocks-Fits = record {
  type_fits = omega arith;
  address_fits = omega arith;
  size_fits = omega arith;
}

publish_nfit-AllSound_example : AllSound two_blocks (
    Event.allocated Pool.memory_map
    ∷ Event.freed Pool.memory_map
    ∷ Event.allocated Pool.memory_map
    ∷ Event.freed Pool.memory_map
    ∷ Event.ssdt_offered ssdt_table
    ∷ Event.allocated Pool.nfit
    ∷ Event.nfit_offered (
        nfit_table 0x20250101 two_blocks
          (calculate_checksum8 0x9000 (nfit_table 0x20250101 two_blocks 0)))
    ∷ Event.freed Pool.nfit
    ∷ [])
publish_nfit-AllSound_example =
    publish_nfit-AllSound plain_lib 0x20250101 two_blocks acpi two_blocks-Fits Status.success _
      published_all

abbrev firmware : Firmware
firmware = record {
  private_pool = true;
  node_pool = true;
  path = λ node. 7;
  handle = 9;
  install = Status.success;
  connect = Status.success;
  acpi = lost;
}

abbrev refuses_connect : Firmware
refuses_connect = record firmware { connect = Status.device_error }

abbrev registration : List Event
registration =
    Event.allocated Pool.private_data
    ∷ Event.allocated Pool.device_node
    ∷ Event.allocated Pool.device_path
    ∷ Event.allocated Pool.path_text
    ∷ Event.freed Pool.path_text
    ∷ Event.installed
    ∷ Event.connected
    ∷ Event.freed Pool.device_node
    ∷ Event.allocated Pool.memory_map
    ∷ Event.freed Pool.memory_map
    ∷ Event.allocated Pool.memory_map
    ∷ Event.freed Pool.memory_map
    ∷ Event.ssdt_offered ssdt_table
    ∷ []

-- The registration returns the error of the publication, with the disk left behind.
registered :
    register plain_lib 0x20250101 firmware 0x100000 1024 (some 5) true
    ≡ returned Status.out_of_resources (some two_blocks) (some 7) registration
unfolding register register_disk new_disk finish init_block_io publish_nfit conclude publish_found
    fetch_map memory_found covers
registered = refl

register-Describes_example : Describes 0x100000 1024 5 two_blocks
register-Describes_example =
    register-Describes plain_lib 0x20250101 firmware 0x100000 1024 5 true Status.out_of_resources
      two_blocks (some 7) registration registered

register-ledger_example : ledger Pool.private_data false registration ≡ some true
register-ledger_example =
    register-ledger plain_lib 0x20250101 firmware 0x100000 1024 (some 5) true
      Status.out_of_resources (some two_blocks) (some 7) registration registered Pool.private_data

register-dangling_example :
    (es : List Event) × (register plain_lib 0x20250101 refuses_connect 0x100000 1024 (some 5) true
      ≡ returned Status.device_error none (some 7) es)
    × (serves es ≡ true)
    × (ledger Pool.private_data false es ≡ some false)
register-dangling_example =
    register-dangling plain_lib 0x20250101 refuses_connect 0x100000 1024 5 (omega arith)
      (omega arith) (omega arith) (omega arith) refl refl (omega arith) refl refl

-- A write of the second block, a read of both, and a read behind the end.
abbrev requests : List Request
requests =
    Request.writes 1 512 0x5000 (λ i. 7)
    ∷ Request.reads 0 1024 0x6000
    ∷ Request.reads 1 1024 0x6000
    ∷ []

requests-AllAside : AllAside two_blocks requests
requests-AllAside = (omega arith, (omega arith, (omega arith, tt)))

register-session_example :
    session plain_lib two_blocks requests (λ a. a % 256)
    ≡ expected 1024 requests (λ i. (0x100000 + i) % 256)
register-session_example =
    register-session plain_lib 0x20250101 firmware 0x100000 1024 5 Status.out_of_resources
      two_blocks (some 7) registration requests (λ a. a % 256) registered requests-AllAside
