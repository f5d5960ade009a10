-- ===== src/Ramdisk/Nfit.antt =====
-- RamDiskPublishNfit and RamDiskPublishSsdt, in src/boot/mftah_uefi/ramdisk.c, with the tables of
-- src/include/boot/mftah_uefi/drivers/acpi.h. What the firmware answers is an argument.
pub mod Search
pub mod Table
pub mod Ledger
pub mod Offers
use cr_ow_s.Base.{
  ℕ, zero, suc, ◌+◌, ◌*◌, ◌/◌, ◌%◌, Bool, true, false, not, ◌&&◌, List, [], ◌∷◌, ◌++◌, leb, ◌==◌,
  if◌then◌else◌, Option, none, some, replicate, length,
}
use cr_ow_s.Base.Words.{add64}
use cr_ow_s.Base.Status.{Status, is_error}
use cr_ow_s.Base.Memory.{EfiLib}
use cr_ow_s.Util.{calculate_checksum8}
use cr_ow_s.Ramdisk.{PrivateData}
use cr_ow_s.Ramdisk.Pools.{Pool, Event}

-- The two fields of EFI_MEMORY_DESCRIPTOR that the search reads.
pub record Descriptor : Type 0 where
  pub physical_start : ℕ
  pub number_of_pages : ℕ

-- EFI_PAGE_SIZE
abbrev pub page_bytes : ℕ
page_bytes = 4096

-- The condition of the search, in 64-bit arithmetic.
unfoldable pub covers : EfiLib → PrivateData → Descriptor → Bool
covers lib p d =
    leb d.physical_start p.starting_addr
    && leb (add64 p.starting_addr p.size)
        (add64 d.physical_start (lib.mult_u64x32 d.number_of_pages page_bytes))

-- The `while` over the memory map, which stops at the first descriptor that covers the disk.
unfoldable pub memory_found : EfiLib → PrivateData → List Descriptor → Bool
memory_found lib p [] = false
memory_found lib p (d ∷ ds) = if covers lib p d then true else memory_found lib p ds

-- One round of the loop that fetches the map: whether the pool was allocated, the status of
-- GetMemoryMap, and the descriptors that it wrote.
pub record Attempt : Type 0 where
  pub pool : Bool
  pub status : Status
  pub descriptors : List Descriptor

-- How the loop ends, with what it did; `unanswered` is a firmware that is still asked for a
-- larger buffer when the given rounds are over.
pub data Fetched : Type 0 where
  unanswered : List Event → Fetched
  failed : Status → List Event → Fetched
  fetched : List Descriptor → List Event → Fetched

abbrev pub is_too_small : Status → Bool
is_too_small Status.buffer_too_small = true
is_too_small _ = false

unfoldable pub fetch_map : List Attempt → List Event → Fetched
fetch_map [] done = unanswered done
fetch_map (a ∷ rest) done =
    let held = done ++ (Event.allocated Pool.memory_map ∷ []) in
    let dropped = held ++ (Event.freed Pool.memory_map ∷ []) in
    let again = fetch_map rest dropped in
    if not a.pool
    then failed Status.out_of_resources done
    else if is_too_small a.status
    then again
    else if is_error a.status
    then failed a.status dropped
    else fetched a.descriptors held

-- What else the firmware answers: whether the ACPI protocol is there, the address of the pool for
-- the table (0 for NULL), and the statuses of the two InstallAcpiTable calls.
pub record Acpi : Type 0 where
  pub present : Bool
  pub attempts : List Attempt
  pub ssdt : Status
  pub table : ℕ
  pub install : Status

-- `k` bytes of a number, least significant first.
abbrev pub le_bytes : ℕ → ℕ → List ℕ
le_bytes zero v = []
le_bytes (suc k) v = v % 256 ∷ le_bytes k (v / 256)

-- The NFIT with its checksum byte: EFI_ACPI_DESCRIPTION_HEADER and four reserved bytes, then the
-- system physical address range structure. MFTAH_RELEASE_DATE comes from the build.
pub nfit_table : ℕ → PrivateData → ℕ → List ℕ
nfit_table release_date p checksum =
    b'N' ∷ b'F' ∷ b'I' ∷ b'T' ∷ le_bytes 4 96
    ++ (1 ∷ checksum ∷ b'S' ∷ b'O' ∷ b'L' ∷ b'S' ∷ b' ' ∷ b' ' ∷ [])
    ++ (b'M' ∷ b'F' ∷ b'T' ∷ b'A' ∷ b'H' ∷ b'E' ∷ b'F' ∷ b'I' ∷ [])
    ++ le_bytes 4 release_date
    ++ (b'X' ∷ b'M' ∷ b'I' ∷ b'T' ∷ le_bytes 4 1)
    ++ replicate 4 0
    ++ le_bytes 2 0
    ++ le_bytes 2 56
    ++ replicate 12 0
    ++ le_bytes 16 p.type_guid
    ++ le_bytes 8 p.starting_addr
    ++ le_bytes 8 p.size
    ++ replicate 8 0

-- nvdimmRootAml of RamDiskPublishSsdt, whose fifth byte is the array's size
unfoldable pub ssdt_table : List ℕ
ssdt_table =
    0x53 ∷ 0x53 ∷ 0x44 ∷ 0x54 ∷ 124 ∷ 0x00 ∷ 0x00 ∷ 0x00 ∷ 0x02 ∷ 0xc3 ∷ 0x53 ∷ 0x4f ∷ 0x4c ∷ 0x53
    ∷ 0x20 ∷ 0x20 ∷ 0x52 ∷ 0x61 ∷ 0x6d ∷ 0x44 ∷ 0x69 ∷ 0x73 ∷ 0x6b ∷ 0x20 ∷ 0x00 ∷ 0x10 ∷ 0x00
    ∷ 0x00 ∷ 0x49 ∷ 0x4e ∷ 0x54 ∷ 0x4c ∷ 0x29 ∷ 0x06 ∷ 0x18 ∷ 0x20 ∷ 0x10 ∷ 0x47 ∷ 0x05 ∷ 0x5c
    ∷ 0x5f ∷ 0x53 ∷ 0x42 ∷ 0x5f ∷ 0x5b ∷ 0x82 ∷ 0x4e ∷ 0x04 ∷ 0x4e ∷ 0x56 ∷ 0x44 ∷ 0x52 ∷ 0x08
    ∷ 0x5f ∷ 0x48 ∷ 0x49 ∷ 0x44 ∷ 0x0d ∷ 0x41 ∷ 0x43 ∷ 0x50 ∷ 0x49 ∷ 0x30 ∷ 0x30 ∷ 0x31 ∷ 0x32
    ∷ 0x00 ∷ 0x08 ∷ 0x5f ∷ 0x53 ∷ 0x54 ∷ 0x52 ∷ 0x11 ∷ 0x29 ∷ 0x0a ∷ 0x26 ∷ 0x4e ∷ 0x00 ∷ 0x56
    ∷ 0x00 ∷ 0x44 ∷ 0x00 ∷ 0x49 ∷ 0x00 ∷ 0x4d ∷ 0x00 ∷ 0x4d ∷ 0x00 ∷ 0x20 ∷ 0x00 ∷ 0x52 ∷ 0x00
    ∷ 0x6f ∷ 0x00 ∷ 0x6f ∷ 0x00 ∷ 0x74 ∷ 0x00 ∷ 0x20 ∷ 0x00 ∷ 0x44 ∷ 0x00 ∷ 0x65 ∷ 0x00 ∷ 0x76
    ∷ 0x00 ∷ 0x69 ∷ 0x00 ∷ 0x63 ∷ 0x00 ∷ 0x65 ∷ 0x00 ∷ 0x00 ∷ 0x00 ∷ 0x14 ∷ 0x09 ∷ 0x5f ∷ 0x53
    ∷ 0x54 ∷ 0x41 ∷ 0x00 ∷ 0xa4 ∷ 0x0a ∷ 0x0f ∷ []

-- From the search on, with the map in its pool.
unfoldable pub publish_found :
    EfiLib → ℕ → PrivateData → Acpi → List Descriptor → List Event → Status × List Event
publish_found lib release_date p acpi ds held =
    let done = held ++ (Event.freed Pool.memory_map ∷ []) in
    let ssdt = done ++ (Event.ssdt_offered ssdt_table ∷ []) in
    let blank = nfit_table release_date p 0 in
    let table = nfit_table release_date p (calculate_checksum8 acpi.table blank) in
    if not (memory_found lib p ds)
    then (Status.not_found, done)
    else if is_error acpi.ssdt
    then (acpi.ssdt, ssdt)
    else if acpi.table == 0
    then (Status.out_of_resources, ssdt)
    else (
      acpi.install,
      ssdt ++ (Event.allocated Pool.nfit ∷ Event.nfit_offered table ∷ Event.freed Pool.nfit ∷ []),
    )

unfoldable pub conclude : EfiLib → ℕ → PrivateData → Acpi → Fetched → Option (Status × List Event)
conclude lib release_date p acpi (unanswered es) = none
conclude lib release_date p acpi (failed s es) = some (s, es)
conclude lib release_date p acpi (fetched ds es) =
    some (publish_found lib release_date p acpi ds es)

-- RamDiskPublishNfit: its status and what it did; `none` while the firmware has not yet answered.
unfoldable pub publish_nfit : EfiLib → ℕ → PrivateData → Acpi → Option (Status × List Event)
publish_nfit lib release_date p acpi =
    if not acpi.present
    then some (Status.not_found, [])
    else conclude lib release_date p acpi (fetch_map acpi.attempts [])
