-- ===== src/Ramdisk/Register.antt =====
-- RamDiskRegister, in src/boot/mftah_uefi/ramdisk.c. What the firmware answers is an argument; the
-- result carries what the function did with its pools, in order.
pub mod Checks
pub mod Ledger
pub mod Dangling
mod Tests
use cr_ow_s.Base.{
  ℕ, ◌+◌, ◌-◌, ◌%◌, ◌^◌, Bool, true, false, not, ◌||◌, List, [], ◌∷◌, ◌++◌, leb, ltb, ◌==◌,
  if◌then◌else◌, Option, none, some,
}
use cr_ow_s.Base.Status.{Status, is_error}
use cr_ow_s.Base.Memory.{EfiLib}
use cr_ow_s.Ramdisk.{PrivateData, DeviceNode, block_bytes, init_block_io, init_device_node}
use cr_ow_s.Ramdisk.Pools.{Pool, Event}
use cr_ow_s.Ramdisk.Nfit.{Acpi, publish_nfit}

-- Whether the pools for the private data and for the device node are allocated, what
-- AppendDevicePathNode returns for a node (0 for NULL), the handle on which the protocols are installed, and
-- the statuses of InstallMultipleProtocolInterfaces and ConnectController.
pub record Firmware : Type 0 where
  pub private_pool : Bool
  pub node_pool : Bool
  pub path : DeviceNode → ℕ
  pub handle : ℕ
  pub install : Status
  pub connect : Status
  pub acpi : Acpi

-- `returned` has the status, the private data if it is still allocated, what was stored through
-- `DevicePath`, and the events. `panicked` is the PANIC without an ACPI protocol, and
-- `unanswered` a firmware that has not yet given the memory map.
pub data Outcome : Type 0 where
  returned : Status → Option PrivateData → Option ℕ → List Event → Outcome
  panicked : List Event → Outcome
  unanswered : Outcome

-- The private data after the template, the type, the base and the size were stored.
unfoldable pub new_disk : ℕ → ℕ → ℕ → PrivateData
new_disk base size guid = record {
  handle = 0;
  media = record {
    media_id = 0;
    removable_media = false;
    media_present = false;
    logical_partition = false;
    read_only = false;
    write_caching = false;
    block_size = 0;
    last_block = 0;
  };
  device_path = 0;
  starting_addr = base;
  size = size;
  type_guid = guid;
  instance_number = 0;
}

-- The label ErrorExit: the device node is freed if it was allocated, the device path if the private
-- data has one, then the private data.
pub error_exit : Bool → Bool → List Event
error_exit node path =
    (if node then Event.freed Pool.device_node ∷ [] else [])
    ++ ((if path then Event.freed Pool.device_path ∷ [] else [])
        ++ (Event.freed Pool.private_data ∷ []))

-- From the call of RamDiskPublishNfit on.
unfoldable pub finish : PrivateData → ℕ → List Event → Option (Status × List Event) → Outcome
finish p path done none = unanswered
finish p path done (some (s, es)) =
    returned (if is_error s then s else Status.success) (some p) (some path) (done ++ es)

abbrev pub allocations : List Event
allocations =
    Event.allocated Pool.private_data
    ∷ Event.allocated Pool.device_node
    ∷ Event.allocated Pool.device_path
    ∷ Event.allocated Pool.path_text
    ∷ Event.freed Pool.path_text
    ∷ []

-- The rest of the function behind the checks of its arguments.
unfoldable pub register_disk : EfiLib → ℕ → Firmware → PrivateData → Outcome
register_disk lib release_date f new =
    let path = f.path (init_device_node new) in
    let p = init_block_io lib (record new { device_path = path }) in
    let installed = record p { handle = f.handle } in
    let connected = allocations ++ (Event.installed ∷ Event.connected ∷ []) in
    let ready = connected ++ (Event.freed Pool.device_node ∷ []) in
    if not f.private_pool
    then returned Status.out_of_resources none none []
    else if not f.node_pool
    then returned Status.out_of_resources none none
        (Event.allocated Pool.private_data ∷ error_exit false false)
    else if path == 0
    then returned Status.out_of_resources none (some 0) (
        Event.allocated Pool.private_data
        ∷ (Event.allocated Pool.device_node ∷ error_exit true false))
    else if is_error f.install
    then returned f.install none (some path) (allocations ++ error_exit true true)
    else if is_error f.connect
    then returned f.connect none (some path)
        (allocations ++ (Event.installed ∷ error_exit true true))
    else if not f.acpi.present
    then panicked ready
    else finish installed path ready (publish_nfit lib release_date installed f.acpi)

-- RamDiskRegister of a base, a size, a type (`none` for NULL), with or without a place for the
-- device path.
unfoldable pub register : EfiLib → ℕ → Firmware → ℕ → ℕ → Option ℕ → Bool → Outcome
register lib release_date f base size none has_path = returned Status.not_found none none []
register lib release_date f base size (some guid) has_path =
    if (size == 0) || not has_path
    then returned Status.not_found none none []
    else if not (size % block_bytes == 0)
    then returned Status.bad_buffer_size none none []
    else if leb (2 ^ 64 - 1) size || ltb (2 ^ 64 - 1 - size + 1) base
    then returned Status.invalid_parameter none none []
    else register_disk lib release_date f (new_disk base size guid)

-- EFI_RAM_DISK_PROTOCOL.Unregister, RamDiskUnregister: whether the device path is given. The
-- protocols' removal is not checked.
pub unregister : Bool → Status
unregister false = Status.invalid_parameter
unregister true = Status.success

-- RDEntryPoint, from the status of InstallMultipleProtocolInterfaces.
unfoldable pub entry_point : Status → Status
entry_point install = if is_error install then Status.invalid_parameter else Status.success
