-- ===== src/Boot/Course.antt =====
-- The start and the end of efi_main, src/boot/mftah_uefi/main.c: EnvironmentInitialize, with
-- EntryGraphics of graphics.c and AcpiLoadDriver of acpi.c, and what follows the decryption. A course
-- lists what the loader has done.
pub mod Phases
use cr_ow_s.Base.{
  ℕ, Bool, true, false, not, ◌&&◌, ◌||◌, List, [], ◌∷◌, ◌++◌, Option, none, some, map, ◌==◌,
  if◌then◌else◌,
}
use cr_ow_s.Base.Status.{Status, is_error}
use cr_ow_s.Base.Memory.{Memory, EfiLib}
use cr_ow_s.Loader.{StringLib, File, Discovery, select_payload}
use cr_ow_s.Loader
use cr_ow_s.Input.{is_not_ready}
use cr_ow_s.Ramdisk.Register.{register, entry_point}
use cr_ow_s.Ramdisk.Register
use cr_ow_s.Util.Worker.{MftahStatus}
use cr_ow_s.Boot.Files.{Handle, Mftah}
use cr_ow_s.Boot.Password.{Prompt, Entry, Verdict, get_password, check_password}
use cr_ow_s.Boot.Payload.{Image, Decryption, load_and_decrypt}
use cr_ow_s.Boot.Hints.{set_efi_vars_hints}
use cr_ow_s.Boot.Hints
use cr_ow_s.Boot.Jump.{Volume, jump_to_ramdisk}

-- What the loader runs on.
pub record World : Type 0 where
  pub strings : StringLib
  pub lib : EfiLib
  pub mftah : Mftah
  pub file : ℕ → Handle
  pub fuel : ℕ
  pub hints : Hints.Firmware
  pub release_date : ℕ
  pub disk_guid : ℕ
  pub ramdisk_protocol : Status
  pub ramdisk : Register.Firmware
  pub blocks : Status
  pub disks : Status
  pub filesystems : Status
  pub volumes : List Volume
  pub key_reset : Status
  pub key_reads : List Status

-- The start: SetWatchdogTimer, the two calls of SetAttribute that EntryGraphics checks, the ACPI
-- protocol that LocateProtocol finds (0 for NULL), the installation of the ramdisk protocol, and
-- MFTAH's factory.
pub record Startup : Type 0 where
  pub watchdog : Status
  pub art_attribute : Status
  pub text_attribute : Status
  pub acpi_protocol : ℕ
  pub ramdisk_driver : Status
  pub factory : MftahStatus

-- EntryGraphics of graphics.c, which is built without MFTAH_FULL_GRAPHICS.
abbrev pub entry_graphics : Status → Status → Status
entry_graphics art text =
    if is_error art then art else if is_error text then text else Status.success

-- AcpiLoadDriver: the status of the search is not looked at.
unfoldable pub acpi_load_driver : ℕ → Status
acpi_load_driver protocol = if protocol == 0 then Status.not_found else Status.success

abbrev pub is_already_started : Status → Bool
is_already_started Status.already_started = true
is_already_started _ = false

-- EnvironmentInitialize; `false` is a PANIC.
unfoldable pub environment_initialize : Mftah → Startup → Bool
environment_initialize mftah s =
    let driver = entry_point s.ramdisk_driver in
    if is_error (entry_graphics s.art_attribute s.text_attribute)
    then false
    else if is_error (acpi_load_driver s.acpi_protocol) || (s.acpi_protocol == 0)
    then false
    else if is_error driver && not (is_already_started driver)
    then false
    else not (mftah.is_failure s.factory)

pub data Step : Type 0 where
  selected : ℕ → Step
  went_back : Step
  denied : ℕ → Step
  confirmed : ℕ → List ℕ → Step
  decrypted : Image → Step
  wiped : Step
  hinted registered : Image → Step
  booted : ℕ → Step

-- The end: a PANIC, a shut-down, an access through NULL, a prompt or a loop that is not over, or
-- the return of efi_main.
pub data End : Type 0 where
  halted shut_down faulted asking unread waiting left : End

pub record Course : Type 0 where
  pub steps : List Step
  pub end : End

abbrev pub stops : End → Course
stops e = record { steps = []; end = e }

infixr 67 ◌then◌
abbrev pub ◌then◌ : Step → Course → Course
s then c = record { steps = s ∷ c.steps; end = c.end }

abbrev pub boots : List ℕ → End → Course
boots started e = record { steps = map (λ h. Step.booted h) started; end = e }

-- The wait for a key at the end, from the answers of ReadKeyStroke.
pub await_key : List Status → End
await_key [] = End.waiting
await_key (s ∷ reads) = let again = await_key reads in if is_not_ready s then again else left

-- What follows JumpToRamdisk when it comes back, from the status of Reset.
pub leave : World → End
leave w = if is_error w.key_reset then left else await_key w.key_reads

-- From JumpToRamdisk on.
pub hand_over : World → Course
hand_over w =
    let (s, started) = jump_to_ramdisk w.blocks w.disks w.filesystems w.volumes in
    boots started (if is_error s then halted else leave w)

-- WrapperRegisterRamdisk, and what follows it.
pub after_register : World → Image → Register.Outcome → Course
after_register w image (Register.returned s disk path events) =
    if is_error s then stops halted else Step.registered image then hand_over w
after_register w image (Register.panicked events) = stops halted
after_register w image Register.unanswered = stops unread

pub register_image : World → Image → Course
register_image w image =
    if is_error w.ramdisk_protocol
    then stops halted
    else after_register w image
        (register w.lib w.release_date w.ramdisk image.image image.length (some w.disk_guid) true)

-- From SetEfiVarsHints on, whose hashes are NULL here.
pub publish : World → Image → Memory → Course
publish w image m =
    let hints = set_efi_vars_hints w.lib w.hints image.image image.length 0 0 m in
    if is_error hints.status then stops halted else Step.hinted image then register_image w image

-- What becomes of LoadAndDecrypt's result. SetMem clears both passwords before the loop is left.
pub after_load : World → Decryption → Course
after_load w (Decryption.ready image m) =
    if (image.image == 0) || (image.length == 0)
    then stops halted
    else Step.decrypted image then Step.wiped then publish w image m
after_load w (Decryption.refused s pools) = stops halted
after_load w Decryption.panicked = stops halted
after_load w Decryption.unread = stops unread
