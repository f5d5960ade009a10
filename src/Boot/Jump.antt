-- ===== src/Boot/Jump.antt =====
-- JumpToRamdisk, src/boot/mftah_uefi/main.c: the search for the filesystem to boot from.
pub mod Fates
use cr_ow_s.Base.{
  ℕ, ◌≡◌, refl, Bool, true, false, not, ◌&&◌, List, [], ◌∷◌, arith, if_elim, Bool-cases, inl, inr,
  if◌then◌else◌,
}
use cr_ow_s.Base.Status.{Status, is_error, is_success}

-- A filesystem handle and what the firmware answers for it: HandleProtocol and OpenVolume, the
-- Open of the canary file, LoadImage of the boot executable, HandleProtocol of the loaded image,
-- and StartImage.
pub record Volume : Type 0 where
  pub handle : ℕ
  pub protocol : Status
  pub volume : Status
  pub canary : Status
  pub load_image : Status
  pub image_protocol : Status
  pub start_image : Status

abbrev pub is_not_found : Status → Bool
is_not_found Status.not_found = true
is_not_found _ = false

-- The loop: its status, and the handles whose images were started, in order. An image that returns
-- without an error lets the loop go on.
pub search_volumes : List Volume → Status × List ℕ
search_volumes [] = (Status.success, [])
search_volumes (v ∷ vs) =
    let rest = search_volumes vs in
    let started : Status × List ℕ = (rest.0, v.handle ∷ rest.1) in
    if is_error v.protocol
    then (v.protocol, [])
    else if is_error v.volume
    then (v.volume, [])
    else if is_error v.canary && not (is_not_found v.canary)
    then (v.canary, [])
    else if is_success v.canary
    then (if is_error v.load_image
        then (v.load_image, [])
        else if is_error v.image_protocol
        then (v.image_protocol, [])
        else if is_error v.start_image
        then (v.start_image, v.handle ∷ [])
        else started)
    else rest

-- JumpToRamdisk, from the statuses of LocateHandleBuffer for the block I/O, the disk I/O and the
-- filesystem handles. What the first two find is only printed.
pub jump_to_ramdisk : Status → Status → Status → List Volume → Status × List ℕ
jump_to_ramdisk blocks disks filesystems volumes =
    if is_error blocks
    then (blocks, [])
    else if is_error disks
    then (disks, [])
    else if is_error filesystems
    then (filesystems, [])
    else search_volumes volumes
