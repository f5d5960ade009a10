-- ===== src/Loader/Discover.antt =====
-- DiscoverPayloads, src/boot/mftah_uefi/loader.c: the payloads in the root of the boot volume.
pub mod Found
pub mod Hash
mod Tests
use cr_ow_s.Base.{
  ℕ, zero, suc, ◌+◌, ◌-◌, ◌*◌, Bool, true, false, not, ◌&&◌, List, [], ◌∷◌, ◌++◌, ltb, ◌==◌,
  if◌then◌else◌, length,
}
use cr_ow_s.Base.Status.{Status, is_error}
use cr_ow_s.Loader.{StringLib, Discovery}

-- MFTAH_MAX_PAYLOADS and BootPayloadExtensionPattern
abbrev pub max_payloads : ℕ
max_payloads = 32

abbrev pub extension : List ℕ
extension = b'.' ∷ (b'C' ∷ (b'R' ∷ (b'O' ∷ (b'W' ∷ (b'S' ∷ [])))))

-- The calls for one entry of the directory: the status of Read, the size that it stores and the
-- file's name; then what Open answers for this file.
pub record Answer : Type 0 where
  pub status : Status
  pub size : ℕ
  pub name : List ℕ
  pub opened : Status
  pub handle : ℕ

abbrev pub drop : ℕ → List ℕ → List ℕ
drop zero xs = xs
drop (suc n) [] = []
drop (suc n) (x ∷ xs) = drop n xs

-- StrSize, with NUL.
abbrev pub str_size : List ℕ → ℕ
str_size s = (length s + 1) * 2

unfoldable pub is_payload : StringLib → List ℕ → Bool
is_payload lib name =
    ltb (str_size extension) (str_size name)
    && lib.str_equal extension (lib.str_upr (drop (length name - length extension) name))

abbrev pub is_too_small : Status → Bool
is_too_small Status.buffer_too_small = true
is_too_small _ = false

-- The handles; an error, with those that are already opened; or a directory that is not read out.
pub data Listing : Type 0 where
  listed : List ℕ → Listing
  failed : Status → List ℕ → Listing
  listing : List ℕ → Listing

-- The loop over the directory, behind the handles that are found. A buffer that is too small is
-- allocated anew, which is taken to succeed.
unfoldable pub list_files : StringLib → List Answer → List ℕ → Listing
list_files lib [] found = if ltb (length found) max_payloads then listing found else listed found
list_files lib (a ∷ answers) found =
    let next = list_files lib answers found in
    let with_it = list_files lib answers (found ++ (a.handle ∷ [])) in
    if not (ltb (length found) max_payloads)
    then listed found
    else if is_too_small a.status
    then next
    else if a.size == 0
    then (if is_error a.status then failed a.status found else listed found)
    else if is_error a.status
    then failed a.status found
    else if is_payload lib a.name
    then (if is_error a.opened then failed a.opened found else with_it)
    else next

-- The calls before the loop: the two HandleProtocol, OpenVolume, and the two pools.
pub record Opening : Type 0 where
  pub loaded_image : Status
  pub filesystem : Status
  pub volume : Status
  pub handles_pool : Bool
  pub info_pool : Bool

-- DiscoverPayloads, without the hash of the loader, which does not change its course.
unfoldable pub discover_payloads : StringLib → Opening → List Answer → Listing
discover_payloads lib o answers =
    if is_error o.loaded_image
    then failed o.loaded_image []
    else if is_error o.filesystem
    then failed o.filesystem []
    else if is_error o.volume
    then failed o.volume []
    else if not o.handles_pool
    then failed Status.out_of_resources []
    else if not o.info_pool
    then failed Status.out_of_resources []
    else list_files lib answers []

-- The status that is returned.
unfoldable pub discovery_of : Listing → Discovery
discovery_of (listed []) = Discovery.no_payload
discovery_of (listed (h ∷ [])) = Discovery.single_payload
discovery_of (listed (h ∷ k ∷ hs)) = Discovery.multi_payload
discovery_of (failed s hs) = Discovery.no_listing
discovery_of (listing hs) = Discovery.no_listing
