-- ===== src/Ramdisk/Nfit/Offers.antt =====
-- The ACPI tables that RamDiskPublishNfit offers to the firmware, read back from their bytes.
use cr_ow_s.Base.{
  ℕ, zero, suc, ◌+◌, ◌*◌, ◌/◌, ◌%◌, ◌^◌, ◌<◌, ◌≡◌, refl, not, ◌==◌, arith, length, List, [], ◌∷◌,
  ◌++◌, take, Option, none, some, subst, if_both,
}
use cr_ow_s.Base.Status.{Status, is_error}
use cr_ow_s.Base.Memory.{EfiLib}
use cr_ow_s.Util.Checksum.{total}
use cr_ow_s.Ramdisk.{PrivateData}
use cr_ow_s.Ramdisk.Pools.{Pool, Event}
use cr_ow_s.Ramdisk.Nfit.{
  Attempt, Acpi, Descriptor, is_too_small, Fetched, unanswered, failed, fetched, fetch_map,
  le_bytes, nfit_table, ssdt_table, memory_found, conclude, publish_found, publish_nfit,
}

-- The number in bytes with the least significant one first, and the one in the `k` bytes of a table
-- from `at` on.
abbrev pub le_value : List ℕ → ℕ
le_value [] = 0
le_value (b ∷ bs) = b + 256 * le_value bs

abbrev pub drop : ℕ → List ℕ → List ℕ
drop zero xs = xs
drop (suc n) [] = []
drop (suc n) (x ∷ xs) = drop n xs

abbrev pub field : List ℕ → ℕ → ℕ → ℕ
field t at k = le_value (take k (drop at t))

-- The PkgLength of AML in two bytes, which counts from its own first byte on.
abbrev pub package_end : List ℕ → ℕ → ℕ
package_end t at = at + field t at 1 % 16 + 16 * field t (at + 1) 1

-- The SSDT announces its length and sums up to 0, and its scope, the device in it and the method of
-- the device all end where the table does.
pub record IsSsdt (t : List ℕ) : Type 0 where
  pub announced : field t 4 4 ≡ length t
  pub valid : total t % 256 ≡ 0
  pub scope : package_end t 37 ≡ length t
  pub device : package_end t 46 ≡ length t
  pub method : 115 + field t 115 1 ≡ length t

-- The NFIT announces its length, and its one structure, which reaches to the end of the table, holds
-- the type, the address and the size of the disk.
pub record IsNfit (p : PrivateData) (t : List ℕ) : Type 0 where
  pub announced : field t 4 4 ≡ length t
  pub structure : 40 + field t 42 2 ≡ length t
  pub type : field t 56 16 ≡ p.type_guid
  pub address : field t 72 8 ≡ p.starting_addr
  pub size : field t 80 8 ≡ p.size

abbrev pub Sound : PrivateData → Event → Type 0
Sound p (Event.ssdt_offered t) = IsSsdt t
Sound p (Event.nfit_offered t) = IsNfit p t
Sound p _ = Unit {0}

abbrev pub AllSound : PrivateData → List Event → Type 0
AllSound p [] = Unit {0}
AllSound p (e ∷ es) = Sound p e × AllSound p es

-- How many numbers fit into `k` bytes.
abbrev span : ℕ → ℕ
span zero = 1
span (suc k) = 256 * span k

le_value-le_bytes : (k v : ℕ) → v < span k → le_value (le_bytes k v) ≡ v
le_value-le_bytes zero v h = omega (arith, h)
le_value-le_bytes (suc k) v h = omega (arith, le_value-le_bytes k (v / 256) (omega (arith, h)))

ssdt_table-IsSsdt : IsSsdt ssdt_table
unfolding ssdt_table
ssdt_table-IsSsdt = record {
  announced = refl;
  valid = refl;
  scope = refl;
  device = refl;
  method = refl;
}

-- A disk whose numbers fit their fields.
pub record Fits (p : PrivateData) : Type 0 where
  pub type_fits : p.type_guid < 2 ^ 128
  pub address_fits : p.starting_addr < 2 ^ 64
  pub size_fits : p.size < 2 ^ 64

nfit_table-IsNfit :
    (release_date : ℕ) (p : PrivateData) (checksum : ℕ)
    → Fits p
    → IsNfit p (nfit_table release_date p checksum)
unfolding nfit_table
nfit_table-IsNfit release_date p checksum f = record {
  announced = refl;
  structure = refl;
  type = le_value-le_bytes 16 p.type_guid f.type_fits;
  address = le_value-le_bytes 8 p.starting_addr f.address_fits;
  size = le_value-le_bytes 8 p.size f.size_fits;
}

AllSound-append :
    (p : PrivateData) (es fs : List Event) → AllSound p es → AllSound p fs → AllSound p (es ++ fs)
AllSound-append p [] fs h k = k
AllSound-append p (e ∷ es) fs h k = (h.0, AllSound-append p es fs h.1 k)

module _ (lib : EfiLib) (release_date : ℕ) (p : PrivateData) (acpi : Acpi) (fits : Fits p) where
  data Keeps : Fetched → Type 0 where
    waits : {es : List Event} → AllSound p es → Keeps (unanswered es)
    fails : {s : Status} {es : List Event} → AllSound p es → Keeps (failed s es)
    has_map : {ds : List Descriptor} {es : List Event} → AllSound p es → Keeps (fetched ds es)

  fetch_map-Keeps :
      (rounds : List Attempt) (done : List Event) → AllSound p done → Keeps (fetch_map rounds done)
  unfolding fetch_map
  fetch_map-Keeps [] done h = waits h
  fetch_map-Keeps (a ∷ rest) done h =
      let held = AllSound-append p done (Event.allocated Pool.memory_map ∷ []) h (tt, tt) in
      let dropped = AllSound-append p _ (Event.freed Pool.memory_map ∷ []) held (tt, tt) in
      if_both Keeps (not a.pool) (fails h) (
        if_both Keeps (is_too_small a.status) (fetch_map-Keeps rest _ dropped)
          (if_both Keeps (is_error a.status) (fails dropped) (has_map held)))

  publish_found-AllSound :
      (ds : List Descriptor) (es : List Event)
      → AllSound p es
      → AllSound p (publish_found lib release_date p acpi ds es).1
  unfolding publish_found
  publish_found-AllSound ds es h =
      let Good : Status × List Event → Type 0 = λ r. AllSound p r.1 in
      let done = AllSound-append p es (Event.freed Pool.memory_map ∷ []) h (tt, tt) in
      let ssdt =
        AllSound-append p _ (Event.ssdt_offered ssdt_table ∷ []) done (ssdt_table-IsSsdt, tt) in
      if_both Good (not (memory_found lib p ds)) done (
        if_both Good (is_error acpi.ssdt) ssdt (
          if_both Good (acpi.table == 0) ssdt
            (AllSound-append p _ _ ssdt (tt, (nfit_table-IsNfit release_date p _ fits, (tt, tt))))))

  data MaySound : Option (Status × List Event) → Type 0 where
    not_yet : MaySound none
    sound : {r : Status × List Event} → AllSound p r.1 → MaySound (some r)

  conclude-MaySound : {f : Fetched} → Keeps f → MaySound (conclude lib release_date p acpi f)
  unfolding conclude
  conclude-MaySound (waits h) = not_yet
  conclude-MaySound (fails h) = sound h
  conclude-MaySound (has_map h) = sound (publish_found-AllSound _ _ h)

  publish_nfit-MaySound : MaySound (publish_nfit lib release_date p acpi)
  unfolding publish_nfit
  publish_nfit-MaySound =
      if_both MaySound (not acpi.present) (sound tt)
        (conclude-MaySound (fetch_map-Keeps acpi.attempts [] tt))

  all_sound : {r : Status × List Event} → MaySound (some r) → AllSound p r.1
  all_sound (sound h) = h

  -- Of a disk whose type fits 16 bytes and whose address and size fit 8 each: whatever the firmware
  -- answers, when RamDiskPublishNfit returns, each SSDT that it has offered announces its own length,
  -- sums up to 0 modulo 256, and has the ends of its scope, its device and its method in place; and
  -- each NFIT announces its own length and that of its structure, and the type, the address and the
  -- size of the disk can be read back from it.
  pub publish_nfit-AllSound :
      (s : Status) (es : List Event)
      → publish_nfit lib release_date p acpi ≡ some (s, es)
      → AllSound p es
  publish_nfit-AllSound s es h = all_sound (subst MaySound h publish_nfit-MaySound)
