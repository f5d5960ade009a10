-- ===== src/Ramdisk/Nfit/Table.antt =====
-- The bytes of the published NFIT: their number, and what they sum up to.
use cr_ow_s.Base.{ℕ, ◌+◌, ◌*◌, ◌%◌, ◌^◌, ◌≤◌, ◌≡◌, ◌≢◌, ◌↔◌, refl, arith, length}
use cr_ow_s.Util.{calculate_checksum8}
use cr_ow_s.Util.Checksum.{total, calculate_checksum8-total}
use cr_ow_s.Ramdisk.{PrivateData}
use cr_ow_s.Ramdisk.Nfit.{nfit_table}

-- The table has the 96 bytes that its header announces, whatever the checksum byte is.
length-nfit_table :
    (release_date : ℕ) (p : PrivateData) (checksum : ℕ)
    → length (nfit_table release_date p checksum) ≡ 96
unfolding nfit_table
length-nfit_table release_date p checksum = refl

-- The checksum byte counts once.
total-nfit_table :
    (release_date : ℕ) (p : PrivateData) (checksum : ℕ)
    → total (nfit_table release_date p checksum) ≡ checksum + total (nfit_table release_date p 0)
unfolding nfit_table
total-nfit_table release_date p checksum = omega arith

-- The table that is published, at an address where its 96 bytes fit, sums up to twice its checksum
-- byte modulo 256. ACPI asks for the sum 0, so the table is valid exactly if that byte is 0 or 128.
pub nfit_table-checksum_iff :
    (release_date : ℕ) (p : PrivateData) (address : ℕ)
    → address ≢ 0
    → address + 96 ≤ 2 ^ 64
    → let checksum = calculate_checksum8 address (nfit_table release_date p 0) in
      (total (nfit_table release_date p checksum) % 256 ≡ 2 * checksum % 256)
      × ((total (nfit_table release_date p checksum) % 256 ≡ 0) ↔ (checksum % 128 ≡ 0))
nfit_table-checksum_iff release_date p address h k =
    let counted = calculate_checksum8-total address (nfit_table release_date p 0) h in
    let checksum : ℕ = calculate_checksum8 address (nfit_table release_date p 0) in
    let summed = total-nfit_table release_date p checksum in
    let whole = length-nfit_table release_date p 0 in
    let twice : total (nfit_table release_date p checksum) % 256 ≡ 2 * checksum % 256 =
      ground (arith, whole, counted, summed, k) in
    (twice, ground (arith, twice))
