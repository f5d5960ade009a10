-- ===== src/Util.antt =====
-- The loader's helpers, src/boot/mftah_uefi/util.c.
pub mod Checksum
pub mod Worker
pub mod Wrappers
pub mod Spin
pub mod Work
mod Tests
use cr_ow_s.Base.{ℕ, ◌+◌, ◌-◌, ◌^◌, List, [], ◌∷◌, ◌||◌, ltb, ◌==◌, if◌then◌else◌, length}
use cr_ow_s.Base.Words.{u8}

-- The loop of CalculateCheckSum8, from the running `Checksum` on.
pub checksum_from : ℕ → List ℕ → ℕ
checksum_from checksum [] = checksum
checksum_from checksum (byte ∷ bytes) = checksum_from (u8 (checksum + byte)) bytes

-- CalculateCheckSum8 of the bytes at `buffer`; the address 0 is NULL, and MAX_ADDRESS is the last
-- 64-bit address.
pub calculate_checksum8 : ℕ → List ℕ → ℕ
calculate_checksum8 buffer bytes =
    if (buffer == 0) || ltb (2 ^ 64 - 1 - buffer + 1) (length bytes) || (length bytes == 0)
    then 0
    else checksum_from 0 bytes
