-- ===== src/Util/Checksum.antt =====
-- What CalculateCheckSum8 computes: the plain sum of the bytes, modulo 256.
use cr_ow_s.Base.{ℕ, ◌+◌, ◌%◌, ◌^◌, ◌≤◌, ◌<◌, ◌≡◌, ◌≢◌, List, [], ◌∷◌, ◌++◌, arith, length}
use cr_ow_s.Util.{checksum_from, calculate_checksum8}

abbrev pub total : List ℕ → ℕ
total [] = 0
total (b ∷ bs) = b + total bs

pub total-append : (xs ys : List ℕ) → total (xs ++ ys) ≡ total xs + total ys
total-append [] ys = omega arith
total-append (x ∷ xs) ys = omega (arith, total-append xs ys)

checksum_from-total :
    (c : ℕ) (bytes : List ℕ) → c < 256 → checksum_from c bytes ≡ (c + total bytes) % 256
unfolding checksum_from
checksum_from-total c [] h = omega arith
checksum_from-total c (b ∷ bs) h =
    omega (arith, checksum_from-total ((c + b) % 256) bs (omega arith))

-- Of a buffer that is not NULL and lies inside the address space, the checksum is the sum of its
-- bytes modulo 256, not the complement that would bring the sum to 0.
pub calculate_checksum8-total :
    (buffer : ℕ) (bytes : List ℕ)
    → buffer ≢ 0
    → buffer + length bytes ≤ 2 ^ 64
    → calculate_checksum8 buffer bytes ≡ total bytes % 256
unfolding calculate_checksum8
calculate_checksum8-total buffer [] h k = ground arith
calculate_checksum8-total buffer (b ∷ bs) h k =
    ground (arith, checksum_from-total 0 (b ∷ bs) (omega arith))
