-- ===== src/Crypto.antt =====
-- hmac_sha256, src/boot/mftah_uefi/sha256.c. The hash beside it is a copy of another project's.
pub mod Rfc2104
mod Tests
use cr_ow_s.Base.{
  ℕ, zero, suc, ◌+◌, ◌*◌, ◌/◌, ◌%◌, ◌^◌, ◌≡◌, List, [], ◌∷◌, ◌++◌, ltb, if◌then◌else◌, length,
  get_or, set, replicate,
}

-- The hash: calc_sha_256, and the calls that take its input in pieces, which is the same as taking
-- it at once. A hash has 32 bytes.
pub record Sha256 : Type 1 where
  pub State : Type 0
  pub calc : List ℕ → List ℕ
  pub init : State
  pub write : State → List ℕ → State
  pub close : State → List ℕ
  pub length-calc : (bytes : List ℕ) → length (calc bytes) ≡ 32
  pub close-write :
      (first second : List ℕ) → close (write (write init first) second) ≡ calc (first ++ second)

-- SIZE_OF_SHA_256_CHUNK
abbrev pub chunk_bytes : ℕ
chunk_bytes = 64

-- C's `^` on bytes, bit by bit.
abbrev pub xor_bits : ℕ → ℕ → ℕ → ℕ
xor_bits zero a b = 0
xor_bits (suc bits) a b = (a % 2 + b % 2) % 2 + 2 * xor_bits bits (a / 2) (b / 2)

pub xor : ℕ → ℕ → ℕ
xor a b = xor_bits 8 a b

-- memcpy to the start of an array.
pub copy_into : List ℕ → List ℕ → List ℕ
copy_into [] array = array
copy_into (x ∷ xs) [] = []
copy_into (x ∷ xs) (y ∷ array) = x ∷ copy_into xs array

-- H, the hash of two pieces.
pub hash_both : Sha256 → List ℕ → List ℕ → List ℕ
hash_both sha x y = sha.close (sha.write (sha.write sha.init x) y)

-- The loop over k_ipad and k_opad, at an index with so many left.
pub mask : ℕ → ℕ → List ℕ → List ℕ → List ℕ → List ℕ × List ℕ
mask zero i k ipad opad = (ipad, opad)
mask (suc left) i k ipad opad =
    mask left (i + 1) k (set ipad i (xor (get_or ipad i 0) (get_or k i 0)))
      (set opad i (xor (get_or opad i 0) (get_or k i 0)))

-- The array k.
pub key_block : Sha256 → List ℕ → List ℕ
key_block sha key =
    if ltb chunk_bytes (length key)
    then copy_into (sha.calc key) (replicate chunk_bytes 0)
    else copy_into key (replicate chunk_bytes 0)

pub hmac_sha256 : Sha256 → List ℕ → List ℕ → List ℕ
hmac_sha256 sha key text =
    let pads =
      mask chunk_bytes 0 (key_block sha key) (replicate chunk_bytes 0x36)
        (replicate chunk_bytes 0x5c) in
    hash_both sha pads.1 (hash_both sha pads.0 text)
