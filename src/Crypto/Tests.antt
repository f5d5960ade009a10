-- ===== src/Crypto/Tests.antt =====
-- hmac_sha256 around a hash that sums its input up, with a key of more than a block.
use cr_ow_s.Base.{ℕ, ◌+◌, ◌%◌, ◌^◌, ◌≡◌, refl, List, [], ◌∷◌, ◌++◌, replicate}
use cr_ow_s.Crypto.{Sha256, hmac_sha256}
use cr_ow_s.Crypto.Rfc2104.{rfc2104, hmac_sha256-rfc2104}

abbrev sum : List ℕ → ℕ
sum [] = 0
sum (x ∷ xs) = (x + sum xs) % 2 ^ 8

abbrev sums : Sha256
sums = record {
  State = List ℕ;
  calc = λ bytes. sum bytes ∷ replicate 31 7;
  init = [];
  write = λ front bytes. front ++ bytes;
  close = λ bytes. sum bytes ∷ replicate 31 7;
  length-calc = λ bytes. refl;
  close-write = λ first second. refl;
}

abbrev key : List ℕ
key = replicate 65 3

abbrev message : List ℕ
message = b'h' ∷ (b'i' ∷ [])

hmac_sha256-rfc2104_example : hmac_sha256 sums key message ≡ rfc2104 sums key message
hmac_sha256-rfc2104_example = hmac_sha256-rfc2104 sums key message
