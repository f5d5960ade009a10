-- ===== src/Crypto/Rfc2104.antt =====
-- HMAC as RFC 2104 describes it.
use cr_ow_s.Base.{
  ℕ, zero, suc, ◌+◌, ◌-◌, ◌≤◌, ◌≡◌, refl, sym, ◌∙◌, ap, ap₂, List, [], ◌∷◌, ◌++◌, map, arith,
  Bool-cases, inl, inr, if_elim, ltb, if◌then◌else◌, length, get_or, set, replicate, append_assoc,
  length-append,
}
use cr_ow_s.Crypto.{Sha256, chunk_bytes, xor, copy_into, hash_both, mask, key_block, hmac_sha256}

-- A key of a block: a longer one is hashed, and zeros are appended.
pub block_key : Sha256 → List ℕ → List ℕ
block_key sha key =
    let short = if ltb chunk_bytes (length key) then sha.calc key else key in
    short ++ replicate (chunk_bytes - length short) 0

-- H(K XOR opad, H(K XOR ipad, text))
pub rfc2104 : Sha256 → List ℕ → List ℕ → List ℕ
rfc2104 sha key text =
    let k = block_key sha key in sha.calc (map (xor 0x5c) k ++ sha.calc (map (xor 0x36) k ++ text))

set-at : (xs ys : List ℕ) (y v i : ℕ) → i ≡ length xs → set (xs ++ (y ∷ ys)) i v ≡ xs ++ (v ∷ ys)
set-at [] ys y v zero e = refl
set-at [] ys y v (suc i) e = absurd (omega (arith, e))
set-at (x ∷ xs) ys y v zero e = absurd (omega (arith, e))
set-at (x ∷ xs) ys y v (suc i) e = ap (λ l. x ∷ l) (set-at xs ys y v i (omega (arith, e)))

get_or-at : (xs ys : List ℕ) (y i : ℕ) → i ≡ length xs → get_or (xs ++ (y ∷ ys)) i 0 ≡ y
get_or-at [] ys y zero e = refl
get_or-at [] ys y (suc i) e = absurd (omega (arith, e))
get_or-at (x ∷ xs) ys y zero e = absurd (omega (arith, e))
get_or-at (x ∷ xs) ys y (suc i) e = get_or-at xs ys y i (omega (arith, e))

-- One turn on an array, of which the front `done` is masked.
turn :
    (pad : ℕ) (done front rest more : List ℕ) (x i : ℕ)
    → i ≡ length done
    → i ≡ length front
    → set
        (done ++ (pad ∷ more))
        i
        (xor (get_or (done ++ (pad ∷ more)) i 0) (get_or (front ++ (x ∷ rest)) i 0))
      ≡ (done ++ (xor pad x ∷ [])) ++ more
turn pad done front rest more x i e f =
    rw (get_or-at done more pad i e, get_or-at front rest x i f)
      (set-at done more pad (xor pad x) i e ∙ sym (append_assoc done (xor pad x ∷ []) more))

mask-map :
    (rest front inner outer : List ℕ) (i : ℕ)
    → i ≡ length front
    → i ≡ length inner
    → i ≡ length outer
    → mask
        (length rest)
        i
        (front ++ rest)
        (inner ++ replicate (length rest) 0x36)
        (outer ++ replicate (length rest) 0x5c)
      ≡ (inner ++ map (xor 0x36) rest, outer ++ map (xor 0x5c) rest)
unfolding mask
mask-map [] front inner outer i e f g = refl
mask-map (x ∷ rest) front inner outer i e f g =
    let n = length rest in
    let ip = (inner ++ (xor 0x36 x ∷ [])) ++ replicate n 0x36 in
    let op = (outer ++ (xor 0x5c x ∷ [])) ++ replicate n 0x5c in
    ap₂ (λ (a b : List ℕ). mask n (i + 1) (front ++ (x ∷ rest)) a b)
      (turn 0x36 inner front rest (replicate n 0x36) x i f e)
      (turn 0x5c outer front rest (replicate n 0x5c) x i g e)
    ∙ ap (λ (k : List ℕ). mask n (i + 1) k ip op) (sym (append_assoc front (x ∷ []) rest))
    ∙ mask-map rest (front ++ (x ∷ [])) (inner ++ (xor 0x36 x ∷ [])) (outer ++ (xor 0x5c x ∷ []))
        (i + 1) (omega (arith, e, length-append front (x ∷ [])))
        (omega (arith, f, length-append inner (xor 0x36 x ∷ [])))
        (omega (arith, g, length-append outer (xor 0x5c x ∷ [])))
    ∙ ap₂ (λ (a b : List ℕ). (a, b)) (append_assoc inner (xor 0x36 x ∷ []) (map (xor 0x36) rest))
        (append_assoc outer (xor 0x5c x ∷ []) (map (xor 0x5c) rest))

copy_into-zeros :
    (xs : List ℕ) (n : ℕ)
    → length xs ≤ n
    → copy_into xs (replicate n 0) ≡ xs ++ replicate (n - length xs) 0
unfolding copy_into
copy_into-zeros [] n h = let same : n - 0 ≡ n = omega arith in rw same refl
copy_into-zeros (x ∷ xs) zero h = absurd (omega (arith, h))
copy_into-zeros (x ∷ xs) (suc n) h =
    let less : suc n - suc (length xs) ≡ n - length xs = omega arith in
    rw less (ap (λ l. x ∷ l) (copy_into-zeros xs n (omega (arith, h))))

length-copy_into : (xs array : List ℕ) → length (copy_into xs array) ≡ length array
unfolding copy_into
length-copy_into [] array = refl
length-copy_into (x ∷ xs) [] = refl
length-copy_into (x ∷ xs) (y ∷ array) = ap suc (length-copy_into xs array)

module _ (sha : Sha256) (key : List ℕ) where
  key_block-block_key : key_block sha key ≡ block_key sha key
  unfolding key_block block_key
  key_block-block_key = elim (Bool-cases (ltb chunk_bytes (length key))) [
    | inl e ↦
        let fits : length (sha.calc key) ≤ chunk_bytes = omega (arith, sha.length-calc key) in
        rw e (copy_into-zeros (sha.calc key) chunk_bytes fits)
    | inr e ↦ rw e (copy_into-zeros key chunk_bytes (ground (arith, e)))
  ]

  length-key_block : length (key_block sha key) ≡ chunk_bytes
  unfolding key_block
  length-key_block =
      if_elim (λ (l : List ℕ). length l ≡ chunk_bytes) (ltb chunk_bytes (length key))
        (λ e. length-copy_into (sha.calc key) (replicate chunk_bytes 0))
        (λ e. length-copy_into key (replicate chunk_bytes 0))

  mask-block_key :
      mask chunk_bytes 0
        (key_block sha key)
        (replicate chunk_bytes 0x36)
        (replicate chunk_bytes 0x5c)
      ≡ (map (xor 0x36) (block_key sha key), map (xor 0x5c) (block_key sha key))
  mask-block_key =
      ap (λ n. mask n 0 (key_block sha key) (replicate n 0x36) (replicate n 0x5c))
        (sym length-key_block)
      ∙ mask-map (key_block sha key) [] [] [] 0 refl refl refl
      ∙ ap (λ (k : List ℕ). (map (xor 0x36) k, map (xor 0x5c) k)) key_block-block_key

  -- For a hash of 32 bytes that may be fed in pieces: hmac_sha256 is the HMAC of RFC 2104, for keys
  -- of every length; those of more than 64 bytes are hashed first.
  pub hmac_sha256-rfc2104 : (txt : List ℕ) → hmac_sha256 sha key txt ≡ rfc2104 sha key txt
  unfolding hmac_sha256 rfc2104 hash_both
  hmac_sha256-rfc2104 txt =
      ap (λ (pads : List ℕ × List ℕ). hash_both sha pads.1 (hash_both sha pads.0 txt))
        mask-block_key
      ∙ sha.close-write _ _
      ∙ ap (λ (inner : List ℕ). sha.calc (map (xor 0x5c) (block_key sha key) ++ inner))
          (sha.close-write _ _)
