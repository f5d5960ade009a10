-- ===== src/Kernel/Console/Buffer.antt =====
-- The buffer of a line as a list of bytes: what a print lays over it, and what of it is sent.
use cr_ow_s.Base.{
  ℕ, zero, suc, ◌+◌, ◌≤◌, ◌<◌, ◌≡◌, ◌≢◌, ◌⊎◌, inl, inr, refl, ap, ap₂, ◌∙◌, List, [], ◌∷◌, some,
  arith, Bool-cases, ◌==◌, length, if◌then◌else◌,
}
use cr_ow_s.Base.Memory.{Memory}
use cr_ow_s.Kernel.Str.{put}
use cr_ow_s.Kernel.Str.Exact.{write_text}
use cr_ow_s.Kernel.Str.Clearing.{clear_line, clear_line-cases}
use cr_ow_s.Kernel.Console.{string_at}

-- The bytes from an address on.
unfoldable pub bytes : ℕ → ℕ → Memory → List ℕ
bytes a zero m = []
bytes a (suc n) m = m a ∷ bytes (a + 1) n m

-- A text written over the front of older bytes.
abbrev pub overlay : List ℕ → List ℕ → List ℕ
overlay [] old = old
overlay (x ∷ xs) [] = []
overlay (x ∷ xs) (o ∷ old) = x ∷ overlay xs old

-- The string that begins there.
abbrev pub before_nul : List ℕ → List ℕ
before_nul [] = []
before_nul (c ∷ cs) = if c == 0 then [] else c ∷ before_nul cs

abbrev pub last_byte : List ℕ → ℕ
last_byte [] = 1
last_byte (c ∷ []) = c
last_byte (c ∷ d ∷ cs) = last_byte (d ∷ cs)

-- The memories differ at most in a buffer of `size` bytes at `line`.
abbrev pub Agrees : ℕ → ℕ → Memory → Memory → Type 0
Agrees line size m m' = (a : ℕ) → (a < line) ⊎ (line + size ≤ a) → m' a ≡ m a

write_text-below : (xs : List ℕ) (a b : ℕ) (m : Memory) → b < a → write_text xs a m b ≡ m b
write_text-below [] a b m h = refl
write_text-below (x ∷ xs) a b m h =
    write_text-below xs (a + 1) b (put m a x) (omega (arith, h)) ∙ ground arith

write_text-above :
    (xs : List ℕ) (a b : ℕ) (m : Memory) → a + length xs ≤ b → write_text xs a m b ≡ m b
write_text-above [] a b m h = refl
write_text-above (x ∷ xs) a b m h =
    write_text-above xs (a + 1) b (put m a x) (omega (arith, h)) ∙ ground arith

pub write_text-Agrees :
    (xs : List ℕ) (line size : ℕ) (m : Memory)
    → length xs ≤ size
    → Agrees line size m (write_text xs line m)
write_text-Agrees xs line size m h a (inl below) = write_text-below xs line a m below
write_text-Agrees xs line size m h a (inr above) =
    write_text-above xs line a m (omega (arith, h, above))

bytes-put : (n a b x : ℕ) (m : Memory) → b < a → bytes a n (put m b x) ≡ bytes a n m
unfolding bytes
bytes-put zero a b x m h = refl
bytes-put (suc n) a b x m h =
    ap₂ (λ c cs. c ∷ cs) (ground (arith, h)) (bytes-put n (a + 1) b x m (omega (arith, h)))

pub bytes-write_text :
    (xs : List ℕ) (n a : ℕ) (m : Memory) → bytes a n (write_text xs a m) ≡ overlay xs (bytes a n m)
unfolding bytes
bytes-write_text [] n a m = refl
bytes-write_text (x ∷ xs) zero a m = refl
bytes-write_text (x ∷ xs) (suc n) a m =
    ap₂ (λ c cs. c ∷ cs) (write_text-below xs (a + 1) a (put m a x) (omega arith) ∙ ground arith)
      (bytes-write_text xs n (a + 1) (put m a x)
        ∙ ap (overlay xs) (bytes-put n (a + 1) a x m (omega arith)))

-- NUL for the first byte.
bytes-put_front : (n a : ℕ) (m : Memory) → bytes a n (put m a 0) ≡ overlay (0 ∷ []) (bytes a n m)
bytes-put_front n a m = bytes-write_text (0 ∷ []) n a m

bytes-blank : (n a : ℕ) (m : Memory) → m a ≡ 0 → bytes a n m ≡ overlay (0 ∷ []) (bytes a n m)
unfolding bytes
bytes-blank zero a m e = refl
bytes-blank (suc n) a m e = ap (λ c. c ∷ bytes (a + 1) n m) e

pub bytes-clear_line :
    (reads line n : ℕ) (m : Memory)
    → line ≢ 0
    → 2 ≤ reads
    → bytes line n (clear_line reads line m) ≡ overlay (0 ∷ []) (bytes line n m)
bytes-clear_line reads line n m given h = elim (clear_line-cases reads line m given h) [
  | inl same ↦ ap (bytes line n) same.1 ∙ bytes-blank n line m same.0
  | inr e ↦ ap (bytes line n) e ∙ bytes-put_front n line m
]

pub clear_line-Agrees :
    (reads line size : ℕ) (m : Memory)
    → line ≢ 0
    → 2 ≤ reads
    → 0 < size
    → Agrees line size m (clear_line reads line m)
clear_line-Agrees reads line size m given h room a out =
    elim (clear_line-cases reads line m given h) [
      | inl same ↦ ap (λ (k : Memory). k a) same.1
      | inr e ↦ ap (λ (k : Memory). k a) e ∙ write_text-Agrees (0 ∷ []) line size m room a out
    ]

pub last_byte-overlay :
    (xs old : List ℕ) → length xs < length old → last_byte (overlay xs old) ≡ last_byte old
last_byte-overlay [] old h = refl
last_byte-overlay (x ∷ xs) [] h = absurd (omega (arith, h))
last_byte-overlay (x ∷ xs) (o ∷ []) h = absurd (omega (arith, h))
last_byte-overlay (x ∷ []) (o ∷ p ∷ old) h = refl
last_byte-overlay (x ∷ y ∷ xs) (o ∷ p ∷ old) h =
    last_byte-overlay (y ∷ xs) (p ∷ old) (omega (arith, h))

pub length-bytes : (n a : ℕ) (m : Memory) → length (bytes a n m) ≡ n
unfolding bytes
length-bytes zero a m = refl
length-bytes (suc n) a m = ap suc (length-bytes n (a + 1) m)

-- uart_puts stops inside a buffer that ends with NUL.
pub string_at_lem :
    (n reads a : ℕ) (m : Memory)
    → last_byte (bytes a n m) ≡ 0
    → n ≤ reads
    → string_at reads a m ≡ some (before_nul (bytes a n m))
unfolding bytes string_at
string_at_lem zero reads a m e h = absurd (omega (arith, e))
string_at_lem (suc n) zero a m e h = absurd (omega (arith, h))
string_at_lem (suc zero) (suc reads) a m e h = rw (e) refl
string_at_lem (suc (suc n)) (suc reads) a m e h = elim (Bool-cases (m a == 0)) [
  | inl nul ↦ rw nul refl
  | inr other ↦ rw (other, string_at_lem (suc n) reads (a + 1) m e (omega (arith, h))) refl
]

pub bytes-same :
    (n a : ℕ) (m m' : Memory)
    → ((b : ℕ) → a ≤ b → b < a + n → m' b ≡ m b)
    → bytes a n m' ≡ bytes a n m
unfolding bytes
bytes-same zero a m m' same = refl
bytes-same (suc n) a m m' same =
    ap₂ (λ c cs. c ∷ cs) (same a (omega arith) (omega arith))
      (bytes-same n (a + 1) m m' (λ b from to. same b (omega (arith, from)) (omega (arith, to))))
