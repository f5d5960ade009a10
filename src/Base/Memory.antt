-- ===== src/Base/Memory.antt =====
-- Physical memory as bytes by address, and the routines of gnu-efi that the drivers call.
use Prim.Native.Nat.{ℕ, ◌+◌, ◌-◌, ◌*◌, ◌/◌, ◌%◌, ◌^◌, ◌≤◌, ◌<◌}
use mathlib.Core.Path.{◌≡◌, refl}
use mathlib.Core.Logic.{◌⊎◌}
use mathlib.Core.Bool.{◌&&◌}
use native.Mathlib.Omega.{arith}
use cr_ow_s.Base.Tests.{ltb, leb, if◌then◌else◌}

abbrev pub Memory : Type 0
Memory = ℕ → ℕ

-- gnu-efi is a submodule. Its documentation: CopyMem(to, from, n) moves `n` bytes, also between
-- overlapping buffers, and writes nothing else; MultU64x32 and DivU64x32 multiply and divide
-- 64-bit numbers by 32-bit ones.
pub record EfiLib : Type 0 where
  pub copy_mem : ℕ → ℕ → ℕ → Memory → Memory
  pub mult_u64x32 : ℕ → ℕ → ℕ
  pub div_u64x32 : ℕ → ℕ → ℕ
  pub copy_mem-inside :
      (to from n : ℕ) (m : Memory) (a : ℕ)
      → to ≤ a
      → a < to + n
      → copy_mem to from n m a ≡ m (from + (a - to))
  pub copy_mem-outside :
      (to from n : ℕ) (m : Memory) (a : ℕ) → (a < to) ⊎ (to + n ≤ a) → copy_mem to from n m a ≡ m a
  pub mult_u64x32_lem : (a b : ℕ) → mult_u64x32 a b ≡ (a * b) % 2 ^ 64
  pub div_u64x32_lem : (a b : ℕ) → 0 < b → div_u64x32 a b ≡ a / b

-- A library that behaves as documented.
abbrev pub move : ℕ → ℕ → ℕ → Memory → Memory
move to from n m a = if leb to a && ltb a (to + n) then m (from + (a - to)) else m a

pub move-inside :
    (to from n : ℕ) (m : Memory) (a : ℕ)
    → to ≤ a
    → a < to + n
    → move to from n m a ≡ m (from + (a - to))
move-inside to from n m a h k = ground arith

pub move-outside :
    (to from n : ℕ) (m : Memory) (a : ℕ) → (a < to) ⊎ (to + n ≤ a) → move to from n m a ≡ m a
move-outside to from n m a h = ground arith

abbrev pub plain_lib : EfiLib
plain_lib = record {
  copy_mem = move;
  mult_u64x32 = λ a b. (a * b) % 2 ^ 64;
  div_u64x32 = λ a b. a / b;
  copy_mem-inside = move-inside;
  copy_mem-outside = move-outside;
  mult_u64x32_lem = λ a b. refl;
  div_u64x32_lem = λ a b h. refl;
}
