-- ===== src/Util/Wrappers.antt =====
-- src/boot/mftah_uefi/wrappers.c, the hooks that MFTAH calls in place of the standard library.
pub mod Moves
use cr_ow_s.Base.{
  ℕ, zero, suc, ◌+◌, ◌*◌, ◌%◌, ◌^◌, Bool, true, false, Option, none, some, ◌==◌, if◌then◌else◌,
}
use cr_ow_s.Base.Words.{u8}
use cr_ow_s.Base.Memory.{Memory, EfiLib}

-- The loop of MemMove with so many bytes left, at the two pointers as they stand.
pub move_bytes : ℕ → ℕ → ℕ → Memory → Memory
move_bytes zero destination source m = m
move_bytes (suc left) destination source m =
    move_bytes left (destination + 1) (source + 1) (λ a. if a == destination then m source else m a)

-- MftahUefi__wrapper__MemMove: the pointer that it returns, and memory.
pub mem_move : ℕ → ℕ → ℕ → Memory → ℕ × Memory
mem_move destination source length m =
    (destination + length, move_bytes length destination source m)

-- MftahUefi__wrapper__AllocateZeroPool: the size that it asks for.
pub zero_pool_size : ℕ → ℕ → ℕ
zero_pool_size count length = (count * length) % 2 ^ 64

-- MftahUefi__wrapper__ReallocatePool, with the pool that AllocatePool gives, 0 for NULL: the new
-- pool, and whether the old one is freed.
pub reallocate_pool : EfiLib → ℕ → ℕ → ℕ → Memory → ℕ × (Bool × Memory)
reallocate_pool lib new_pool at to_size m =
    if new_pool == 0
    then (0, (false, m))
    else (new_pool, (true, lib.copy_mem new_pool at to_size m))

-- MftahUefi__wrapper__SetMem, over the SetMem of gnu-efi, and MftahUefi__wrapper__CopyMem. Both return
-- NULL.
pub set_mem : (ℕ → ℕ → ℕ → Memory → Memory) → ℕ → ℕ → ℕ → Memory → ℕ × Memory
set_mem fill destination value size m = (0, fill destination size (u8 value) m)

pub copy_mem : EfiLib → ℕ → ℕ → ℕ → Memory → ℕ × Memory
copy_mem lib destination source size m = (0, lib.copy_mem destination source size m)
