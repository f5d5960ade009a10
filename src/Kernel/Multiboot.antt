-- ===== src/Kernel/Multiboot.antt =====
-- multiboot2_seek_tag, src/kernel/core/multiboot.c: the walk over the boot information.
pub mod Tags
pub mod Endless
mod Tests
use cr_ow_s.Base.{ℕ, zero, suc, ◌+◌, ltb, ◌==◌, if◌then◌else◌}
use cr_ow_s.Base.Words.{add64}
use cr_ow_s.Base.Memory.{Memory}
use cr_ow_s.Kernel.{load32}

-- MBI_MEMORY_MAP
abbrev pub memory_map_type : ℕ
memory_map_type = 6

-- sizeof(multiboot_info_header)
abbrev pub header_bytes : ℕ
header_bytes = 8

-- The address of the tag, or NULL; `running` is the loop when its fuel is used up.
pub data Seek : Type 0 where
  found : ℕ → Seek
  missing running : Seek

-- The loop at the tag header `p`: its type is the first field, its size the second.
unfoldable pub seek_from : ℕ → Memory → ℕ → ℕ → ℕ → Seek
seek_from zero m of_type limit p = running
seek_from (suc fuel) m of_type limit p =
    let rest = seek_from fuel m of_type limit (add64 p (load32 m (p + 4))) in
    if ltb p limit then (if load32 m p == of_type then found p else rest) else missing

-- multiboot2_seek_tag
unfoldable pub seek_tag : ℕ → Memory → ℕ → ℕ → Seek
seek_tag fuel m of_type head =
    if head == 0
    then missing
    else seek_from fuel m of_type (add64 head (load32 m head)) (add64 head header_bytes)
