-- ===== src/Kernel/Init/Entries.antt =====
-- The memory map as a list of entries, and the entry that the search is meant to choose.
use cr_ow_s.Base.{
  ℕ, ◌+◌, ◌^◌, ◌≤◌, ◌≡◌, List, [], ◌∷◌, Option, none, some, Bool, ◌&&◌, leb, ◌==◌, if◌then◌else◌,
}
use cr_ow_s.Base.Memory.{Memory}
use cr_ow_s.Kernel.{load32, load64, store32}
use cr_ow_s.Kernel.Init.{Boot, lowest_base, least_length}

-- multiboot_memory_map_entry
pub record Entry : Type 0 where
  pub base : ℕ
  pub length : ℕ
  pub type : ℕ

-- The entries stand in memory from `p` to `limit`, each `size` bytes behind the one before, and
-- speak of memory inside the address space.
abbrev pub Listed : Memory → ℕ → ℕ → ℕ → List Entry → Type 0
Listed m size p limit [] = p ≡ limit
Listed m size p limit (e ∷ es) =
    (load64 m p ≡ e.base)
    × (load64 m (p + 8) ≡ e.length)
    × (load32 m (p + 16) ≡ e.type)
    × (e.base + e.length ≤ 2 ^ 64)
    × (p + size ≤ limit)
    × Listed m size (p + size) limit es

-- Free memory of at least 1 MiB, at 2 MiB or above.
unfoldable pub is_hole : Entry → Bool
is_hole e = leb lowest_base e.base && (e.type == 1 && leb least_length e.length)

-- The first hole and the address of its entry.
unfoldable pub first_hole : ℕ → ℕ → List Entry → Option (ℕ × Entry)
first_hole size p [] = none
first_hole size p (e ∷ es) = if is_hole e then some (p, e) else first_hole size (p + size) es

-- The state once the search has chosen: the hole is in the context and its entry is marked as
-- reserved memory, of type 2.
unfoldable pub chosen : Boot → Option (ℕ × Entry) → Boot
chosen s none = s
chosen s (some (p, e)) = record {
  context = record { memory_map = s.context.memory_map; kmem_base = e.base; kmem_len = e.length };
  memory = store32 s.memory (p + 16) 2;
}
