-- ===== src/Ramdisk/Nfit/Search.antt =====
-- Which disks RamDiskPublishNfit accepts: those inside one descriptor of the memory map.
use cr_ow_s.Base.{◌+◌, ◌*◌, ◌^◌, ◌≤◌, ◌<◌, ◌≡◌, ◌↔◌, ◌⊎◌, true, List, [], ◌∷◌, arith}
use cr_ow_s.Base.Memory.{EfiLib}
use cr_ow_s.Ramdisk.{PrivateData}
use cr_ow_s.Ramdisk.Nfit.{Descriptor, covers, memory_found}

-- The disk lies inside the pages of the descriptor, in true numbers.
abbrev pub Inside : PrivateData → Descriptor → Type 0
Inside p d =
    (d.physical_start ≤ p.starting_addr)
    × (p.starting_addr + p.size ≤ d.physical_start + d.number_of_pages * 4096)

-- The descriptor ends inside the 64-bit address space.
abbrev pub InSpace : Descriptor → Type 0
InSpace d = d.physical_start + d.number_of_pages * 4096 < 2 ^ 64

abbrev pub AllInSpace : List Descriptor → Type 0
AllInSpace [] = Unit {0}
AllInSpace (d ∷ ds) = InSpace d × AllInSpace ds

abbrev pub SomeInside : PrivateData → List Descriptor → Type 0
SomeInside p [] = ⊥
SomeInside p (d ∷ ds) = Inside p d ⊎ SomeInside p ds

covers_iff :
    (lib : EfiLib) (p : PrivateData) (d : Descriptor)
    → p.starting_addr + p.size < 2 ^ 64
    → InSpace d
    → (covers lib p d ≡ true) ↔ Inside p d
unfolding covers
covers_iff lib p d hp hd = ground (arith, lib.mult_u64x32_lem d.number_of_pages 4096)

-- If the disk and every descriptor end below 2^64, the search finds memory exactly when some
-- descriptor of the map contains the whole disk.
pub memory_found_iff :
    (lib : EfiLib) (p : PrivateData) (ds : List Descriptor)
    → p.starting_addr + p.size < 2 ^ 64
    → AllInSpace ds
    → (memory_found lib p ds ≡ true) ↔ SomeInside p ds
unfolding memory_found
memory_found_iff lib p [] hp hs = ground arith
memory_found_iff lib p (d ∷ ds) hp hs =
    ground (arith, covers_iff lib p d hp hs.0, memory_found_iff lib p ds hp hs.1)
