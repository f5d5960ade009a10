-- ===== src/Kernel/Samples.antt =====
-- Boot information for the tests of the modules below.
use cr_ow_s.Base.{ℕ, ◌-◌, ◌*◌, ◌/◌, ◌%◌, ◌^◌, List, [], ◌∷◌, leb, get_or, if◌then◌else◌}
use cr_ow_s.Base.Memory.{Memory}
use cr_ow_s.Kernel.Multiboot.Tags.{Tag}
use cr_ow_s.Kernel.Init.Entries.{Entry}

-- 32-bit words from an address on, and 0 around them.
abbrev pub words_at : ℕ → List ℕ → Memory
words_at base ws a =
    if leb base a then get_or ws ((a - base) / 4) 0 / 2 ^ (8 * ((a - base) % 4)) % 256 else 0

-- The boot information at 1000: a command line, a memory map of two entries, the end.
abbrev pub information : Memory
information = words_at 1000 (
    96 ∷ 0 ∷ 1 ∷ 16 ∷ 25185 ∷ 0 ∷ 6 ∷ 64 ∷ 24 ∷ 0 ∷ 0 ∷ 0 ∷ 654336 ∷ 0 ∷ 1 ∷ 0 ∷ 4194304 ∷ 0
    ∷ 8388608 ∷ 0 ∷ 1 ∷ 0 ∷ 0 ∷ 8 ∷ [])

abbrev pub tags : List Tag
tags =
    record { type = 1; size = 16 }
    ∷ record { type = 6; size = 64 }
    ∷ record { type = 0; size = 8 }
    ∷ []

abbrev pub entries : List Entry
entries =
    record { base = 0; length = 654336; type = 1 }
    ∷ record { base = 4194304; length = 8388608; type = 1 }
    ∷ []
