-- ===== src/Kernel/Init/Settle.antt =====
-- What kinit leaves behind: the context, the zeroed hole, and the rest of memory as it was.
use cr_ow_s.Base.{
  ℕ, ◌+◌, ◌^◌, ◌≤◌, ◌<◌, ◌≡◌, ◌≢◌, ◌⊎◌, List, [], ◌∷◌, Option, none, some, arith, refl, ◌∙◌,
  Bool-cases, inl, inr, ne→==,
}
use cr_ow_s.Base.Words.{add64_fits}
use cr_ow_s.Base.Memory.{Memory}
use cr_ow_s.Kernel.{load32, store32}
use cr_ow_s.Kernel.Multiboot.{found, seek_tag, memory_map_type}
use cr_ow_s.Kernel.Init.{
  Boot, Outcome, failed, ready, zero_out, take_hole, after_scan, use_map, after_seek, kinit,
}
use cr_ow_s.Kernel.Init.Entries.{Entry, Listed, is_hole, first_hole, chosen}
use cr_ow_s.Kernel.Init.Choose.{scan-first_hole, is_hole-base}

-- The hole of the entry `e` at `p` is in use, and nothing else has changed but the entry's type.
pub record Took (at p : ℕ) (e : Entry) (before after : Boot) : Type 0 where
  pub map : after.context.memory_map ≡ at
  pub base : after.context.kmem_base ≡ e.base
  pub len : after.context.kmem_len ≡ e.length
  pub zeroed : (a : ℕ) → e.base ≤ a → a < e.base + e.length → after.memory a ≡ 0
  pub kept :
      (a : ℕ)
      → a < 2 ^ 64
      → (a < e.base) ⊎ (e.base + e.length ≤ a)
      → (a < p + 16) ⊎ (p + 20 ≤ a)
      → after.memory a ≡ before.memory a

-- The start-up goes on with the hole, and fails without one.
abbrev pub Settled : ℕ → Boot → Option (ℕ × Entry) → Outcome → Type 0
Settled at s none (failed after) = (after.memory ≡ s.memory) × (after.context.kmem_base ≡ 0)
Settled at s (some (p, e)) (ready after) = Took at p e s after
Settled at s h o = ⊥

abbrev Usable : Option (ℕ × Entry) → Type 0
Usable none = Unit
Usable (some (p, e)) = (e.base ≢ 0) × (e.base + e.length ≤ 2 ^ 64)

first_hole-Usable :
    (m : Memory) (size p limit : ℕ) (es : List Entry)
    → Listed m size p limit es
    → Usable (first_hole size p es)
unfolding first_hole
first_hole-Usable m size p limit [] listed = tt
first_hole-Usable m size p limit (e ∷ es) listed = elim (Bool-cases (is_hole e)) [
  | inl h ↦ rw h (is_hole-base e h, listed.3)
  | inr h ↦ rw h (first_hole-Usable m size (p + size) limit es listed.5)
]

-- The boot state with the map recorded, as kinit's loop starts from it.
abbrev with_map : ℕ → Boot → Boot
with_map at s = record {
  context = record {
    memory_map = at;
    kmem_base = s.context.kmem_base;
    kmem_len = s.context.kmem_len;
  };
  memory = s.memory;
}

-- Outside the hole and the mark, zeroing the hole leaves what stood there.
zero_out-outside :
    (into len : ℕ) (m : Memory) (a : ℕ)
    → a < 2 ^ 64
    → into + len ≤ 2 ^ 64
    → (a < into) ⊎ (into + len ≤ a)
    → zero_out into len m a ≡ m a
unfolding zero_out
zero_out-outside into len m a small fits outside = ground arith

zero_out-inside :
    (into len : ℕ) (m : Memory) (a : ℕ) → into ≤ a → a < into + len → zero_out into len m a ≡ 0
unfolding zero_out
zero_out-inside into len m a from to = ground arith

store32-outside : (m : Memory) (a v b : ℕ) → (b < a) ⊎ (a + 4 ≤ b) → store32 m a v b ≡ m b
store32-outside m a v b outside = ground arith

module _ (print : ℕ → ℕ → Memory → Memory)
    (bounded : (into len : ℕ) (m : Memory) (a : ℕ)
      → (a < into) ⊎ (into + len ≤ a)
      → print into len m a ≡ m a) where
  take_hole-Settled :
      (at : ℕ) (s : Boot) (hole : Option (ℕ × Entry))
      → s.context.kmem_base ≡ 0
      → Usable hole
      → Settled at s hole (take_hole print (chosen (with_map at s) hole))
  unfolding take_hole chosen
  take_hole-Settled at s none free usable = rw free (refl, refl)
  take_hole-Settled at s (some (p, e)) free usable = rw (ne→== e.base 0 usable.0) record {
    map = refl;
    base = refl;
    len = refl;
    zeroed = λ a from to.
        zero_out-inside e.base e.length (print e.base e.length (store32 s.memory (p + 16) 2)) a from
          to;
    kept = λ a small hole mark.
        zero_out-outside e.base e.length (print e.base e.length (store32 s.memory (p + 16) 2)) a
          small usable.1 hole
        ∙ bounded e.base e.length (store32 s.memory (p + 16) 2) a hole
        ∙ store32-outside s.memory (p + 16) 2 a (omega arith);
  }

  -- If kinit is called with no hole chosen yet, and the memory map that the search finds has
  -- entries of 24 bytes or more which follow one another up to the tag's end and speak of memory
  -- inside the address space, and snprintf writes only in the buffer it is given, then kinit ends.
  -- It takes the first entry of free memory of at least 1 MiB at 2 MiB or above: the context holds
  -- the map and the hole, the hole is zeroed, and outside it only the type of that entry has
  -- changed. If there is no such entry, it fails and memory is as before.
  pub kinit-Settled :
      (fuel info at : ℕ) (s : Boot) (es : List Entry)
      → info ≢ 0
      → seek_tag fuel s.memory memory_map_type info ≡ found at
      → s.context.kmem_base ≡ 0
      → 24 ≤ load32 s.memory (at + 8)
      → at + load32 s.memory (at + 4) + load32 s.memory (at + 8) < 2 ^ 64
      → Listed s.memory (load32 s.memory (at + 8)) (at + 16) (at + load32 s.memory (at + 4)) es
      → load32 s.memory (at + 4) < 16 + fuel
      → Settled at s (first_hole (load32 s.memory (at + 8)) (at + 16) es) (kinit fuel print info s)
  unfolding kinit after_seek use_map after_scan
  kinit-Settled fuel info at s es given sought free size in_space listed enough =
      rw
        (
          ne→== info 0 given,
          sought,
          ne→== (load32 s.memory (at + 8)) 0 (omega arith),
          add64_fits at 16 (omega arith),
          scan-first_hole es fuel at (at + 16) (with_map at s) free (omega arith) size in_space
              listed (omega arith),
        )
        (take_hole-Settled at s (first_hole (load32 s.memory (at + 8)) (at + 16) es) free (
          first_hole-Usable s.memory (load32 s.memory (at + 8)) (at + 16)
            (at + load32 s.memory (at + 4)) es listed))
