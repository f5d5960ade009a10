-- ===== src/Kernel/Init/Printing.antt =====
-- kinit with the snprintf of src/kernel/core/str.c for its message in the hole.
use cr_ow_s.Base.{
  ℕ, ◌+◌, ◌%◌, ◌^◌, ◌≤◌, ◌<◌, ◌≡◌, ◌≢◌, ◌⊎◌, inl, inr, refl, List, [], ◌∷◌, arith, if_elim, ltb,
  if◌then◌else◌,
}
use cr_ow_s.Base.Memory.{Memory}
use cr_ow_s.Kernel.{load32}
use cr_ow_s.Kernel.Multiboot.{found, seek_tag, memory_map_type}
use cr_ow_s.Kernel.Str.{Arg, Printed, printed, unsupported, overrun, undefined, snprintf}
use cr_ow_s.Kernel.Str.Prints.{
  Fate, finished, cut_off, rejected, overran, went_wrong, snprintf-Fate,
}
use cr_ow_s.Kernel.Init.{Boot, kinit}
use cr_ow_s.Kernel.Init.Entries.{Entry, Listed, first_hole}
use cr_ow_s.Kernel.Init.Settle.{Settled, kinit-Settled}

-- The format of the message.
abbrev pub hole_message : List ℕ
hole_message =
    b'U' ∷ b's' ∷ b'i' ∷ b'n' ∷ b'g' ∷ b' ' ∷ b't' ∷ b'e' ∷ b'm' ∷ b'p' ∷ b'o' ∷ b'r' ∷ b'a' ∷ b'r'
    ∷ b'y' ∷ b' ' ∷ b'm' ∷ b'e' ∷ b'm' ∷ b'o' ∷ b'r' ∷ b'y' ∷ b' ' ∷ b'h' ∷ b'o' ∷ b'l' ∷ b'e'
    ∷ b' ' ∷ b'a' ∷ b't' ∷ b' ' ∷ 39 ∷ b'0' ∷ b'x' ∷ b'%' ∷ b'X' ∷ 39 ∷ b'.' ∷ 13 ∷ 10 ∷ []

abbrev pub memory_after : Memory → Printed → Memory
memory_after before (printed n m) = m
memory_after before (unsupported m) = m
memory_after before overrun = before
memory_after before undefined = before

-- The length as an `int`; a negative one prints nothing.
abbrev pub as_limit : ℕ → ℕ
as_limit len = let low = len % 2 ^ 32 in if ltb low (2 ^ 31) then low else 0

-- The call of snprintf on the hole.
abbrev pub print_hole : List ℕ → ℕ → ℕ → Memory → Memory
print_hole stale into len m =
    memory_after m (snprintf stale into (as_limit len) hole_message (Arg.number into ∷ []) m)

as_limit_le : (len : ℕ) → as_limit len ≤ len
as_limit_le len =
    if_elim (λ (n : ℕ). n ≤ len) (ltb (len % 2 ^ 32) (2 ^ 31)) (λ e. omega arith) (λ e. omega arith)

nearer :
    (into limit len a : ℕ)
    → limit ≤ len
    → (a < into) ⊎ (into + len ≤ a)
    → (a < into) ⊎ (into + limit ≤ a)
nearer into limit len a le (inl below) = inl below
nearer into limit len a le (inr above) = inr (omega (arith, above, le))

Fate-outside :
    (stale : List ℕ) (str limit : ℕ) (before : Memory) (full fmt : List ℕ) (args : List Arg)
    (r : Printed) (a : ℕ)
    → Fate stale str limit before full fmt args r
    → (a < str) ⊎ (str + limit ≤ a)
    → memory_after before r a ≡ before a
Fate-outside stale str limit before full fmt args _ a (finished done rest out left at m e x w stop)
      h =
    w.outside a (omega (arith, h, w.bounded))
Fate-outside stale str limit before full fmt args _ a (cut_off left m r) h =
    r.wrote.outside a (omega (arith, h, r.room))
Fate-outside stale str limit before full fmt args _ a (rejected d cs left m why r) h =
    r.wrote.outside a (omega (arith, h, r.room))
Fate-outside stale str limit before full fmt args _ a (overran cs left m why r) h = refl
Fate-outside stale str limit before full fmt args _ a (went_wrong d cs left m why r) h = refl

print_hole-outside :
    (stale : List ℕ) (into len : ℕ) (m : Memory) (a : ℕ)
    → (a < into) ⊎ (into + len ≤ a)
    → print_hole stale into len m a ≡ m a
print_hole-outside stale into len m a h =
    Fate-outside stale into (as_limit len) m [] hole_message (Arg.number into ∷ []) _ a
      (snprintf-Fate stale into (as_limit len) m hole_message (Arg.number into ∷ []))
      (nearer into (as_limit len) len a (as_limit_le len) h)

-- If kinit is called with no hole chosen yet, and the memory map that the search finds has entries
-- of 24 bytes or more which follow one another up to the tag's end and speak of memory inside the
-- address space, then kinit, with the kernel's own snprintf for its message in the hole, ends. It
-- takes the first entry of free memory of at least 1 MiB at 2 MiB or above: the context holds the
-- map and the hole, the hole is zeroed, and outside it only the type of that entry has changed. If
-- there is no such entry, it fails and memory is as before.
pub kinit_printing-Settled :
    (stale : List ℕ) (fuel info at : ℕ) (s : Boot) (es : List Entry)
    → info ≢ 0
    → seek_tag fuel s.memory memory_map_type info ≡ found at
    → s.context.kmem_base ≡ 0
    → 24 ≤ load32 s.memory (at + 8)
    → at + load32 s.memory (at + 4) + load32 s.memory (at + 8) < 2 ^ 64
    → Listed s.memory (load32 s.memory (at + 8)) (at + 16) (at + load32 s.memory (at + 4)) es
    → load32 s.memory (at + 4) < 16 + fuel
    → Settled at s
        (first_hole (load32 s.memory (at + 8)) (at + 16) es)
        (kinit fuel (print_hole stale) info s)
kinit_printing-Settled stale = kinit-Settled (print_hole stale) (print_hole-outside stale)
