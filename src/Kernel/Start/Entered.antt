-- ===== src/Kernel/Start/Entered.antt =====
-- What becomes of the machine when kmain is entered.
use cr_ow_s.Base.{ℕ, ◌+◌, ◌%◌, ◌^◌, ◌≤◌, ◌<◌, ◌≡◌, ◌≢◌, refl, ap, ◌∙◌, List, ne→==, le→ltb}
use cr_ow_s.Base.Memory.{Memory}
use cr_ow_s.Kernel.{load32}
use cr_ow_s.Kernel.Multiboot.{found, seek_tag, memory_map_type}
use cr_ow_s.Kernel.Init.{Context, Outcome, ready, zero_out, kinit}
use cr_ow_s.Kernel.Init.Entries.{Entry, Listed, first_hole}
use cr_ow_s.Kernel.Init.Settle.{Settled}
use cr_ow_s.Kernel.Init.Garbage.{kinit-garbage}
use cr_ow_s.Kernel.Init.Printing.{print_hole, kinit_printing-Settled}
use cr_ow_s.Kernel.Start.{information_magic, least_information, Start, entered, kmain}

-- kinit was entered, and its outcome has the property.
pub data Entered (P : Outcome → Type 0) : Start → Type 0 where
  outcome : (o : Outcome) → P o → Entered P (entered o)

-- What a Multiboot2 loader leaves: the magic number in EAX, and in EBX the address of an information
-- of the size that kmain asks for, with a memory map in it.
pub record Handed (fuel rax rbx at : ℕ) (m : Memory) : Type 0 where
  pub magic : rax % 2 ^ 32 ≡ information_magic
  pub given : rbx % 2 ^ 32 ≢ 0
  pub large : least_information ≤ load32 m (rbx % 2 ^ 32)
  pub mapped : seek_tag fuel m memory_map_type (rbx % 2 ^ 32) ≡ found at

module _ (fuel : ℕ) (stale : List ℕ) (rax rbx at : ℕ) (stack : Context) (m : Memory)
    (h : Handed fuel rax rbx at m) where
  kmain-kinit :
      kmain fuel stale rax rbx stack m
      ≡ entered
          (kinit fuel (print_hole stale) (rbx % 2 ^ 32) (record { context = stack; memory = m }))
  unfolding kmain
  kmain-kinit =
      rw
        (
          h.magic,
          ne→== (rbx % 2 ^ 32) 0 h.given,
          le→ltb (load32 m (rbx % 2 ^ 32)) least_information h.large,
        )
        refl

  -- If a Multiboot2 loader enters kmain with a memory map whose entries have 24 bytes or more,
  -- follow one another up to the tag's end and speak of memory inside the address space, and the
  -- stack happens to hold 0 where the context's base is: kinit is entered and ends. It takes the
  -- first entry of free memory of at least 1 MiB at 2 MiB or above: the context holds the map and
  -- the hole, the hole is zeroed, and outside it only the type of that entry has changed. If there
  -- is no such entry, it fails and memory is as before.
  pub kmain-Settled :
      (es : List Entry)
      → stack.kmem_base ≡ 0
      → 24 ≤ load32 m (at + 8)
      → at + load32 m (at + 4) + load32 m (at + 8) < 2 ^ 64
      → Listed m (load32 m (at + 8)) (at + 16) (at + load32 m (at + 4)) es
      → load32 m (at + 4) < 16 + fuel
      → Entered
          (Settled at
            (record { context = stack; memory = m })
            (first_hole (load32 m (at + 8)) (at + 16) es))
          (kmain fuel stale rax rbx stack m)
  kmain-Settled es free size in_space listed enough = rw kmain-kinit (
      outcome _ (
        kinit_printing-Settled stale fuel (rbx % 2 ^ 32) at (record { context = stack; memory = m })
          es h.given h.mapped free size in_space listed enough))

  -- If a Multiboot2 loader enters kmain, and the stack happens to hold another address there: kinit
  -- looks at no entry of the map. It succeeds, keeps that address and the length beside it, and
  -- zeroes this range, whatever it holds.
  pub kmain-garbage :
      stack.kmem_base ≢ 0
      → 0 < load32 m (at + 8)
      → at + 16 + load32 m (at + 4) + load32 m (at + 8) < 2 ^ 64
      → load32 m (at + 4) < 16 + fuel
      → 0 < fuel
      → kmain fuel stale rax rbx stack m
        ≡ entered (
            ready (record {
              context = record {
                memory_map = at;
                kmem_base = stack.kmem_base;
                kmem_len = stack.kmem_len;
              };
              memory =
                  zero_out stack.kmem_base stack.kmem_len
                    (print_hole stale stack.kmem_base stack.kmem_len m);
            }))
  kmain-garbage taken size in_space enough more =
      kmain-kinit
      ∙ ap (λ (o : Outcome). entered o)
          (kinit-garbage fuel (print_hole stale) (rbx % 2 ^ 32) at
            (record { context = stack; memory = m }) h.given h.mapped taken size in_space enough
            more)
