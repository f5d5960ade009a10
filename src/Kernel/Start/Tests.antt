-- ===== src/Kernel/Start/Tests.antt =====
-- kmain on a memory map of two entries, with a clean context and with one that holds an address.
use cr_ow_s.Base.{ℕ, ◌+◌, ◌*◌, ◌^◌, [], ◌∷◌, ◌≡◌, refl, arith, some}
use cr_ow_s.Kernel.Multiboot.{found, seek_from, seek_tag, memory_map_type}
use cr_ow_s.Kernel.Init.{Context, ready, zero_out}
use cr_ow_s.Kernel.Init.Entries.{Entry, Listed, is_hole, first_hole}
use cr_ow_s.Kernel.Init.Settle.{Settled}
use cr_ow_s.Kernel.Init.Printing.{print_hole}
use cr_ow_s.Kernel.Start.{information_magic, entered, kmain}
use cr_ow_s.Kernel.Start.Entered.{Entered, Handed, kmain-Settled, kmain-garbage}
use cr_ow_s.Kernel.Samples.{information, entries}

abbrev second : Entry
second = record { base = 4194304; length = 8388608; type = 1 }

map-Listed : Listed information 24 1040 1088 entries
map-Listed =
    (refl, refl, refl, omega arith, omega arith, (refl, refl, refl, omega arith, omega arith, refl))

information-map : seek_tag 97 information memory_map_type 1000 ≡ found 1024
unfolding seek_tag seek_from
information-map = refl

abbrev stack : ℕ → Context
stack base = record { memory_map = 0; kmem_base = base; kmem_len = 4096 }

-- The upper half of RBX is not looked at.
abbrev rbx : ℕ
rbx = 5 * 2 ^ 32 + 1000

information-Handed : Handed 97 information_magic rbx 1024 information
information-Handed = record {
  magic = refl;
  given = λ e. absurd (omega (arith, e));
  large = omega arith;
  mapped = information-map;
}

kmain-Settled_example :
    Entered
      (Settled 1024 (record { context = stack 0; memory = information }) (some (1064, second)))
      (kmain 97 (7 ∷ []) information_magic rbx (stack 0) information)
unfolding first_hole is_hole
kmain-Settled_example =
    kmain-Settled 97 (7 ∷ []) information_magic rbx 1024 (stack 0) information information-Handed
      entries refl (omega arith) (omega arith) map-Listed (omega arith)

kmain-garbage_example :
    kmain 97 [] information_magic rbx (stack 57005) information
    ≡ entered (
        ready (record {
          context = record { memory_map = 1024; kmem_base = 57005; kmem_len = 4096 };
          memory = zero_out 57005 4096 (print_hole [] 57005 4096 information);
        }))
kmain-garbage_example =
    kmain-garbage 97 [] information_magic rbx 1024 (stack 57005) information information-Handed
      (λ e. absurd (omega (arith, e))) (omega arith) (omega arith) (omega arith) (omega arith)
