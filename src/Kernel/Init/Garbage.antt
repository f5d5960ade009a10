-- ===== src/Kernel/Init/Garbage.antt =====
-- A context whose hole is not NULL to begin with: kmain passes one that it never initialises.
use cr_ow_s.Base.{ℕ, ◌+◌, ◌^◌, ◌<◌, ◌≡◌, ◌≢◌, arith, ne→==, refl}
use cr_ow_s.Base.Words.{add64_fits}
use cr_ow_s.Base.Memory.{Memory}
use cr_ow_s.Kernel.{load32}
use cr_ow_s.Kernel.Multiboot.{found, seek_tag, memory_map_type}
use cr_ow_s.Kernel.Init.{Boot, ready, zero_out, take_hole, after_scan, use_map, after_seek, kinit}
use cr_ow_s.Kernel.Init.Choose.{scan-settled}

-- If the context that kinit is given holds an address other than NULL, kinit looks at no entry of
-- the memory map that the search finds: it succeeds, keeps the address and the length it was
-- given, and zeroes that range, whatever it holds.
pub kinit-garbage :
    (fuel : ℕ) (print : ℕ → ℕ → Memory → Memory) (info at : ℕ) (s : Boot)
    → info ≢ 0
    → seek_tag fuel s.memory memory_map_type info ≡ found at
    → s.context.kmem_base ≢ 0
    → 0 < load32 s.memory (at + 8)
    → at + 16 + load32 s.memory (at + 4) + load32 s.memory (at + 8) < 2 ^ 64
    → load32 s.memory (at + 4) < 16 + fuel
    → 0 < fuel
    → kinit fuel print info s
      ≡ ready record {
        context = record {
          memory_map = at;
          kmem_base = s.context.kmem_base;
          kmem_len = s.context.kmem_len;
        };
        memory =
            zero_out s.context.kmem_base s.context.kmem_len
              (print s.context.kmem_base s.context.kmem_len s.memory);
      }
unfolding kinit after_seek use_map after_scan take_hole
kinit-garbage fuel print info at s given sought taken size in_space enough more =
    let start : Boot = record {
      context = record {
        memory_map = at;
        kmem_base = s.context.kmem_base;
        kmem_len = s.context.kmem_len;
      };
      memory = s.memory;
    } in
    rw
      (
        ne→== info 0 given,
        sought,
        ne→== (load32 s.memory (at + 8)) 0 (omega arith),
        add64_fits at 16 (omega arith),
        scan-settled fuel at (at + 16) start taken size (omega arith) (omega arith) more,
        ne→== s.context.kmem_base 0 taken,
      )
      refl
