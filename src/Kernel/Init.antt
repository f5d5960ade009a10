-- ===== src/Kernel/Init.antt =====
-- kinit, src/kernel/core/main.c: the search of the memory map for a hole that kmalloc can use.
pub mod Entries
pub mod Choose
pub mod Settle
pub mod Garbage
pub mod Printing
use cr_ow_s.Base.{
  ℕ, zero, suc, ◌+◌, ◌*◌, ◌^◌, Option, none, some, Bool, not, ◌||◌, ltb, ◌==◌, if◌then◌else◌,
}
use cr_ow_s.Base.Words.{add64, sub64}
use cr_ow_s.Base.Memory.{Memory}
use cr_ow_s.Kernel.{load32, load64, store32}
use cr_ow_s.Kernel.Multiboot.{Seek, found, missing, running, seek_tag, memory_map_type}

-- struct crows_context
pub record Context : Type 0 where
  pub memory_map : ℕ
  pub kmem_base : ℕ
  pub kmem_len : ℕ

-- The kernel's context and the memory it works on.
pub record Boot : Type 0 where
  pub context : Context
  pub memory : Memory

-- The return values -1 and 0, the processor's division error, and a loop whose fuel is used up.
pub data Outcome : Type 0 where
  failed ready : Boot → Outcome
  divide_error unfinished : Outcome

-- sizeof(multiboot_info_tag_memory_map), 2 MiB and 1 MiB
abbrev pub map_header_bytes : ℕ
map_header_bytes = 16

abbrev pub lowest_base : ℕ
lowest_base = 2 * 2 ^ 20

abbrev pub least_length : ℕ
least_length = 2 ^ 20

-- The body of the loop, at the entry `p`.
unfoldable pub visit : ℕ → Boot → Boot
visit p s =
    let m = s.memory in
    if not (s.context.kmem_base == 0)
    then s
    else if ltb (load64 m p) lowest_base || not (load32 m (p + 16) == 1)
    then s
    else if ltb (load64 m (p + 8)) least_length
    then s
    else record {
      context = record {
        memory_map = s.context.memory_map;
        kmem_base = load64 m p;
        kmem_len = load64 m (p + 8);
      };
      memory = store32 m (p + 16) 2;
    }

-- The loop. Its bound and its step are read from the tag at `at` in every round.
unfoldable pub scan : ℕ → ℕ → ℕ → Boot → Option Boot
scan zero at p s = none
scan (suc fuel) at p s =
    let after = visit p s in
    let rest = scan fuel at (add64 p (load32 after.memory (at + 8))) after in
    if ltb p (add64 at (load32 s.memory (at + 4))) then rest else some s

-- into[i] = 0 for each i below `len`
pub zero_out : ℕ → ℕ → Memory → Memory
zero_out into len m a = if ltb (sub64 a into) len then 0 else m a

-- The end of kinit. `print` is what snprintf leaves in memory when it writes the message at an
-- address, within a length.
pub take_hole : (ℕ → ℕ → Memory → Memory) → Boot → Outcome
take_hole print s =
    let base = s.context.kmem_base in
    let len = s.context.kmem_len in
    if base == 0
    then failed s
    else ready record { context = s.context; memory = zero_out base len (print base len s.memory) }

pub after_scan : (ℕ → ℕ → Memory → Memory) → Option Boot → Outcome
after_scan print none = unfinished
after_scan print (some s) = take_hole print s

-- kinit from the memory map's tag on. The division is the one in its first message.
pub use_map : ℕ → (ℕ → ℕ → Memory → Memory) → ℕ → Boot → Outcome
use_map fuel print at s =
    let start : Boot = record {
      context = record {
        memory_map = at;
        kmem_base = s.context.kmem_base;
        kmem_len = s.context.kmem_len;
      };
      memory = s.memory;
    } in
    if load32 s.memory (at + 8) == 0
    then divide_error
    else after_scan print (scan fuel at (add64 at map_header_bytes) start)

pub after_seek : ℕ → (ℕ → ℕ → Memory → Memory) → Boot → Seek → Outcome
after_seek fuel print s missing = failed s
after_seek fuel print s (found at) = use_map fuel print at s
after_seek fuel print s running = unfinished

-- kinit
pub kinit : ℕ → (ℕ → ℕ → Memory → Memory) → ℕ → Boot → Outcome
kinit fuel print info s =
    if info == 0
    then failed s
    else after_seek fuel print s (seek_tag fuel s.memory memory_map_type info)
