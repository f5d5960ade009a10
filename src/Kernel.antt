-- ===== src/Kernel.antt =====
-- The kernel's early start-up, src/kernel, over physical memory.
pub mod Multiboot
pub mod Init
pub mod Uart
pub mod Str
pub mod Console
pub mod Start
mod Samples
use cr_ow_s.Base.{ℕ, ◌+◌, ◌-◌, ◌*◌, ◌/◌, ◌%◌, ◌^◌, ◌&&◌, ltb, leb, if◌then◌else◌}
use cr_ow_s.Base.Memory.{Memory}

-- A field of four or eight bytes, least significant first.
abbrev pub load32 : Memory → ℕ → ℕ
load32 m a = m a + m (a + 1) * 2 ^ 8 + m (a + 2) * 2 ^ 16 + m (a + 3) * 2 ^ 24

abbrev pub load64 : Memory → ℕ → ℕ
load64 m a = load32 m a + load32 m (a + 4) * 2 ^ 32

abbrev pub store32 : Memory → ℕ → ℕ → Memory
store32 m a v b = if leb a b && ltb b (a + 4) then v / 2 ^ (8 * (b - a)) % 256 else m b
