-- ===== src/Ramdisk/BlockIo/Transfer.antt =====
-- What a served request moves: reads and writes against the disk as an array of bytes.
use cr_ow_s.Base.{
  ℕ, zero, suc, ◌+◌, ◌*◌, ◌^◌, ◌≤◌, ◌<◌, ◌≡◌, ◌≢◌, ◌⊎◌, ◌∙◌, ap, arith, ◌==◌, if◌then◌else◌,
}
use cr_ow_s.Base.Status.{Status}
use cr_ow_s.Base.Memory.{Memory, EfiLib}
use cr_ow_s.Ramdisk.{PrivateData}
use cr_ow_s.Ramdisk.BlockIo.{read_blocks, write_blocks}
use cr_ow_s.Ramdisk.BlockIo.Bounds.{
  IsRegistered, read_blocks-success_iff, write_blocks-success_iff, block_address,
}

-- Byte `i` of the disk.
abbrev pub disk : PrivateData → Memory → ℕ → ℕ
disk p m i = m (p.starting_addr + i)

-- `m'` is `m` with `n` bytes at `to` taken from `from` in `m`.
pub record Moved (to from n : ℕ) (m m' : Memory) : Type 0 where
  pub inside : (i : ℕ) → i < n → m' (to + i) ≡ m (from + i)
  pub outside : (a : ℕ) → (a < to) ⊎ (to + n ≤ a) → m' a ≡ m a

copy_mem-Moved :
    (lib : EfiLib) (to from n : ℕ) (m : Memory) → Moved to from n m (lib.copy_mem to from n m)
copy_mem-Moved lib to from n m = record {
  inside = λ i h.
      lib.copy_mem-inside to from n m (to + i) (omega arith) (omega arith)
      ∙ ap (λ (k : ℕ). m (from + k)) (omega arith);
  outside = λ a h. lib.copy_mem-outside to from n m a h;
}

-- A request for nothing moves nothing; any other is one call of CopyMem.
served-Moved :
    (lib : EfiLib) (to from n : ℕ) (m m' : Memory)
    → m' ≡ (if n == 0 then m else lib.copy_mem to from n m)
    → Moved to from n m m'
served-Moved lib to from zero m m' e = record {
  inside = λ i h. absurd (omega arith);
  outside = λ a h. rw e;
}
served-Moved lib to from (suc n) m m' e =
    let copied : m' ≡ lib.copy_mem to from (suc n) m = ground arith in
    rw copied (copy_mem-Moved lib to from (suc n) m)

module _ (lib : EfiLib) {p : PrivateData} (r : IsRegistered p) (media_id lba n buffer : ℕ)
    (m : Memory) (small_lba : lba < 2 ^ 64) (small_n : n < 2 ^ 64) where
  read_blocks-memory :
      (read_blocks lib p media_id lba n buffer m).0 ≡ Status.success
      → (read_blocks lib p media_id lba n buffer m).1
        ≡ (if n == 0 then m else lib.copy_mem buffer (p.starting_addr + lba * 512) n m)
  unfolding read_blocks
  read_blocks-memory h =
      ground (arith, block_address lib r media_id lba n buffer m small_lba small_n)

  write_blocks-memory :
      (write_blocks lib p media_id lba n buffer m).0 ≡ Status.success
      → (write_blocks lib p media_id lba n buffer m).1
        ≡ (if n == 0 then m else lib.copy_mem (p.starting_addr + lba * 512) buffer n m)
  unfolding write_blocks
  write_blocks-memory h =
      ground (arith, block_address lib r media_id lba n buffer m small_lba small_n)

  -- A read that succeeds copies the `n` bytes of the disk from block `lba` on into the buffer, and
  -- changes no other byte of memory.
  pub read_blocks-Moved :
      (read_blocks lib p media_id lba n buffer m).0 ≡ Status.success
      → Moved buffer (p.starting_addr + lba * 512) n m (read_blocks lib p media_id lba n buffer m).1
  read_blocks-Moved h = served-Moved lib _ _ n m _ (read_blocks-memory h)

  -- A write that succeeds copies the buffer over the `n` bytes of the disk from block `lba` on, and
  -- changes no other byte of memory, so none of the other blocks.
  pub write_blocks-Moved :
      (write_blocks lib p media_id lba n buffer m).0 ≡ Status.success
      → Moved
          (p.starting_addr + lba * 512)
          buffer
          n
          m
          (write_blocks lib p media_id lba n buffer m).1
  write_blocks-Moved h = served-Moved lib _ _ n m _ (write_blocks-memory h)

  -- A request that fails changes nothing.
  pub read_blocks-failure :
      (read_blocks lib p media_id lba n buffer m).0 ≢ Status.success
      → (read_blocks lib p media_id lba n buffer m).1 ≡ m
  unfolding read_blocks
  read_blocks-failure h = ground arith

  pub write_blocks-failure :
      (write_blocks lib p media_id lba n buffer m).0 ≢ Status.success
      → (write_blocks lib p media_id lba n buffer m).1 ≡ m
  unfolding write_blocks
  write_blocks-failure h = ground arith

module _ (lib : EfiLib) {p : PrivateData} (r : IsRegistered p) (media_id lba n buffer into : ℕ)
    (m : Memory) (small_lba : lba < 2 ^ 64) (small_n : n < 2 ^ 64) where
  abbrev written : Memory
  written = (write_blocks lib p media_id lba n buffer m).1

  readable :
      (write_blocks lib p media_id lba n buffer m).0 ≡ Status.success
      → into ≢ 0
      → (read_blocks lib p media_id lba n into written).0 ≡ Status.success
  readable h given =
      let (medium, writable, source, request) =
        (write_blocks-success_iff lib r media_id lba n buffer m small_lba small_n).0 h in
      (read_blocks-success_iff lib r media_id lba n into written small_lba small_n).1
        (medium, given, request)

  -- What a successful write put on the disk, a read of the same blocks into a buffer that is not
  -- NULL gives back: it succeeds, and each of the `n` bytes read is the one that was written. The
  -- buffers may overlap each other and the disk.
  pub read_blocks-write_blocks :
      (write_blocks lib p media_id lba n buffer m).0 ≡ Status.success
      → into ≢ 0
      → (i : ℕ) → i < n
      → let (s, m') = read_blocks lib p media_id lba n into written in
        (s ≡ Status.success) × (m' (into + i) ≡ m (buffer + i))
  read_blocks-write_blocks h given i lt =
      let ok = readable h given in
      let back = read_blocks-Moved lib r media_id lba n into written small_lba small_n ok in
      let there = write_blocks-Moved lib r media_id lba n buffer m small_lba small_n h in
      (ok, back.inside i lt ∙ there.inside i lt)
