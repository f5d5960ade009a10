-- ===== src/Ramdisk/BlockIo/Tokens.antt =====
-- The second block I/O protocol: the first one's requests, with an event at the end.
use cr_ow_s.Base.{ℕ, ◌≡◌, Option, none, some, arith, ◌==◌, if◌then◌else◌}
use cr_ow_s.Base.Status.{Status, is_error}
use cr_ow_s.Base.Memory.{Memory, EfiLib}
use cr_ow_s.Ramdisk.{PrivateData}
use cr_ow_s.Ramdisk.BlockIo.{
  Token, Reply, read_blocks, write_blocks, signal, read_blocks_ex, write_blocks_ex,
}

-- The event that a caller waits for, if it gave one.
abbrev pub event_of : Option Token → Option ℕ
event_of none = none
event_of (some t) = if t.event == 0 then none else some (t.event)

-- The reply to a request that the first protocol answers with status `s` and memory `m`: the
-- caller's event is signalled exactly if the request did not fail.
pub record Answers (s : Status) (m : Memory) (token : Option Token) (reply : Reply) : Type 0 where
  pub same_status : reply.status ≡ s
  pub same_memory : reply.memory ≡ m
  pub event : reply.signalled ≡ (if is_error s then none else event_of token)

module _ (lib : EfiLib) (p : PrivateData) (media_id lba : ℕ) (token : Option Token) (n buffer : ℕ)
    (m : Memory) where
  -- A read or a write of the second protocol has the status and the effect on memory of the first
  -- protocol's. It signals the caller's event, if there is one, exactly when there is no error.
  pub blocks_ex-Answers :
      let (s, m') = read_blocks lib p media_id lba n buffer m in
      let (t, m'') = write_blocks lib p media_id lba n buffer m in
      Answers s m' token (read_blocks_ex lib p media_id lba token n buffer m)
      × Answers t m'' token (write_blocks_ex lib p media_id lba token n buffer m)
  unfolding read_blocks_ex write_blocks_ex signal read_blocks write_blocks
  blocks_ex-Answers = (
    record { same_status = ground arith; same_memory = ground arith; event = ground arith },
    record { same_status = ground arith; same_memory = ground arith; event = ground arith },
  )
