-- ===== src/Loader/Discover/Hash.antt =====
-- DiscoverPayloads, src/boot/mftah_uefi/loader.c: the loader's hash of its own file.
pub mod Reads
mod Tests
use cr_ow_s.Base.{ℕ, zero, suc, ◌+◌, ◌*◌, Bool, true, false, not, ◌||◌, ◌==◌, if◌then◌else◌}
use cr_ow_s.Base.Words.{u64, add64}
use cr_ow_s.Base.Status.{Status, is_error}
use cr_ow_s.Base.Memory.{Memory}
use cr_ow_s.Util.Worker.{MftahStatus}
use cr_ow_s.Boot.Files.{Handle, file_size, write_bytes}

-- The first LoaderChunkSize, and the distance of the chunks in the buffer.
abbrev pub loader_chunk_bytes : ℕ
loader_chunk_bytes = 4096

-- Memory with the file, the error of a Read, or a loop whose fuel is used up.
pub data LoaderRead : Type 0 where
  read_out : Memory → LoaderRead
  broken : Status → LoaderRead
  reading : LoaderRead

-- The loop at chunk `i`, with LoaderChunkSize, in which Read stores its count.
unfoldable pub load_loader : ℕ → Handle → ℕ → ℕ → ℕ → ℕ → Memory → LoaderRead
load_loader zero h buffer i chunk pos m = reading
load_loader (suc fuel) h buffer i chunk pos m =
    let r = h.read pos chunk in
    let rest =
      load_loader fuel h buffer (i + 1) r.count (pos + r.count)
        (write_bytes (add64 buffer (u64 (i * loader_chunk_bytes))) r.count r.bytes m) in
    if chunk == 0 then read_out m else if is_error r.status then broken r.status else rest

-- The hash was made of memory from the buffer on; there is none, with the error that says why; or the
-- loop is not over.
pub data Hashed : Type 0 where
  hashed : Memory → Hashed
  no_hash : Status → Hashed
  waiting : Hashed

abbrev pub hash_after : (Memory → MftahStatus) → (MftahStatus → Bool) → LoaderRead → Hashed
hash_after create_hash is_failure (read_out m) =
    if is_failure (create_hash m) then no_hash Status.success else hashed m
hash_after create_hash is_failure (broken s) = no_hash s
hash_after create_hash is_failure reading = waiting

-- The part of DiscoverPayloads behind Open, with its status, the file, the buffer (0 for NULL), and
-- MFTAH's create_hash for a buffer and a length.
unfoldable pub hash_loader :
    ℕ
    → Status
    → Handle
    → ℕ
    → (Memory → ℕ → ℕ → MftahStatus)
    → (MftahStatus → Bool)
    → Memory
    → Hashed
hash_loader fuel opened h buffer create_hash is_failure m =
    let size = file_size h in
    if is_error opened
    then no_hash opened
    else if (size == 0) || (buffer == 0)
    then no_hash Status.out_of_resources
    else hash_after (λ m'. create_hash m' buffer size) is_failure
        (load_loader fuel h buffer 0 loader_chunk_bytes 0 m)
