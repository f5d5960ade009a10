-- ===== src/Boot/Payload.antt =====
-- LoadAndDecrypt, src/boot/mftah_uefi/main.c.
pub mod Reads
pub mod Fates
pub mod Plain
use cr_ow_s.Base.{
  ℕ, zero, suc, ◌+◌, ◌*◌, ◌%◌, Bool, true, false, not, ◌||◌, List, [], ◌∷◌, ltb, ◌==◌,
  if◌then◌else◌,
}
use cr_ow_s.Base.Words.{add64}
use cr_ow_s.Base.Status.{Status, is_error}
use cr_ow_s.Base.Memory.{Memory}
use cr_ow_s.Kernel.{load64}
use cr_ow_s.Boot.Files.{Handle, file_size, Mftah, write_bytes}

-- MFTAH_RAMDISK_LOAD_BLOCK_SIZE, AES_BLOCKLEN and the place of the length in a payload's header
abbrev pub load_block_size : ℕ
load_block_size = 16384

abbrev pub aes_block_bytes : ℕ
aes_block_bytes = 16

abbrev pub length_offset : ℕ
length_offset = 96

-- The file's position and memory when the file is read; the error of a Read; or a loop whose fuel
-- is used up.
pub data Load : Type 0 where
  loaded : ℕ → Memory → Load
  stopped : Status → Load
  loading : Load

-- The loop at offset `i`. The count that Read stores is not looked at.
unfoldable pub load_chunks : ℕ → Handle → ℕ → ℕ → ℕ → ℕ → Memory → Load
load_chunks zero h size buffer i pos m = loading
load_chunks (suc fuel) h size buffer i pos m =
    let r = h.read pos load_block_size in
    let rest =
      load_chunks fuel h size buffer (add64 i load_block_size) (pos + r.count)
        (write_bytes (add64 buffer i) r.count r.bytes m) in
    if ltb i size then (if is_error r.status then stopped r.status else rest) else loaded pos m

-- gRamdiskImage and gRamdiskImageLength
pub record Image : Type 0 where
  pub image : ℕ
  pub length : ℕ

-- The pools of the function: the file's bytes, and MFTAH's object for them.
pub data Pool : Type 0 where
  read_buffer loaded_payload : Pool

-- The success with the image and memory; an error, and the pools that are left allocated; a PANIC;
-- or a loop whose fuel is used up.
pub data Decryption : Type 0 where
  ready : Image → Memory → Decryption
  refused : Status → List Pool → Decryption
  panicked : Decryption
  unread : Decryption

-- The end of the function: the image of the buffer that MFTAH names.
unfoldable pub locate_image : Mftah → ℕ → ℕ → Memory → Decryption
locate_image mftah buffer size m =
    let (found, base) = mftah.get_buffer_base m buffer size in
    if mftah.is_failure found || (base == 0)
    then refused Status.aborted (Pool.loaded_payload ∷ [])
    else ready
        record {
          image = add64 base mftah.header_bytes;
          length = load64 m (add64 base length_offset);
        }
        m

-- From the payload in memory on. The hash that is made of it before goes to
-- an array that nothing reads.
unfoldable pub decrypt_loaded : Mftah → List ℕ → ℕ → ℕ → Load → Decryption
decrypt_loaded mftah password buffer size loading = unread
decrypt_loaded mftah password buffer size (stopped s) = refused s []
decrypt_loaded mftah password buffer size (loaded pos m) =
    let (done, m') = mftah.decrypt m buffer size password in
    if mftah.is_failure (mftah.create_payload m buffer size)
    then refused Status.aborted (Pool.loaded_payload ∷ [])
    else if mftah.is_failure done
    then refused Status.aborted (Pool.loaded_payload ∷ [])
    else locate_image mftah buffer size m'

-- LoadAndDecrypt of a file at a position; `alloc` and `buffer` are the answer of AllocatePool.
unfoldable pub load_and_decrypt : ℕ → Mftah → Handle → ℕ → Status → ℕ → List ℕ → Memory → Decryption
load_and_decrypt fuel mftah h pos alloc buffer password m =
    let size = file_size h in
    if not (size % aes_block_bytes == 0)
    then refused Status.aborted []
    else if is_error alloc || (buffer == 0)
    then panicked
    else decrypt_loaded mftah password buffer size (load_chunks fuel h size buffer 0 pos m)
