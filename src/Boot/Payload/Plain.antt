-- ===== src/Boot/Payload/Plain.antt =====
-- An image comes from a decryption that did not fail.
use cr_ow_s.Base.{ℕ, ◌≡◌, refl, false, not, ◌||◌, List, if_elim, if_both, ◌==◌, ◌%◌}
use cr_ow_s.Base.Status.{Status, is_error}
use cr_ow_s.Base.Memory.{Memory}
use cr_ow_s.Base.Words.{add64}
use cr_ow_s.Kernel.{load64}
use cr_ow_s.Boot.Payload.Fates.{found_base, or_left}
use cr_ow_s.Boot.Files.{Handle, Mftah, file_size}
use cr_ow_s.Boot.Payload.{
  Load, loaded, stopped, loading, Image, Pool, Decryption, ready, refused, panicked, unread,
  aes_block_bytes, length_offset, load_chunks, locate_image, decrypt_loaded, load_and_decrypt,
}

-- The whole file was read into the buffer, from its start, and MFTAH decrypted it with the password
-- without a failure; the image is where the buffer that MFTAH then names says.
pub record Decrypts (fuel : ℕ) (mftah : Mftah) (h : Handle) (password : List ℕ) (image : Image)
    : Type 0 where
  pub buffer : ℕ
  pub before : Memory
  pub memory : Memory
  pub at : ℕ
  pub is_read : load_chunks fuel h (file_size h) buffer 0 0 before ≡ loaded at memory
  pub parsed : mftah.is_failure (mftah.create_payload memory buffer (file_size h)) ≡ false
  pub decrypts : mftah.is_failure (mftah.decrypt memory buffer (file_size h) password).0 ≡ false
  pub found : mftah.is_failure (found_base mftah buffer (file_size h) password memory).0 ≡ false
  pub starts :
      image.image
      ≡ add64 (found_base mftah buffer (file_size h) password memory).1 mftah.header_bytes
  pub extends :
      image.length
      ≡ load64
          (mftah.decrypt memory buffer (file_size h) password).1
          (add64 (found_base mftah buffer (file_size h) password memory).1 length_offset)

pub data Plain (fuel : ℕ) (mftah : Mftah) (h : Handle) (password : List ℕ)
    : Decryption → Type 0 where
  plain :
      (image : Image) (m : Memory)
      → Decrypts fuel mftah h password image
      → Plain fuel mftah h password (ready image m)
  not_plain : (s : Status) (left : List Pool) → Plain fuel mftah h password (refused s left)
  no_plain : Plain fuel mftah h password panicked
  unknown : Plain fuel mftah h password unread

module _ (fuel : ℕ) (mftah : Mftah) (h : Handle) (buffer : ℕ) (password : List ℕ)
    (before : Memory) where
  decrypt_loaded-Plain :
      (l : Load)
      → load_chunks fuel h (file_size h) buffer 0 0 before ≡ l
      → Plain fuel mftah h password (decrypt_loaded mftah password buffer (file_size h) l)
  unfolding decrypt_loaded locate_image
  decrypt_loaded-Plain loading is_read = unknown
  decrypt_loaded-Plain (stopped s) is_read = not_plain _ _
  decrypt_loaded-Plain (loaded at m) is_read =
      let Good = Plain fuel mftah h password in
      let size = file_size h in
      let found = found_base mftah buffer size password m in
      if_elim Good (mftah.is_failure (mftah.create_payload m buffer size)) (λ e. not_plain _ _)
        (λ parsed.
          if_elim Good (mftah.is_failure (mftah.decrypt m buffer size password).0)
            (λ e. not_plain _ _)
            (λ decrypts.
              if_elim Good (mftah.is_failure found.0 || (found.1 == 0)) (λ e. not_plain _ _)
                (λ e. plain _ _ (record {
                  buffer = buffer;
                  before = before;
                  memory = m;
                  at = at;
                  is_read = is_read;
                  parsed = parsed;
                  decrypts = decrypts;
                  found = or_left _ _ e;
                  starts = refl;
                  extends = refl;
                }))))

  pub load_and_decrypt-Plain :
      (alloc : Status)
      → Plain fuel mftah h password (load_and_decrypt fuel mftah h 0 alloc buffer password before)
  unfolding load_and_decrypt
  load_and_decrypt-Plain alloc =
      let Good = Plain fuel mftah h password in
      if_both Good (not (file_size h % aes_block_bytes == 0)) (not_plain _ _)
        (if_both Good (is_error alloc || (buffer == 0)) no_plain (decrypt_loaded-Plain _ refl))
