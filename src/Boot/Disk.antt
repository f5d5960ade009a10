-- ===== src/Boot/Disk.antt =====
-- From the payload's file to what the clients of the ramdisk read: LoadAndDecrypt, SetEfiVarsHints and
-- RamDiskRegister as efi_main of src/boot/mftah_uefi/main.c calls them, and the block I/O protocol.
mod Tests
use cr_ow_s.Base.{
  ℕ, ◌+◌, ◌*◌, ◌^◌, ◌≤◌, ◌<◌, ◌≡◌, ◌⊎◌, refl, ◌∙◌, ap, subst, true, false, List, Option, some,
  arith,
}
use cr_ow_s.Base.Words.{add64}
use cr_ow_s.Base.Status.{Status}
use cr_ow_s.Base.Memory.{Memory}
use cr_ow_s.Kernel.{load64}
use cr_ow_s.Ramdisk.{PrivateData}
use cr_ow_s.Ramdisk.Pools.{Event}
use cr_ow_s.Ramdisk.Register.{register}
use cr_ow_s.Ramdisk.Register
use cr_ow_s.Ramdisk.Register.Checks.{Describes, register-Describes}
use cr_ow_s.Ramdisk.Device.{Request, AllAside, session, expected}
use cr_ow_s.Ramdisk.Device.Sessions.{session-expected}
use cr_ow_s.Boot.Files.{Serves}
use cr_ow_s.Boot.Payload.{
  load_block_size, length_offset, Image, Decryption, ready, refused, panicked, unread,
  load_and_decrypt,
}
use cr_ow_s.Boot.Payload.Reads.{Copied}
use cr_ow_s.Boot.Payload.Fates.{
  Fate, unaligned, no_memory, no_payload, not_decrypted, not_located, decrypted, plain, found_base,
  load_and_decrypt-Fate,
}
use cr_ow_s.Boot.Hints.{Variable, hash_bytes, set_efi_vars_hints}
use cr_ow_s.Boot.Hints.Untouched.{hints-untouched}
use cr_ow_s.Boot.Course.{World}

-- An image that LoadAndDecrypt returns: MFTAH was given the file, decrypted it without an error, and
-- the image is what follows the header in the decrypted memory.
pub record Decrypted (w : World) (content : ℕ → ℕ) (size buffer : ℕ) (password : List ℕ)
    (before : Memory) (image : Image) (after : Memory) : Type 0 where
  pub file : Memory
  pub copied : Copied content buffer 0 size before file
  pub opened : w.mftah.is_failure (w.mftah.decrypt file buffer size password).0 ≡ false
  pub plain_text : after ≡ plain w.mftah buffer size password file
  pub behind_header :
      image.image ≡ add64 (found_base w.mftah buffer size password file).1 w.mftah.header_bytes
  pub announced :
      image.length
      ≡ load64 after (add64 (found_base w.mftah buffer size password file).1 length_offset)

module _ (w : World) (content : ℕ → ℕ) (size : ℕ) (alloc : Status) (buffer : ℕ) (password : List ℕ)
    (before : Memory) where
  abbrev Known : Decryption → Type 0
  Known (ready image m) = Decrypted w content size buffer password before image m
  Known _ = Unit {0}

  Fate-Known : (d : Decryption) → Fate w.mftah content size alloc buffer password before d → Known d
  Fate-Known _ (unaligned e) = tt
  Fate-Known _ (no_memory a e) = tt
  Fate-Known _ (no_payload m k c e) = tt
  Fate-Known _ (not_decrypted m k c a e) = tt
  Fate-Known _ (not_located m k c a b e) = tt
  Fate-Known _ (decrypted m taken c made e found k) = record {
    file = m;
    copied = c;
    opened = e;
    plain_text = refl;
    behind_header = refl;
    announced = refl;
  }

-- The pool of a variable lies beside the image.
abbrev pub Beside : World → Image → Variable → Type 0
Beside w image v =
    ((w.hints.allocate v).1 + hash_bytes ≤ image.image)
    ⊎ (image.image + image.length ≤ (w.hints.allocate v).1)

-- Memory when SetEfiVarsHints has returned.
abbrev pub hinted : World → Image → Memory → Memory
hinted w image m = (set_efi_vars_hints w.lib w.hints image.image image.length 0 0 m).memory

module _ (w : World) (image : Image) (m : Memory) where
  image_untouched :
      Beside w image Variable.loader_hash
      → Beside w image Variable.payload_hash
      → (i : ℕ) → i < image.length
      → hinted w image m (image.image + i) ≡ m (image.image + i)
  image_untouched first second i inside =
      hints-untouched w.lib w.hints image.image image.length 0 0 m (image.image + i)
        (omega (arith, first, inside)) (omega (arith, second, inside))

-- A file that is served is loaded and decrypted by a password to an image, the pools of the hints lie
-- beside it, and RamDiskRegister of the image leaves a disk. Then what stands in memory is MFTAH's
-- decryption of the file, the image is what follows the header there, and a client that keeps its
-- buffers beside the disk and asks for any blocks in any order sees exactly the abstract device of
-- the announced length that starts with these bytes.
pub payload-session :
    (w : World) (content : ℕ → ℕ) (size : ℕ) (alloc : Status) (buffer : ℕ) (password : List ℕ)
    (before after : Memory) (h : ℕ) (image : Image) (s : Status) (p : PrivateData) (path : Option ℕ)
    (es : List Event) (rs : List Request)
    → Serves (w.file h) content size
    → buffer + size < 2 ^ 64
    → size + load_block_size < 2 ^ 64
    → size + load_block_size ≤ w.fuel * load_block_size
    → load_and_decrypt w.fuel w.mftah (w.file h) 0 alloc buffer password before ≡ ready image after
    → Beside w image Variable.loader_hash
    → Beside w image Variable.payload_hash
    → register w.lib w.release_date w.ramdisk image.image image.length (some w.disk_guid) true
      ≡ Register.returned s (some p) path es
    → AllAside p rs
    → Decrypted w content size buffer password before image after
      × (session w.lib p rs (hinted w image after)
          ≡ expected image.length rs (λ i. after (image.image + i)))
payload-session w content size alloc buffer password before after h image s p path es rs served
      buffer_fits size_fits enough loads first second registered aside =
    let fate =
      load_and_decrypt-Fate w.mftah content size alloc buffer password before (w.file h) w.fuel
        served buffer_fits size_fits enough in
    let d =
      register-Describes w.lib w.release_date w.ramdisk image.image image.length w.disk_guid true s
        p path es registered in
    let shown = λ (i : ℕ) (inside : i < p.size).
      ap (λ (a : ℕ). hinted w image after (a + i)) d.at_base
      ∙ image_untouched w image after first second i (subst (λ n. i < n) d.of_size inside) in
    (
      subst (Known w content size alloc buffer password before) loads
          (Fate-Known w content size alloc buffer password before _ fate),
      session-expected w.lib d.ready d.writable rs (λ i. after (image.image + i))
            (hinted w image after) shown aside
          ∙ ap (λ (n : ℕ). expected n rs (λ i. after (image.image + i))) d.of_size,
    )
