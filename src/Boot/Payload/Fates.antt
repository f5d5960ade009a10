-- ===== src/Boot/Payload/Fates.antt =====
-- How LoadAndDecrypt ends on a file that is served.
use cr_ow_s.Base.{
  ℕ, ◌+◌, ◌*◌, ◌%◌, ◌^◌, ◌≤◌, ◌<◌, ◌≡◌, Bool, true, false, not, ◌&&◌, ◌||◌, refl, List, [], ◌∷◌,
  arith, if_elim, ◌==◌,
}
use cr_ow_s.Base.Words.{add64}
use cr_ow_s.Base.Status.{Status, is_error}
use cr_ow_s.Base.Memory.{Memory}
use cr_ow_s.Kernel.{load64}
use cr_ow_s.Boot.Files.{Handle, Serves, Mftah}
use cr_ow_s.Util.Worker.{MftahStatus}
use cr_ow_s.Boot.Payload.{
  load_block_size, aes_block_bytes, length_offset, Load, loaded, stopped, loading, Pool, Decryption,
  ready, refused, panicked, load_chunks, locate_image, decrypt_loaded, load_and_decrypt,
}
use cr_ow_s.Boot.Payload.Reads.{Copied, Reads, reads, load_chunks-Reads}

-- Memory after the decryption, and what MFTAH then says of the buffer.
abbrev pub plain : Mftah → ℕ → ℕ → List ℕ → Memory → Memory
plain mftah buffer size password m = (mftah.decrypt m buffer size password).1

abbrev pub found_base : Mftah → ℕ → ℕ → List ℕ → Memory → MftahStatus × ℕ
found_base mftah buffer size password m =
    mftah.get_buffer_base (plain mftah buffer size password m) buffer size

-- The file has whole blocks, and the buffer was given.
abbrev pub is_taken : Status → ℕ → ℕ → Bool
is_taken alloc buffer size = (size % aes_block_bytes == 0) && not (is_error alloc || (buffer == 0))

-- The ends of LoadAndDecrypt. What is given to MFTAH is the whole file, with the rest of memory as
-- it was before.
pub data Fate (mftah : Mftah) (content : ℕ → ℕ) (size : ℕ) (alloc : Status) (buffer : ℕ)
    (password : List ℕ) (before : Memory) : Decryption → Type 0 where
  unaligned :
      (size % aes_block_bytes == 0) ≡ false
      → Fate mftah content size alloc buffer password before (refused Status.aborted [])
  no_memory :
      (size % aes_block_bytes == 0) ≡ true
      → (is_error alloc || (buffer == 0)) ≡ true
      → Fate mftah content size alloc buffer password before panicked
  no_payload :
      (m : Memory)
      → is_taken alloc buffer size ≡ true
      → Copied content buffer 0 size before m
      → mftah.is_failure (mftah.create_payload m buffer size) ≡ true
      → Fate mftah content size alloc buffer password before
          (refused Status.aborted (Pool.loaded_payload ∷ []))
  not_decrypted :
      (m : Memory)
      → is_taken alloc buffer size ≡ true
      → Copied content buffer 0 size before m
      → mftah.is_failure (mftah.create_payload m buffer size) ≡ false
      → mftah.is_failure (mftah.decrypt m buffer size password).0 ≡ true
      → Fate mftah content size alloc buffer password before
          (refused Status.aborted (Pool.loaded_payload ∷ []))
  not_located :
      (m : Memory)
      → is_taken alloc buffer size ≡ true
      → Copied content buffer 0 size before m
      → mftah.is_failure (mftah.create_payload m buffer size) ≡ false
      → mftah.is_failure (mftah.decrypt m buffer size password).0 ≡ false
      → (mftah.is_failure (found_base mftah buffer size password m).0
          || ((found_base mftah buffer size password m).1 == 0))
        ≡ true
      → Fate mftah content size alloc buffer password before
          (refused Status.aborted (Pool.loaded_payload ∷ []))
  decrypted :
      (m : Memory)
      → is_taken alloc buffer size ≡ true
      → Copied content buffer 0 size before m
      → mftah.is_failure (mftah.create_payload m buffer size) ≡ false
      → mftah.is_failure (mftah.decrypt m buffer size password).0 ≡ false
      → mftah.is_failure (found_base mftah buffer size password m).0 ≡ false
      → ((found_base mftah buffer size password m).1 == 0) ≡ false
      → Fate mftah content size alloc buffer password before (
          ready
            (record {
              image = add64 (found_base mftah buffer size password m).1 mftah.header_bytes;
              length =
                  load64
                    (plain mftah buffer size password m)
                    (add64 (found_base mftah buffer size password m).1 length_offset);
            })
            (plain mftah buffer size password m))

pub or_left : (a b : Bool) → (a || b) ≡ false → a ≡ false
or_left false b h = refl
or_left true b h = absurd (ground (arith, h))

or_right : (a b : Bool) → (a || b) ≡ false → b ≡ false
or_right false b h = h
or_right true b h = absurd (ground (arith, h))

module _ (mftah : Mftah) (content : ℕ → ℕ) (size : ℕ) (alloc : Status) (buffer : ℕ)
    (password : List ℕ) (before : Memory) where
  abbrev Ends : Decryption → Type 0
  Ends = Fate mftah content size alloc buffer password before

  decrypt_loaded-Fate :
      (l : Load)
      → is_taken alloc buffer size ≡ true
      → Reads content buffer 0 size before l
      → Ends (decrypt_loaded mftah password buffer size l)
  unfolding decrypt_loaded locate_image
  decrypt_loaded-Fate (loaded _ _) taken (reads pos m c) =
      let found = found_base mftah buffer size password m in
      if_elim Ends (mftah.is_failure (mftah.create_payload m buffer size))
        (λ e. no_payload m taken c e)
        (λ e.
          if_elim Ends (mftah.is_failure (mftah.decrypt m buffer size password).0)
            (λ k. not_decrypted m taken c e k)
            (λ k.
              if_elim Ends (mftah.is_failure found.0 || (found.1 == 0))
                (λ j. not_located m taken c e k j)
                (λ j. decrypted m taken c e k (or_left _ _ j) (or_right _ _ j))))
  decrypt_loaded-Fate (stopped s) taken none_such = elim none_such [ ]
  decrypt_loaded-Fate loading taken none_such = elim none_such [ ]

  -- A file of `size` bytes that is served, from its start on, into a buffer inside the address
  -- space, with one round for each chunk and one more: LoadAndDecrypt comes back. It gives MFTAH
  -- the whole file and changes no other byte before that, and it ends just so: with an error and no
  -- pool left for a size that is no multiple of the AES block; else in a PANIC without the buffer;
  -- else with an error, and MFTAH's object left allocated, where MFTAH fails to make the object, to
  -- decrypt or to name the buffer, or names NULL; and otherwise with the image behind the header of
  -- the buffer that MFTAH names in the decrypted memory, and the length that stands in that header.
  pub load_and_decrypt-Fate :
      (h : Handle) (fuel : ℕ)
      → Serves h content size
      → buffer + size < 2 ^ 64
      → size + load_block_size < 2 ^ 64
      → size + load_block_size ≤ fuel * load_block_size
      → Fate mftah content size alloc buffer password before
          (load_and_decrypt fuel mftah h 0 alloc buffer password before)
  unfolding load_and_decrypt
  load_and_decrypt-Fate h fuel served buffer_fits size_fits enough = rw served.sized (
      if_elim Ends (not (size % aes_block_bytes == 0)) (λ e. unaligned (ground (arith, e)))
        (λ e.
          if_elim Ends (is_error alloc || (buffer == 0)) (λ k. no_memory (ground (arith, e)) k)
            (λ k.
              decrypt_loaded-Fate (load_chunks fuel h size buffer 0 0 before) (ground (arith, e, k))
                (load_chunks-Reads content buffer size h served buffer_fits size_fits fuel 0 0
                  before (ground arith) (omega arith) (omega arith)))))
