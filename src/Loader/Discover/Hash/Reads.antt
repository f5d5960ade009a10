-- ===== src/Loader/Discover/Hash/Reads.antt =====
-- What the loader hashes.
use cr_ow_s.Base.{
  ℕ, zero, suc, ◌+◌, ◌*◌, ◌^◌, ◌≤◌, ◌<◌, ◌≡◌, ◌≢◌, inl, inr, refl, ◌∙◌, ap, subst, Bool, true,
  false, ◌||◌, arith, Bool-cases, leb, ltb, ltb→lt, ◌==◌,
}
use cr_ow_s.Base.Words.{u64, add64, add64_fits}
use cr_ow_s.Base.Status.{Status, is_error}
use cr_ow_s.Base.Memory.{Memory}
use cr_ow_s.Util.Worker.{MftahStatus}
use cr_ow_s.Boot.Files.{Handle, Serves, write_bytes}
use cr_ow_s.Boot.Payload.Reads.{Copied, Copied-chunk}
use cr_ow_s.Loader.Discover.Hash.{
  loader_chunk_bytes, LoaderRead, read_out, broken, reading, load_loader, Hashed, hashed, no_hash,
  hash_after, hash_loader,
}

-- The loop has ended with the bytes from `from` on in the buffer.
pub data Reads (content : ℕ → ℕ) (buffer from size : ℕ) (before : Memory)
    : LoaderRead → Type 0 where
  reads :
      (after : Memory)
      → Copied content buffer from size before after
      → Reads content buffer from size before (read_out after)

module _ (content : ℕ → ℕ) (buffer size : ℕ) (h : Handle) (served : Serves h content size)
    (fits : buffer + size < 2 ^ 64) where
  nothing_left :
      (from : ℕ) (before after : Memory)
      → size ≤ from
      → ((a : ℕ) → after a ≡ before a)
      → Copied content buffer from size before after
  nothing_left from before after over same = record {
    inside = λ a above below. absurd (omega (arith, over, above, below));
    outside = λ a out. same a;
  }

  -- A chunk size of 0 ends the loop, and at the end of the file the next Read stores it.
  at_zero :
      (fuel i pos from : ℕ) (before m : Memory)
      → size ≤ from
      → 0 < fuel
      → ((a : ℕ) → m a ≡ before a)
      → Reads content buffer from size before (load_loader fuel h buffer i 0 pos m)
  unfolding load_loader
  at_zero zero i pos from before m over more same = absurd (omega (arith, more))
  at_zero (suc fuel) i pos from before m over more same =
      reads m (nothing_left from before m over same)

  unchanged :
      (to count : ℕ) (bytes : ℕ → ℕ) (m : Memory)
      → count ≡ 0
      → (a : ℕ) → write_bytes to count bytes m a ≡ m a
  unchanged to count bytes m none a = ground arith

  at_end :
      (fuel i chunk pos from : ℕ) (m : Memory)
      → pos ≡ size
      → size ≤ from
      → 1 < fuel
      → Reads content buffer from size m (load_loader fuel h buffer i chunk pos m)
  unfolding load_loader
  at_end zero i chunk pos from m ended over more = absurd (omega (arith, more))
  at_end (suc fuel) i chunk pos from m ended over more = elim (Bool-cases (chunk == 0)) [
    | inl e ↦ rw e (reads m (nothing_left from m m over (λ a. refl)))
    | inr e ↦
        let upto : pos ≤ size = omega (arith, ended) in
        let none : (h.read pos chunk).count ≡ 0 =
          ground (arith, served.counts pos chunk upto, ended, e) in
        rw (e, ap is_error (served.succeeds pos chunk upto), none)
          (at_zero fuel (i + 1) (pos + 0) from m _ over (omega (arith, more))
            (unchanged _ 0 (h.read pos chunk).bytes m refl))
  ]

  -- One chunk, and what the loop does behind it.
  chunk_first :
      (i chunk pos : ℕ) (m : Memory) (l : LoaderRead)
      → chunk ≡ loader_chunk_bytes
      → pos ≡ i * loader_chunk_bytes
      → pos < size
      → Reads content buffer
          ((i + 1) * loader_chunk_bytes)
          size
          (write_bytes
            (add64 buffer (u64 (i * loader_chunk_bytes)))
            (h.read pos chunk).count
            (h.read pos chunk).bytes
            m)
          l
      → Reads content buffer (i * loader_chunk_bytes) size m l
  chunk_first i chunk pos m (read_out _) full here inner (reads after c) =
      let upto : pos ≤ size = omega (arith, inner) in
      let off : ℕ = i * loader_chunk_bytes in
      let below : u64 (i * loader_chunk_bytes) ≡ i * loader_chunk_bytes =
        omega (arith, fits, here, inner) in
      let place : add64 buffer (u64 (i * loader_chunk_bytes)) ≡ buffer + i * loader_chunk_bytes =
        ap (add64 buffer) below
        ∙ add64_fits buffer (i * loader_chunk_bytes) (omega (arith, fits, here, inner)) in
      let next : (i + 1) * loader_chunk_bytes ≡ i * loader_chunk_bytes + loader_chunk_bytes =
        omega arith in
      reads after (
        Copied-chunk content buffer size loader_chunk_bytes (i * loader_chunk_bytes)
          (h.read pos chunk).count (h.read pos chunk).bytes m after (omega (arith, here, inner))
          (ground (arith, served.counts pos chunk upto, full, here))
          (λ j less. served.brings pos chunk j upto less ∙ ap (λ p. content (p + j)) here)
          (subst
            (λ a.
              Copied content buffer (i * loader_chunk_bytes + loader_chunk_bytes) size
                (write_bytes a (h.read pos chunk).count (h.read pos chunk).bytes m) after)
            place
            (subst
              (λ a.
                Copied content buffer a size
                  (write_bytes (add64 buffer (u64 (i * loader_chunk_bytes)))
                    (h.read pos chunk).count (h.read pos chunk).bytes m)
                  after)
              next c)))
  chunk_first i chunk pos m (broken _) full here inner none_such = elim none_such [ ]
  chunk_first i chunk pos m reading full here inner none_such = elim none_such [ ]

  pub load_loader-Reads :
      (fuel i chunk pos : ℕ) (m : Memory)
      → chunk ≡ loader_chunk_bytes
      → pos ≡ i * loader_chunk_bytes
      → pos ≤ size
      → size + 2 * loader_chunk_bytes ≤ (i + fuel) * loader_chunk_bytes
      → Reads content buffer
          (i * loader_chunk_bytes)
          size
          m
          (load_loader fuel h buffer i chunk pos m)
  unfolding load_loader
  load_loader-Reads zero i chunk pos m full here upto enough =
      absurd (omega (arith, here, upto, enough))
  load_loader-Reads (suc fuel) i chunk pos m full here upto enough =
      let some_left : chunk == 0 ≡ false = ground (arith, full) in
      let fine = ap is_error (served.succeeds pos chunk upto) in
      let counted = served.counts pos chunk upto in
      elim (Bool-cases (ltb pos size)) [
        | inr e ↦
            at_end (suc fuel) i chunk pos (i * loader_chunk_bytes) m (ground (arith, e, upto))
              (ground (arith, e, here)) (omega (arith, here, upto, enough))
        | inl e ↦
            let inner : pos < size = ltb→lt pos size e in
            rw (some_left, fine)
              (chunk_first i chunk pos m _ full here inner
                (elim (Bool-cases (leb (i * loader_chunk_bytes + loader_chunk_bytes) size)) [
                  | inl whole ↦
                      load_loader-Reads fuel (i + 1) (h.read pos chunk).count
                        (pos + (h.read pos chunk).count) _
                        (ground (arith, counted, whole, full, here))
                        (ground (arith, counted, whole, full, here))
                        (ground (arith, counted, whole, full, here)) (omega (arith, enough))
                  | inr part ↦
                      at_end fuel (i + 1) (h.read pos chunk).count (pos + (h.read pos chunk).count)
                        ((i + 1) * loader_chunk_bytes) _
                        (ground (arith, counted, part, full, here, inner)) (ground (arith, part))
                        (omega (arith, here, inner, enough))
                ]))
      ]

-- The whole file stands in the buffer, nothing else has changed, and MFTAH is asked for the hash of it.
pub data IsHashed (create_hash : Memory → ℕ → ℕ → MftahStatus) (is_failure : MftahStatus → Bool)
    (content : ℕ → ℕ) (buffer size : ℕ) (before : Memory) : Hashed → Type 0 where
  made :
      (after : Memory)
      → Copied content buffer 0 size before after
      → is_failure (create_hash after buffer size) ≡ false
      → IsHashed create_hash is_failure content buffer size before (hashed after)
  failed :
      (after : Memory)
      → Copied content buffer 0 size before after
      → is_failure (create_hash after buffer size) ≡ true
      → IsHashed create_hash is_failure content buffer size before (no_hash Status.success)

hash_after-IsHashed :
    (create_hash : Memory → ℕ → ℕ → MftahStatus) (is_failure : MftahStatus → Bool) (content : ℕ → ℕ)
    (buffer size : ℕ) (before : Memory) (l : LoaderRead)
    → Reads content buffer 0 size before l
    → IsHashed create_hash is_failure content buffer size before
        (hash_after (λ m. create_hash m buffer size) is_failure l)
hash_after-IsHashed create_hash is_failure content buffer size before (read_out m) (reads after c) =
    elim (Bool-cases (is_failure (create_hash after buffer size))) [
      | inl e ↦ rw e (failed after c e)
      | inr e ↦ rw e (made after c e)
    ]
hash_after-IsHashed create_hash is_failure content buffer size before (broken s) none_such =
    elim none_such [ ]
hash_after-IsHashed create_hash is_failure content buffer size before reading none_such =
    elim none_such [ ]

-- The loader's own file that is not empty and is served, with a buffer for it that fits the address
-- space, and fuel for its chunks and two more: the loop ends, and it ends with the whole file in the
-- buffer and no other byte of memory changed. MFTAH is asked for the hash of just these bytes, and
-- there is a hash exactly if MFTAH does not fail.
pub hash_loader-IsHashed :
    (fuel : ℕ) (h : Handle) (content : ℕ → ℕ) (buffer size : ℕ)
    (create_hash : Memory → ℕ → ℕ → MftahStatus) (is_failure : MftahStatus → Bool) (m : Memory)
    → Serves h content size
    → 0 < size
    → buffer ≢ 0
    → buffer + size < 2 ^ 64
    → size + 2 * loader_chunk_bytes ≤ fuel * loader_chunk_bytes
    → IsHashed create_hash is_failure content buffer size m
        (hash_loader fuel Status.success h buffer create_hash is_failure m)
unfolding hash_loader
hash_loader-IsHashed fuel h content buffer size create_hash is_failure m served some_bytes allocated
      fits enough =
    let usable : (size == 0) || (buffer == 0) ≡ false = ground arith in
    rw (served.sized, usable)
      (hash_after-IsHashed create_hash is_failure content buffer size m _ (
        load_loader-Reads content buffer size h served fits fuel 0 loader_chunk_bytes 0 m refl refl
          (omega arith) (omega (arith, enough))))
