-- ===== src/Boot/Payload/Reads.antt =====
-- The loop of LoadAndDecrypt on a file that is served: it ends with the file in memory.
use cr_ow_s.Base.{
  ℕ, zero, suc, ◌+◌, ◌-◌, ◌*◌, ◌^◌, ◌≤◌, ◌<◌, ◌≡◌, ◌⊎◌, inl, inr, refl, ◌∙◌, ap, subst, false,
  arith, Bool-cases, ltb, leb, ltb→lt, if◌then◌else◌,
}
use cr_ow_s.Base.Words.{add64_fits}
use cr_ow_s.Base.Status.{is_error}
use cr_ow_s.Base.Memory.{Memory}
use cr_ow_s.Boot.Files.{Handle, Serves, write_bytes}
use cr_ow_s.Boot.Payload.{load_block_size, Load, loaded, stopped, loading, load_chunks}

-- The bytes from `i` to `size` of the content stand in the buffer, and nothing else has changed.
pub record Copied (content : ℕ → ℕ) (buffer i size : ℕ) (before after : Memory) : Type 0 where
  pub inside : (a : ℕ) → i ≤ a → a < size → after (buffer + a) ≡ content a
  pub outside : (a : ℕ) → (a < buffer + i) ⊎ (buffer + size ≤ a) → after a ≡ before a

pub data Reads (content : ℕ → ℕ) (buffer i size : ℕ) (before : Memory) : Load → Type 0 where
  reads :
      (pos : ℕ) (after : Memory)
      → Copied content buffer i size before after
      → Reads content buffer i size before (loaded pos after)

pub write_bytes-inside :
    (to count : ℕ) (bytes : ℕ → ℕ) (m : Memory) (i : ℕ)
    → i < count
    → write_bytes to count bytes m (to + i) ≡ bytes i
write_bytes-inside to count bytes m i h =
    let same : to + i - to ≡ i = omega arith in ground (arith, ap bytes same)

pub write_bytes-outside :
    (to count : ℕ) (bytes : ℕ → ℕ) (m : Memory) (a : ℕ)
    → (a < to) ⊎ (to + count ≤ a)
    → write_bytes to count bytes m a ≡ m a
write_bytes-outside to count bytes m a h = ground arith

module _ (content : ℕ → ℕ) (buffer size : ℕ) where
  -- One chunk of up to `block` bytes, and the chunks behind it.
  pub Copied-chunk :
      (block i count : ℕ) (bytes : ℕ → ℕ) (before after : Memory)
      → i < size
      → count ≡ (if leb block (size - i) then block else size - i)
      → ((j : ℕ) → j < count → bytes j ≡ content (i + j))
      → Copied content buffer (i + block) size (write_bytes (buffer + i) count bytes before) after
      → Copied content buffer i size before after
  Copied-chunk block i count bytes before after more counted brought c = record {
    inside = here;
    outside = λ a h.
        c.outside a (ground (arith, h))
        ∙ write_bytes-outside (buffer + i) count bytes before a (ground (arith, counted, h));
  }
    where
      here : (a : ℕ) → i ≤ a → a < size → after (buffer + a) ≡ content a
      here a from below = elim (Bool-cases (ltb a (i + block))) [
        | inl e ↦
            let near : a < i + block = ltb→lt a (i + block) e in
            let j : ℕ = a - i in
            let at : i + (a - i) ≡ a = omega arith in
            let place : buffer + a ≡ buffer + i + (a - i) = omega arith in
            let got : a - i < count = ground (arith, counted, near, from, below) in
            c.outside (buffer + a) (inl (omega arith))
            ∙ ap (write_bytes (buffer + i) count bytes before) place
            ∙ write_bytes-inside (buffer + i) count bytes before (a - i) got
            ∙ brought (a - i) got
            ∙ ap content at
        | inr e ↦ c.inside a (ground (arith, e)) below
      ]

  module _ (h : Handle) (served : Serves h content size) (buffer_fits : buffer + size < 2 ^ 64)
      (size_fits : size + load_block_size < 2 ^ 64) where
    pub load_chunks-Reads :
        (fuel i pos : ℕ) (m : Memory)
        → pos ≡ (if leb i size then i else size)
        → 0 < fuel
        → size + load_block_size ≤ i + fuel * load_block_size
        → Reads content buffer i size m (load_chunks fuel h size buffer i pos m)
    unfolding load_chunks
    load_chunks-Reads zero i pos m stands more enough = absurd (omega arith)
    load_chunks-Reads (suc fuel) i pos m stands more enough = elim (Bool-cases (ltb i size)) [
      | inr e ↦ rw e (
          reads pos m (record {
            inside = λ a from below. absurd (ground (arith, e, from, below));
            outside = λ a out. refl;
          }))
      | inl e ↦
          let inner : i < size = ltb→lt i size e in
          let here : pos ≡ i = ground (arith, stands, inner) in
          let upto : pos ≤ size = omega (arith, here) in
          let fine : is_error (h.read pos load_block_size).status ≡ false =
            ap is_error (served.succeeds pos load_block_size upto) in
          let counted = served.counts pos load_block_size upto in
          rw
            (e, fine, add64_fits i load_block_size (omega arith), add64_fits buffer i (omega arith))
            (joined i pos m _ here inner (
              load_chunks-Reads fuel (i + load_block_size)
                (pos + (h.read pos load_block_size).count)
                (write_bytes (buffer + i) (h.read pos load_block_size).count
                  (h.read pos load_block_size).bytes m)
                (ground (arith, counted, here, inner)) (ground (arith, enough, inner))
                (omega arith)))
    ]
      where
        joined :
            (i pos : ℕ) (m : Memory) (l : Load)
            → pos ≡ i
            → i < size
            → Reads content buffer
                (i + load_block_size)
                size
                (write_bytes
                  (buffer + i)
                  (h.read pos load_block_size).count
                  (h.read pos load_block_size).bytes
                  m)
                l
            → Reads content buffer i size m l
        joined i pos m (loaded _ _) here inner (reads end after c) = reads end after (
            Copied-chunk load_block_size i _ _ m after inner
              (subst
                (λ p.
                  (h.read pos load_block_size).count
                  ≡ (if leb load_block_size (size - p) then load_block_size else size - p))
                here (served.counts pos load_block_size (omega arith)))
              (λ j less.
                served.brings pos load_block_size j (omega arith) less
                ∙ ap (λ p. content (p + j)) here)
              c)
        joined i pos m (stopped _) here inner none_such = elim none_such [ ]
        joined i pos m loading here inner none_such = elim none_such [ ]
