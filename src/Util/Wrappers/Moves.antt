-- ===== src/Util/Wrappers/Moves.antt =====
-- What MemMove does, also between overlapping buffers.
use cr_ow_s.Base.{
  ℕ, zero, suc, ◌+◌, ◌≤◌, ◌<◌, ◌≡◌, ◌⊎◌, inl, inr, refl, sym, ◌∙◌, ap, arith, ◌==◌, if◌then◌else◌,
  ◌-◌, ◌||◌, ltb, leb, Bool-cases,
}
use cr_ow_s.Base.Memory.{Memory, EfiLib}
use cr_ow_s.Util.Wrappers.{move_bytes, mem_move, copy_mem}

-- What a move leaves, by the direction.
pub record Moved (destination source length : ℕ) (before after : Memory) : Type 0 where
  pub down :
      destination ≤ source → (i : ℕ) → i < length → after (destination + i) ≡ before (source + i)
  pub up :
      source < destination → (i : ℕ) → i < length → after (destination + i) ≡ after (source + i)
  pub outside : (a : ℕ) → (a < destination) ⊎ (destination + length ≤ a) → after a ≡ before a

abbrev store : Memory → ℕ → ℕ → Memory
store m source destination a = if a == destination then m source else m a

stored : (m : Memory) (source destination : ℕ) → store m source destination destination ≡ m source
stored m source destination = ground arith

kept :
    (m : Memory) (source destination a : ℕ)
    → (a < destination) ⊎ (destination < a)
    → store m source destination a ≡ m a
kept m source destination a h = ground (arith, h)

-- One byte, and then the rest, behind both pointers.
module _ (left destination source : ℕ) (m after : Memory)
    (rest : Moved (destination + 1) (source + 1) left (store m source destination) after) where
  head_stored : after destination ≡ m source
  head_stored = rest.outside destination (inl (omega arith)) ∙ stored m source destination

  down_at : destination ≤ source → (i : ℕ) → i < suc left → after (destination + i) ≡ m (source + i)
  down_at h zero k =
      let place : destination + 0 ≡ destination = omega arith in
      let from : source + 0 ≡ source = omega arith in rw (place, from) head_stored
  down_at h (suc i) k =
      let place : destination + suc i ≡ destination + 1 + i = omega arith in
      let from : source + suc i ≡ source + 1 + i = omega arith in
      ap after place
      ∙ rest.down (omega (arith, h)) i (omega (arith, k))
      ∙ kept m source destination (source + 1 + i) (inr (omega (arith, h)))
      ∙ ap m (sym from)

  up_at :
      source < destination → (i : ℕ) → i < suc left → after (destination + i) ≡ after (source + i)
  up_at h zero k =
      let place : destination + 0 ≡ destination = omega arith in
      let from : source + 0 ≡ source = omega arith in
      rw (place, from)
        (head_stored
          ∙ sym (kept m source destination source (inl h))
          ∙ sym (rest.outside source (inl (omega (arith, h)))))
  up_at h (suc i) k =
      let place : destination + suc i ≡ destination + 1 + i = omega arith in
      let from : source + suc i ≡ source + 1 + i = omega arith in
      ap after place ∙ rest.up (omega (arith, h)) i (omega (arith, k)) ∙ ap after (sym from)

  outside_at : (a : ℕ) → (a < destination) ⊎ (destination + suc left ≤ a) → after a ≡ m a
  outside_at a h =
      rest.outside a (omega (arith, h)) ∙ kept m source destination a (omega (arith, h))

move_bytes-Moved :
    (length destination source : ℕ) (m : Memory)
    → Moved destination source length m (move_bytes length destination source m)
unfolding move_bytes
move_bytes-Moved zero destination source m = record {
  down = λ h i k. absurd (omega (arith, k));
  up = λ h i k. absurd (omega (arith, k));
  outside = λ a h. refl;
}
move_bytes-Moved (suc left) destination source m =
    let rest = move_bytes-Moved left (destination + 1) (source + 1) (store m source destination) in
    record {
      down = down_at left destination source m _ rest;
      up = up_at left destination source m _ rest;
      outside = outside_at left destination source m _ rest;
    }

-- MemMove copies the source as it was to a destination at or below it. Above the source it copies
-- upwards too: each byte of the destination is then the one that stands in the source at the end,
-- which is the one before the call only for buffers that do not overlap. It changes nothing else.
-- The pointer that it returns is the destination's end.
pub mem_move-Moved :
    (destination source length : ℕ) (m : Memory)
    → ((mem_move destination source length m).0 ≡ destination + length)
      × Moved destination source length m (mem_move destination source length m).1
unfolding mem_move
mem_move-Moved destination source length m = (refl, move_bytes-Moved length destination source m)

-- Where the destination does not begin inside the source, each byte is the one that stood there.
Moved-inside :
    (destination source length : ℕ) (m after : Memory) (i : ℕ)
    → (destination ≤ source) ⊎ (source + length ≤ destination)
    → Moved destination source length m after
    → i < length
    → after (destination + i) ≡ m (source + i)
Moved-inside destination source length m after i (inl below) moved h = moved.down below i h
Moved-inside destination source length m after i (inr behind) moved h =
    moved.up (omega (arith, behind, h)) i h
    ∙ moved.outside (source + i) (inl (omega (arith, behind, h)))

-- The hook for memmove leaves what the hook for memcpy leaves, if the destination does not begin
-- inside the source.
pub mem_move-copy_mem :
    (lib : EfiLib) (destination source length : ℕ) (m : Memory)
    → (destination ≤ source) ⊎ (source + length ≤ destination)
    → (a : ℕ)
    → (mem_move destination source length m).1 a ≡ (copy_mem lib destination source length m).1 a
unfolding mem_move copy_mem
mem_move-copy_mem lib destination source length m apart a =
    let moved = move_bytes-Moved length destination source m in
    elim (Bool-cases (ltb a destination || leb (destination + length) a)) [
      | inl e ↦
          let beside : (a < destination) ⊎ (destination + length ≤ a) = ground (arith, e) in
          moved.outside a beside ∙ sym (lib.copy_mem-outside destination source length m a beside)
      | inr e ↦
          let from : destination ≤ a = ground (arith, e) in
          let to : a < destination + length = ground (arith, e) in
          let place : a ≡ destination + (a - destination) = omega (arith, from) in
          ap (move_bytes length destination source m) place
          ∙ Moved-inside destination source length m _ (a - destination) apart moved
              (omega (arith, from, to))
          ∙ sym (lib.copy_mem-inside destination source length m a from to)
    ]
