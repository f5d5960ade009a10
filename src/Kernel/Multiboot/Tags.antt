-- ===== src/Kernel/Multiboot/Tags.antt =====
-- The search finds the first tag of its type, in boot information whose tags follow one another.
use cr_ow_s.Base.{
  ℕ, zero, suc, ◌+◌, ◌*◌, ◌/◌, ◌^◌, ◌≤◌, ◌<◌, ◌≡◌, ◌≢◌, List, [], ◌∷◌, arith, ◌==◌, if◌then◌else◌,
  ne→==,
}
use cr_ow_s.Base.Words.{add64_fits}
use cr_ow_s.Base.Memory.{Memory}
use cr_ow_s.Kernel.{load32}
use cr_ow_s.Kernel.Multiboot.{Seek, found, missing, seek_from, seek_tag}

pub record Tag : Type 0 where
  pub type : ℕ
  pub size : ℕ

-- The tags stand in memory from `p` on, each right behind the one before, up to `limit`. A tag has
-- at least its own header.
abbrev pub Laid : Memory → ℕ → ℕ → List Tag → Type 0
Laid m p limit [] = p ≡ limit
Laid m p limit (t ∷ ts) =
    (load32 m p ≡ t.type)
    × (load32 m (p + 4) ≡ t.size)
    × (8 ≤ t.size)
    × (p + t.size ≤ limit)
    × Laid m (p + t.size) limit ts

-- Where the first tag of a type stands.
unfoldable pub first_tag : ℕ → ℕ → List Tag → Seek
first_tag of_type p [] = missing
first_tag of_type p (t ∷ ts) =
    if t.type == of_type then found p else first_tag of_type (p + t.size) ts

Laid-le : (m : Memory) (limit p : ℕ) (ts : List Tag) → Laid m p limit ts → p ≤ limit
Laid-le m limit p [] laid = omega arith
Laid-le m limit p (t ∷ ts) laid = omega arith

module _ (m : Memory) (of_type limit : ℕ) (in_space : limit < 2 ^ 64) where
  -- Each round of the loop passes one tag, so the tags, of eight bytes or more, bound the rounds.
  seek_from-first_tag :
      (ts : List Tag) (fuel p : ℕ)
      → Laid m p limit ts
      → limit < p + fuel * 8
      → seek_from fuel m of_type limit p ≡ first_tag of_type p ts
  unfolding seek_from first_tag
  seek_from-first_tag ts zero p laid enough = absurd (omega (arith, Laid-le m limit p ts laid))
  seek_from-first_tag [] (suc fuel) p laid enough = ground arith
  seek_from-first_tag (t ∷ ts) (suc fuel) p laid enough =
      ground (arith, seek_from-first_tag ts fuel (p + t.size) laid.4)

-- In boot information whose tags follow one another up to its total size, inside the address space,
-- the search with one round for every eight bytes and one more ends: with the address of the first
-- tag of the type, or with NULL if there is none.
pub seek_tag-first_tag :
    (m : Memory) (of_type head : ℕ) (ts : List Tag) (fuel : ℕ)
    → head ≢ 0
    → head + load32 m head < 2 ^ 64
    → 8 ≤ load32 m head
    → Laid m (head + 8) (head + load32 m head) ts
    → load32 m head / 8 < fuel
    → seek_tag fuel m of_type head ≡ first_tag of_type (head + 8) ts
unfolding seek_tag
seek_tag-first_tag m of_type head ts fuel given in_space header laid enough =
    rw
      (
        ne→== head 0 given,
        add64_fits head (load32 m head) in_space,
        add64_fits head 8 (omega arith),
      )
      (seek_from-first_tag m of_type (head + load32 m head) in_space ts fuel (head + 8) laid
        (omega arith))
