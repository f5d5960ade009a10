-- ===== src/Kernel/Init/Choose.antt =====
-- The search chooses the first hole of the map.
use cr_ow_s.Base.{
  ℕ, zero, suc, ◌+◌, ◌^◌, ◌≤◌, ◌<◌, ◌≡◌, ◌≢◌, List, [], ◌∷◌, some, arith, refl, true, false,
  Bool-cases, inl, inr, ltb, ne→==, ltb→lt, lt→ltb, le→ltb,
}
use cr_ow_s.Base.Words.{add64_fits}
use cr_ow_s.Base.Memory.{Memory}
use cr_ow_s.Kernel.{load32, load64, store32}
use cr_ow_s.Kernel.Init.{Boot, visit, scan}
use cr_ow_s.Kernel.Init.Entries.{Entry, Listed, is_hole, first_hole, chosen}

-- A field that ends before the four stored bytes keeps its value.
pub load32-store32_below :
    (m : Memory) (a v b : ℕ) → b + 4 ≤ a → load32 (store32 m a v) b ≡ load32 m b
load32-store32_below m a v b h = ground arith

-- Once a hole is chosen, the rest of the loop only prints.
visit-settled : (p : ℕ) (s : Boot) → s.context.kmem_base ≢ 0 → visit p s ≡ s
unfolding visit
visit-settled p s h = rw (ne→== s.context.kmem_base 0 h) refl

-- A loop that has left the entries behind.
scan-over :
    (fuel at p : ℕ) (s : Boot)
    → 0 < fuel
    → at + load32 s.memory (at + 4) ≤ p
    → at + load32 s.memory (at + 4) < 2 ^ 64
    → scan fuel at p s ≡ some s
unfolding scan
scan-over zero at p s more over in_space = absurd (omega arith)
scan-over (suc fuel) at p s more over in_space =
    rw
      (
        add64_fits at (load32 s.memory (at + 4)) in_space,
        le→ltb p (at + load32 s.memory (at + 4)) over,
      )
      refl

pub scan-settled :
    (fuel at p : ℕ) (s : Boot)
    → s.context.kmem_base ≢ 0
    → 0 < load32 s.memory (at + 8)
    → at + load32 s.memory (at + 4) + load32 s.memory (at + 8) < 2 ^ 64
    → at + load32 s.memory (at + 4) < p + fuel
    → 0 < fuel
    → scan fuel at p s ≡ some s
unfolding scan
scan-settled zero at p s h step in_space enough more = absurd (omega arith)
scan-settled (suc fuel) at p s h step in_space enough more =
    elim (Bool-cases (ltb p (at + load32 s.memory (at + 4)))) [
      | inl e ↦
          let inside = ltb→lt p (at + load32 s.memory (at + 4)) e in
          rw
            (
              visit-settled p s h,
              add64_fits at (load32 s.memory (at + 4)) (omega arith),
              e,
              add64_fits p (load32 s.memory (at + 8)) (omega arith),
            )
            (scan-settled fuel at (p + load32 s.memory (at + 8)) s h step in_space (omega arith)
              (omega arith))
      | inr e ↦ rw (add64_fits at (load32 s.memory (at + 4)) (omega arith), e) refl
    ]

module _ (p : ℕ) (s : Boot) (e : Entry) (free : s.context.kmem_base ≡ 0)
    (base : load64 s.memory p ≡ e.base) (length : load64 s.memory (p + 8) ≡ e.length)
    (type : load32 s.memory (p + 16) ≡ e.type) where
  visit-hole : is_hole e ≡ true → visit p s ≡ chosen s (some (p, e))
  unfolding visit is_hole chosen
  visit-hole h = rw (free, base, length, type) (ground arith)

  visit-other : is_hole e ≡ false → visit p s ≡ s
  unfolding visit is_hole
  visit-other h = rw (free, base, length, type) (ground arith)

pub is_hole-base : (e : Entry) → is_hole e ≡ true → e.base ≢ 0
unfolding is_hole
is_hole-base e h = ground arith

-- The loop behind the entry that it chose: the mark stands behind the fields that the loop reads.
scan-chosen :
    (fuel at p q : ℕ) (s : Boot) (e : Entry)
    → is_hole e ≡ true
    → at + 16 ≤ p
    → 24 ≤ load32 s.memory (at + 8)
    → at + load32 s.memory (at + 4) + load32 s.memory (at + 8) < 2 ^ 64
    → at + load32 s.memory (at + 4) < q + fuel
    → 0 < fuel
    → scan fuel at q (chosen s (some (p, e))) ≡ some (chosen s (some (p, e)))
unfolding chosen
scan-chosen fuel at p q s e h header size in_space enough more =
    let eq4 = load32-store32_below s.memory (p + 16) 2 (at + 4) (omega arith) in
    let eq8 = load32-store32_below s.memory (p + 16) 2 (at + 8) (omega arith) in
    scan-settled fuel at q (chosen s (some (p, e))) (is_hole-base e h) (rw eq8 (omega arith))
      (rw (eq4, eq8) in_space) (rw eq4 enough) more

-- What the search returns, with one round for every byte of the tag, for a map of a known layout.
pub scan-first_hole :
    (es : List Entry) (fuel at p : ℕ) (s : Boot)
    → s.context.kmem_base ≡ 0
    → at + 16 ≤ p
    → 24 ≤ load32 s.memory (at + 8)
    → at + load32 s.memory (at + 4) + load32 s.memory (at + 8) < 2 ^ 64
    → Listed s.memory (load32 s.memory (at + 8)) p (at + load32 s.memory (at + 4)) es
    → at + load32 s.memory (at + 4) < p + fuel
    → scan fuel at p s ≡ some (chosen s (first_hole (load32 s.memory (at + 8)) p es))
unfolding scan first_hole chosen
scan-first_hole [] fuel at p s free header size in_space listed enough =
    scan-over fuel at p s (omega arith) (omega arith) (omega arith)
scan-first_hole (e ∷ es) zero at p s free header size in_space listed enough = absurd (omega arith)
scan-first_hole (e ∷ es) (suc fuel) at p s free header size in_space listed enough =
    let limit = at + load32 s.memory (at + 4) in
    elim (Bool-cases (is_hole e)) [
      | inl h ↦
          rw
            (
              h,
              visit-hole p s e free listed.0 listed.1 listed.2 h,
              add64_fits at (load32 s.memory (at + 4)) (omega arith),
              lt→ltb p limit (omega arith),
              load32-store32_below s.memory (p + 16) 2 (at + 8) (omega arith),
              add64_fits p (load32 s.memory (at + 8)) (omega arith),
            )
            (scan-chosen fuel at p (p + load32 s.memory (at + 8)) s e h header size in_space
              (omega arith) (omega arith))
      | inr h ↦
          rw
            (
              h,
              visit-other p s e free listed.0 listed.1 listed.2 h,
              add64_fits at (load32 s.memory (at + 4)) (omega arith),
              lt→ltb p limit (omega arith),
              add64_fits p (load32 s.memory (at + 8)) (omega arith),
            )
            (scan-first_hole es fuel at (p + load32 s.memory (at + 8)) s free (omega arith) size
              in_space listed.5 (omega arith))
    ]
