-- ===== src/Kernel/Str/Written.antt =====
-- What snprintf leaves in memory.
use cr_ow_s.Base.{
  ℕ, zero, suc, ◌+◌, ◌≤◌, ◌<◌, ◌≡◌, ◌⊎◌, inl, inr, refl, ap, ◌∙◌, sym, subst, false, List, [], ◌∷◌,
  ◌++◌, arith, if_elim, ltb, ◌==◌, length, get_or, length-append, append-nil, append_assoc,
}
use cr_ow_s.Base.Memory.{Memory}
use cr_ow_s.Kernel.Str.{Arg, put, emit}
use cr_ow_s.Kernel.Str.Tokens.{Means}

-- What a piece of the format prints, characters as they are and tokens, and the arguments that it
-- leaves.
pub data Expands (stale : List ℕ) : List ℕ → List Arg → List ℕ → List Arg → Type 0 where
  ends : (args : List Arg) → Expands stale [] args [] args
  literal :
      (c : ℕ) (cs out : List ℕ) (args left : List Arg)
      → (c == b'%') ≡ false
      → Expands stale cs args out left
      → Expands stale (c ∷ cs) args (c ∷ out) left
  token :
      (c d : ℕ) (cs xs out : List ℕ) (args rest left : List Arg)
      → c ≡ b'%'
      → Means stale d args xs rest
      → Expands stale cs rest out left
      → Expands stale (c ∷ d ∷ cs) args (xs ++ out) left

-- `at` characters of `full` stand in the buffer, all of them if there is room, and nothing else has
-- changed.
pub record Wrote (str limit : ℕ) (before : Memory) (full : List ℕ) (at : ℕ) (m : Memory)
    : Type 0 where
  pub bounded : at ≤ limit
  pub short : at ≤ length full
  pub all : at < limit → at ≡ length full
  pub inside : (i : ℕ) → i < at → m (str + i) ≡ get_or full i 0
  pub outside : (a : ℕ) → (a < str) ⊎ (str + at ≤ a) → m a ≡ before a

get_or-append : (xs ys : List ℕ) (i : ℕ) → i < length xs → get_or (xs ++ ys) i 0 ≡ get_or xs i 0
get_or-append [] ys i h = absurd (omega (arith, h))
get_or-append (x ∷ xs) ys zero h = refl
get_or-append (x ∷ xs) ys (suc i) h = get_or-append xs ys i (omega (arith, h))

get_or-last : (xs : List ℕ) (y : ℕ) → get_or (xs ++ (y ∷ [])) (length xs) 0 ≡ y
get_or-last [] y = refl
get_or-last (x ∷ xs) y = get_or-last xs y

module _ (str limit : ℕ) (before : Memory) where
  abbrev Stands : List ℕ → ℕ → Memory → Type 0
  Stands = Wrote str limit before

  pub put-Wrote :
      (full : List ℕ) (at x : ℕ) (m : Memory)
      → Stands full at m
      → at < limit
      → Stands (full ++ (x ∷ [])) (at + 1) (put m (str + at) x)
  put-Wrote full at x m w room =
      let len = length-append full (x ∷ []) in
      record {
        bounded = omega (arith, room);
        short = omega (arith, len, w.all room);
        all = λ h. omega (arith, len, w.all room);
        inside = λ i h.
            if_elim (λ v. v ≡ get_or (full ++ (x ∷ [])) i 0) (str + i == str + at)
              (λ e.
                let last : i ≡ length full = ground (arith, e, w.all room) in
                rw last (sym (get_or-last full x)))
              (λ e.
                let near : i < at = ground (arith, e, h) in
                let near' : i < length full = omega (arith, near, w.short) in
                w.inside i near ∙ sym (get_or-append full (x ∷ []) i near'));
        outside = λ a h.
            if_elim (λ v. v ≡ before a) (a == str + at) (λ e. absurd (ground (arith, e, h)))
              (λ e.
                w.outside a
                  (elim h [ inl below ↦ inl below | inr above ↦ inr (omega (arith, above)) ]));
      }

  pub full-Wrote :
      (full ys : List ℕ) (at : ℕ) (m : Memory)
      → Stands full at m
      → (at < limit → ys ≡ [])
      → Stands (full ++ ys) at m
  full-Wrote full ys at m w no_room = record {
    bounded = w.bounded;
    short = omega (arith, w.short, length-append full ys);
    all = λ h. w.all h ∙ ap length (sym (ap (λ l. full ++ l) (no_room h) ∙ append-nil full));
    inside = λ i h. w.inside i h ∙ sym (get_or-append full ys i (omega (arith, h, w.short)));
    outside = w.outside;
  }

  pub assoc-Wrote :
      (full xs ys : List ℕ) (at : ℕ) (m : Memory)
      → Stands ((full ++ xs) ++ ys) at m
      → Stands (full ++ (xs ++ ys)) at m
  assoc-Wrote full xs ys at m w = subst (λ l. Stands l at m) (append_assoc full xs ys) w

  pub emit-Wrote :
      (xs full : List ℕ) (at : ℕ) (m : Memory)
      → Stands full at m
      → Stands (full ++ xs) (emit str limit at xs m).0 (emit str limit at xs m).1
  unfolding emit
  emit-Wrote [] full at m w = full-Wrote full [] at m w (λ h. refl)
  emit-Wrote (x ∷ xs) full at m w =
      if_elim (λ (p : ℕ × Memory). Stands (full ++ (x ∷ xs)) p.0 p.1) (ltb at limit)
        (λ e. assoc-Wrote full (x ∷ []) xs _ _ (
          emit-Wrote xs (full ++ (x ∷ [])) (at + 1) (put m (str + at) x)
            (put-Wrote full at x m w (ground (arith, e)))))
        (λ e. full-Wrote full (x ∷ xs) at m w (λ h. absurd (ground (arith, e, h))))
