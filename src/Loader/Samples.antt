-- ===== src/Loader/Samples.antt =====
-- String routines that behave as documented, for the tests.
use cr_ow_s.Base.{
  ℕ, suc, ◌-◌, ◌≡◌, refl, ap, ap₂, Bool, true, false, ◌&&◌, List, [], ◌∷◌, arith, length, take, map,
  leb, ◌==◌, ==_refl, if◌then◌else◌,
}
use cr_ow_s.Loader.{StringLib}

abbrev pub same : List ℕ → List ℕ → Bool
same [] [] = true
same [] (y ∷ ys) = false
same (x ∷ xs) [] = false
same (x ∷ xs) (y ∷ ys) = (x == y) && same xs ys

and-true : (a b : Bool) → (a && b) ≡ true → (a ≡ true) × (b ≡ true)
and-true true true h = (refl, refl)
and-true true false h = (refl, h)
and-true false b h = absurd (ground (arith, h))

==_true : (a b : ℕ) → (a == b) ≡ true → a ≡ b
==_true a b h = ground arith

pub same_sound : (xs ys : List ℕ) → same xs ys ≡ true → xs ≡ ys
same_sound [] [] h = refl
same_sound [] (y ∷ ys) h = absurd (ground (arith, h))
same_sound (x ∷ xs) [] h = absurd (ground (arith, h))
same_sound (x ∷ xs) (y ∷ ys) h =
    let both = and-true (x == y) (same xs ys) h in
    ap₂ (λ z zs. z ∷ zs) (==_true x y both.0) (same_sound xs ys both.1)

pub same_refl : (xs : List ℕ) → same xs xs ≡ true
same_refl [] = refl
same_refl (x ∷ xs) = rw (==_refl x, same_refl xs) refl

abbrev pub upper : ℕ → ℕ
upper c = if leb b'a' c && leb c b'z' then c - 32 else c

pub length-map : (xs : List ℕ) → length (map upper xs) ≡ length xs
length-map [] = refl
length-map (x ∷ xs) = ap suc (length-map xs)

abbrev pub strings : StringLib
strings = record {
  strn_equal = λ s t n. same (take n s) (take n t);
  str_equal = same;
  str_upr = map upper;
  strn_equal_lem = λ s t n. (same_sound (take n s) (take n t), λ e. rw e (same_refl (take n t)));
  str_equal_lem = λ s t. (same_sound s t, λ e. rw e (same_refl t));
  length-str_upr = length-map;
}
