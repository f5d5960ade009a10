-- ===== src/Kernel/Str/Numerals.antt =====
-- The digits that snprintf stores spell the number.
use cr_ow_s.Base.{
  ℕ, zero, suc, ◌+◌, ◌*◌, ◌/◌, ◌%◌, ◌^◌, ◌<◌, ◌≡◌, ◌≢◌, refl, ap, ◌∙◌, sym, Bool, List, [], ◌∷◌,
  map, arith, if_elim, ◌==◌,
}
use cr_ow_s.Kernel.Str.{place, decimal_digit, hex_digit, decimal_text}

-- The number that digits stand for behind those of `n`.
abbrev pub horner : ℕ → ℕ → List ℕ → ℕ
horner base n [] = n
horner base n (q ∷ qs) = horner base (n * base + q) qs

abbrev pub Small : ℕ → List ℕ → Type 0
Small base [] = Unit {0}
Small base (q ∷ qs) = (q < base) × Small base qs

abbrev pub leading : List ℕ → ℕ
leading [] = 0
leading (q ∷ qs) = q

-- The text is the number's, without zeros in front unless it is the number 0.
pub record Numeral (base : ℕ) (spell : ℕ → ℕ) (n : ℕ) (txt : List ℕ) : Type 0 where
  pub digits : List ℕ
  pub spelled : txt ≡ map spell digits
  pub small : Small base digits
  pub value : horner base 0 digits ≡ n
  pub no_zeros : n ≢ 0 → leading digits ≢ 0

abbrev reach : ℕ → ℕ → ℕ
reach base zero = 1
reach base (suc k) = base * reach base k

module _ (base : ℕ) (spell : ℕ → ℕ) (splits : (x : ℕ) → x / base * base + x % base ≡ x)
    (rem_small : (x : ℕ) → x % base < base) (shrinks : (x k : ℕ) → x < base * k → x / base < k)
    (rem_nonzero : (x : ℕ) → x / base ≡ 0 → x ≢ 0 → x % base ≢ 0) where
  place-Numeral :
      (cells x n : ℕ) (qs : List ℕ)
      → x < reach base cells
      → Small base qs
      → horner base x qs ≡ n
      → (x ≡ 0 → leading qs ≢ 0)
      → Numeral base spell n (place cells base spell x (map spell qs))
  unfolding place
  place-Numeral zero x n qs bound small value front =
      let none_left : x ≡ 0 = omega (arith, bound) in
      record {
        digits = qs;
        spelled = refl;
        small = small;
        value = ap (λ k. horner base k qs) (sym none_left) ∙ value;
        no_zeros = λ h. front none_left;
      }
  place-Numeral (suc cells) x n qs bound small value front =
      if_elim (Numeral base spell n) (x == 0)
        (λ e.
          let none_left : x ≡ 0 = ground (arith, e) in
          record {
            digits = qs;
            spelled = refl;
            small = small;
            value = ap (λ k. horner base k qs) (sym none_left) ∙ value;
            no_zeros = λ h. front none_left;
          })
        (λ e.
          let some_left : x ≢ 0 = ground (arith, e) in
          place-Numeral cells (x / base) n (x % base ∷ qs) (shrinks x (reach base cells) bound)
            (rem_small x, small) (ap (λ k. horner base k qs) (splits x) ∙ value)
            (λ h. rem_nonzero x h some_left))

pub decimal_text-Numeral : (x : ℕ) → x < 2 ^ 32 → Numeral 10 decimal_digit x (decimal_text x)
unfolding decimal_text
decimal_text-Numeral x bound =
    if_elim (Numeral 10 decimal_digit x) (x == 0)
      (λ e. record {
        digits = 0 ∷ [];
        spelled = refl;
        small = (omega arith, tt);
        value = ground (arith, e);
        no_zeros = λ h. absurd (ground (arith, e, h));
      })
      (λ e.
        place-Numeral 10 decimal_digit (λ y. omega arith) (λ y. omega arith)
          (λ y k h. omega (arith, h)) (λ y h k l. omega (arith, h, k, l)) 10 x x []
          (omega (arith, bound)) tt refl (λ h. absurd (ground (arith, e, h))))

pub hex_place-Numeral :
    (upper : Bool) (x : ℕ)
    → x < 2 ^ 32
    → x ≢ 0
    → Numeral 16 (hex_digit upper) x (place 16 16 (hex_digit upper) x [])
hex_place-Numeral upper x bound some_left =
    place-Numeral 16 (hex_digit upper) (λ y. omega arith) (λ y. omega arith)
      (λ y k h. omega (arith, h)) (λ y h k l. omega (arith, h, k, l)) 16 x x []
      (omega (arith, bound)) tt refl (λ h. absurd (some_left h))
