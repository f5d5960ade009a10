-- ===== src/Kernel/Str/Tokens.antt =====
-- What a token of the format prints.
use cr_ow_s.Base.{
  ℕ, ◌%◌, ◌^◌, ◌≤◌, ◌<◌, ◌≡◌, ◌⊎◌, inl, inr, refl, Bool, true, false, ◌&&◌, ◌||◌, leb,
  if◌then◌else◌, List, [], ◌∷◌, ◌++◌, arith, if_elim, ltb, ◌==◌,
}
use cr_ow_s.Kernel.Str.{
  Arg, decimal_digit, hex_digit, decimal_text, hex_text, Conversion, prints, rejects, overruns,
  goes_wrong, leading_zeros, with_number, with_text, convert,
}
use cr_ow_s.Kernel.Str.Numerals.{Numeral, decimal_text-Numeral, hex_place-Numeral}

-- What a token prints, and the arguments behind its own.
pub data Means (stale : List ℕ) : ℕ → List Arg → List ℕ → List Arg → Type 0 where
  percent : (d : ℕ) (args : List Arg) → d ≡ b'%' → Means stale d args (b'%' ∷ []) args
  string :
      (d : ℕ) (s : List ℕ) (args : List Arg) → d ≡ b's' → Means stale d (Arg.text s ∷ args) s args
  no_string : (d : ℕ) (args : List Arg) → d ≡ b's' → Means stale d (Arg.null ∷ args) [] args
  char :
      (d n : ℕ) (args : List Arg)
      → d ≡ b'c'
      → Means stale d (Arg.number n ∷ args) ((n % 2 ^ 8) ∷ []) args
  decimal :
      (d n : ℕ) (txt : List ℕ) (args : List Arg)
      → (d ≡ b'u') ⊎ ((d ≡ b'd') × (n % 2 ^ 32 < 2 ^ 31))
      → Numeral 10 decimal_digit (n % 2 ^ 32) txt
      → Means stale d (Arg.number n ∷ args) txt args
  hex_zero :
      (d n : ℕ) (args : List Arg)
      → (d ≡ b'x') ⊎ (d ≡ b'X')
      → n % 2 ^ 32 ≡ 0
      → Means stale d (Arg.number n ∷ args) (b'0' ∷ []) args
  hex :
      (d n : ℕ) (txt : List ℕ) (args : List Arg)
      → (d ≡ b'x') ⊎ (d ≡ b'X')
      → Numeral 16 (hex_digit (d == b'X')) (n % 2 ^ 32) txt
      → Means stale d (Arg.number n ∷ args) (txt ++ stale) args

-- A digit other than 0.
abbrev pub any_digit : List ℕ → Bool
any_digit [] = false
any_digit (c ∷ cs) = (leb b'1' c && leb c b'9') || any_digit cs

-- The letters of the tokens that take a number.
abbrev pub wants_number : ℕ → Bool
wants_number d = (d == b'c') || (d == b'x') || (d == b'X') || (d == b'u') || (d == b'd')

-- The letters of all tokens.
abbrev pub is_token : ℕ → Bool
is_token d = (d == b'%') || (d == b'0') || (d == b's') || wants_number d

-- A token that is not supported, with the format behind it: an unknown letter, or a width.
pub data Rejects (d : ℕ) (cs : List ℕ) : Type 0 where
  unknown : is_token d ≡ false → Rejects d cs
  width : d ≡ b'0' → any_digit cs ≡ true → Rejects d cs

-- Arguments that do not begin with one for the token, or begin with a negative number for %d.
pub data Mismatches (d : ℕ) : List Arg → Type 0 where
  too_few : (d ≡ b's') ⊎ (wants_number d ≡ true) → Mismatches d []
  number_for_text : (n : ℕ) (rest : List Arg) → d ≡ b's' → Mismatches d (Arg.number n ∷ rest)
  text_for_number :
      (s : List ℕ) (rest : List Arg) → wants_number d ≡ true → Mismatches d (Arg.text s ∷ rest)
  null_for_number : (rest : List Arg) → wants_number d ≡ true → Mismatches d (Arg.null ∷ rest)
  negative :
      (n : ℕ) (rest : List Arg)
      → d ≡ b'd'
      → 2 ^ 31 ≤ n % 2 ^ 32
      → Mismatches d (Arg.number n ∷ rest)

pub data Makes (stale : List ℕ) (d : ℕ) (cs : List ℕ) (args : List Arg) : Conversion → Type 0 where
  printing :
      (xs : List ℕ) (rest : List Arg)
      → Means stale d args xs rest
      → Makes stale d cs args (prints xs rest)
  rejecting : Rejects d cs → Makes stale d cs args rejects
  overrunning : d ≡ b'0' → any_digit cs ≡ false → Makes stale d cs args overruns
  going_wrong : Mismatches d args → Makes stale d cs args goes_wrong

leading_zeros-any_digit :
    (cs : List ℕ) → leading_zeros cs ≡ (if any_digit cs then rejects else overruns)
unfolding leading_zeros
leading_zeros-any_digit [] = refl
leading_zeros-any_digit (c ∷ cs) = rw (leading_zeros-any_digit cs) (ground arith)

module _ (stale : List ℕ) (d : ℕ) (cs : List ℕ) where
  leading_zeros-Makes : (args : List Arg) → d ≡ b'0' → Makes stale d cs args (leading_zeros cs)
  leading_zeros-Makes args zero_token = rw (leading_zeros-any_digit cs) (
      if_elim (Makes stale d cs args) (any_digit cs) (λ e. rejecting (width zero_token e))
        (λ e. overrunning zero_token e))

  with_text-Makes : (args : List Arg) → d ≡ b's' → Makes stale d cs args (with_text args)
  with_text-Makes [] e = going_wrong (too_few (inl e))
  with_text-Makes (Arg.number n ∷ args) e = going_wrong (number_for_text n args e)
  with_text-Makes (Arg.text s ∷ args) e = printing s args (string d s args e)
  with_text-Makes (Arg.null ∷ args) e = printing [] args (no_string d args e)

  with_number-Makes :
      (args : List Arg) (print : ℕ → List Arg → Conversion)
      → wants_number d ≡ true
      → ((n : ℕ) (rest : List Arg) → Makes stale d cs (Arg.number n ∷ rest) (print n rest))
      → Makes stale d cs args (with_number args print)
  with_number-Makes [] print wants each = going_wrong (too_few (inr wants))
  with_number-Makes (Arg.number n ∷ args) print wants each = each n args
  with_number-Makes (Arg.text s ∷ args) print wants each =
      going_wrong (text_for_number s args wants)
  with_number-Makes (Arg.null ∷ args) print wants each = going_wrong (null_for_number args wants)

  hex_text-Makes :
      (n : ℕ) (rest : List Arg)
      → (d ≡ b'x') ⊎ (d ≡ b'X')
      → Makes stale d cs
          (Arg.number n ∷ rest)
          (prints (hex_text stale (d == b'X') (n % 2 ^ 32)) rest)
  unfolding hex_text
  hex_text-Makes n rest token =
      if_elim (λ t. Makes stale d cs (Arg.number n ∷ rest) (prints t rest)) (n % 2 ^ 32 == 0)
        (λ e. printing _ rest (hex_zero d n rest token (ground (arith, e))))
        (λ e. printing _ rest (
          hex d n _ rest token
            (hex_place-Numeral (d == b'X') (n % 2 ^ 32) (omega arith) (ground (arith, e)))))

  decimal_text-Makes :
      (n : ℕ) (rest : List Arg)
      → (d ≡ b'u') ⊎ ((d ≡ b'd') × (n % 2 ^ 32 < 2 ^ 31))
      → Makes stale d cs (Arg.number n ∷ rest) (prints (decimal_text (n % 2 ^ 32)) rest)
  decimal_text-Makes n rest token =
      printing _ rest (decimal d n _ rest token (decimal_text-Numeral (n % 2 ^ 32) (omega arith)))

  negative-Makes :
      (n : ℕ) (rest : List Arg)
      → d ≡ b'd'
      → Makes stale d cs (Arg.number n ∷ rest) (
          if ltb (n % 2 ^ 32) (2 ^ 31) then prints (decimal_text (n % 2 ^ 32)) rest else goes_wrong)
  negative-Makes n rest e =
      if_elim (Makes stale d cs (Arg.number n ∷ rest)) (ltb (n % 2 ^ 32) (2 ^ 31))
        (λ k. decimal_text-Makes n rest (inr (e, ground (arith, k))))
        (λ k. going_wrong (negative n rest e (ground (arith, k))))

  pub convert-Makes : (args : List Arg) → Makes stale d cs args (convert stale d cs args)
  unfolding convert
  convert-Makes args =
      let Good = Makes stale d cs args in
      if_elim Good (d == b'%') (λ e. printing _ args (percent d args (ground (arith, e))))
        (λ e1.
          if_elim Good (d == b'0') (λ e. leading_zeros-Makes args (ground (arith, e)))
            (λ e2.
              if_elim Good (d == b's') (λ e. with_text-Makes args (ground (arith, e)))
                (λ e3.
                  if_elim Good (d == b'c')
                    (λ e.
                      with_number-Makes args _ (ground (arith, e))
                        (λ n rest. printing _ rest (char d n rest (ground (arith, e)))))
                    (λ e4.
                      if_elim Good ((d == b'x') || (d == b'X'))
                        (λ e.
                          with_number-Makes args _ (ground (arith, e))
                            (λ n rest. hex_text-Makes n rest (ground (arith, e))))
                        (λ e5.
                          if_elim Good (d == b'u')
                            (λ e.
                              with_number-Makes args _ (ground (arith, e))
                                (λ n rest. decimal_text-Makes n rest (inl (ground (arith, e)))))
                            (λ e6.
                              if_elim Good (d == b'd')
                                (λ e.
                                  with_number-Makes args _ (ground (arith, e))
                                    (λ n rest. negative-Makes n rest (ground (arith, e))))
                                (λ e7.
                                  rejecting
                                    (unknown (ground (arith, e1, e2, e3, e4, e5, e6, e7))))))))))
