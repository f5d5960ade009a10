-- ===== src/Kernel/Str/Exact.antt =====
-- What snprintf of src/kernel/core/str.c stores for a format whose tokens all print, in a buffer with
-- room for it.
use cr_ow_s.Base.{
  zero, ◌/◌, ◌%◌, Bool, ◌≤◌, ℕ, suc, ◌+◌, ◌≤◌, ◌<◌, ◌≡◌, refl, ap, ◌∙◌, subst, not, inl, inr, List,
  [], ◌∷◌, ◌++◌, Option, none, some, arith, Bool-cases, if_elim, if_both, ltb, lt→ltb, ◌==◌, length,
  length-append, if◌then◌else◌,
}
use cr_ow_s.Base.Memory.{Memory}
use cr_ow_s.Kernel.Str.{
  place, hex_text, decimal_text, hex_digit, decimal_digit, Arg, put, Conversion, prints, rejects,
  overruns, goes_wrong, convert, emit, Printed, printed, print_from, after_convert, snprintf,
}

abbrev pub prefix : List ℕ → Option (List ℕ) → Option (List ℕ)
prefix xs none = none
prefix xs (some ys) = some (xs ++ ys)

abbrev converted : Conversion → (List Arg → Option (List ℕ)) → Option (List ℕ)
converted (prints xs rest) more = prefix xs (more rest)
converted rejects more = none
converted overruns more = none
converted goes_wrong more = none

-- The text of a format, if all its tokens print.
unfoldable pub expand : List ℕ → List ℕ → List Arg → Option (List ℕ)
expand stale [] args = some []
expand stale (c ∷ []) args = if c == b'%' then none else some (c ∷ [])
expand stale (c ∷ d ∷ cs) args =
    let next = expand stale (d ∷ cs) args in
    if c == b'%'
    then converted (convert stale d cs args) (expand stale cs)
    else prefix (c ∷ []) next

-- A text stored from an address on, without NUL behind it.
abbrev pub write_text : List ℕ → ℕ → Memory → Memory
write_text [] a m = m
write_text (x ∷ xs) a m = write_text xs (a + 1) (put m a x)

module _ (stale : List ℕ) (str limit : ℕ) where
  abbrev Exact : ℕ → Memory → Option (List ℕ) → Printed → Type 0
  Exact at m none r = Unit
  Exact at m (some out) r =
      at + length out < limit → r ≡ printed (at + length out) (write_text out (str + at) m)

  full-Exact :
      (at : ℕ) (m : Memory) (o : Option (List ℕ)) (r : Printed) → limit ≤ at → Exact at m o r
  full-Exact at m none r h = tt
  full-Exact at m (some out) r h = λ room. absurd (omega (arith, h, room))

  emit_lem :
      (xs : List ℕ) (at : ℕ) (m : Memory)
      → at + length xs < limit
      → emit str limit at xs m ≡ (at + length xs, write_text xs (str + at) m)
  unfolding emit
  emit_lem [] at m room = ap (λ n. (n, m)) (omega arith)
  emit_lem (x ∷ xs) at m room =
      let step : str + (at + 1) ≡ str + at + 1 = omega arith in
      let sum : at + 1 + length xs ≡ at + suc (length xs) = omega arith in
      rw (lt→ltb at limit (omega (arith, room))) (
        emit_lem xs (at + 1) (put m (str + at) x) (omega (arith, room))
        ∙ ap (λ n. (n, write_text xs (str + (at + 1)) (put m (str + at) x))) sum
        ∙ ap (λ a. (at + suc (length xs), write_text xs a (put m (str + at) x))) step)

  write_text-append :
      (xs ys : List ℕ) (a : ℕ) (m : Memory)
      → write_text ys (a + length xs) (write_text xs a m) ≡ write_text (xs ++ ys) a m
  write_text-append [] ys a m = ap (λ b. write_text ys b m) (omega arith)
  write_text-append (x ∷ xs) ys a m =
      ap (λ b. write_text ys b (write_text xs (a + 1) (put m a x))) (omega arith)
      ∙ write_text-append xs ys (a + 1) (put m a x)

  -- What is printed behind a piece of the text.
  piece-Exact :
      (xs : List ℕ) (at : ℕ) (m : Memory) (o : Option (List ℕ)) (go_on : ℕ × Memory → Printed)
      → ((at' : ℕ) (m' : Memory) → Exact at' m' o (go_on (at', m')))
      → Exact at m (prefix xs o) (go_on (emit str limit at xs m))
  piece-Exact xs at m none go_on more = tt
  piece-Exact xs at m (some ys) go_on more = λ room.
      let both = length-append xs ys in
      let fits : at + length xs < limit = omega (arith, room, both) in
      let fits' : at + length xs + length ys < limit = omega (arith, room, both) in
      let place : str + (at + length xs) ≡ str + at + length xs = omega arith in
      let sum : at + length xs + length ys ≡ at + length (xs ++ ys) = omega (arith, both) in
      let first = write_text xs (str + at) m in
      ap go_on (emit_lem xs at m fits)
      ∙ more (at + length xs) first fits'
      ∙ ap (λ n. printed n (write_text ys (str + (at + length xs)) first)) sum
      ∙ ap (λ a. printed (at + length (xs ++ ys)) (write_text ys a first)) place
      ∙ ap (λ n. printed (at + length (xs ++ ys)) n) (write_text-append xs ys (str + at) m)

  -- What is printed behind one character.
  char-Exact :
      (c at : ℕ) (m : Memory) (o : Option (List ℕ)) (r : Printed)
      → Exact (at + 1) (put m (str + at) c) o r
      → Exact at m (prefix (c ∷ []) o) r
  char-Exact c at m none r more = tt
  char-Exact c at m (some ys) r more = λ room.
      let sum : at + 1 + length ys ≡ at + suc (length ys) = omega arith in
      let place : str + (at + 1) ≡ str + at + 1 = omega arith in
      more (omega (arith, room))
      ∙ ap (λ n. printed n (write_text ys (str + (at + 1)) (put m (str + at) c))) sum
      ∙ ap (λ a. printed (at + suc (length ys)) (write_text ys a (put m (str + at) c))) place

  token-Exact :
      (k : Conversion) (at : ℕ) (m : Memory) (cs : List ℕ)
      → ((rest : List Arg) (at' : ℕ) (m' : Memory)
          → Exact at' m' (expand stale cs rest) (print_from stale str limit cs rest at' m'))
      → Exact at m (converted k (expand stale cs)) (
          after_convert m
            (λ xs rest.
              print_from stale str limit cs rest
                (emit str limit at xs m).0
                (emit str limit at xs m).1)
            k)
  token-Exact (prints xs rest) at m cs more =
      piece-Exact xs at m (expand stale cs rest) (λ p. print_from stale str limit cs rest p.0 p.1)
        (more rest)
  token-Exact rejects at m cs more = tt
  token-Exact overruns at m cs more = tt
  token-Exact goes_wrong at m cs more = tt

  print_from-Exact :
      (fmt : List ℕ) (args : List Arg) (at : ℕ) (m : Memory)
      → Exact at m (expand stale fmt args) (print_from stale str limit fmt args at m)
  unfolding expand print_from
  print_from-Exact [] args at m = λ room. ap (λ n. printed n m) (omega arith)
  print_from-Exact (c ∷ []) args at m =
      if_elim (λ r. Exact at m (expand stale (c ∷ []) args) r) (not (ltb at limit))
        (λ e. full-Exact at m (expand stale (c ∷ []) args) _ (ground (arith, e)))
        (λ e. elim (Bool-cases (c == b'%')) [ inl k ↦ rw k tt | inr k ↦ rw k (λ room. refl) ])
  print_from-Exact (c ∷ d ∷ cs) args at m =
      if_elim (λ r. Exact at m (expand stale (c ∷ d ∷ cs) args) r) (not (ltb at limit))
        (λ e. full-Exact at m (expand stale (c ∷ d ∷ cs) args) _ (ground (arith, e)))
        (λ e. elim (Bool-cases (c == b'%')) [
          | inl k ↦ rw k (
              token-Exact (convert stale d cs args) at m cs
                (λ rest at' m'. print_from-Exact cs rest at' m'))
          | inr k ↦ rw k (
              char-Exact c at m (expand stale (d ∷ cs) args) _
                (print_from-Exact (d ∷ cs) args (at + 1) (put m (str + at) c)))
        ])

-- A format whose tokens all print, in a buffer with room for its text and one more character:
-- snprintf returns the length of the text and has stored it, without NUL behind it.
pub snprintf-exact :
    (stale : List ℕ) (str limit : ℕ) (fmt : List ℕ) (args : List Arg) (m : Memory) (out : List ℕ)
    → expand stale fmt args ≡ some out
    → length out < limit
    → snprintf stale str limit fmt args m ≡ printed (length out) (write_text out str m)
unfolding snprintf
snprintf-exact stale str limit fmt args m out e room =
    let all : Exact stale str limit 0 m (some out) (print_from stale str limit fmt args 0 m) =
      subst (λ o. Exact stale str limit 0 m o (print_from stale str limit fmt args 0 m)) e
        (print_from-Exact stale str limit fmt args 0 m) in
    all (omega (arith, room))
    ∙ ap (λ n. printed n (write_text out (str + 0) m)) (omega arith)
    ∙ ap (λ a. printed (length out) (write_text out a m)) (omega arith)

length-place :
    (cells base : ℕ) (spell : ℕ → ℕ) (x : ℕ) (stored : List ℕ)
    → length (place cells base spell x stored) ≤ cells + length stored
unfolding place
length-place zero base spell x stored = omega arith
length-place (suc cells) base spell x stored =
    let here : length stored ≤ suc cells + length stored = omega arith in
    let digits = place cells base spell (x / base) (spell (x % base) ∷ stored) in
    let further : length digits ≤ suc cells + length stored =
      omega (arith, length-place cells base spell (x / base) (spell (x % base) ∷ stored)) in
    if_both (λ (l : List ℕ). length l ≤ suc cells + length stored) (x == 0) here further

pub length-hex_text :
    (stale : List ℕ) (upper : Bool) (x : ℕ) → length (hex_text stale upper x) ≤ 16 + length stale
unfolding hex_text
length-hex_text stale upper x =
    let digits = place 16 16 (hex_digit upper) x [] in
    let zero_digit : length {A = ℕ} (b'0' ∷ []) ≤ 16 + length stale = omega arith in
    let spelled : length (digits ++ stale) ≤ 16 + length stale =
      omega (arith, length-append digits stale, length-place 16 16 (hex_digit upper) x []) in
    if_both (λ (l : List ℕ). length l ≤ 16 + length stale) (x == 0) zero_digit spelled

pub length-decimal_text : (x : ℕ) → length (decimal_text x) ≤ 10
unfolding decimal_text
length-decimal_text x =
    let zero_digit : length {A = ℕ} (b'0' ∷ []) ≤ 10 = omega arith in
    let spelled : length (place 10 10 decimal_digit x []) ≤ 10 =
      omega (arith, length-place 10 10 decimal_digit x []) in
    if_both (λ (l : List ℕ). length l ≤ 10) (x == 0) zero_digit spelled
