-- ===== src/Kernel/Str/Clearing.antt =====
-- strlen of src/kernel/core/str.c, and the loop of src/kernel/core/main.c that is to clear a printed
-- line and has strlen of the same line for its bound.
use cr_ow_s.Base.{
  ℕ, zero, suc, ◌+◌, ◌≤◌, ◌<◌, ◌≡◌, ◌≢◌, ◌⊎◌, inl, inr, refl, ap, ◌∙◌, arith, true, false,
  Bool-cases, ltb, ◌==◌, ne→==, lt→ltb, ==_refl, if◌then◌else◌,
}
use cr_ow_s.Base.Memory.{Memory}
use cr_ow_s.Kernel.Str.{put}

-- The loop, with so many bytes looked at as there is fuel.
pub count_from : ℕ → ℕ → Memory → ℕ
count_from zero a m = 0
count_from (suc fuel) a m = let rest = count_from fuel (a + 1) m in if m a == 0 then 0 else rest + 1

pub strlen : ℕ → ℕ → Memory → ℕ
strlen fuel str m = if str == 0 then 0 else count_from fuel str m

-- The clearing loop from character `i` on, with so many rounds.
pub clear_from : ℕ → ℕ → ℕ → ℕ → Memory → Memory
clear_from zero fuel i line m = m
clear_from (suc rounds) fuel i line m =
    let rest = clear_from rounds fuel (i + 1) line (put m (line + i) 0) in
    if ltb i (strlen fuel line m) then rest else m

pub clear_line : ℕ → ℕ → Memory → Memory
clear_line fuel line m = clear_from fuel fuel 0 line m

-- A string of `n` characters stands at `a`.
pub record Stands (a n : ℕ) (m : Memory) : Type 0 where
  pub characters : (i : ℕ) → i < n → m (a + i) ≢ 0
  pub ending : m (a + n) ≡ 0

count_from_lem : (fuel a n : ℕ) (m : Memory) → Stands a n m → n < fuel → count_from fuel a m ≡ n
unfolding count_from
count_from_lem zero a n m s h = absurd (omega (arith, h))
count_from_lem (suc fuel) a zero m s h =
    let here : m a ≡ 0 = ap m (omega arith) ∙ s.ending in rw here refl
count_from_lem (suc fuel) a (suc n) m s h =
    let here : m a ≢ 0 = λ e. s.characters 0 (omega arith) (ap m (omega arith) ∙ e) in
    let rest =
      count_from_lem fuel (a + 1) n m
        (record {
          characters = λ i k e. s.characters (suc i) (omega (arith, k)) (ap m (omega arith) ∙ e);
          ending = ap m (omega arith) ∙ s.ending;
        })
        (omega (arith, h)) in
    rw (ne→== (m a) 0 here, rest) (omega arith)

put_self : (m : Memory) (a v : ℕ) → put m a v a ≡ v
put_self m a v = rw (==_refl a) refl

strlen_lem :
    (fuel str n : ℕ) (m : Memory) → str ≢ 0 → Stands str n m → n < fuel → strlen fuel str m ≡ n
unfolding strlen
strlen_lem fuel str n m given s h = rw (ne→== str 0 given) (count_from_lem fuel str n m s h)

strlen-empty : (fuel str : ℕ) (m : Memory) → str ≢ 0 → m str ≡ 0 → 0 < fuel → strlen fuel str m ≡ 0
strlen-empty fuel str m given ended h =
    strlen_lem fuel str 0 m given
      (record {
        characters = λ i k. absurd (omega (arith, k));
        ending = ap m (omega arith) ∙ ended;
      })
      h

-- On whatever bytes: the loop clears the first one if it is not NUL, and nothing else.
pub clear_line-cases :
    (reads line : ℕ) (m : Memory)
    → line ≢ 0
    → 2 ≤ reads
    → ((m line ≡ 0) × (clear_line reads line m ≡ m)) ⊎ (clear_line reads line m ≡ put m line 0)
unfolding clear_line clear_from strlen count_from
clear_line-cases zero line m given h = absurd (omega (arith, h))
clear_line-cases (suc zero) line m given h = absurd (omega (arith, h))
clear_line-cases (suc (suc reads)) line m given h =
    let place : line + 0 ≡ line = omega arith in
    let emptied =
      strlen-empty (suc (suc reads)) line (put m line 0) given (put_self m line 0) (omega arith) in
    let longer : (m line == 0) ≡ false → ltb 0 (strlen (suc (suc reads)) line m) ≡ true =
      λ e. rw (ne→== line 0 given, e) (lt→ltb 0 _ (omega arith)) in
    elim (Bool-cases (m line == 0)) [
      | inl e ↦ inl (ground (arith, e), rw (ne→== line 0 given, e) refl)
      | inr e ↦ inr (rw (longer e, place, emptied) refl)
    ]

-- For a line of `n` characters that is not at address 0, and enough fuel: strlen is `n`; and the
-- loop that is to clear the line clears its first character only, since strlen of what is left is 0:
-- all the others stay.
pub clear_line-first :
    (fuel line n : ℕ) (m : Memory)
    → line ≢ 0
    → 0 < n
    → Stands line n m
    → n < fuel
    → (strlen fuel line m ≡ n) × (clear_line fuel line m ≡ put m line 0)
clear_line-first fuel line n m given some_text s h =
    let counted = strlen_lem fuel line n m given s h in
    let full : m line ≢ 0 = λ e. s.characters 0 some_text (ap m (omega arith) ∙ e) in
    (
      counted,
      elim (clear_line-cases fuel line m given (omega (arith, some_text, h))) [
        | inl same ↦ absurd (full same.0)
        | inr cleared ↦ cleared
      ],
    )
