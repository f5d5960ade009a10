-- ===== src/Input/Editing.antt =====
-- The line editor against a text that grows and shrinks at its end.
use cr_ow_s.Base.{
  ℕ, zero, suc, ◌+◌, ◌-◌, ◌%◌, ◌^◌, ◌≤◌, ◌<◌, ◌≡◌, ◌⊎◌, refl, sym, ap, ◌∙◌, true, false, ◌&&◌, List,
  [], ◌∷◌, ◌++◌, arith, ltb, ◌==◌, if◌then◌else◌, length, set, take, length-set, length-append,
  Bool-cases, inl, inr,
}
use cr_ow_s.Input.{Line, backspace, is_printable, edit}

abbrev pub drop_last : List ℕ → List ℕ
drop_last [] = []
drop_last (x ∷ []) = []
drop_last (x ∷ y ∷ xs) = x ∷ drop_last (y ∷ xs)

-- What a key means: backspace takes the last character away, a printable character is added while
-- there is room, any other key is ignored.
unfoldable pub type_key : ℕ → List ℕ → ℕ → List ℕ
type_key max text c =
    if c == backspace
    then drop_last text
    else if is_printable c && ltb (length text) max
    then text ++ (c ∷ [])
    else text

-- The line holds the text in its first `length` cells, and its cursor stands inside the buffer.
pub record Represents (max : ℕ) (l : Line) (text : List ℕ) : Type 0 where
  pub cells : length l.buffer ≡ max + 1
  pub cursor : l.length ≤ max
  pub counted : l.length ≡ length text
  pub prefix : take l.length l.buffer ≡ text

take-set : (n : ℕ) (xs : List ℕ) (v : ℕ) → take n (set xs n v) ≡ take n xs
take-set zero xs v = refl
take-set (suc n) [] v = refl
take-set (suc n) (x ∷ xs) v = ap (λ ys. x ∷ ys) (take-set n xs v)

take-suc-set :
    (n : ℕ) (xs : List ℕ) (v : ℕ)
    → n < length xs
    → take (suc n) (set xs n v) ≡ take n xs ++ (v ∷ [])
take-suc-set zero [] v h = absurd (omega arith)
take-suc-set zero (x ∷ xs) v h = refl
take-suc-set (suc n) [] v h = absurd (omega arith)
take-suc-set (suc n) (x ∷ xs) v h = ap (λ ys. x ∷ ys) (take-suc-set n xs v (omega arith))

drop_last-take : (n : ℕ) (xs : List ℕ) → n < length xs → drop_last (take (suc n) xs) ≡ take n xs
drop_last-take zero [] h = refl
drop_last-take zero (x ∷ xs) h = refl
drop_last-take (suc n) [] h = refl
drop_last-take (suc n) (x ∷ []) h = absurd (omega arith)
drop_last-take (suc n) (x ∷ y ∷ xs) h = ap (λ ys. x ∷ ys) (drop_last-take n (y ∷ xs) (omega arith))

length-drop_last : (xs : List ℕ) → length (drop_last xs) ≡ length xs - 1
length-drop_last [] = refl
length-drop_last (x ∷ []) = omega arith
length-drop_last (x ∷ y ∷ xs) = omega (arith, length-drop_last (y ∷ xs))

pub take-set_before : (n m : ℕ) (xs : List ℕ) (v : ℕ) → n ≤ m → take n (set xs m v) ≡ take n xs
take-set_before zero m xs v h = refl
take-set_before (suc n) m [] v h = refl
take-set_before (suc n) zero (x ∷ xs) v h = absurd (omega arith)
take-set_before (suc n) (suc m) (x ∷ xs) v h =
    ap (λ ys. x ∷ ys) (take-set_before n m xs v (omega arith))

shorter : ℕ → ℕ
shorter n = if ltb 0 n then n - 1 else n

shorter-suc : (n : ℕ) → shorter (suc n) ≡ n
unfolding shorter
shorter-suc n = ground arith

module _ (max : ℕ) where
  erase :
      (n : ℕ) (xs text : List ℕ)
      → Represents max (record { buffer = xs; length = n }) text
      → Represents max (record { buffer = set xs n 0; length = shorter n }) (drop_last text)
  erase zero xs [] r = record {
    cells = length-set xs 0 0 ∙ r.cells;
    cursor = unfold shorter in omega arith;
    counted = unfold shorter in refl;
    prefix = unfold shorter in refl;
  }
  erase zero xs (x ∷ text) r = absurd (omega (arith, r.counted))
  erase (suc n) xs text r =
      let room : n < length xs = omega (arith, r.cells, r.cursor) in
      record {
        cells = length-set xs (suc n) 0 ∙ r.cells;
        cursor = rw shorter-suc (omega (arith, r.cursor));
        counted = rw shorter-suc (omega (arith, r.counted, length-drop_last text));
        prefix = rw shorter-suc (
            take-set_before n (suc n) xs 0 (omega arith)
            ∙ sym (drop_last-take n xs room)
            ∙ ap drop_last r.prefix);
      }

  append :
      (n : ℕ) (xs text : List ℕ) (c : ℕ)
      → max < 256
      → n < max
      → Represents max (record { buffer = xs; length = n }) text
      → Represents max (record { buffer = set xs n c; length = (n + 1) % 2 ^ 8 }) (text ++ (c ∷ []))
  append n xs text c small room r =
      let next : (n + 1) % 2 ^ 8 ≡ suc n = omega arith in
      record {
        cells = length-set xs n c ∙ r.cells;
        cursor = omega arith;
        counted = omega (arith, next, r.counted, length-append text (c ∷ []));
        prefix =
            rw next
              (take-suc-set n xs c (omega (arith, r.cells)) ∙ ap (λ ys. ys ++ (c ∷ [])) r.prefix);
      }

  -- Every key changes the line as it changes the text, if `max` is a UINT8: the line goes on holding
  -- the text in its first cells, and its cursor stays inside the buffer of `max + 1` cells.
  pub edit-Represents :
      (l : Line) (text : List ℕ) (c : ℕ)
      → max < 256
      → Represents max l text
      → Represents max (edit max l c) (type_key max text c)
  unfolding edit type_key shorter
  edit-Represents l text c small r = elim (Bool-cases (c == backspace)) [
    | inl e ↦ rw e (erase l.length l.buffer text r)
    | inr e ↦ rw (e, ← r.counted) (added (Bool-cases (is_printable c && ltb l.length max)))
  ]
    where
      added :
          ((is_printable c && ltb l.length max) ≡ true)
            ⊎ ((is_printable c && ltb l.length max) ≡ false)
          → Represents max
              (if is_printable c && ltb l.length max
                then record { buffer = set l.buffer l.length c; length = (l.length + 1) % 2 ^ 8 }
                else l)
              (if is_printable c && ltb l.length max then text ++ (c ∷ []) else text)
      added (inl k) = rw k (append l.length l.buffer text c small (ground arith) r)
      added (inr k) = rw k r
