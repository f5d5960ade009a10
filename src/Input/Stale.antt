-- ===== src/Input/Stale.antt =====
-- Backspace moves the cursor back, and clears the cell behind the erased character: the character
-- itself stays in the buffer. A caller that reads the buffer and not the length finds it.
use cr_ow_s.Base.{
  ℕ, zero, suc, ◌<◌, ◌≡◌, refl, Bool, true, List, ◌∷◌, some, arith, get_or, set, replicate,
}
use cr_ow_s.Base.Status.{Status}
use cr_ow_s.Input.{
  Round, returned, backspace, is_printable, is_enter, edit, read_loop, read_input, judge, confirm,
  answered,
}
use cr_ow_s.Input.Session.{press}

module _ (c enter : ℕ) (printable : is_printable c ≡ true) (is_end : is_enter enter ≡ true)
    (rest : List Round) where
  -- A printable character that is typed and erased again, then Enter: the routine reports the length
  -- 0, and the character is still the first one of the buffer.
  pub read_input-stale :
      (max : ℕ) (before : List ℕ)
      → 0 < max
      → max < 256
      → (buffer : List ℕ) × (read_input max before Status.success
            (press c ∷ press backspace ∷ press enter ∷ rest)
          ≡ returned Status.success buffer (some 0))
        × (get_or buffer 0 0 ≡ c)
  unfolding read_input read_loop edit
  read_input-stale zero before pos small = absurd (omega arith)
  read_input-stale (suc m) before pos small =
      (c ∷ set (set (replicate (suc m) 0) 0 0) m 0, ground arith, refl)

  -- A prompt whose keys are a printable character, backspace and Enter answers what the erased
  -- character means, as if it had not been erased: an erased `y` confirms.
  pub confirm-stale :
      (is_default_confirm : Bool)
      → let erased = press c ∷ press backspace ∷ press enter ∷ rest in
        let kept = press c ∷ press enter ∷ rest in
        (confirm is_default_confirm Status.success erased ≡ answered (judge is_default_confirm c))
        × (confirm is_default_confirm Status.success kept ≡ answered (judge is_default_confirm c))
  unfolding confirm read_input read_loop edit
  confirm-stale is_default_confirm = (ground arith, ground arith)
