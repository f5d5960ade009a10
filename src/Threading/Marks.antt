-- ===== src/Threading/Marks.antt =====
-- The working marks of the processors, and what the calls of threading.c do to them.
use cr_ow_s.Base.{
  ℕ, zero, suc, ◌+◌, ◌<◌, ◌≡◌, ◌≢◌, refl, ap, Bool, true, false, not, ◌||◌, List, [], ◌∷◌, Option,
  none, some, arith, length, if_elim, if_both,
}
use cr_ow_s.Base.Status.{Status, is_error}
use cr_ow_s.Threading.{
  Mp, Survey, put_first, Attempt, assigned, refused, busy, refresh_from, kept_or, refresh,
  set_working, attempt_from,
}

-- The mark and the role of processor `i`.
abbrev pub working : List Mp → ℕ → Bool
working [] i = false
working (mp ∷ mps) zero = mp.is_working
working (mp ∷ mps) (suc i) = working mps i

abbrev pub bsp : List Mp → ℕ → Bool
bsp [] i = false
bsp (mp ∷ mps) zero = mp.is_bsp
bsp (mp ∷ mps) (suc i) = bsp mps i

pub working-set_working_self :
    (mps : List Mp) (i : ℕ) → i < length mps → working (set_working mps i true) i ≡ true
unfolding set_working
working-set_working_self [] i h = absurd (omega arith)
working-set_working_self (mp ∷ mps) zero h = refl
working-set_working_self (mp ∷ mps) (suc i) h = working-set_working_self mps i (omega arith)

pub working-set_working_other :
    (mps : List Mp) (i j : ℕ) (b : Bool) → i ≢ j → working (set_working mps i b) j ≡ working mps j
unfolding set_working
working-set_working_other [] i j b h = refl
working-set_working_other (mp ∷ mps) zero zero b h = absurd (h refl)
working-set_working_other (mp ∷ mps) zero (suc j) b h = refl
working-set_working_other (mp ∷ mps) (suc i) zero b h = refl
working-set_working_other (mp ∷ mps) (suc i) (suc j) b h =
    working-set_working_other mps i j b (λ e. h (ap suc e))

pub working-set_working_clear :
    (mps : List Mp) (i : ℕ) → working (set_working mps i false) i ≡ false
unfolding set_working
working-set_working_clear [] i = refl
working-set_working_clear (mp ∷ mps) zero = refl
working-set_working_clear (mp ∷ mps) (suc i) = working-set_working_clear mps i

pub length-set_working :
    (mps : List Mp) (i : ℕ) (b : Bool) → length (set_working mps i b) ≡ length mps
unfolding set_working
length-set_working [] i b = refl
length-set_working (mp ∷ mps) zero b = refl
length-set_working (mp ∷ mps) (suc i) b = ap suc (length-set_working mps i b)

-- A list of the same length with the same marks, or no list.
pub data Same (mps : List Mp) : Option (List Mp) → Type 0 where
  aborted : Same mps none
  fresh :
      (new : List Mp)
      → length new ≡ length mps
      → ((i : ℕ) → working new i ≡ working mps i)
      → Same mps (some new)

Same-cons :
    (mp new : Mp) (mps : List Mp) (rest : Option (List Mp))
    → new.is_working ≡ mp.is_working
    → Same mps rest
    → Same (mp ∷ mps) (put_first new rest)
Same-cons mp new mps none e aborted = aborted
Same-cons mp new mps (some _) e (fresh xs long same) = fresh (new ∷ xs) (ap suc long) marks
  where
    marks : (i : ℕ) → working (new ∷ xs) i ≡ working (mp ∷ mps) i
    marks zero = e
    marks (suc j) = same j

refresh_from-Same : (v : Survey) (i : ℕ) (mps : List Mp) → Same mps (refresh_from v i mps)
unfolding refresh_from
refresh_from-Same v i [] = fresh [] refl (λ j. refl)
refresh_from-Same v i (mp ∷ mps) =
    if_both (Same (mp ∷ mps)) (is_error (v.status i)) aborted
      (Same-cons mp _ mps (refresh_from v (suc i) mps) refl (refresh_from-Same v (suc i) mps))

-- A refresh keeps every mark, whatever the firmware says.
pub working-refresh :
    (v : Survey) (mps : List Mp) (i : ℕ) → working (refresh v mps).1 i ≡ working mps i
unfolding refresh kept_or
working-refresh v mps i =
    if_both (λ (r : Status × List Mp). working r.1 i ≡ working mps i) (not v.allocated) refl
      (kept (refresh_from v 0 mps) (refresh_from-Same v 0 mps))
  where
    kept : (o : Option (List Mp)) → Same mps o → working (kept_or mps o).1 i ≡ working mps i
    kept none aborted = refl
    kept (some _) (fresh new long same) = same i

pub length-refresh : (v : Survey) (mps : List Mp) → length (refresh v mps).1 ≡ length mps
unfolding refresh kept_or
length-refresh v mps =
    if_both (λ (r : Status × List Mp). length r.1 ≡ length mps) (not v.allocated) refl
      (kept (refresh_from v 0 mps) (refresh_from-Same v 0 mps))
  where
    kept : (o : Option (List Mp)) → Same mps o → length (kept_or mps o).1 ≡ length mps
    kept none aborted = refl
    kept (some _) (fresh new long same) = long

-- How a search from processor `i` on may end.
pub data Fits (startup : ℕ → Status) (i : ℕ) (mps : List Mp) : Attempt → Type 0 where
  on :
      (j d : ℕ)
      → j ≡ i + d
      → d < length mps
      → working mps d ≡ false
      → bsp mps d ≡ false
      → is_error (startup j) ≡ false
      → Fits startup i mps (assigned j)
  off : (s : Status) (j : ℕ) → s ≡ startup j → is_error s ≡ true → Fits startup i mps (refused s)
  full : ((d : ℕ) → d < length mps → (bsp mps d || working mps d) ≡ true) → Fits startup i mps busy

Fits-cons :
    (startup : ℕ → Status) (i : ℕ) (mp : Mp) (mps : List Mp) (a : Attempt)
    → (mp.is_bsp || mp.is_working) ≡ true
    → Fits startup (suc i) mps a
    → Fits startup i (mp ∷ mps) a
Fits-cons startup i mp mps (assigned _) taken (on j d e inside idle ap_only ok) =
    on j (suc d) (omega arith) (omega arith) idle ap_only ok
Fits-cons startup i mp mps (refused _) taken (off s j p e) = off s j p e
Fits-cons startup i mp mps busy taken (full all) = full every
  where
    every : (d : ℕ) → d < length (mp ∷ mps) → (bsp (mp ∷ mps) d || working (mp ∷ mps) d) ≡ true
    every zero h = taken
    every (suc d) h = all d (omega arith)

or_false : (a b : Bool) → (a || b) ≡ false → (a ≡ false) × (b ≡ false)
or_false false false h = (refl, refl)
or_false false true h = (refl, h)
or_false true b h = absurd (ground (arith, h))

-- The search through the processors ends in one of three ways: on a processor of the list that is
-- idle, is not the boot processor and has accepted the procedure; with an error of StartupThisAP;
-- or with each processor being busy or the boot processor.
pub attempt_from-Fits :
    (startup : ℕ → Status) (i : ℕ) (mps : List Mp) → Fits startup i mps (attempt_from startup i mps)
unfolding attempt_from
attempt_from-Fits startup i [] = full (λ d h. absurd (omega arith))
attempt_from-Fits startup i (mp ∷ mps) =
    if_elim (Fits startup i (mp ∷ mps)) (mp.is_bsp || mp.is_working)
      (λ e. Fits-cons startup i mp mps _ e (attempt_from-Fits startup (suc i) mps))
      (λ e.
        if_elim (Fits startup i (mp ∷ mps)) (is_error (startup i)) (λ k. off (startup i) i refl k)
          (λ k.
            let idle = or_false mp.is_bsp mp.is_working e in
            on i 0 (omega arith) (omega arith) idle.1 idle.0 k))
