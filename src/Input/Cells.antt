-- ===== src/Input/Cells.antt =====
-- Lists that are a text with one more cell behind it.
use cr_ow_s.Base.{
  ℕ, zero, suc, ◌-◌, ◌≤◌, ◌<◌, ◌≡◌, ◌≢◌, refl, ap, List, [], ◌∷◌, ◌++◌, arith, length, set,
  replicate,
}
use cr_ow_s.Input.Editing.{drop_last}

abbrev pub last_or : List ℕ → ℕ → ℕ
last_or [] d = d
last_or (c ∷ cs) d = last_or cs c

abbrev pub NonZero : List ℕ → Type 0
NonZero [] = Unit {0}
NonZero (c ∷ cs) = (c ≢ 0) × NonZero cs

pub set-append :
    (text : List ℕ) (x v : ℕ) (rest : List ℕ)
    → set (text ++ (x ∷ rest)) (length text) v ≡ text ++ (v ∷ rest)
set-append [] x v rest = refl
set-append (c ∷ text) x v rest = ap (λ l. c ∷ l) (set-append text x v rest)

pub set-zeros : (n i : ℕ) → set {A = ℕ} (replicate n 0) i 0 ≡ replicate n 0
set-zeros zero i = refl
set-zeros (suc n) zero = refl
set-zeros (suc n) (suc i) = ap (λ l. 0 ∷ l) (set-zeros n i)

pub set-append_behind :
    (text : List ℕ) (x i : ℕ) (n : ℕ)
    → length text < i
    → set (text ++ (x ∷ replicate n 0)) i 0 ≡ text ++ (x ∷ replicate n 0)
set-append_behind [] x zero n h = absurd (omega (arith, h))
set-append_behind [] x (suc i) n h = ap (λ l. x ∷ l) (set-zeros n i)
set-append_behind (c ∷ text) x zero n h = absurd (omega (arith, h))
set-append_behind (c ∷ text) x (suc i) n h =
    ap (λ l. c ∷ l) (set-append_behind text x i n (omega (arith, h)))

pub drop_last-last :
    (c : ℕ) (cs rest : List ℕ) → (c ∷ cs) ++ rest ≡ drop_last (c ∷ cs) ++ (last_or cs c ∷ rest)
drop_last-last c [] rest = refl
drop_last-last c (d ∷ cs) rest = ap (λ l. c ∷ l) (drop_last-last d cs rest)

pub length-drop_last : (c : ℕ) (cs : List ℕ) → suc (length (drop_last (c ∷ cs))) ≡ length (c ∷ cs)
length-drop_last c [] = refl
length-drop_last c (d ∷ cs) = ap suc (length-drop_last d cs)

pub NonZero-drop_last : (cs : List ℕ) → NonZero cs → NonZero (drop_last cs)
NonZero-drop_last [] h = tt
NonZero-drop_last (c ∷ []) h = tt
NonZero-drop_last (c ∷ d ∷ cs) h = (h.0, NonZero-drop_last (d ∷ cs) h.1)

pub NonZero-append : (cs : List ℕ) (c : ℕ) → NonZero cs → c ≢ 0 → NonZero (cs ++ (c ∷ []))
NonZero-append [] c h k = (k, tt)
NonZero-append (x ∷ cs) c h k = (h.0, NonZero-append cs c h.1 k)

pub replicate-shift :
    (max n k : ℕ)
    → suc n ≡ k
    → k ≤ max
    → ◌≡◌ {A = List ℕ} (0 ∷ replicate (max - k) 0) (replicate (max - n) 0)
replicate-shift max n k e h =
    let same : suc (max - k) ≡ max - n = omega (arith, e, h) in ap (λ (i : ℕ). replicate i 0) same
