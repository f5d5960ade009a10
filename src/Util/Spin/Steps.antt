-- ===== src/Util/Spin/Steps.antt =====
-- What the steps of UefiSpin keep of the system.
use cr_ow_s.Base.{ℕ, ◌≡◌, ◌≢◌, inl, inr, refl, ◌∙◌, ap, false, not, ◌&&◌, arith, if_elim}
use cr_ow_s.Threading.{Thread, Turn, Start}
use cr_ow_s.Threading.Exclusive.{
  System, start_at, put-other, same_or_not, store_start, starts, next,
}
use cr_ow_s.Threading.Others.{Goes, stays}
use cr_ow_s.Util.Spin.{try_start}

store_start-other :
    (s : System) (k j : ℕ) (o : Start) → j ≢ k → (store_start s k o).threads j ≡ s.threads j
store_start-other s k j (Start.returned status t mps) e = put-other s.threads k t j e
store_start-other s k j (Start.waiting mps) e = refl

start_at-Goes :
    (s : System) (k : ℕ) (u : Turn) → (s.threads k).finished ≡ false → Goes s (start_at s k u)
unfolding start_at
start_at-Goes s k u unfinished = record {
  reach = λ r. next s _ r (starts s k u);
  keeps = λ j h. elim (same_or_not j k) [
    | inl e ↦ absurd (ground (arith, unfinished, h, ap (λ (i : ℕ). (s.threads i).finished) e))
    | inr e ↦ ap (λ (t : Thread). t.finished) (store_start-other s k j _ e) ∙ h
  ];
}

pub try_start-Goes : (s : System) (k : ℕ) (u : Turn) → Goes s (try_start s k u)
unfolding try_start
try_start-Goes s k u =
    if_elim (Goes s) (not (s.threads k).started && not (s.threads k).finished)
      (λ e. start_at-Goes s k u (ground (arith, e))) (λ e. stays s)
