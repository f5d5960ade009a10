-- ===== src/Threading/Others.antt =====
-- What the other processors do to the system while one of them waits: procedures come to their end.
use cr_ow_s.Base.{
  ℕ, ◌≡◌, inl, inr, refl, ◌∙◌, ap, true, false, not, ◌&&◌, List, [], ◌∷◌, arith, if_elim,
  if◌then◌else◌,
}
use cr_ow_s.Threading.{Mp, Thread, Survey, finish_thread}
use cr_ow_s.Threading.Exclusive.{
  System, finish_at, put_self, put-other, same_or_not, finishes, Reachable, next,
}

-- Only the procedure of a running thread comes to an end.
pub end_all : System → List (ℕ × Survey) → System
end_all s [] = s
end_all s ((k, v) ∷ more) =
    let go_on = end_all (finish_at s k v) more in
    let skip = end_all s more in
    if (s.threads k).started && not (s.threads k).finished then go_on else skip

-- The system goes on: by steps, and a thread that is finished stays so.
pub record Goes (s t : System) : Type 0 where
  pub reach : Reachable s → Reachable t
  pub keeps : (k : ℕ) → (s.threads k).finished ≡ true → (t.threads k).finished ≡ true

pub stays : (s : System) → Goes s s
stays s = record { reach = λ r. r; keeps = λ k h. h }

pub Goes-trans : (s t u : System) → Goes s t → Goes t u → Goes s u
Goes-trans s t u a b = record {
  reach = λ r. b.reach (a.reach r);
  keeps = λ k h. b.keeps k (a.keeps k h);
}

finish_thread-finished :
    (v : Survey) (t : Thread) (mps : List Mp)
    → t.finished ≡ false
    → (finish_thread v t mps).0.finished ≡ true
unfolding finish_thread
finish_thread-finished v t mps unfinished = rw unfinished refl

finish_at-Goes :
    (s : System) (k : ℕ) (v : Survey)
    → (s.threads k).started ≡ true
    → (s.threads k).finished ≡ false
    → Goes s (finish_at s k v)
unfolding finish_at
finish_at-Goes s k v started unfinished = record {
  reach = λ r. next s _ r (finishes s k v (started, unfinished));
  keeps = λ j h. elim (same_or_not j k) [
    | inl e ↦
        ap (λ (i : ℕ). ((finish_at s k v).threads i).finished) e
        ∙ ap (λ (t : Thread). t.finished) (put_self s.threads k _)
        ∙ finish_thread-finished v (s.threads k) s.mps unfinished
    | inr e ↦ ap (λ (t : Thread). t.finished) (put-other s.threads k _ j e) ∙ h
  ];
}

pub end_all-Goes : (ended : List (ℕ × Survey)) (s : System) → Goes s (end_all s ended)
unfolding end_all
end_all-Goes [] s = stays s
end_all-Goes ((k, v) ∷ more) s =
    if_elim (Goes s) ((s.threads k).started && not (s.threads k).finished)
      (λ e.
        Goes-trans s _ _ (finish_at-Goes s k v (ground (arith, e)) (ground (arith, e)))
          (end_all-Goes more (finish_at s k v)))
      (λ e. end_all-Goes more s)
