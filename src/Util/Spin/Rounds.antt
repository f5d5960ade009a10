-- ===== src/Util/Spin/Rounds.antt =====
-- What a round of UefiSpin sees.
use cr_ow_s.Base.{
  ℕ, ◌+◌, ◌%◌, ◌^◌, ◌<◌, ◌≡◌, inl, inr, refl, sym, ◌∙◌, ap, subst, Bool, true, false, not, ◌&&◌,
  List, [], ◌∷◌, arith, if_elim, Bool-cases, if◌then◌else◌,
}
use cr_ow_s.Base.Words.{add64}
use cr_ow_s.Threading.Exclusive.{System}
use cr_ow_s.Threading.Others.{end_all, Goes, stays, Goes-trans, end_all-Goes}
use cr_ow_s.Util.Spin.{Look, look_at, look_around}
use cr_ow_s.Util.Spin.Steps.{try_start-Goes}

-- Every thread with a work order, from number `k` on, is finished.
pub data AllFinished (s : System) : ℕ → List Look → Type 0 where
  none_left : (k : ℕ) → AllFinished s k []
  passes :
      (k : ℕ) (l : Look) (ls : List Look)
      → (l.present ≡ true → (s.threads k).finished ≡ true)
      → AllFinished s (k + 1) ls
      → AllFinished s k (l ∷ ls)

-- The sum of the places that the threads with a work order have reached.
pub reported : List Look → ℕ
reported [] = 0
reported (l ∷ ls) = let rest = reported ls in if l.present then l.place + rest else rest

-- What a look around does to the system, Completed and Progress.
pub record Looked (s : System) (k : ℕ) (completed : Bool) (progress : ℕ) (ls : List Look)
    (r : System × (Bool × ℕ)) : Type 0 where
  pub goes : Goes s r.0
  pub was_completed : r.1.0 ≡ true → completed ≡ true
  pub all : r.1.0 ≡ true → AllFinished r.0 k ls
  pub summed : r.1.1 % 2 ^ 64 ≡ (progress + reported ls) % 2 ^ 64
  pub word : progress < 2 ^ 64 → r.1.1 < 2 ^ 64

look_at-Goes :
    (s : System) (k : ℕ) (completed : Bool) (progress : ℕ) (l : Look)
    → Goes s (look_at s k completed progress l).0
unfolding look_at
look_at-Goes s k completed progress l =
    let seen = end_all s l.ended in
    let ends = end_all-Goes l.ended s in
    if_elim (λ (r : System × (Bool × ℕ)). Goes s r.0) (not l.present) (λ e. ends)
      (λ e. Goes-trans s seen _ ends (try_start-Goes seen k l.turn))

and_left : (a b : Bool) → (a && b) ≡ true → a ≡ true
and_left a b h = ground (arith, h)

and_right : (a b : Bool) → (a && b) ≡ true → b ≡ true
and_right a b h = ground (arith, h)

-- A look leaves Completed only if the thread is finished or has no work order.
look_at-finished :
    (s : System) (k : ℕ) (completed : Bool) (progress : ℕ) (l : Look)
    → (look_at s k completed progress l).1.0 ≡ true
    → (completed ≡ true)
      × (l.present ≡ true → ((look_at s k completed progress l).0.threads k).finished ≡ true)
unfolding look_at
look_at-finished s k completed progress l =
    if_elim
      (λ (r : System × (Bool × ℕ)).
        r.1.0 ≡ true → (completed ≡ true) × (l.present ≡ true → (r.0.threads k).finished ≡ true))
      (not l.present) (λ e h. (h, λ p. absurd (ground (arith, e, p))))
      (λ e h. (and_left _ _ h, λ p. and_right _ _ h))

look_at-progress :
    (s : System) (k : ℕ) (completed : Bool) (progress : ℕ) (l : Look)
    → (look_at s k completed progress l).1.1
      ≡ (if l.present then add64 progress l.place else progress)
unfolding look_at
look_at-progress s k completed progress l = elim (Bool-cases l.present) [
  | inl e ↦ rw e refl
  | inr e ↦ rw e refl
]

sum_step :
    (b : Bool) (progress place rest : ℕ)
    → ((if b then add64 progress place else progress) + rest) % 2 ^ 64
      ≡ (progress + (if b then place + rest else rest)) % 2 ^ 64
sum_step true progress place rest = omega arith
sum_step false progress place rest = refl

word_step :
    (b : Bool) (progress place : ℕ)
    → progress < 2 ^ 64
    → (if b then add64 progress place else progress) < 2 ^ 64
word_step true progress place h = omega arith
word_step false progress place h = h

pub look_around-Looked :
    (ls : List Look) (s : System) (k : ℕ) (completed : Bool) (progress : ℕ)
    → Looked s k completed progress ls (look_around s k completed progress ls)
unfolding look_around reported
look_around-Looked [] s k completed progress = record {
  goes = stays s;
  was_completed = λ h. h;
  all = λ h. none_left k;
  summed = omega arith;
  word = λ h. h;
}
look_around-Looked (l ∷ ls) s k completed progress =
    let r = look_at s k completed progress l in
    let rest = look_around-Looked ls r.0 (k + 1) r.1.0 r.1.1 in
    record {
      goes = Goes-trans s r.0 _ (look_at-Goes s k completed progress l) rest.goes;
      was_completed = λ h. (look_at-finished s k completed progress l (rest.was_completed h)).0;
      all = λ h.
          passes k l ls
            (λ p.
              rest.goes.keeps k
                ((look_at-finished s k completed progress l (rest.was_completed h)).1 p))
            (rest.all h);
      summed =
          rest.summed
          ∙ ap (λ (n : ℕ). (n + reported ls) % 2 ^ 64) (look_at-progress s k completed progress l)
          ∙ sum_step l.present progress l.place (reported ls);
      word = λ h. rest.word (
          subst (λ (n : ℕ). n < 2 ^ 64) (sym (look_at-progress s k completed progress l))
            (word_step l.present progress l.place h));
    }
