-- ===== src/Threading/Life.antt =====
-- A thread from StartThread to FinishThread, by itself.
use cr_ow_s.Base.{
  ℕ, ◌<◌, ◌≡◌, ◌≢◌, ◌∙◌, refl, sym, ap, subst, true, false, List, [], ◌∷◌, arith, inl, inr, length,
  if_elim,
}
use cr_ow_s.Base.Status.{Status, is_error}
use cr_ow_s.Threading.{
  Mp, Thread, Survey, Turn, Attempt, assigned, refused, busy, refresh, set_working, Start, returned,
  waiting, start_thread, start_loop, after_attempt, mark_started, finish_thread,
}
use cr_ow_s.Threading.Marks.{
  working, bsp, working-refresh, length-refresh, working-set_working_other,
  working-set_working_clear, Fits, on, off, full, attempt_from-Fits,
}
use cr_ow_s.Threading.Exclusive.{
  System, put, put_self, put-other, same_or_not, store_start, start_at, finish_at, Running,
  Reachable, next, starts, finishes,
}

-- The thread has gone to an idle processor, which is marked.
data Went (t : Thread) (before : List Mp) : Start → Type 0 where
  went :
      (i : ℕ) (mps : List Mp)
      → working before i ≡ false
      → ((j : ℕ) → i ≢ j → working mps j ≡ working before j)
      → Went t before
          (returned Status.success (record t { started = true; assigned_processor_number = i }) mps)

-- Processor `d` could take a thread.
pub record Free (u : Turn) (mps : List Mp) (d : ℕ) : Type 0 where
  pub inside : d < length mps
  pub idle : working mps d ≡ false
  pub ap_only : bsp (refresh u.survey mps).1 d ≡ false
  pub accepts : (i : ℕ) → is_error (u.startup i) ≡ false

after_attempt-Went :
    (t : Thread) (mps : List Mp) (u : Turn) (d : ℕ) (a : Attempt)
    → Free u mps d
    → Fits u.startup 0 (refresh u.survey mps).1 a
    → Went t mps (
        after_attempt t
          (refresh u.survey mps).1
          (returned Status.out_of_resources t (refresh u.survey mps).1)
          a)
unfolding after_attempt mark_started
after_attempt-Went t mps u d (assigned _) free (on j e same inside idle role ok) =
    let here : j ≡ e = omega (arith, same) in
    went j (set_working (refresh u.survey mps).1 j true)
      (rw here (sym (working-refresh u.survey mps e) ∙ idle))
      (λ i h.
        working-set_working_other (refresh u.survey mps).1 j i true h
        ∙ working-refresh u.survey mps i)
after_attempt-Went t mps u d (refused _) free (off s j p e) =
    absurd (ground (arith, sym (free.accepts j) ∙ sym (ap is_error p) ∙ e))
after_attempt-Went t mps u d busy free (full all) = absurd (
    ground (
      arith,
      all d (rw (length-refresh u.survey mps) free.inside),
      working-refresh u.survey mps d,
      free.idle,
      free.ap_only,
    ))

start_thread-Went :
    (t : Thread) (mps : List Mp) (u : Turn) (d : ℕ)
    → t.started ≡ false
    → t.finished ≡ false
    → Free u mps d
    → Went t mps (start_thread t false mps (u ∷ []))
unfolding start_thread start_loop
start_thread-Went t mps u d fresh unfinished free =
    if_elim (Went t mps) (t.started) (λ e. absurd (ground (arith, sym e ∙ fresh)))
      (λ e.
        if_elim (Went t mps) (t.finished) (λ e'. absurd (ground (arith, sym e' ∙ unfinished)))
          (λ e'.
            after_attempt-Went t mps u d _ free
              (attempt_from-Fits u.startup 0 (refresh u.survey mps).1)))

-- Thread `k` has run from its start to its end: every processor is marked as it was before, and the
-- other threads are as they were.
pub record Through (s : System) (k : ℕ) (t : System) : Type 0 where
  pub reach : Reachable s → Reachable t
  pub started : (t.threads k).started ≡ true
  pub finished : (t.threads k).finished ≡ true
  pub marks : (i : ℕ) → working t.mps i ≡ working s.mps i
  pub others : (j : ℕ) → j ≢ k → t.threads j ≡ s.threads j

module _ (s : System) (k : ℕ) (v : Survey) where
  cleared :
      (i : ℕ) (mps : List Mp) (j : ℕ)
      → working s.mps i ≡ false
      → ((j : ℕ) → i ≢ j → working mps j ≡ working s.mps j)
      → working (refresh v (set_working mps i false)).1 j ≡ working s.mps j
  cleared i mps j idle same =
      working-refresh v (set_working mps i false) j ∙ elim (same_or_not i j) [
        | inl e ↦
            subst (λ n. working (set_working mps i false) n ≡ working s.mps n) e
              (working-set_working_clear mps i ∙ sym idle)
        | inr e ↦ working-set_working_other mps i j false e ∙ same j e
      ]

  finish_put :
      (mps : List Mp) (t : Thread)
      → t.finished ≡ false
      → finish_at (record { mps = mps; threads = put s.threads k t }) k v ≡ record {
        mps = (refresh v (set_working mps t.assigned_processor_number false)).1;
        threads = put (put s.threads k t) k (record t { finished = true });
      }
  unfolding finish_at finish_thread
  finish_put mps t unfinished = rw (put_self s.threads k t, unfinished) refl

  ends :
      (o : Start)
      → (s.threads k).finished ≡ false
      → Went (s.threads k) s.mps o
      → (Reachable s → Reachable (store_start s k o))
      → Through s k (finish_at (store_start s k o) k v)
  ends (returned _ _ _) unfinished (went i mps idle same) reached =
      let t : Thread = record (s.threads k) { started = true; assigned_processor_number = i } in
      let ended : Thread = record t { finished = true } in
      let running : Running (put s.threads k t k) =
        subst Running (sym (put_self s.threads k t)) (refl, unfinished) in
      let reach = λ (r : Reachable s). next _ _ (reached r) (finishes _ k v running) in
      rw (finish_put mps t unfinished) (record {
        reach = λ r. subst Reachable (finish_put mps t unfinished) (reach r);
        started = ap (λ (x : Thread). x.started) (put_self (put s.threads k t) k ended);
        finished = ap (λ (x : Thread). x.finished) (put_self (put s.threads k t) k ended);
        marks = λ j. cleared i mps j idle same;
        others = λ j h. put-other (put s.threads k t) k ended j h ∙ put-other s.threads k t j h;
      })
  ends (waiting _) unfinished none_such reached = elim none_such [ ]

  pub start_finish-Through :
      (u : Turn) (d : ℕ)
      → (s.threads k).started ≡ false
      → (s.threads k).finished ≡ false
      → Free u s.mps d
      → Through s k (finish_at (start_at s k u) k v)
  unfolding start_at
  start_finish-Through u d fresh unfinished free =
      ends _ unfinished (start_thread-Went (s.threads k) s.mps u d fresh unfinished free)
        (λ r. next s _ r (starts s k u))
