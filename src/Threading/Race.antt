-- ===== src/Threading/Race.antt =====
-- A thread that is done before StartThread has recorded where it runs: the procedure starts with
-- StartupThisAP, and the mark and the processor's number are stored after it.
use cr_ow_s.Base.{
  ℕ, ◌<◌, ◌≡◌, ◌∙◌, refl, true, false, Bool, List, arith, length, sym, if_elim, if_both,
}
use cr_ow_s.Base.Status.{Status}
use cr_ow_s.Threading.{
  Mp, Thread, Survey, Turn, returned, start_thread, finish_thread, mark_started, set_working,
}
use cr_ow_s.Threading.Marks.{working, working-set_working_self, length-set_working, length-refresh}

-- The processor is marked as working, and the thread on it is finished.
pub record Leaked (i : ℕ) (t : Thread) (mps : List Mp) : Type 0 where
  pub marked : working mps i ≡ true
  pub started : t.started ≡ true
  pub finished : t.finished ≡ true
  pub not_finished_again : (v : Survey) → finish_thread v t mps ≡ (t, mps)
  pub not_started_again :
      (wait : Bool) (turns : List Turn)
      → start_thread t wait mps turns ≡ returned Status.already_started t mps

finish_thread-finished :
    (v : Survey) (t : Thread) (mps : List Mp) → (finish_thread v t mps).0.finished ≡ true
unfolding finish_thread
finish_thread-finished v t mps =
    if_elim (λ (r : Thread × List Mp). r.0.finished ≡ true) t.finished (λ e. e) (λ e. refl)

length-finish_thread :
    (v : Survey) (t : Thread) (mps : List Mp) → length (finish_thread v t mps).1 ≡ length mps
unfolding finish_thread
length-finish_thread v t mps =
    if_both (λ (r : Thread × List Mp). length r.1 ≡ length mps) t.finished refl
      (length-refresh v (set_working mps t.assigned_processor_number false)
        ∙ length-set_working mps t.assigned_processor_number false)

finish_thread-again :
    (v : Survey) (t : Thread) (mps : List Mp) → t.finished ≡ true → finish_thread v t mps ≡ (t, mps)
unfolding finish_thread
finish_thread-again v t mps done =
    if_elim (λ (r : Thread × List Mp). r ≡ (t, mps)) t.finished (λ e. refl)
      (λ e. absurd (ground (arith, sym done ∙ e)))

late-Leaked :
    (t : Thread) (mps : List Mp) (i : ℕ)
    → t.finished ≡ true
    → i < length mps
    → Leaked i (record t { started = true; assigned_processor_number = i }) (set_working mps i true)
unfolding start_thread
late-Leaked t mps i done inside = record {
  marked = working-set_working_self mps i inside;
  started = refl;
  finished = done;
  not_finished_again = λ v. finish_thread-again v _ _ done;
  not_started_again = λ wait turns. refl;
}

-- If the thread's FinishThread runs between StartupThisAP on processor `i` and the statements
-- behind it, the processor is left marked as working with the thread finished: FinishThread of the
-- thread does nothing from then on, and StartThread refuses it, so neither clears the mark.
pub mark_started-Leaked :
    (v : Survey) (t : Thread) (mps : List Mp) (i : ℕ)
    → i < length mps
    → let late = mark_started i (finish_thread v t mps) in Leaked i late.0 late.1
unfolding mark_started
mark_started-Leaked v t mps i inside =
    late-Leaked (finish_thread v t mps).0 (finish_thread v t mps).1 i
      (finish_thread-finished v t mps) (rw length-finish_thread inside)
