-- ===== src/Threading/Reach.antt =====
-- Every step keeps the system exclusive.
use cr_ow_s.Base.{ℕ, ◌≡◌, ◌≢◌, true, false, List}
use cr_ow_s.Base.Status.{Status}
use cr_ow_s.Threading.{Mp, Thread, Start, returned}
use cr_ow_s.Threading.Marks.{working}
use cr_ow_s.Threading.Exclusive.{Exclusive}

-- What StartThread may have done: nothing but refresh the list, or put the thread on a processor
-- that was idle.
data Effect (t : Thread) (before : List Mp) : Start → Type 0 where
  stayed :
      (st : Status) (mps : List Mp)
      → ((i : ℕ) → working mps i ≡ working before i)
      → Effect t before (returned st t mps)
  went :
      (st : Status) (i : ℕ) (mps : List Mp)
      → working before i ≡ false
      → working mps i ≡ true
      → ((j : ℕ) → i ≢ j → working mps j ≡ working before j)
      → Effect t before
          (returned st (record t { started = true; assigned_processor_number = i }) mps)

-- FinishThread of a thread that is not finished ends it and clears at most its processor's mark.
data Over (t : Thread) (before : List Mp) : Thread × List Mp → Type 0 where
  over :
      (mps : List Mp)
      → ((i : ℕ) → t.assigned_processor_number ≢ i → working mps i ≡ working before i)
      → Over t before (record t { finished = true }, mps)
