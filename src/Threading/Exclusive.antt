-- ===== src/Threading/Exclusive.antt =====
-- The threads as a system of steps: no two running threads share a processor, and every processor
-- with a running thread is marked as working.
use cr_ow_s.Base.{
  ℕ, ◌≡◌, ◌≢◌, ◌∙◌, refl, sym, ap, subst, true, false, not, ◌&&◌, List, [], ◌∷◌, arith, inl, inr,
  ◌⊎◌, ◌==◌, if◌then◌else◌, ==_refl, ne→==,
}
use cr_ow_s.Base.Status.{Status}
use cr_ow_s.Threading.{
  Mp, Thread, Survey, Turn, Creation, created, panicked, create_thread, Start, returned, waiting,
  start_thread, finish_thread, refresh,
}
use cr_ow_s.Threading.Marks.{working}

-- mSystemMultiprocessingContext.MpList and Threads.
pub record System : Type 0 where
  pub mps : List Mp
  pub threads : ℕ → Thread

unfoldable pub put : (ℕ → Thread) → ℕ → Thread → ℕ → Thread
put ts k t j = if j == k then t else ts j

-- A thread that StartThread has put on a processor and FinishThread has not taken off.
abbrev pub Running : Thread → Type 0
Running t = (t.started ≡ true) × (t.finished ≡ false)

-- What StartThread of thread `k` without waiting, the call of UefiSpin, does to the system.
abbrev pub store_start : System → ℕ → Start → System
store_start s k (returned status t mps) = record { mps = mps; threads = put s.threads k t }
store_start s k (waiting mps) = s

unfoldable pub start_at : System → ℕ → Turn → System
start_at s k u = store_start s k (start_thread (s.threads k) false s.mps (u ∷ []))

-- CreateThread of thread `k`; a PANIC leaves nothing to go on with.
abbrev pub store_creation : System → ℕ → Creation → System
store_creation s k (created status t) = record { mps = s.mps; threads = put s.threads k t }
store_creation s k panicked = s

unfoldable pub create_at : System → ℕ → ℕ → ℕ → Status → System
create_at s k method context event =
    store_creation s k (create_thread method context (s.threads k) event)

-- FinishThread of thread `k`, called at the end of its procedure.
unfoldable pub finish_at : System → ℕ → Survey → System
finish_at s k v =
    let (t, mps) = finish_thread v (s.threads k) s.mps in
    record { mps = mps; threads = put s.threads k t }

-- The RefreshMPs at the end of JoinThread and DestroyThread.
unfoldable pub refresh_at : System → Survey → System
refresh_at s v = record { mps = (refresh v s.mps).1; threads = s.threads }

-- A thread is made new only while it does not run, which SpawnDecryptionWorker sees to.
pub data Step : System → System → Type 0 where
  creates :
      (s : System) (k method context : ℕ) (event : Status)
      → ((s.threads k).started && not (s.threads k).finished) ≡ false
      → Step s (create_at s k method context event)
  starts : (s : System) (k : ℕ) (u : Turn) → Step s (start_at s k u)
  finishes : (s : System) (k : ℕ) (v : Survey) → Running (s.threads k) → Step s (finish_at s k v)
  refreshes : (s : System) (v : Survey) → Step s (refresh_at s v)

-- Any number of steps, in any order, from a system with no running thread.
pub data Reachable : System → Type 0 where
  initial : (s : System) → ((k : ℕ) → (s.threads k).started ≡ false) → Reachable s
  next : (s t : System) → Reachable s → Step s t → Reachable t

pub record Exclusive (s : System) : Type 0 where
  pub marked :
      (k : ℕ) → Running (s.threads k) → working s.mps (s.threads k).assigned_processor_number ≡ true
  pub alone :
      (j k : ℕ)
      → Running (s.threads j)
      → Running (s.threads k)
      → (s.threads j).assigned_processor_number ≡ (s.threads k).assigned_processor_number
      → j ≡ k

pub same_or_not : (a b : ℕ) → (a ≡ b) ⊎ (a ≢ b)
same_or_not a b = ground arith

pub put_self : (ts : ℕ → Thread) (k : ℕ) (t : Thread) → put ts k t k ≡ t
unfolding put
put_self ts k t = rw ==_refl refl

pub put-other : (ts : ℕ → Thread) (k : ℕ) (t : Thread) (j : ℕ) → j ≢ k → put ts k t j ≡ ts j
unfolding put
put-other ts k t j h = rw (ne→== j k h) refl

-- A change of one thread keeps the system exclusive if the marks of the others stay, and the
-- changed thread, if it runs, runs on a marked processor of its own.
module _ (s t : System) (k : ℕ) (e : Exclusive s)
    (others : (j : ℕ) → j ≢ k → t.threads j ≡ s.threads j)
    (marks : (j : ℕ)
      → j ≢ k
      → Running (s.threads j)
      → working t.mps (s.threads j).assigned_processor_number ≡ true)
    (self : Running (t.threads k) → working t.mps (t.threads k).assigned_processor_number ≡ true)
    (own : (j : ℕ)
      → j ≢ k
      → Running (s.threads j)
      → Running (t.threads k)
      → (s.threads j).assigned_processor_number ≢ (t.threads k).assigned_processor_number) where
  kept_marks :
      (j : ℕ)
      → (j ≡ k) ⊎ (j ≢ k)
      → Running (t.threads j)
      → working t.mps (t.threads j).assigned_processor_number ≡ true
  kept_marks j (inl h) r =
      subst
        (λ i. Running (t.threads i) → working t.mps (t.threads i).assigned_processor_number ≡ true)
        (sym h) self r
  kept_marks j (inr h) r = rw (others j h) (marks j h (subst Running (others j h) r))

  kept_alone :
      (i j : ℕ)
      → (i ≡ k) ⊎ (i ≢ k)
      → (j ≡ k) ⊎ (j ≢ k)
      → Running (t.threads i)
      → Running (t.threads j)
      → (t.threads i).assigned_processor_number ≡ (t.threads j).assigned_processor_number
      → i ≡ j
  kept_alone i j (inl h) (inl g) ri rj same = h ∙ sym g
  kept_alone i j (inl h) (inr g) ri rj same = absurd (
      own j g (subst Running (others j g) rj) (subst (λ n. Running (t.threads n)) h ri) (
        ap (λ (x : Thread). x.assigned_processor_number) (sym (others j g))
        ∙ sym same
        ∙ ap (λ n. (t.threads n).assigned_processor_number) h))
  kept_alone i j (inr h) (inl g) ri rj same = absurd (
      own i h (subst Running (others i h) ri) (subst (λ n. Running (t.threads n)) g rj) (
        ap (λ (x : Thread). x.assigned_processor_number) (sym (others i h))
        ∙ same
        ∙ ap (λ n. (t.threads n).assigned_processor_number) g))
  kept_alone i j (inr h) (inr g) ri rj same =
      e.alone i j (subst Running (others i h) ri) (subst Running (others j g) rj) (
        ap (λ (x : Thread). x.assigned_processor_number) (sym (others i h))
        ∙ same
        ∙ ap (λ (x : Thread). x.assigned_processor_number) (others j g))

  pub Exclusive-change : Exclusive t
  Exclusive-change = record {
    marked = λ j. kept_marks j (same_or_not j k);
    alone = λ i j. kept_alone i j (same_or_not i k) (same_or_not j k);
  }
