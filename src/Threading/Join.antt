-- ===== src/Threading/Join.antt =====
-- JoinThread and DestroyThread, src/boot/mftah_uefi/threading.c. What the other processors do between
-- two looks at the thread is a list for each look; a list that ends too early leaves the loop turning.
use cr_ow_s.Base.{ℕ, ◌≡◌, refl, ap, not, ◌&&◌, List, [], ◌∷◌, ◌++◌, arith, if_elim, if◌then◌else◌}
use cr_ow_s.Threading.{Survey}
use cr_ow_s.Threading.Exclusive.{System, Running, refresh_at, refreshes, Reachable, next}
use cr_ow_s.Threading.Others.{end_all, Goes, stays, Goes-trans, end_all-Goes}

-- The loop that both begin with: it has ended, or still turns.
pub data Wait : Type 0 where
  over turning : System → Wait

pub wait_thread : ℕ → List (List (ℕ × Survey)) → System → Wait
wait_thread k [] s = turning s
wait_thread k (ended ∷ rounds) s =
    let now = end_all s ended in
    let again = wait_thread k rounds now in
    if (now.threads k).started && not (now.threads k).finished then again else over now

-- The system that is left and the threads that are given to FreePool; or the loop.
pub data Wound : Type 0 where
  returned : System → List ℕ → Wound
  joining : System → Wound

abbrev pub wind_up : List ℕ → Survey → Wait → Wound
wind_up freed v (over s) = returned (refresh_at s v) freed
wind_up freed v (turning s) = joining s

-- JoinThread of thread `k`, with what RefreshMPs is told.
unfoldable pub join_thread : ℕ → List (List (ℕ × Survey)) → Survey → System → Wound
join_thread k rounds v s = wind_up [] v (wait_thread k rounds s)

-- DestroyThread of thread `k`.
unfoldable pub destroy_thread : ℕ → List (List (ℕ × Survey)) → Survey → System → Wound
destroy_thread k rounds v s = wind_up (k ∷ []) v (wait_thread k rounds s)

-- The systems that the looks show.
pub shown : System → List (List (ℕ × Survey)) → List System
shown s [] = []
shown s (ended ∷ rounds) = end_all s ended ∷ shown (end_all s ended) rounds

abbrev pub AllRunning : ℕ → List System → Type 0
AllRunning k [] = Unit {0}
AllRunning k (s ∷ rest) = Running (s.threads k) × AllRunning k rest

-- The first look that shows the thread at rest ends the wait, or no look shows it.
pub data Waited (k : ℕ) (looks : List System) : Wait → Type 0 where
  first :
      (before after : List System) (now : System)
      → looks ≡ before ++ (now ∷ after)
      → AllRunning k before
      → (Running (now.threads k) → ⊥)
      → Waited k looks (over now)
  never : (s : System) → AllRunning k looks → Waited k looks (turning s)

Waited-cons :
    (k : ℕ) (s : System) (looks : List System) (r : Wait)
    → Running (s.threads k)
    → Waited k looks r
    → Waited k (s ∷ looks) r
Waited-cons k s looks _ running (first before after now e all rest) =
    first (s ∷ before) after now (ap (λ l. s ∷ l) e) (running, all) rest
Waited-cons k s looks _ running (never t all) = never t (running, all)

wait_thread-Waited :
    (k : ℕ) (rounds : List (List (ℕ × Survey))) (s : System)
    → Waited k (shown s rounds) (wait_thread k rounds s)
unfolding wait_thread shown
wait_thread-Waited k [] s = never s tt
wait_thread-Waited k (ended ∷ rounds) s =
    let now = end_all s ended in
    if_elim (Waited k (shown s (ended ∷ rounds)))
      ((now.threads k).started && not (now.threads k).finished)
      (λ e.
        Waited-cons k now _ _ (ground (arith, e), ground (arith, e))
          (wait_thread-Waited k rounds now))
      (λ e. first [] _ now refl tt (λ r. ground (arith, e, r.0, r.1)))

abbrev left_by : Wait → System
left_by (over s) = s
left_by (turning s) = s

wait_thread-Goes :
    (k : ℕ) (rounds : List (List (ℕ × Survey))) (s : System)
    → Goes s (left_by (wait_thread k rounds s))
unfolding wait_thread
wait_thread-Goes k [] s = stays s
wait_thread-Goes k (ended ∷ rounds) s =
    let now = end_all s ended in
    Goes-trans s now _ (end_all-Goes ended s) (
      if_elim (λ (r : Wait). Goes now (left_by r))
        ((now.threads k).started && not (now.threads k).finished)
        (λ e. wait_thread-Goes k rounds now) (λ e. stays now))

-- How JoinThread and DestroyThread end, when the looks show these systems.
pub data Ends (k : ℕ) (freed : List ℕ) (v : Survey) (looks : List System) : Wound → Type 0 where
  ends :
      (before after : List System) (now : System)
      → looks ≡ before ++ (now ∷ after)
      → AllRunning k before
      → (Running (now.threads k) → ⊥)
      → Ends k freed v looks (returned (refresh_at now v) freed)
  turns : (s : System) → AllRunning k looks → Ends k freed v looks (joining s)

abbrev pub system_of : Wound → System
system_of (returned s freed) = s
system_of (joining s) = s

wind_up-Ends :
    (k : ℕ) (freed : List ℕ) (v : Survey) (looks : List System) (r : Wait)
    → Waited k looks r
    → Ends k freed v looks (wind_up freed v r)
wind_up-Ends k freed v looks _ (first before after now e all rest) =
    ends before after now e all rest
wind_up-Ends k freed v looks _ (never s all) = turns s all

wind_up-Reachable :
    (freed : List ℕ) (v : Survey) (r : Wait)
    → Reachable (left_by r)
    → Reachable (system_of (wind_up freed v r))
wind_up-Reachable freed v (over s) r = next s _ r (refreshes s v)
wind_up-Reachable freed v (turning s) r = r

-- Whatever procedures end in the meantime: JoinThread and DestroyThread of a thread come back at the
-- first look at which it does not run, and turn on as long as every look shows it running. Only
-- DestroyThread frees it, and only then; and the system stays one that the steps reach.
pub join_destroy-Ends :
    (k : ℕ) (rounds : List (List (ℕ × Survey))) (v : Survey) (s : System)
    → Reachable s
    → Ends k [] v (shown s rounds) (join_thread k rounds v s)
      × Ends k (k ∷ []) v (shown s rounds) (destroy_thread k rounds v s)
      × Reachable (system_of (join_thread k rounds v s))
      × Reachable (system_of (destroy_thread k rounds v s))
unfolding join_thread destroy_thread
join_destroy-Ends k rounds v s r =
    let waited = wait_thread-Waited k rounds s in
    let reached = (wait_thread-Goes k rounds s).reach r in
    (
      wind_up-Ends k [] v _ _ waited,
      wind_up-Ends k (k ∷ []) v _ _ waited,
      wind_up-Reachable [] v (wait_thread k rounds s) reached,
      wind_up-Reachable (k ∷ []) v (wait_thread k rounds s) reached,
    )
