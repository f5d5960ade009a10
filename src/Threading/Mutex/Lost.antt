-- ===== src/Threading/Mutex/Lost.antt =====
-- A mark that RefreshMPs overwrites, although both processors use the mutex.
use cr_ow_s.Base.{
  ℕ, zero, suc, ◌+◌, ◌<◌, ◌≤◌, ◌≡◌, ◌⊎◌, inl, inr, ◌∙◌, refl, sym, ap, subst, Bool, true, false,
  List, [], ◌∷◌, ◌++◌, arith, length, length-append,
}
use cr_ow_s.Threading.{Mp, Survey, set_working}
use cr_ow_s.Threading.Marks.{working, length-set_working}
use cr_ow_s.Threading.Mutex.{
  Refresher, Marker, Shared, copied_entry, refresh_syncs, refresh_locks, refresh_copies,
  refresh_swaps, refresh_unlocks, mark_syncs, mark_locks, mark_stores, mark_unlocks, Moves,
  none_yet, more,
}

working-outside : (mps : List Mp) (i : ℕ) → length mps ≤ i → working mps i ≡ false
working-outside [] i h = refl
working-outside (mp ∷ mps) zero h = absurd (omega (arith, h))
working-outside (mp ∷ mps) (suc i) h = working-outside mps i (omega (arith, h))

working-append_before :
    (new : List Mp) (mp : Mp) (i : ℕ)
    → i < length new
    → working (new ++ (mp ∷ [])) i ≡ working new i
working-append_before [] mp i h = absurd (omega (arith, h))
working-append_before (x ∷ new) mp zero h = refl
working-append_before (x ∷ new) mp (suc i) h = working-append_before new mp i (omega (arith, h))

working-append_last :
    (new : List Mp) (mp : Mp) (i : ℕ)
    → i ≡ length new
    → working (new ++ (mp ∷ [])) i ≡ mp.is_working
working-append_last [] mp zero h = refl
working-append_last [] mp (suc i) h = absurd (omega (arith, h))
working-append_last (x ∷ new) mp zero h = absurd (omega (arith, h))
working-append_last (x ∷ new) mp (suc i) h = working-append_last new mp i (omega (arith, h))

-- The first entries have the marks of the list.
abbrev Copies : List Mp → List Mp → Type 0
Copies mps new = (i : ℕ) → i < length new → working new i ≡ working mps i

below_or_last : (i n : ℕ) → i < n + 1 → (i < n) ⊎ (i ≡ n)
below_or_last i n h = ground arith

Copies-append :
    (v : Survey) (mps new : List Mp)
    → Copies mps new
    → Copies mps (new ++ (copied_entry v mps (length new) ∷ []))
Copies-append v mps new c i h =
    let mp = copied_entry v mps (length new) in
    elim (below_or_last i (length new) (omega (arith, h, length-append {0} new (mp ∷ [])))) [
      | inl below ↦ working-append_before new mp i below ∙ c i below
      | inr last ↦ working-append_last new mp i last ∙ ap (working mps) (sym last)
    ]

module _ (v : Survey) (p : ℕ) (b : Bool) where
  Moves-append : {s t u : Shared} → Moves v p b s t → Moves v p b t u → Moves v p b s u
  Moves-append first none_yet = first
  Moves-append first (more t u second m) = more t u (Moves-append first second) m

  -- The loop of RefreshMPs can run through while the other processor rests.
  copy_all :
      (d : ℕ) (s : Shared) (new : List Mp)
      → s.refresher ≡ Refresher.copying new
      → length new + d ≡ length s.mps
      → Copies s.mps new
      → (full : List Mp) × Moves v p b s (record s { refresher = Refresher.copying full })
        × (length full ≡ length s.mps)
        × Copies s.mps full
  copy_all zero s new at long c = (
    new,
    subst (λ r. Moves v p b s (record s { refresher = r })) at none_yet,
    omega (arith, long),
    c,
  )
  copy_all (suc d) s new at long c =
      let mp = copied_entry v s.mps (length new) in
      let t : Shared = record s { refresher = Refresher.copying (new ++ (mp ∷ [])) } in
      let (full, run, same, copied) =
        copy_all d t (new ++ (mp ∷ [])) refl (omega (arith, long, length-append {0} new (mp ∷ [])))
          (Copies-append v s.mps new c) in
      (
        full,
        Moves-append (more s t none_yet (refresh_copies s new at (omega (arith, long)))) run,
        same,
        copied,
      )

abbrev pub start : List Mp → Shared
start mps = record {
  mutex = false;
  mps = mps;
  refresher = Refresher.outside;
  marker = Marker.outside;
}

-- A run in which the mark is stored, and at whose end it is gone.
pub record Lost (v : Survey) (p : ℕ) (b : Bool) (mps : List Mp) : Type 0 where
  pub stored : Shared
  pub final : Shared
  pub before : Moves v p b (start mps) stored
  pub holds : stored.mps ≡ set_working mps p b
  pub done : stored.marker ≡ Marker.marked
  pub after : Moves v p b stored final
  pub refresher_left : final.refresher ≡ Refresher.left
  pub marker_left : final.marker ≡ Marker.left
  pub unlocked : final.mutex ≡ false
  pub same_length : length final.mps ≡ length mps
  pub old_marks : (i : ℕ) → working final.mps i ≡ working mps i

at_or_behind : (i n : ℕ) → (i < n) ⊎ (n ≤ i)
at_or_behind i n = ground arith

-- Both processors go through MUTEX_SYNC before either sets the flag; the mark is stored between the
-- loop and the exchange of the lists.
module _ (v : Survey) (p : ℕ) (b : Bool) (mps : List Mp) where
  both_passed : Shared
  both_passed = record (start mps) { refresher = Refresher.passed; marker = Marker.passed }

  locked : Shared
  locked = record (start mps) {
    mutex = true;
    refresher = Refresher.copying [];
    marker = Marker.passed;
  }

  run_to_loop : Moves v p b (start mps) locked
  unfolding locked both_passed
  run_to_loop =
      more both_passed locked
        (more (record (start mps) { refresher = Refresher.passed }) both_passed
          (more (start mps) (record (start mps) { refresher = Refresher.passed }) none_yet
            (refresh_syncs (start mps) refl refl))
          (mark_syncs (record (start mps) { refresher = Refresher.passed }) refl refl))
        (refresh_locks both_passed refl)

  marks_of :
      (full : List Mp)
      → length full ≡ length mps
      → Copies mps full
      → (i : ℕ) → working full i ≡ working mps i
  marks_of full long copied i = elim (at_or_behind i (length full)) [
    | inl inside ↦ copied i inside
    | inr outside ↦
        working-outside full i outside ∙ sym (working-outside mps i (omega (arith, outside, long)))
  ]

  -- If the firmware knows each processor: while RefreshMPs runs, another processor can store a mark
  -- between its own use of MUTEX_LOCK and MUTEX_UNLOCK, and when both have gone through, the list
  -- has all its old marks. So FinishThread can leave a processor marked as working for good, and
  -- StartThread one without a mark on which a thread runs.
  pub refresh-Lost : Lost v p b mps
  unfolding locked
  refresh-Lost =
      let (full, loop, long, copied) =
        copy_all v p b (length mps) locked [] refl (omega arith)
          (λ i h. absurd (omega (arith, h))) in
      let copied_all : Shared = record locked { refresher = Refresher.copying full } in
      let in_section : Shared = record copied_all { marker = Marker.locked } in
      let marked : Shared = record in_section {
        mps = set_working mps p b;
        marker = Marker.marked;
      } in
      let swapped : Shared = record marked { mps = full; refresher = Refresher.swapped } in
      let released : Shared = record swapped { mutex = false; refresher = Refresher.left } in
      record {
        stored = marked;
        final = record released { marker = Marker.left };
        before =
            more in_section marked
              (more copied_all in_section (Moves-append v p b run_to_loop loop)
                (mark_locks copied_all refl))
              (mark_stores in_section refl);
        holds = refl;
        done = refl;
        after =
            more released (record released { marker = Marker.left })
              (more swapped released
                (more marked swapped none_yet
                  (refresh_swaps marked full refl (long ∙ sym (length-set_working mps p b))))
                (refresh_unlocks swapped refl))
              (mark_unlocks released refl);
        refresher_left = refl;
        marker_left = refl;
        unlocked = refl;
        same_length = long;
        old_marks = marks_of full long copied;
      }
