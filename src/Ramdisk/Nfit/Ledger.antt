-- ===== src/Ramdisk/Nfit/Ledger.antt =====
-- RamDiskPublishNfit gives back every pool that it takes.
use cr_ow_s.Base.{
  ◌≡◌, ℕ, Bool, false, not, ◌&&◌, ◌||◌, arith, Option, none, some, List, [], ◌∷◌, ◌++◌, ◌∙◌, subst,
  ◌==◌, refl, if_both,
}
use cr_ow_s.Base.Status.{Status, is_error}
use cr_ow_s.Base.Memory.{EfiLib}
use cr_ow_s.Ramdisk.{PrivateData}
use cr_ow_s.Ramdisk.Pools.{Pool, Event, same, ledger, ledger-append}
use cr_ow_s.Ramdisk.Nfit.{
  Attempt, Acpi, Descriptor, is_too_small, Fetched, unanswered, failed, fetched, fetch_map,
  memory_found, conclude, publish_found, publish_nfit,
}

-- The pools that the function takes for itself.
abbrev pub own : Pool → Bool
own q = same Pool.memory_map q || same Pool.nfit q

-- What a list of events leaves held, where the function's own pools are not held before: what was
-- held, or besides the pool of the memory map.
record Settled (es : List Event) : Type 0 where
  unchanged : (q : Pool) (held : Bool) → (held && own q) ≡ false → ledger q held es ≡ some held

record HoldsMap (es : List Event) : Type 0 where
  map_held :
      (q : Pool) (held : Bool)
      → (held && own q) ≡ false
      → ledger q held es ≡ some (held || same Pool.memory_map q)

data Keeps : Fetched → Type 0 where
  waits : {es : List Event} → Settled es → Keeps (unanswered es)
  fails : {s : Status} {es : List Event} → Settled es → Keeps (failed s es)
  has_map : {ds : List Descriptor} {es : List Event} → HoldsMap es → Keeps (fetched ds es)

data IsSettled : Status × List Event → Type 0 where
  is_settled : {r : Status × List Event} → Settled r.1 → IsSettled r

events_balanced : {r : Status × List Event} → IsSettled r → Settled r.1
events_balanced (is_settled h) = h

hold_map : (es : List Event) → Settled es → HoldsMap (es ++ (Event.allocated Pool.memory_map ∷ []))
hold_map es h = record {
  map_held =
      λ q held fit. rw (ledger-append q held held es _ (h.unchanged q held fit)) (last q held fit);
}
  where
    last :
        (q : Pool) (held : Bool)
        → (held && own q) ≡ false
        → ledger q held (Event.allocated Pool.memory_map ∷ [])
          ≡ some (held || same Pool.memory_map q)
    last Pool.memory_map held fit = ground arith
    last _ held fit = ground arith

drop_map : (es : List Event) → HoldsMap es → Settled (es ++ (Event.freed Pool.memory_map ∷ []))
drop_map es h = record {
  unchanged =
      λ q held fit. rw (ledger-append q held _ es _ (h.map_held q held fit)) (last q held fit);
}
  where
    last :
        (q : Pool) (held : Bool)
        → (held && own q) ≡ false
        → ledger q (held || same Pool.memory_map q) (Event.freed Pool.memory_map ∷ []) ≡ some held
    last Pool.memory_map held fit = ground arith
    last _ held fit = ground arith

extend : (es fs : List Event) → Settled es → Settled fs → Settled (es ++ fs)
extend es fs h k = record {
  unchanged = λ q held fit.
      ledger-append q held held es fs (h.unchanged q held fit) ∙ k.unchanged q held fit;
}

fetch_map-Keeps :
    (rounds : List Attempt) (done : List Event) → Settled done → Keeps (fetch_map rounds done)
unfolding fetch_map
fetch_map-Keeps [] done h = waits h
fetch_map-Keeps (a ∷ rest) done h =
    let held = hold_map done h in
    let dropped = drop_map _ held in
    if_both Keeps (not a.pool) (fails h) (
      if_both Keeps (is_too_small a.status) (fetch_map-Keeps rest _ dropped)
        (if_both Keeps (is_error a.status) (fails dropped) (has_map held)))

offer_ssdt : (table : List ℕ) → Settled (Event.ssdt_offered table ∷ [])
offer_ssdt table = record { unchanged = λ q held fit. refl }

offer_nfit :
    (table : List ℕ)
    → Settled (Event.allocated Pool.nfit ∷ Event.nfit_offered table ∷ Event.freed Pool.nfit ∷ [])
offer_nfit table = record { unchanged = once }
  where
    once :
        (q : Pool) (held : Bool)
        → (held && own q) ≡ false
        → ledger q held
            (Event.allocated Pool.nfit ∷ Event.nfit_offered table ∷ Event.freed Pool.nfit ∷ [])
          ≡ some held
    once Pool.nfit held fit = ground arith
    once _ held fit = ground arith

publish_found-IsSettled :
    (lib : EfiLib) (release_date : ℕ) (p : PrivateData) (acpi : Acpi) (ds : List Descriptor)
    (es : List Event)
    → HoldsMap es
    → IsSettled (publish_found lib release_date p acpi ds es)
unfolding publish_found
publish_found-IsSettled lib release_date p acpi ds es held =
    let done = drop_map es held in
    let ssdt = extend _ _ done (offer_ssdt _) in
    if_both IsSettled (not (memory_found lib p ds)) (is_settled done) (
      if_both IsSettled (is_error acpi.ssdt) (is_settled ssdt) (
        if_both IsSettled (acpi.table == 0) (is_settled ssdt)
          (is_settled (extend _ _ ssdt (offer_nfit _)))))

idle : Settled []
idle = record { unchanged = λ q held fit. refl }

data MaySettle : Option (Status × List Event) → Type 0 where
  not_yet : MaySettle none
  settles : {r : Status × List Event} → IsSettled r → MaySettle (some r)

result_balanced : {r : Status × List Event} → MaySettle (some r) → Settled r.1
result_balanced (settles h) = events_balanced h

module _ (lib : EfiLib) (release_date : ℕ) (p : PrivateData) (acpi : Acpi) where
  conclude-MaySettle : {f : Fetched} → Keeps f → MaySettle (conclude lib release_date p acpi f)
  unfolding conclude
  conclude-MaySettle (waits h) = not_yet
  conclude-MaySettle (fails h) = settles (is_settled h)
  conclude-MaySettle (has_map h) = settles (publish_found-IsSettled lib release_date p acpi _ _ h)

  publish_nfit-MaySettle : MaySettle (publish_nfit lib release_date p acpi)
  unfolding publish_nfit
  publish_nfit-MaySettle =
      if_both MaySettle (not acpi.present) (settles (is_settled idle))
        (conclude-MaySettle (fetch_map-Keeps acpi.attempts [] idle))

  -- Whatever the firmware answers, when RamDiskPublishNfit returns, every pool is held or not as it
  -- was before, if its own pools (for the memory map and the table) were not held: it has freed each
  -- pool that it allocated, once, and no other.
  pub publish_nfit-ledger :
      (s : Status) (es : List Event)
      → publish_nfit lib release_date p acpi ≡ some (s, es)
      → (q : Pool) (held : Bool) → (held && own q) ≡ false
      → ledger q held es ≡ some held
  publish_nfit-ledger s es h q held fit =
      (result_balanced (subst MaySettle h publish_nfit-MaySettle)).unchanged q held fit
