-- ===== src/Loader/Discover/Found.antt =====
-- What DiscoverPayloads finds.
use cr_ow_s.Base.{
  ℕ, ◌≤◌, ◌<◌, ◌≡◌, ◌≢◌, refl, ap, ◌∙◌, sym, Bool, true, false, not, ◌&&◌, ◌||◌, List, [], none,
  some, ◌∷◌, ◌++◌, arith, if_elim, ltb, ◌==◌, if◌then◌else◌, length, length-append, append-nil,
  append_assoc,
}
use cr_ow_s.Base.Status.{Status, is_error, first_error}
use cr_ow_s.Loader.{StringLib}
use cr_ow_s.Loader.Discover.{
  max_payloads, Answer, is_payload, is_too_small, Listing, listed, failed, listing, list_files,
  Opening, discover_payloads,
}

-- An answer behind which the loop goes on: the buffer was too small, or a file was read, and opened
-- if it is a payload.
abbrev pub is_passed : StringLib → Answer → Bool
is_passed lib a =
    is_too_small a.status
    || (not (is_error a.status)
        && (not (a.size == 0) && not (is_payload lib a.name && is_error a.opened)))

abbrev pub Passed : StringLib → List Answer → Type 0
Passed lib [] = Unit {0}
Passed lib (a ∷ answers) = (is_passed lib a ≡ true) × Passed lib answers

abbrev pub is_found : StringLib → Answer → Bool
is_found lib a = not (is_too_small a.status) && is_payload lib a.name

-- An answer at which the loop has to stop with an error: of Read, or of Open for a payload.
pub data Fails (lib : StringLib) (a : Answer) : Status → Type 0 where
  not_read : is_error a.status ≡ true → Fails lib a a.status
  not_opened :
      is_error a.status ≡ false
      → a.size ≢ 0
      → is_payload lib a.name ≡ true
      → is_error a.opened ≡ true
      → Fails lib a a.opened

-- The handles of the payloads, in the directory's order.
unfoldable pub payloads : StringLib → List Answer → List ℕ
payloads lib [] = []
payloads lib (a ∷ answers) =
    let rest = payloads lib answers in if is_found lib a then a.handle ∷ rest else rest

-- The ends of the loop, behind the handles `found`.
pub data Fate (lib : StringLib) (found : List ℕ) (answers : List Answer) : Listing → Type 0 where
  full :
      (done rest : List Answer) (hs : List ℕ)
      → answers ≡ done ++ rest
      → Passed lib done
      → hs ≡ found ++ payloads lib done
      → length hs ≡ max_payloads
      → Fate lib found answers (listed hs)
  ended :
      (done rest : List Answer) (a : Answer) (hs : List ℕ)
      → answers ≡ done ++ (a ∷ rest)
      → Passed lib done
      → hs ≡ found ++ payloads lib done
      → length hs < max_payloads
      → a.size ≡ 0
      → is_error a.status ≡ false
      → Fate lib found answers (listed hs)
  stopped :
      (done rest : List Answer) (a : Answer) (s : Status) (hs : List ℕ)
      → answers ≡ done ++ (a ∷ rest)
      → Passed lib done
      → hs ≡ found ++ payloads lib done
      → length hs < max_payloads
      → is_too_small a.status ≡ false
      → Fails lib a s
      → Fate lib found answers (failed s hs)
  unread :
      (hs : List ℕ)
      → Passed lib answers
      → hs ≡ found ++ payloads lib answers
      → length hs < max_payloads
      → Fate lib found answers (listing hs)

module _ (lib : StringLib) where
  payloads-other :
      (a : Answer) (later : List Answer)
      → is_found lib a ≡ false
      → payloads lib (a ∷ later) ≡ payloads lib later
  unfolding payloads
  payloads-other a later e = rw e refl

  payloads-found :
      (a : Answer) (later : List Answer)
      → is_found lib a ≡ true
      → payloads lib (a ∷ later) ≡ a.handle ∷ payloads lib later
  unfolding payloads
  payloads-found a later e = rw e refl

  -- An answer that is passed, with what it adds to the handles.
  extend :
      (found piece : List ℕ) (a : Answer) (later : List Answer) (l : Listing)
      → is_passed lib a ≡ true
      → ((done : List Answer) → payloads lib (a ∷ done) ≡ piece ++ payloads lib done)
      → Fate lib (found ++ piece) later l
      → Fate lib found (a ∷ later) l
  extend found piece a later _ ok adds (full done rest hs e p h n) =
      full (a ∷ done) rest hs (ap (λ l. a ∷ l) e) (ok, p)
        (h ∙ append_assoc found piece _ ∙ ap (λ l. found ++ l) (sym (adds done))) n
  extend found piece a later _ ok adds (ended done rest last hs e p h n z s) =
      ended (a ∷ done) rest last hs (ap (λ l. a ∷ l) e) (ok, p)
        (h ∙ append_assoc found piece _ ∙ ap (λ l. found ++ l) (sym (adds done))) n z s
  extend found piece a later _ ok adds (stopped done rest last s hs e p h n w bad) =
      stopped (a ∷ done) rest last s hs (ap (λ l. a ∷ l) e) (ok, p)
        (h ∙ append_assoc found piece _ ∙ ap (λ l. found ++ l) (sym (adds done))) n w bad
  extend found piece a later _ ok adds (unread hs p h n) =
      unread hs (ok, p) (h ∙ append_assoc found piece _ ∙ ap (λ l. found ++ l) (sym (adds later))) n

  nothing_more : (found : List ℕ) → found ≡ found ++ payloads lib []
  unfolding payloads
  nothing_more found = sym (append-nil found)

  list_files-Fate :
      (later : List Answer) (found : List ℕ)
      → length found ≤ max_payloads
      → Fate lib found later (list_files lib later found)
  unfolding list_files
  list_files-Fate [] found small =
      if_elim (Fate lib found []) (ltb (length found) max_payloads)
        (λ e. unread found tt (nothing_more found) (ground (arith, e)))
        (λ e. full [] [] found refl tt (nothing_more found) (ground (arith, e, small)))
  list_files-Fate (a ∷ later) found small =
      let Good = Fate lib found (a ∷ later) in
      let next = λ (passed : is_passed lib a ≡ true) (other : is_found lib a ≡ false).
        extend found [] a later (list_files lib later found) passed
          (λ done. payloads-other a done other)
          (subst_nil found later (list_files-Fate later found small)) in
      if_elim Good (not (ltb (length found) max_payloads))
        (λ e. full [] (a ∷ later) found refl tt (nothing_more found) (ground (arith, e, small)))
        (λ e.
          let room : length found < max_payloads = ground (arith, e) in
          if_elim Good (is_too_small a.status) (λ t. next (ground (arith, t)) (ground (arith, t)))
            (λ t.
              if_elim Good (a.size == 0)
                (λ z.
                  if_elim Good (is_error a.status)
                    (λ b.
                      stopped [] later a a.status found refl tt (nothing_more found) room t
                        (not_read b))
                    (λ b.
                      ended [] later a found refl tt (nothing_more found) room (ground (arith, z))
                        b))
                (λ z.
                  if_elim Good (is_error a.status)
                    (λ b.
                      stopped [] later a a.status found refl tt (nothing_more found) room t
                        (not_read b))
                    (λ b.
                      if_elim Good (is_payload lib a.name)
                        (λ p.
                          if_elim Good (is_error a.opened)
                            (λ o.
                              stopped [] later a a.opened found refl tt (nothing_more found) room t
                                (not_opened b (ground (arith, z)) p o))
                            (λ o.
                              extend found (a.handle ∷ []) a later _ (ground (arith, t, z, b, p, o))
                                (λ done. payloads-found a done (ground (arith, t, p)))
                                (list_files-Fate later (found ++ (a.handle ∷ []))
                                  (omega (arith, room, length-append found (a.handle ∷ []))))))
                        (λ p. next (ground (arith, t, z, b, p)) (ground (arith, t, p)))))))
    where
      subst_nil :
          (found : List ℕ) (later : List Answer)
          → Fate lib found later (list_files lib later found)
          → Fate lib (found ++ []) later (list_files lib later found)
      subst_nil found later f = rw (append-nil found) f

-- The calls before the directory is read, in order; a pool is refused with EFI_OUT_OF_RESOURCES.
abbrev given : Bool → Status
given pool = if pool then Status.success else Status.out_of_resources

abbrev pub openings : Opening → List Status
openings o =
    o.loaded_image ∷ o.filesystem ∷ o.volume ∷ given o.handles_pool ∷ given o.info_pool ∷ []

not-true : (b : Bool) → not b ≡ true → b ≡ false
not-true b h = ground (arith, h)

not-false : (b : Bool) → not b ≡ false → b ≡ true
not-false b h = ground (arith, h)

-- The ends of DiscoverPayloads: the first error before the directory is read, or an end of the loop.
pub data Discovered (lib : StringLib) (o : Opening) (answers : List Answer) : Listing → Type 0 where
  unopened :
      (s : Status) → first_error (openings o) ≡ some s → Discovered lib o answers (failed s [])
  searched :
      (l : Listing)
      → first_error (openings o) ≡ none
      → Fate lib [] answers l
      → Discovered lib o answers l

pub discover_payloads-Discovered :
    (lib : StringLib) (o : Opening) (answers : List Answer)
    → Discovered lib o answers (discover_payloads lib o answers)
unfolding discover_payloads
discover_payloads-Discovered lib o answers =
    let Good = Discovered lib o answers in
    if_elim Good (is_error o.loaded_image) (λ a. unopened _ (rw a refl))
      (λ a.
        if_elim Good (is_error o.filesystem) (λ b. unopened _ (rw (a, b) refl))
          (λ b.
            if_elim Good (is_error o.volume) (λ c. unopened _ (rw (a, b, c) refl))
              (λ c.
                if_elim Good (not o.handles_pool)
                  (λ d. unopened _ (rw (a, b, c, not-true o.handles_pool d) refl))
                  (λ d.
                    let handles = not-false o.handles_pool d in
                    if_elim Good (not o.info_pool)
                      (λ e. unopened _ (rw (a, b, c, handles, not-true o.info_pool e) refl))
                      (λ e.
                        searched _ (rw (a, b, c, handles, not-false o.info_pool e) refl)
                          (list_files-Fate lib answers [] (omega arith)))))))
