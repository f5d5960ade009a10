-- ===== src/Boot/Jump/Fates.antt =====
-- Which volume JumpToRamdisk boots from.
use cr_ow_s.Base.{
  ℕ, ◌≡◌, Bool, true, false, not, ◌&&◌, List, [], ◌∷◌, none, some, refl, arith, if_elim, Bool-cases,
  inl, inr, if◌then◌else◌,
}
use cr_ow_s.Base.Status.{Status, is_error, is_success, first_error}
use cr_ow_s.Boot.Jump.{Volume, is_not_found, search_volumes, jump_to_ramdisk}

-- A volume that can be read, and is not the one.
abbrev pub is_other : Volume → Bool
is_other v =
    not (is_error v.protocol)
    && (not (is_error v.volume)
        && (not (is_success v.canary) && not (is_error v.canary && not (is_not_found v.canary))))

-- The volumes from the first one on that is not such a volume.
unfoldable pub skip_others : List Volume → List Volume
skip_others [] = []
skip_others (v ∷ vs) = let rest = skip_others vs in if is_other v then rest else v ∷ vs

-- The calls for a volume up to the start of its image.
abbrev pub calls : Volume → List Status
calls v = v.protocol ∷ v.volume ∷ v.canary ∷ v.load_image ∷ v.image_protocol ∷ []

-- How the search ends on the volumes from such a one on.
pub data Fate : List Volume → Status × List ℕ → Type 0 where
  nothing : Fate [] (Status.success, [])
  fails :
      (v : Volume) (vs : List Volume) (s : Status)
      → first_error (calls v) ≡ some s
      → Fate (v ∷ vs) (s, [])
  refused :
      (v : Volume) (vs : List Volume)
      → v.canary ≡ Status.success
      → first_error (calls v) ≡ none
      → is_error v.start_image ≡ true
      → Fate (v ∷ vs) (v.start_image, v.handle ∷ [])
  boots :
      (v : Volume) (vs : List Volume) (r : Status × List ℕ)
      → v.canary ≡ Status.success
      → first_error (calls v) ≡ none
      → is_error v.start_image ≡ false
      → Fate (skip_others vs) r
      → Fate (v ∷ vs) (r.0, v.handle ∷ r.1)

-- The ends of JumpToRamdisk: an error of LocateHandleBuffer, or an end of the search.
pub data Jumped (blocks disks filesystems : Status) (vs : List Volume)
    : Status × List ℕ → Type 0 where
  unlocated :
      (s : Status)
      → first_error (blocks ∷ disks ∷ filesystems ∷ []) ≡ some s
      → Jumped blocks disks filesystems vs (s, [])
  searched :
      (r : Status × List ℕ)
      → first_error (blocks ∷ disks ∷ filesystems ∷ []) ≡ none
      → Fate (skip_others vs) r
      → Jumped blocks disks filesystems vs r

is_success-success : (s : Status) → is_success s ≡ true → s ≡ Status.success
is_success-success s h = ground (arith, h)

-- A volume that is passed over.
search_volumes-other :
    (v : Volume) (vs : List Volume)
    → is_other v ≡ true
    → search_volumes (v ∷ vs) ≡ search_volumes vs
unfolding search_volumes
search_volumes-other v vs h = ground (arith, h)

-- A volume that is not.
search_volumes-here :
    (v : Volume) (vs : List Volume)
    → is_other v ≡ false
    → Fate (skip_others vs) (search_volumes vs)
    → Fate (v ∷ vs) (search_volumes (v ∷ vs))
unfolding search_volumes
search_volumes-here v vs h later =
    let Good = Fate (v ∷ vs) in
    if_elim Good (is_error v.protocol) (λ a. fails v vs v.protocol (rw a refl))
      (λ a.
        if_elim Good (is_error v.volume) (λ b. fails v vs v.volume (rw (a, b) refl))
          (λ b.
            if_elim Good (is_error v.canary && not (is_not_found v.canary))
              (λ c.
                let bad : is_error v.canary ≡ true = ground (arith, c) in
                fails v vs v.canary (rw (a, b, bad) refl))
              (λ c.
                if_elim Good (is_success v.canary)
                  (λ d.
                    let there = is_success-success v.canary d in
                    if_elim Good (is_error v.load_image)
                      (λ e. fails v vs v.load_image (rw (a, b, there, e) refl))
                      (λ e.
                        if_elim Good (is_error v.image_protocol)
                          (λ f. fails v vs v.image_protocol (rw (a, b, there, e, f) refl))
                          (λ f.
                            let fine : first_error (calls v) ≡ none = rw (a, b, there, e, f) refl in
                            if_elim Good (is_error v.start_image) (λ s. refused v vs there fine s)
                              (λ s. boots v vs _ there fine s later))))
                  (λ d. absurd (ground (arith, h, a, b, c, d))))))

search_volumes-Fate : (vs : List Volume) → Fate (skip_others vs) (search_volumes vs)
unfolding skip_others
search_volumes-Fate [] = unfold search_volumes in nothing
search_volumes-Fate (v ∷ vs) = elim (Bool-cases (is_other v)) [
  | inl e ↦ rw (e, search_volumes-other v vs e) (search_volumes-Fate vs)
  | inr e ↦ rw e (search_volumes-here v vs e (search_volumes-Fate vs))
]

-- If a LocateHandleBuffer fails, JumpToRamdisk returns its error and starts nothing. Otherwise it
-- passes over the volumes that can be opened and have no canary file. If no other is left, it
-- succeeds. The next one decides: the first call for it that fails ends the jump with its error,
-- before an image is started; otherwise it has the canary file, and the image that was loaded from
-- it is started. An image that comes back with an error ends the jump with it, and only one that
-- comes back without lets the search go on behind it.
pub jump_to_ramdisk-Jumped :
    (blocks disks filesystems : Status) (vs : List Volume)
    → Jumped blocks disks filesystems vs (jump_to_ramdisk blocks disks filesystems vs)
unfolding jump_to_ramdisk
jump_to_ramdisk-Jumped blocks disks filesystems vs =
    let Good = Jumped blocks disks filesystems vs in
    if_elim Good (is_error blocks) (λ a. unlocated blocks (rw a refl))
      (λ a.
        if_elim Good (is_error disks) (λ b. unlocated disks (rw (a, b) refl))
          (λ b.
            if_elim Good (is_error filesystems) (λ c. unlocated filesystems (rw (a, b, c) refl))
              (λ c. searched _ (rw (a, b, c) refl) (search_volumes-Fate vs))))
