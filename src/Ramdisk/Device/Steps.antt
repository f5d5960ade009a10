-- ===== src/Ramdisk/Device/Steps.antt =====
-- One request: the driver does what the abstract device does.
use cr_ow_s.Base.{
  ℕ, zero, suc, ◌+◌, ◌-◌, ◌*◌, ◌<◌, ◌≡◌, ◌≢◌, ◌⊎◌, ◌↔◌, inl, inr, refl, ◌∙◌, ap, ap₂, true, false,
  ◌&&◌, List, ◌∷◌, ltb, leb, arith, Bool-cases, if_elim,
}
use cr_ow_s.Base.Status.{Status, is_success}
use cr_ow_s.Base.Memory.{Memory, EfiLib}
use cr_ow_s.Ramdisk.{PrivateData}
use cr_ow_s.Ramdisk.BlockIo.{read_blocks, write_blocks}
use cr_ow_s.Ramdisk.BlockIo.Bounds.{
  IsRegistered, Fits, read_blocks-success_iff, write_blocks-success_iff,
}
use cr_ow_s.Ramdisk.BlockIo.Transfer.{
  disk, Moved, read_blocks-Moved, write_blocks-Moved, read_blocks-failure, write_blocks-failure,
}
use cr_ow_s.Ramdisk.Device.{
  reads, writes, Answer, served, range, overlay, accepts, serve, call, Aside,
}

-- The disk's bytes in memory are the device's.
abbrev pub Shows : PrivateData → (ℕ → ℕ) → Memory → Type 0
Shows p content m = (i : ℕ) → i < p.size → disk p m i ≡ content i

-- An answer and memory that agree with the device's answer and content.
pub record Agrees (p : PrivateData) (device : Answer × (ℕ → ℕ)) (driver : Answer × Memory)
    : Type 0 where
  pub answer : driver.0 ≡ device.0
  pub shows : Shows p device.1 driver.1

range-ext :
    (f g : ℕ → ℕ) (from to n : ℕ)
    → ((i : ℕ) → i < n → f (from + i) ≡ g (to + i))
    → range f from n ≡ range g to n
unfolding range
range-ext f g from to zero same = refl
range-ext f g from to (suc n) same =
    let first : f from ≡ g to = ap f (omega arith) ∙ same 0 (omega arith) ∙ ap g (omega arith) in
    ap₂ (λ (x : ℕ) (xs : List ℕ). x ∷ xs) first
      (range-ext f g (from + 1) (to + 1) n
        (λ i h. ap f (omega arith) ∙ same (suc i) (omega (arith, h)) ∙ ap g (omega arith)))

success-true : (s : Status) → s ≡ Status.success → is_success s ≡ true
success-true s e = ap is_success e

success-false : (s : Status) → s ≢ Status.success → is_success s ≡ false
success-false s ne = ground (arith, ne)

module _ (lib : EfiLib) {p : PrivateData} (r : IsRegistered p) (content : ℕ → ℕ) (m : Memory)
    (shown : Shows p content m) (lba n buffer : ℕ) (a : Aside p lba n buffer) where
  abbrev Wanted : Type 0
  Wanted = (n ≡ 0) ⊎ Fits p lba n

  accepts_iff : (accepts p.size lba n ≡ true) ↔ Wanted
  accepts_iff = ground arith

  module _ (accepted : accepts p.size lba n ≡ true) where
    in_disk : (i : ℕ) → i < n → lba * 512 + i < p.size
    in_disk i h = ground (arith, accepts_iff.0 accepted, h)

    read_ok : (read_blocks lib p p.media.media_id lba n buffer m).0 ≡ Status.success
    read_ok =
        (read_blocks-success_iff lib r p.media.media_id lba n buffer m a.small_lba a.small_n).1
          (refl, a.given, accepts_iff.0 accepted)

    abbrev read_moved : Memory
    read_moved = (read_blocks lib p p.media.media_id lba n buffer m).1

    read-Moved : Moved buffer (p.starting_addr + lba * 512) n m read_moved
    read-Moved =
        read_blocks-Moved lib r p.media.media_id lba n buffer m a.small_lba a.small_n read_ok

    bytes_read : range read_moved buffer n ≡ range content (lba * 512) n
    bytes_read =
        range-ext read_moved content buffer (lba * 512) n
          (λ i h. read-Moved.inside i h ∙ ap m (omega arith) ∙ shown (lba * 512 + i) (in_disk i h))

    read_shown : Shows p content read_moved
    read_shown i h =
        read-Moved.outside (p.starting_addr + i) (omega (arith, a.beside, h)) ∙ shown i h

  read_refused :
      accepts p.size lba n ≡ false
      → (read_blocks lib p p.media.media_id lba n buffer m).0 ≢ Status.success
  read_refused e ok =
      let (medium, given, wanted) =
        (read_blocks-success_iff lib r p.media.media_id lba n buffer m a.small_lba a.small_n).0
          ok in
      absurd (ground (arith, e, accepts_iff.1 wanted))

  pub read-Agrees :
      Agrees p (serve p.size (reads lba n buffer) content) (call lib p (reads lba n buffer) m)
  unfolding serve call
  read-Agrees = elim (Bool-cases (accepts p.size lba n)) [
    | inl e ↦ record {
      answer = rw (e, success-true _ (read_ok e)) (ap served (bytes_read e));
      shows = rw e (read_shown e);
    }
    | inr e ↦ record {
      answer = rw (e, success-false _ (read_refused e)) refl;
      shows =
          rw
            (
              e,
              read_blocks-failure lib r p.media.media_id lba n buffer m a.small_lba a.small_n
                  (read_refused e),
            )
            shown;
    }
  ]

  module _ (bytes : ℕ → ℕ) (writable : p.media.read_only ≡ false) where
    abbrev filled : Memory
    filled = overlay buffer n bytes m

    filled_shown : Shows p content filled
    filled_shown i h =
        if_elim (λ (v : ℕ). v ≡ content i)
          (leb buffer (p.starting_addr + i) && ltb (p.starting_addr + i) (buffer + n))
          (λ e. absurd (ground (arith, e, a.beside, h))) (λ e. shown i h)

    write_ok :
        accepts p.size lba n ≡ true
        → (write_blocks lib p p.media.media_id lba n buffer filled).0 ≡ Status.success
    write_ok accepted =
        (write_blocks-success_iff lib r p.media.media_id lba n buffer filled a.small_lba
            a.small_n).1
          (refl, writable, a.given, accepts_iff.0 accepted)

    write_refused :
        accepts p.size lba n ≡ false
        → (write_blocks lib p p.media.media_id lba n buffer filled).0 ≢ Status.success
    write_refused e ok =
        let (medium, free, given, wanted) =
          (write_blocks-success_iff lib r p.media.media_id lba n buffer filled a.small_lba
              a.small_n).0
            ok in
        absurd (ground (arith, e, accepts_iff.1 wanted))

    filled_at : (i : ℕ) → i < n → filled (buffer + i) ≡ bytes i
    filled_at i h =
        let here : (leb buffer (buffer + i) && ltb (buffer + i) (buffer + n)) ≡ true =
          ground (arith, h) in
        let back : buffer + i - buffer ≡ i = omega arith in rw (here, back) refl

    write_shown :
        accepts p.size lba n ≡ true
        → Shows p
            (overlay (lba * 512) n bytes content)
            (write_blocks lib p p.media.media_id lba n buffer filled).1
    write_shown accepted i h =
        let moved =
          write_blocks-Moved lib r p.media.media_id lba n buffer filled a.small_lba a.small_n
            (write_ok accepted) in
        if_elim
          (λ (v : ℕ).
            (write_blocks lib p p.media.media_id lba n buffer filled).1 (p.starting_addr + i) ≡ v)
          (leb (lba * 512) i && ltb i (lba * 512 + n))
          (λ e.
            let near : i - lba * 512 < n = ground (arith, e) in
            let place : p.starting_addr + i ≡ p.starting_addr + lba * 512 + (i - lba * 512) =
              ground (arith, e) in
            ap (write_blocks lib p p.media.media_id lba n buffer filled).1 place
            ∙ moved.inside (i - lba * 512) near
            ∙ filled_at (i - lba * 512) near)
          (λ e. moved.outside (p.starting_addr + i) (ground (arith, e)) ∙ filled_shown i h)

    pub write-Agrees :
        Agrees p
          (serve p.size (writes lba n buffer bytes) content)
          (call lib p (writes lba n buffer bytes) m)
    unfolding serve call
    write-Agrees = elim (Bool-cases (accepts p.size lba n)) [
      | inl e ↦ record {
        answer = rw (e, success-true _ (write_ok e)) refl;
        shows = rw e (write_shown e);
      }
      | inr e ↦ record {
        answer = rw (e, success-false _ (write_refused e)) refl;
        shows =
            rw
              (
                e,
                write_blocks-failure lib r p.media.media_id lba n buffer filled a.small_lba
                    a.small_n (write_refused e),
              )
              filled_shown;
      }
    ]
