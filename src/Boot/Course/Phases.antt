-- ===== src/Boot/Course/Phases.antt =====
-- The loader as a state machine, and how it goes on from the decrypted image.
use cr_ow_s.Base.{
  ℕ, ◌+◌, ◌-◌, ◌%◌, ◌^◌, ◌≤◌, ◌<◌, ◌≡◌, refl, true, false, not, ◌||◌, List, [], ◌∷◌, Option, some,
  arith, if_elim, if_both, leb, ltb, ◌==◌,
}
use cr_ow_s.Base.Status.{Status, is_error}
use cr_ow_s.Base.Memory.{Memory, EfiLib}
use cr_ow_s.Ramdisk.{PrivateData}
use cr_ow_s.Ramdisk.Pools.{Event}
use cr_ow_s.Ramdisk.Register.{register}
use cr_ow_s.Ramdisk.Register
use cr_ow_s.Util.Worker.{MftahStatus}
use cr_ow_s.Boot.Password.Answers.{Asked}
use cr_ow_s.Boot.Payload.Plain.{Decrypts, Plain, plain}
use cr_ow_s.Boot.Payload.{Image, Decryption}
use cr_ow_s.Boot.Course.{
  World, Step, End, Course, hand_over, after_register, register_image, publish, after_load, boots,
  halted,
}

-- A ramdisk of whole blocks inside the address space.
pub record Mountable (image : Image) : Type 0 where
  pub some_length : 0 < image.length
  pub whole : image.length % 512 ≡ 0
  pub in_space : image.image + image.length ≤ 2 ^ 64

-- Where the loader stands: at the menu, at the prompt for a file, with a password that is right for
-- it, with its image in memory, with the image published, and with it mounted.
pub data Phase : Type 0 where
  menu : Phase
  prompt : ℕ → Phase
  accepted : ℕ → List ℕ → Phase
  at_hand published mounted : Image → Phase

-- The steps that can follow at a phase.
pub data Runs (w : World) : Phase → List Step → Type 0 where
  ends : (p : Phase) → Runs w p []
  selects :
      (h : ℕ) (steps : List Step) → Runs w (prompt h) steps → Runs w menu (Step.selected h ∷ steps)
  returns :
      (h : ℕ) (steps : List Step) → Runs w menu steps → Runs w (prompt h) (Step.went_back ∷ steps)
  denies :
      (h : ℕ) (pw : List ℕ) (steps : List Step)
      → Asked w.mftah (w.file h) pw MftahStatus.invalid_password
      → Runs w (prompt h) steps
      → Runs w (prompt h) (Step.denied h ∷ steps)
  confirms :
      (h : ℕ) (pw : List ℕ) (steps : List Step)
      → Asked w.mftah (w.file h) pw MftahStatus.success
      → Runs w (accepted h pw) steps
      → Runs w (prompt h) (Step.confirmed h pw ∷ steps)
  decrypts :
      (h : ℕ) (pw : List ℕ) (image : Image) (steps : List Step)
      → Decrypts w.fuel w.mftah (w.file h) pw image
      → Runs w (at_hand image) steps
      → Runs w (accepted h pw) (Step.decrypted image ∷ (Step.wiped ∷ steps))
  publishes :
      (image : Image) (steps : List Step)
      → Runs w (published image) steps
      → Runs w (at_hand image) (Step.hinted image ∷ steps)
  mounts :
      (image : Image) (steps : List Step)
      → Mountable image
      → Runs w (mounted image) steps
      → Runs w (published image) (Step.registered image ∷ steps)
  chainloads :
      (image : Image) (h : ℕ) (steps : List Step)
      → Runs w (mounted image) steps
      → Runs w (mounted image) (Step.booted h ∷ steps)

-- What a registration that is no error says of the image.
data Checks (image : Image) : Register.Outcome → Type 0 where
  refused :
      (s : Status) (p : Option PrivateData) (path : Option ℕ) (es : List Event)
      → is_error s ≡ true
      → Checks image (Register.returned s p path es)
  fits : (o : Register.Outcome) → Mountable image → Checks image o

register-Checks :
    (lib : EfiLib) (date : ℕ) (f : Register.Firmware) (image : Image) (guid : ℕ)
    → Checks image (register lib date f image.image image.length (some guid) true)
unfolding register
register-Checks lib date f image guid =
    let Good = Checks image in
    if_elim Good ((image.length == 0) || not true) (λ e. refused _ _ _ _ refl)
      (λ e.
        if_elim Good (not (image.length % 512 == 0)) (λ k. refused _ _ _ _ refl)
          (λ k.
            if_elim Good
              (leb (2 ^ 64 - 1) image.length || ltb (2 ^ 64 - 1 - image.length + 1) image.image)
              (λ j. refused _ _ _ _ refl)
              (λ j. fits _ (record {
                some_length = ground (arith, e);
                whole = ground (arith, k);
                in_space = ground (arith, e, j);
              }))))

module _ (w : World) where
  abbrev Follows : Phase → Course → Type 0
  Follows p c = Runs w p c.steps

  boots-Runs : (image : Image) (e : End) (hs : List ℕ) → Follows (mounted image) (boots hs e)
  boots-Runs image e [] = ends _
  boots-Runs image e (h ∷ hs) = chainloads image h _ (boots-Runs image e hs)

  after_register-Runs :
      (image : Image) (o : Register.Outcome)
      → Checks image o
      → Follows (published image) (after_register w image o)
  unfolding after_register hand_over
  after_register-Runs image (Register.returned s p path es) c =
      if_elim (Follows (published image)) (is_error s) (λ e. ends _)
        (λ e. mounts image _ (mountable c e) (boots-Runs image halted _))
    where
      mountable :
          Checks image (Register.returned s p path es) → is_error s ≡ false → Mountable image
      mountable (refused _ _ _ _ bad) e = absurd (ground (arith, bad, e))
      mountable (fits _ m) e = m
  after_register-Runs image (Register.panicked es) c = ends _
  after_register-Runs image Register.unanswered c = ends _

  register_image-Runs : (image : Image) → Follows (published image) (register_image w image)
  unfolding register_image
  register_image-Runs image =
      if_both (Follows (published image)) (is_error w.ramdisk_protocol) (ends _) (
        after_register-Runs image _
          (register-Checks w.lib w.release_date w.ramdisk image w.disk_guid))

  publish-Runs : (image : Image) (m : Memory) → Follows (at_hand image) (publish w image m)
  unfolding publish
  publish-Runs image m =
      if_both (Follows (at_hand image)) (is_error _) (ends _)
        (publishes image _ (register_image-Runs image))

  pub after_load-Runs :
      (h : ℕ) (pw : List ℕ) (d : Decryption)
      → Plain w.fuel w.mftah (w.file h) pw d
      → Follows (accepted h pw) (after_load w d)
  unfolding after_load
  after_load-Runs h pw _ (plain image m d) =
      if_both (Follows (accepted h pw)) ((image.image == 0) || (image.length == 0)) (ends _)
        (decrypts h pw image _ d (publish-Runs image m))
  after_load-Runs h pw (Decryption.refused s ps) p = ends _
  after_load-Runs h pw Decryption.panicked p = ends _
  after_load-Runs h pw Decryption.unread p = ends _
