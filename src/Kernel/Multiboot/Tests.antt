-- ===== src/Kernel/Multiboot/Tests.antt =====
-- The walk over boot information of three tags.
use cr_ow_s.Base.{◌≡◌, refl, arith}
use cr_ow_s.Kernel.Multiboot.{found, seek_tag}
use cr_ow_s.Kernel.Multiboot.Tags.{Laid, first_tag, seek_tag-first_tag}
use cr_ow_s.Kernel.Multiboot.Endless.{}
use cr_ow_s.Kernel.Samples.{information, tags}

tags-Laid : Laid information 1008 1096 tags
tags-Laid = (
  refl,
  refl,
  omega arith,
  omega arith,
  (refl, refl, omega arith, omega arith, (refl, refl, omega arith, omega arith, refl)),
)

seek_tag-first_tag_example : seek_tag 13 information 6 1000 ≡ found 1024
unfolding first_tag
seek_tag-first_tag_example =
    seek_tag-first_tag information 6 1000 tags 13 (λ e. absurd (omega arith)) (omega arith)
      (omega arith) tags-Laid (omega arith)
