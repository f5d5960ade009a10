-- ===== src/Kernel/Console/Tests.antt =====
-- kinit on a memory map of two entries, with the second line shorter than the first and the third.
use cr_ow_s.Base.{[], ◌∷◌, ◌≡◌, refl, arith, inl, map}
use cr_ow_s.Kernel.Init.{Boot}
use cr_ow_s.Kernel.Init.Entries.{first_hole, chosen, Listed}
use cr_ow_s.Kernel.Console.{line_bytes, tell_map}
use cr_ow_s.Kernel.Console.Buffer.{bytes, last_byte}
use cr_ow_s.Kernel.Console.Lines.{entry_text, map_text}
use cr_ow_s.Kernel.Console.Shows.{heard}
use cr_ow_s.Kernel.Console.Told.{Told, tell_map-Told}
use cr_ow_s.Kernel.Samples.{information, entries}

abbrev start : Boot
start = record {
  context = record { memory_map = 1024; kmem_base = 0; kmem_len = 4096 };
  memory = information;
}

information-Listed : Listed information 24 1040 1088 entries
information-Listed =
    (refl, refl, refl, omega arith, omega arith, (refl, refl, refl, omega arith, omega arith, refl))

-- The buffer at 4096 is blank.
blank_buffer : last_byte (bytes 4096 line_bytes information) ≡ 0
unfolding bytes
blank_buffer = refl

tell_map-Told_example :
    Told 4096
      (chosen start (first_hole 24 1040 entries))
      (heard (bytes 4096 line_bytes information) (map_text 64 2 ∷ map (entry_text []) entries))
      (tell_map 97 [] 256 4096 1024 start)
tell_map-Told_example =
    tell_map-Told [] 256 4096 1024 64 24 (omega arith) (λ e. absurd (omega (arith, e)))
      (omega arith) (omega arith) (omega arith) (inl (omega arith)) entries 97 start refl refl refl
      blank_buffer information-Listed (omega arith, (omega arith, tt)) (omega arith)
