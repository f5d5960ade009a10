-- ===== src/Kernel/Str/Tests.antt =====
-- snprintf on `0x%X is %u%%`, in a buffer that is too short for the last character.
use cr_ow_s.Base.{ℕ, List, [], ◌∷◌}
use cr_ow_s.Base.Memory.{Memory}
use cr_ow_s.Kernel.Str.{Arg, snprintf}
use cr_ow_s.Kernel.Str.Prints.{Fate, snprintf-Fate}

abbrev blank : Memory
blank a = 0xee

abbrev format : List ℕ
format =
    b'0'
    ∷ (b'x'
        ∷ (b'%'
            ∷ (b'X' ∷ (b' ' ∷ (b'i' ∷ (b's' ∷ (b' ' ∷ (b'%' ∷ (b'u' ∷ (b'%' ∷ (b'%' ∷ [])))))))))))

abbrev numbers : List Arg
numbers = Arg.number 0xbeef ∷ (Arg.number 48879 ∷ [])

snprintf-Fate_example :
    Fate
      (0xc3 ∷ [])
      0x1000
      15
      blank
      []
      format
      numbers
      (snprintf (0xc3 ∷ []) 0x1000 15 format numbers blank)
snprintf-Fate_example = snprintf-Fate (0xc3 ∷ []) 0x1000 15 blank format numbers
