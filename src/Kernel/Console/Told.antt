-- ===== src/Kernel/Console/Told.antt =====
-- What kinit tells the serial port about a memory map.
use cr_ow_s.Base.{
  ℕ, ◌+◌, ◌/◌, ◌^◌, ◌≤◌, ◌<◌, ◌≡◌, ◌≢◌, ◌⊎◌, refl, ap, ◌∙◌, sym, List, [], ◌∷◌, Option, none, some,
  arith, length, map, ne→==,
}
use cr_ow_s.Base.Words.{add64_fits}
use cr_ow_s.Base.Memory.{Memory}
use cr_ow_s.Kernel.{load32}
use cr_ow_s.Kernel.Init.{Boot, map_header_bytes}
use cr_ow_s.Kernel.Init.Entries.{Entry, Listed, first_hole, chosen}
use cr_ow_s.Kernel.Init.Choose.{scan-first_hole}
use cr_ow_s.Kernel.Str.{Arg}
use cr_ow_s.Kernel.Console.{line_bytes, map_line, in_memory, tell_map}
use cr_ow_s.Kernel.Console.Buffer.{bytes, last_byte, Agrees, last_byte-overlay, length-bytes}
use cr_ow_s.Kernel.Console.Lines.{say-Said, entry_text, map_text, expand-map_text, length-map_text}
use cr_ow_s.Kernel.Console.Fields.{}
use cr_ow_s.Kernel.Console.Shows.{heard, Shown, Typed}
use cr_ow_s.Kernel.Console.Loop.{Shown-line, show_map-Shown}

-- The loop has ended, with a state that is known but for the buffer, and has sent the strings.
pub record Told (line : ℕ) (plain : Boot) (lines : List (List ℕ))
    (r : Option (Boot × List (List ℕ))) : Type 0 where
  pub memory : Memory
  pub result : r ≡ some (in_memory plain memory, lines)
  pub kept : Agrees line line_bytes plain.memory memory

abbrev or_else : Boot → Option Boot → Boot
or_else s none = s
or_else s (some b) = b

module _ (stale : List ℕ) (reads line at size entry_size : ℕ) (enough : line_bytes ≤ reads)
    (given : line ≢ 0) (short : length stale ≤ 80) (step : 24 ≤ entry_size)
    (in_space : at + size + entry_size < 2 ^ 64)
    (apart : (at + size ≤ line) ⊎ (line + line_bytes ≤ at)) where
  tell_map-Shown :
      (es : List Entry) (fuel : ℕ) (s : Boot)
      → s.context.kmem_base ≡ 0
      → load32 s.memory (at + 4) ≡ size
      → load32 s.memory (at + 8) ≡ entry_size
      → last_byte (bytes line line_bytes s.memory) ≡ 0
      → Listed s.memory entry_size (at + 16) (at + size) es
      → Typed es
      → size < 16 + fuel
      → Shown line
          (some (chosen s (first_hole entry_size (at + 16) es)))
          (heard
            (bytes line line_bytes s.memory)
            (map_text size (size / entry_size) ∷ map (entry_text stale) es))
          (tell_map fuel stale reads line at s)
  unfolding tell_map
  tell_map-Shown es fuel s free total each ended l typed more =
      let text = map_text size (size / entry_size) in
      let cells = bytes line line_bytes s.memory in
      let said =
        say-Said stale reads line enough map_line
          (Arg.number size ∷ Arg.number (size / entry_size) ∷ []) s.memory text
          (expand-map_text stale size (size / entry_size))
          (length-map_text size (size / entry_size)) ended in
      let still : last_byte (bytes line line_bytes said.after) ≡ 0 =
        ap last_byte said.laid
        ∙ last_byte-overlay text cells (
            omega (
              arith,
              length-map_text size (size / entry_size),
              length-bytes line_bytes line s.memory,
            ))
        ∙ ended in
      let search =
        scan-first_hole es fuel at (at + 16) s free (omega arith) (rw each step)
          (rw (total, each) in_space) (rw (total, each) l) (rw total (omega (arith, more))) in
      Shown-line line _ _ text cells _ (map (entry_text stale) es) _ _
        (ap (λ k. some (chosen s (first_hole k (at + 16) es))) (sym each) ∙ sym search) said.laid
        (rw
          (
            total,
            each,
            ne→== entry_size 0 (omega (arith, step)),
            said.result,
            add64_fits at map_header_bytes (omega (arith, in_space, step)),
          )
          refl)
        (show_map-Shown stale reads line at size entry_size enough given short step in_space apart
          es fuel (at + 16) s said.after (omega arith) total each said.kept still l typed
          (omega (arith, more)))

  -- If kinit finds a memory map with entries of 24 bytes or more, which follow one another up to the
  -- tag's end, speak of memory inside the address space and have types below 2^31, no hole is chosen
  -- yet, the buffer of its lines, which is not at address 0, lies beside the map and its last byte
  -- happens to be 0, the stale string that snprintf prints has at most 80 characters, and there is
  -- fuel for 256 bytes of a string and for every byte of the tag: then the loop ends as the search
  -- does, with the first hole chosen, and memory differs from that only in the buffer. What it has
  -- sent to the serial port is a line with the size of the map and the number of its entries, and
  -- one for each entry, in order, with the low 32 bits of its address and length and its type. Each
  -- is followed by what its buffer held behind it, up to a NUL: since only the first character of a
  -- line is cleared, that is what the longest line before left there, or the stack.
  pub tell_map-Told :
      (es : List Entry) (fuel : ℕ) (s : Boot)
      → s.context.kmem_base ≡ 0
      → load32 s.memory (at + 4) ≡ size
      → load32 s.memory (at + 8) ≡ entry_size
      → last_byte (bytes line line_bytes s.memory) ≡ 0
      → Listed s.memory entry_size (at + 16) (at + size) es
      → Typed es
      → size < 16 + fuel
      → Told line
          (chosen s (first_hole entry_size (at + 16) es))
          (heard
            (bytes line line_bytes s.memory)
            (map_text size (size / entry_size) ∷ map (entry_text stale) es))
          (tell_map fuel stale reads line at s)
  tell_map-Told es fuel s free total each ended l typed more =
      let shown = tell_map-Shown es fuel s free total each ended l typed more in
      let same = ap (or_else s) shown.searched in
      record {
        memory = shown.memory;
        result =
            shown.result
            ∙ ap
                (λ b. some (
                  in_memory b shown.memory,
                  heard (bytes line line_bytes s.memory)
                      (map_text size (size / entry_size) ∷ map (entry_text stale) es),
                ))
                (sym same);
        kept = λ a out. shown.kept a out ∙ ap (λ (b : Boot). b.memory a) (sym same);
      }
