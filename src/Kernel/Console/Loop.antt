-- ===== src/Kernel/Console/Loop.antt =====
-- The loop of kinit with its lines, beside the search alone.
use cr_ow_s.Base.{
  ℕ, zero, suc, ◌+◌, ◌^◌, ◌≤◌, ◌<◌, ◌≡◌, ◌≢◌, ◌⊎◌, refl, ap, ◌∙◌, sym, List, [], ◌∷◌, Option, some,
  arith, length, map, le→ltb,
}
use cr_ow_s.Base.Words.{add64_fits}
use cr_ow_s.Base.Memory.{Memory}
use cr_ow_s.Kernel.{load32}
use cr_ow_s.Kernel.Init.{Boot, visit, scan}
use cr_ow_s.Kernel.Init.Entries.{Entry, Listed}
use cr_ow_s.Kernel.Init.Choose.{}
use cr_ow_s.Kernel.Str.{}
use cr_ow_s.Kernel.Console.{line_bytes, in_memory, line_first, show_map}
use cr_ow_s.Kernel.Console.Buffer.{
  bytes, overlay, before_nul, last_byte, Agrees, last_byte-overlay, length-bytes, bytes-same,
}
use cr_ow_s.Kernel.Console.Lines.{entry_text, length-entry_text}
use cr_ow_s.Kernel.Console.Fields.{
  Fields, Fields-Agrees, load32-Agrees, load32-visit, Listed-visit, visit-Visits, visit-keeps,
}
use cr_ow_s.Kernel.Console.Shows.{say_entry-Said, heard, Shown, Typed, scan-round, show_map-round}

-- One more line in front.
pub Shown-line :
    (line : ℕ) (o o' : Option Boot) (text cells cells' : List ℕ) (texts : List (List ℕ))
    (r r' : Option (Boot × List (List ℕ)))
    → o' ≡ o
    → cells' ≡ overlay text cells
    → r' ≡ line_first (before_nul (overlay text cells)) r
    → Shown line o (heard cells' texts) r
    → Shown line o' (heard cells (text ∷ texts)) r'
Shown-line line o o' text cells cells' texts r r' search laid round rest = record {
  plain = rest.plain;
  memory = rest.memory;
  searched = search ∙ rest.searched;
  result =
      round
      ∙ ap (line_first (before_nul (overlay text cells))) rest.result
      ∙ ap
          (λ c.
            some
              (in_memory rest.plain rest.memory, before_nul (overlay text cells) ∷ heard c texts))
          laid;
  kept = rest.kept;
}

module _ (stale : List ℕ) (reads line at size entry_size : ℕ) (enough : line_bytes ≤ reads)
    (given : line ≢ 0) (short : length stale ≤ 80) (step : 24 ≤ entry_size)
    (in_space : at + size + entry_size < 2 ^ 64)
    (apart : (at + size ≤ line) ⊎ (line + line_bytes ≤ at)) where
  over-Shown :
      (fuel p : ℕ) (s : Boot) (m : Memory)
      → p ≡ at + size
      → at + 16 ≤ p
      → load32 s.memory (at + 4) ≡ size
      → Agrees line line_bytes s.memory m
      → Shown line
          (scan (suc fuel) at p s)
          []
          (show_map (suc fuel) stale reads line at p (in_memory s m))
  unfolding scan show_map
  over-Shown fuel p s m over header total agree =
      let total' : load32 m (at + 4) ≡ size =
        load32-Agrees line s.memory m (at + 4) agree (omega (arith, apart, over, header)) ∙ total in
      let fits = add64_fits at size (omega arith) in
      let past = le→ltb p (at + size) (omega (arith, over)) in
      record {
        plain = s;
        memory = m;
        searched = rw (total, fits, past) refl;
        result = rw (total', fits, past) refl;
        kept = agree;
      }

  -- The loop, from an entry on.
  pub show_map-Shown :
      (es : List Entry) (fuel p : ℕ) (s : Boot) (m : Memory)
      → at + 16 ≤ p
      → load32 s.memory (at + 4) ≡ size
      → load32 s.memory (at + 8) ≡ entry_size
      → Agrees line line_bytes s.memory m
      → last_byte (bytes line line_bytes m) ≡ 0
      → Listed s.memory entry_size p (at + size) es
      → Typed es
      → at + size < p + fuel
      → Shown line
          (scan fuel at p s)
          (heard (bytes line line_bytes m) (map (entry_text stale) es))
          (show_map fuel stale reads line at p (in_memory s m))
  show_map-Shown [] zero p s m header total each agree ended l typed more =
      absurd (omega (arith, l, more))
  show_map-Shown [] (suc fuel) p s m header total each agree ended l typed more =
      over-Shown fuel p s m l header total agree
  show_map-Shown (e ∷ es) zero p s m header total each agree ended l typed more =
      absurd (omega (arith, l.4, more))
  show_map-Shown (e ∷ es) (suc fuel) p s m header total each agree ended l typed more =
      let beside : (p + 20 ≤ line) ⊎ (line + line_bytes ≤ p) =
        omega (arith, apart, header, l.4, step) in
      let f : Fields s.memory p e = record { base = l.0; length = l.1; type = l.2 } in
      let g = Fields-Agrees line s.memory m p e agree beside f in
      let said = say_entry-Said stale reads line p m e enough given short g typed.0 beside ended in
      let agree1 : Agrees line line_bytes s.memory said.after =
        λ a out. said.kept a out ∙ agree a out in
      let v =
        visit-Visits line p s said.after e agree1 f
          (Fields-Agrees line m said.after p e said.kept beside g) in
      let laid : bytes line line_bytes v.after
          ≡ overlay (entry_text stale e) (bytes line line_bytes m) =
        bytes-same line_bytes line said.after v.after (λ b from to.
          ap (λ (k : Boot). k.memory b) (sym v.result)
          ∙ visit-keeps p (in_memory s said.after) b (omega (arith, from, to, beside)))
        ∙ said.laid in
      let still : last_byte (bytes line line_bytes v.after) ≡ 0 =
        ap last_byte laid
        ∙ last_byte-overlay (entry_text stale e) (bytes line line_bytes m)
            (omega (arith, length-entry_text stale e short, length-bytes line_bytes line m))
        ∙ ended in
      Shown-line line _ _ (entry_text stale e) (bytes line line_bytes m) _
        (map (entry_text stale) es) _ _
        (scan-round stale reads line at size entry_size enough given short step in_space apart fuel
          p s l.4 header total each)
        laid
        (show_map-round stale reads line at size entry_size enough given short step in_space apart
          fuel p s l.4 header total each m said.after v.after _ agree v.kept said.result v.result)
        (show_map-Shown es fuel (p + entry_size) (visit p s) v.after (omega (arith, header))
          (load32-visit p s (at + 4) (omega (arith, header)) ∙ total)
          (load32-visit p s (at + 8) (omega (arith, header)) ∙ each) v.kept still
          (Listed-visit p s entry_size (p + entry_size) (at + size) es (omega (arith, step)) l.5)
          typed.1 (omega (arith, more, step)))
