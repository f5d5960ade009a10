-- ===== src/Kernel/Console/Shows.antt =====
-- The lines of kinit's loop.
use cr_ow_s.Base.{
  ℕ, suc, ◌+◌, ◌%◌, ◌^◌, ◌≤◌, ◌<◌, ◌≡◌, ◌≢◌, ◌⊎◌, refl, ap, ap₂, ◌∙◌, List, [], ◌∷◌, Option, some,
  arith, length, lt→ltb,
}
use cr_ow_s.Base.Words.{add64_fits}
use cr_ow_s.Base.Memory.{Memory}
use cr_ow_s.Kernel.{load32, load64}
use cr_ow_s.Kernel.Init.{Boot, visit, scan}
use cr_ow_s.Kernel.Init.Entries.{Entry}
use cr_ow_s.Kernel.Init.Choose.{}
use cr_ow_s.Kernel.Str.{Arg}
use cr_ow_s.Kernel.Str.Clearing.{clear_line}
use cr_ow_s.Kernel.Console.{line_bytes, entry_line, in_memory, line_first, say, say_entry, show_map}
use cr_ow_s.Kernel.Console.Buffer.{
  bytes, overlay, before_nul, last_byte, Agrees, bytes-clear_line, clear_line-Agrees,
  last_byte-overlay, length-bytes,
}
use cr_ow_s.Kernel.Console.Lines.{
  Said, say-Said, entry_text, entry_args, expand-entry_text, length-entry_text,
}
use cr_ow_s.Kernel.Console.Fields.{Fields, Fields-Agrees, load32-Agrees, load32-visit}

module _ (stale : List ℕ) (reads line p : ℕ) (m : Memory) (e : Entry) (enough : line_bytes ≤ reads)
    (given : line ≢ 0) (short : length stale ≤ 80) where
  -- It covers the byte that was cleared.
  overlay_entry :
      (cells : List ℕ)
      → overlay (entry_text stale e) (overlay (0 ∷ []) cells) ≡ overlay (entry_text stale e) cells
  unfolding entry_text
  overlay_entry [] = refl
  overlay_entry (o ∷ cells) = refl

  pub say_entry-Said :
      Fields m p e
      → e.type % 2 ^ 32 < 2 ^ 31
      → (p + 20 ≤ line) ⊎ (line + line_bytes ≤ p)
      → last_byte (bytes line line_bytes m) ≡ 0
      → Said line (entry_text stale e) (bytes line line_bytes m) m (say_entry stale reads line p m)
  unfolding say_entry
  say_entry-Said fields small beside ended =
      let cells = bytes line line_bytes m in
      let cleared = clear_line reads line m in
      let empty = bytes-clear_line reads line line_bytes m given (omega (arith, enough)) in
      let untouched =
        clear_line-Agrees reads line line_bytes m given (omega (arith, enough)) (omega arith) in
      let f = Fields-Agrees line m cleared p e untouched beside fields in
      let still : last_byte (bytes line line_bytes cleared) ≡ 0 =
        ap last_byte empty
        ∙ last_byte-overlay (0 ∷ []) cells (omega (arith, length-bytes line_bytes line m))
        ∙ ended in
      let said =
        say-Said stale reads line enough entry_line (entry_args e) cleared (entry_text stale e)
          (expand-entry_text stale e small) (length-entry_text stale e short) still in
      let covers : overlay (entry_text stale e) (bytes line line_bytes cleared)
          ≡ overlay (entry_text stale e) cells =
        ap (overlay (entry_text stale e)) empty ∙ overlay_entry cells in
      let line_of = λ (a : ℕ) (b : ℕ) (c : ℕ).
        say stale reads line entry_line (Arg.number a ∷ Arg.number b ∷ Arg.number c ∷ []) cleared in
      record {
        after = said.after;
        result =
            ap (λ a. line_of a (load64 cleared (p + 8)) (load32 cleared (p + 16))) f.base
            ∙ ap₂ (line_of e.base) f.length f.type
            ∙ said.result
            ∙ ap (λ c. some (said.after, before_nul c)) covers;
        laid = said.laid ∙ covers;
        kept = λ a out. said.kept a out ∙ untouched a out;
      }

-- The strings that are sent for texts which are laid, one after the other, over the same buffer.
abbrev pub heard : List ℕ → List (List ℕ) → List (List ℕ)
heard cells [] = []
heard cells (text ∷ texts) = before_nul (overlay text cells) ∷ heard (overlay text cells) texts

-- The loop with its lines ends as the search does, but for the buffer, and has sent the lines.
pub record Shown (line : ℕ) (o : Option Boot) (lines : List (List ℕ))
    (r : Option (Boot × List (List ℕ))) : Type 0 where
  pub plain : Boot
  pub memory : Memory
  pub searched : o ≡ some plain
  pub result : r ≡ some (in_memory plain memory, lines)
  pub kept : Agrees line line_bytes plain.memory memory

-- The types are no negative numbers.
abbrev pub Typed : List Entry → Type 0
Typed [] = Unit {0}
Typed (e ∷ es) = (e.type % 2 ^ 32 < 2 ^ 31) × Typed es

module _ (stale : List ℕ) (reads line at size entry_size : ℕ) (enough : line_bytes ≤ reads)
    (given : line ≢ 0) (short : length stale ≤ 80) (step : 24 ≤ entry_size)
    (in_space : at + size + entry_size < 2 ^ 64)
    (apart : (at + size ≤ line) ⊎ (line + line_bytes ≤ at)) where
  module _ (fuel p : ℕ) (s : Boot) (inside : p + entry_size ≤ at + size) (header : at + 16 ≤ p)
      (total : load32 s.memory (at + 4) ≡ size) (each : load32 s.memory (at + 8) ≡ entry_size) where
    pub each_after : load32 (visit p s).memory (at + 8) ≡ entry_size
    each_after = load32-visit p s (at + 8) (omega (arith, header)) ∙ each

    pub scan-round : scan (suc fuel) at p s ≡ scan fuel at (p + entry_size) (visit p s)
    unfolding scan
    scan-round =
        rw
          (
            total,
            each_after,
            add64_fits at size (omega arith),
            add64_fits p entry_size (omega arith),
            lt→ltb p (at + size) (omega arith),
          )
          refl

    module _ (m m1 m2 : Memory) (text : List ℕ) (agree : Agrees line line_bytes s.memory m)
        (agree_after : Agrees line line_bytes (visit p s).memory m2)
        (said : say_entry stale reads line p m ≡ some (m1, text))
        (visited : visit p (in_memory s m1) ≡ in_memory (visit p s) m2) where
      pub show_map-round :
          show_map (suc fuel) stale reads line at p (in_memory s m)
          ≡ line_first text
              (show_map fuel stale reads line at (p + entry_size) (in_memory (visit p s) m2))
      unfolding show_map
      show_map-round =
          let total' : load32 m (at + 4) ≡ size =
            load32-Agrees line s.memory m (at + 4) agree (omega (arith, apart)) ∙ total in
          let each' : load32 m2 (at + 8) ≡ entry_size =
            load32-Agrees line (visit p s).memory m2 (at + 8) agree_after (omega (arith, apart))
            ∙ each_after in
          rw
            (
              total',
              said,
              visited,
              each',
              add64_fits at size (omega arith),
              add64_fits p entry_size (omega arith),
              lt→ltb p (at + size) (omega arith),
            )
            refl
