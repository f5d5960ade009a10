-- ===== src/Kernel/Console/Lines.antt =====
-- One line of kinit on the serial port.
use cr_ow_s.Base.{
  ℕ, ◌%◌, ◌^◌, ◌≤◌, ◌<◌, ◌≡◌, refl, ap, ◌∙◌, true, List, [], ◌∷◌, ◌++◌, Option, some, arith, length,
  length-append, lt→ltb,
}
use cr_ow_s.Base.Memory.{Memory}
use cr_ow_s.Kernel.{}
use cr_ow_s.Kernel.Init.Entries.{Entry}
use cr_ow_s.Kernel.Str.{Arg, hex_text, decimal_text, convert}
use cr_ow_s.Kernel.Str.Clearing.{}
use cr_ow_s.Kernel.Str.Exact.{
  expand, write_text, snprintf-exact, length-hex_text, length-decimal_text,
}
use cr_ow_s.Kernel.Console.{line_bytes, entry_line, map_line, with_memory, sent, say}
use cr_ow_s.Kernel.Console.Buffer.{
  bytes, overlay, before_nul, last_byte, Agrees, write_text-Agrees, bytes-write_text,
  last_byte-overlay, length-bytes, string_at_lem,
}

-- A line with the text: what is sent is the text and what is left of the older bytes behind it, up
-- to a NUL; the rest of memory stays.
pub record Said (line : ℕ) (text cells : List ℕ) (m : Memory) (r : Option (Memory × List ℕ))
    : Type 0 where
  pub after : Memory
  pub result : r ≡ some (after, before_nul (overlay text cells))
  pub laid : bytes line line_bytes after ≡ overlay text cells
  pub kept : Agrees line line_bytes m after

module _ (stale : List ℕ) (reads line : ℕ) (enough : line_bytes ≤ reads) where
  pub say-Said :
      (fmt : List ℕ) (args : List Arg) (m : Memory) (text : List ℕ)
      → expand stale fmt args ≡ some text
      → length text < line_bytes
      → last_byte (bytes line line_bytes m) ≡ 0
      → Said line text (bytes line line_bytes m) m (say stale reads line fmt args m)
  unfolding say
  say-Said fmt args m text e short ended =
      let laid = bytes-write_text text line_bytes line m in
      let still : last_byte (bytes line line_bytes (write_text text line m)) ≡ 0 =
        ap last_byte laid
        ∙ last_byte-overlay text (bytes line line_bytes m)
            (omega (arith, short, length-bytes line_bytes line m))
        ∙ ended in
      record {
        after = write_text text line m;
        result =
            ap (sent reads line) (snprintf-exact stale line line_bytes fmt args m text e short)
            ∙ ap (with_memory (write_text text line m))
                (string_at_lem line_bytes reads line (write_text text line m) still enough)
            ∙ ap (λ c. some (write_text text line m, before_nul c)) laid;
        laid = laid;
        kept = write_text-Agrees text line line_bytes m (omega (arith, short));
      }

abbrev base_label : List ℕ
base_label = b' ' ∷ b' ' ∷ b' ' ∷ b'B' ∷ b'a' ∷ b's' ∷ b'e' ∷ b' ' ∷ b'0' ∷ b'x' ∷ []

abbrev length_label : List ℕ
length_label =
    b' ' ∷ b'-' ∷ b'-' ∷ b' ' ∷ b'L' ∷ b'e' ∷ b'n' ∷ b'g' ∷ b't' ∷ b'h' ∷ b' ' ∷ b'0' ∷ b'x' ∷ []

abbrev type_label : List ℕ
type_label = b' ' ∷ b'-' ∷ b'-' ∷ b' ' ∷ b'T' ∷ b'y' ∷ b'p' ∷ b'e' ∷ b' ' ∷ []

-- The line of an entry, with the low halves of its address and length.
unfoldable pub entry_text : List ℕ → Entry → List ℕ
entry_text stale e =
    base_label
    ++ (hex_text stale true (e.base % 2 ^ 32)
        ++ (length_label
            ++ (hex_text stale true (e.length % 2 ^ 32)
                ++ (type_label ++ (decimal_text (e.type % 2 ^ 32) ++ (13 ∷ 10 ∷ []))))))

abbrev pub entry_args : Entry → List Arg
entry_args e = Arg.number e.base ∷ Arg.number e.length ∷ Arg.number e.type ∷ []

module _ (stale : List ℕ) (e : Entry) where
  pub expand-entry_text :
      e.type % 2 ^ 32 < 2 ^ 31 → expand stale entry_line (entry_args e) ≡ some (entry_text stale e)
  unfolding expand convert entry_text
  expand-entry_text small = rw (lt→ltb (e.type % 2 ^ 32) (2 ^ 31) small) refl

  pub length-entry_text : length stale ≤ 80 → length (entry_text stale e) < line_bytes
  unfolding entry_text
  length-entry_text short = omega (
    arith,
    short,
    length-append (hex_text stale true (e.base % 2 ^ 32)) _,
    length-append (hex_text stale true (e.length % 2 ^ 32)) _,
    length-append (decimal_text (e.type % 2 ^ 32)) (13 ∷ 10 ∷ []),
    length-hex_text stale true (e.base % 2 ^ 32),
    length-hex_text stale true (e.length % 2 ^ 32),
    length-decimal_text (e.type % 2 ^ 32),
  )

abbrev map_label : List ℕ
map_label =
    b'I' ∷ b't' ∷ b'e' ∷ b'r' ∷ b'a' ∷ b't' ∷ b'i' ∷ b'n' ∷ b'g' ∷ b' ' ∷ b'M' ∷ b'e' ∷ b'm' ∷ b'o'
    ∷ b'r' ∷ b'y' ∷ b' ' ∷ b'M' ∷ b'a' ∷ b'p' ∷ b' ' ∷ b'p' ∷ b'r' ∷ b'o' ∷ b'v' ∷ b'i' ∷ b'd'
    ∷ b'e' ∷ b'd' ∷ b' ' ∷ b'b' ∷ b'y' ∷ b' ' ∷ b'M' ∷ b'u' ∷ b'l' ∷ b't' ∷ b'i' ∷ b'b' ∷ b'o'
    ∷ b'o' ∷ b't' ∷ b'2' ∷ b' ' ∷ b'(' ∷ []

abbrev bytes_label : List ℕ
bytes_label = b' ' ∷ b'b' ∷ b'y' ∷ b't' ∷ b'e' ∷ b's' ∷ b',' ∷ b' ' ∷ []

abbrev entries_label : List ℕ
entries_label = b' ' ∷ b'e' ∷ b'n' ∷ b't' ∷ b'r' ∷ b'i' ∷ b'e' ∷ b's' ∷ b')' ∷ b'.' ∷ 13 ∷ 10 ∷ []

-- The line before the loop.
pub map_text : ℕ → ℕ → List ℕ
map_text size entries =
    map_label
    ++ (decimal_text (size % 2 ^ 32)
        ++ (bytes_label ++ (decimal_text (entries % 2 ^ 32) ++ entries_label)))

pub expand-map_text :
    (stale : List ℕ) (size entries : ℕ)
    → expand stale map_line (Arg.number size ∷ Arg.number entries ∷ [])
      ≡ some (map_text size entries)
unfolding expand convert map_text
expand-map_text stale size entries = refl

pub length-map_text : (size entries : ℕ) → length (map_text size entries) < line_bytes
unfolding map_text
length-map_text size entries = omega (
  arith,
  length-append (decimal_text (size % 2 ^ 32)) _,
  length-append (decimal_text (entries % 2 ^ 32)) _,
  length-decimal_text (size % 2 ^ 32),
  length-decimal_text (entries % 2 ^ 32),
)
