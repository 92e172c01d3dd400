-- ===== src/Diagnostic.antt =====
-- The rendering of errors: src/diagnostic.rs. `show` is Rust's decimal form of a number.
pub mod Marker
use Prim.Native.Char.{Char, code}
use Prim.Native.Nat.{max}
use Prim.Native.String
use Prim.Native.String.{◌++◌}
use net_lang.Prelude.{
  ℕ, zero, suc, ◌+◌, ◌-◌, String, Bool, true, false, Option, none, some, List, [], ◌∷◌, ◌==◌, ltb,
  get_elem?, if◌then◌else◌,
}
use net_lang.Source.{Position, Span, point}

-- `char::len_utf8`.
abbrev pub len_utf8 : Char → ℕ
len_utf8 c =
    if ltb (code c) 0x80
    then 1
    else if ltb (code c) 0x800
    then 2
    else if ltb (code c) 0x10000
    then 3
    else 4

-- `str::len`.
unfoldable pub byte_length : String → ℕ
byte_length String.[] = 0
byte_length (String.◌∷◌ c s) = len_utf8 c + byte_length s

abbrev pub to_first : Char → List String → List String
to_first c [] = []
to_first c (line ∷ lines) = String.◌∷◌ c line ∷ lines

-- `source.split('\n')`.
unfoldable pub split_lines : String → List String
split_lines String.[] = String.[] ∷ []
split_lines (String.◌∷◌ c s) =
    let rest = split_lines s in if code c == 10 then String.[] ∷ rest else to_first c rest

abbrev pub trim_one : Char → String → String
trim_one c String.[] = if code c == 13 then String.[] else String.◌∷◌ c String.[]
trim_one c (String.◌∷◌ d s) = String.◌∷◌ c (String.◌∷◌ d s)

-- `trim_end_matches('\r')`.
unfoldable pub trim_returns : String → String
trim_returns String.[] = String.[]
trim_returns (String.◌∷◌ c s) = trim_one c (trim_returns s)

abbrev pub char_width : Char → ℕ
char_width c = if code c == 9 then 4 else 1

-- The width of the characters that begin below a byte limit; `offset` is where the text begins.
unfoldable pub width_from : ℕ → ℕ → String → ℕ
width_from limit offset String.[] = 0
width_from limit offset (String.◌∷◌ c s) =
    let rest = width_from limit (offset + len_utf8 c) s in
    if ltb offset limit then char_width c + rest else 0

unfoldable pub display_width : String → ℕ → ℕ
display_width line limit = width_from limit 0 line

unfoldable pub source_line : String → ℕ → String
source_line source line = elim (get_elem? (split_lines source) (line - 1)) [
  | some text ↦ trim_returns text
  | none ↦ String.[]
]

-- The byte at which the marked range of the line ends.
unfoldable pub end_byte : String → Span → ℕ
end_byte text span =
    let line = max span.start.line 1 in
    if ltb line span.end.line
    then byte_length text
    else if span.end.line == line
    then span.end.column - 1
    else max span.start.column 1 - 1

-- The padding before the caret, and the length of the caret and its tail.
unfoldable pub caret_column : String → Span → ℕ
caret_column text span = display_width text (max span.start.column 1 - 1)

unfoldable pub marker_width : String → Span → ℕ
marker_width text span = max (display_width text (end_byte text span) - caret_column text span) 1

abbrev pub four_spaces : String → String
four_spaces s = String.◌∷◌ " " (String.◌∷◌ " " (String.◌∷◌ " " (String.◌∷◌ " " s)))

-- `source_line.replace('\t', "    ")`.
unfoldable pub expand_tabs : String → String
expand_tabs String.[] = String.[]
expand_tabs (String.◌∷◌ c s) =
    if code c == 9 then four_spaces (expand_tabs s) else String.◌∷◌ c (expand_tabs s)

unfoldable pub repeat_text : ℕ → String → String
repeat_text zero s = String.[]
repeat_text (suc n) s = s ++ repeat_text n s

module _ (show : ℕ → String) where
  unfoldable pub render_span : String → String → Span → String → String
  render_span filename source span message =
      let line = max span.start.line 1 in
      let column = max span.start.column 1 in
      let text = source_line source line in
      let gutter = repeat_text (byte_length (show line)) " " in
      "error: "
      ++ message
      ++ "\n "
      ++ gutter
      ++ "--> "
      ++ filename
      ++ ":"
      ++ show line
      ++ ":"
      ++ show column
      ++ "\n"
      ++ show line
      ++ " | "
      ++ expand_tabs text
      ++ "\n "
      ++ gutter
      ++ "| "
      ++ repeat_text (caret_column text span) " "
      ++ "^"
      ++ repeat_text (marker_width text span - 1) "~"
      ++ "\n"
      ++ (if ltb line span.end.line
          then "  = span continues to " ++ show span.end.line ++ ":" ++ show span.end.column ++ "\n"
          else "")

  unfoldable pub render : String → String → ℕ → ℕ → String → String
  render filename source line column message =
      render_span filename source (point line column) message
