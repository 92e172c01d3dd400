-- ===== src/Diagnostic/Marker.antt =====
-- Where the caret and its tail stand: src/diagnostic.rs.
use Prim.Native.Nat.{max}
use net_lang.Prelude.{ℕ, suc, ◌+◌, ◌-◌, ◌≤◌, String, arith}
use net_lang.Source.{Span}
use net_lang.Diagnostic.{
  len_utf8, width_from, display_width, end_byte, caret_column, marker_width, expand_tabs,
}

-- The number of characters of a text.
pub char_count : String → ℕ
char_count String.[] = 0
char_count (String.◌∷◌ c s) = suc (char_count s)

-- No limit shows more than the line with its tabs expanded.
width_from-le :
    (limit offset : ℕ) (s : String) → width_from limit offset s ≤ char_count (expand_tabs s)
unfolding width_from char_count expand_tabs
width_from-le limit offset String.[] = omega arith
width_from-le limit offset (String.◌∷◌ c s) =
    ground (arith, width_from-le limit (offset + len_utf8 c) s)

-- The caret stands under the line as it is shown, or right after it, and so does each mark of its
-- tail; there is one mark at least.
pub marker_bounds :
    (text : String) (span : Span)
    → (1 ≤ marker_width text span)
      × (caret_column text span + marker_width text span ≤ char_count (expand_tabs text) + 1)
unfolding marker_width caret_column display_width
marker_bounds text span =
    let h = width_from-le (max span.start.column 1 - 1) 0 text in
    let k = width_from-le (end_byte text span) 0 text in ground arith
