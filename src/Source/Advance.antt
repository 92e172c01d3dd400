-- ===== src/Source/Advance.antt =====
-- Where a text ends: the loop of `Span::from_text` in src/source.rs.
use Prim.Native.Nat.{min}
use net_lang.Prelude.{ℕ, suc, ◌+◌, ◌≤◌, ◌≡◌, arith, List, [], ◌∷◌, ◌==◌, if◌then◌else◌}
use net_lang.Source.{Position, usize_max, advance_byte, advance_text, from_text}

-- The newlines of a text.
abbrev pub count_newlines : List ℕ → ℕ
count_newlines [] = 0
count_newlines (b ∷ text) = if b == 10 then suc (count_newlines text) else count_newlines text

-- A span ends as many lines further as its text has newlines, up to the largest `usize`.
pub from_text-line :
    (start : Position) (text : List ℕ)
    → start.line ≤ usize_max
    → (from_text start text).end.line ≡ min (start.line + count_newlines text) usize_max
unfolding from_text advance_text advance_byte
from_text-line start [] h = ground arith
from_text-line start (b ∷ text) h = ground (arith, from_text-line (advance_byte start b) text)
