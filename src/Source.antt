-- ===== src/Source.antt =====
-- Source locations: src/source.rs. Text is the list of its UTF-8 bytes, and a line or a column is
-- a `usize`, whose increment stops at the largest value.
pub mod Advance
use Prim.Native.Nat.{min}
use net_lang.Prelude.{ℕ, suc, ◌-◌, ◌^◌, List, [], ◌∷◌, ◌==◌, if◌then◌else◌}

pub record Position : Type 0 where
  pub line : ℕ
  pub column : ℕ

pub record Span : Type 0 where
  pub start : Position
  pub end : Position

abbrev pub usize_max : ℕ
usize_max = 2 ^ 64 - 1

-- `n.saturating_add(1)` on a `usize`.
abbrev pub saturating_suc : ℕ → ℕ
saturating_suc n = min (suc n) usize_max

unfoldable pub point : ℕ → ℕ → Span
point line column = record {
  start = record { line = line; column = column };
  end = record { line = line; column = column };
}

-- One round of the loop over the bytes.
unfoldable pub advance_byte : Position → ℕ → Position
advance_byte p byte =
    if byte == 10
    then record { line = saturating_suc p.line; column = 1 }
    else record p { column = saturating_suc p.column }

unfoldable pub advance_text : Position → List ℕ → Position
unfolding advance_byte
advance_text p [] = p
advance_text p (b ∷ text) = advance_text (advance_byte p b) text

unfoldable pub from_text : Position → List ℕ → Span
unfolding advance_text
from_text start text = record { start = start; end = advance_text start text }
