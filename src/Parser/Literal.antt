-- ===== src/Parser/Literal.antt =====
-- The literals of the parser: `integer`, `decode_string` and the durations of
-- src/parser/expression.rs, with what Rust's `str` does for them.
pub mod RoundTrip
use Prim.Native.Char.{Char, code}
use net_lang.Prelude.{
  ℕ, ◌+◌, ◌-◌, ◌*◌, ◌^◌, String, Bool, true, false, ◌&&◌, Option, none, some, ◌==◌, leb, ltb,
  if◌then◌else◌,
}
use net_lang.Prelude.Int.{ℤ, pos, sub_ℕ, checked}
use net_lang.Prelude.Text.{str_eq}

-- `char::to_digit(10)`.
unfoldable pub digit : Char → Option ℕ
digit c = if leb b'0' (code c) && leb (code c) b'9' then some (code c - b'0') else none

-- The number that decimal digits write, after `n`; nothing at a character that is no digit.
unfoldable pub digits_from : ℕ → String → Option ℕ
digits_from n String.[] = some n
digits_from n (String.◌∷◌ c s) = elim (digit c) [
  | some d ↦ digits_from (10 * n + d) s
  | none ↦ none
]

-- At least one digit.
unfoldable pub digits : String → Option ℕ
digits String.[] = none
digits (String.◌∷◌ c s) = digits_from 0 (String.◌∷◌ c s)

-- `str::parse::<u64>`: a plus sign may stand before the digits.
unfoldable pub parse_u64 : String → Option ℕ
parse_u64 String.[] = none
parse_u64 (String.◌∷◌ c s) = elim (if code c == b'+' then digits s else digits (String.◌∷◌ c s)) [
  | some n ↦ if ltb n (2 ^ 64) then some n else none
  | none ↦ none
]

abbrev signed : Bool → Option ℕ → Option ℤ
signed negative none = none
signed true (some n) = checked (sub_ℕ 0 n)
signed false (some n) = checked (pos n)

-- `str::parse::<i64>`: either sign may stand before the digits.
unfoldable pub parse_i64 : String → Option ℤ
parse_i64 String.[] = none
parse_i64 (String.◌∷◌ c s) =
    if code c == b'-'
    then signed true (digits s)
    else signed false (if code c == b'+' then digits s else digits (String.◌∷◌ c s))

unfoldable pub strip_prefix : Char → String → Option String
strip_prefix p String.[] = none
strip_prefix p (String.◌∷◌ c s) = if code c == code p then some s else none

-- `str::strip_suffix`.
unfoldable pub strip_suffix : String → String → Option String
strip_suffix suffix String.[] = if str_eq String.[] suffix then some String.[] else none
strip_suffix suffix (String.◌∷◌ c s) =
    let rest = strip_suffix suffix s in
    if str_eq (String.◌∷◌ c s) suffix
    then some String.[]
    else elim rest [ some r ↦ some (String.◌∷◌ c r) | none ↦ none ]

-- `n.checked_mul(multiplier)` on a `u64`.
abbrev pub scaled : ℕ → Option ℕ → Option ℕ
scaled multiplier none = none
scaled multiplier (some n) = if ltb (n * multiplier) (2 ^ 64) then some (n * multiplier) else none

pub data Duration : Type 0 where
  milliseconds : ℕ → Duration
  no_unit out_of_range : Duration

abbrev of_scaled : Option ℕ → Duration
of_scaled (some n) = milliseconds n
of_scaled none = out_of_range

-- A duration in milliseconds, seconds or minutes.
unfoldable pub duration : String → Duration
duration lexeme = elim (strip_suffix "ms" lexeme) [
  | some n ↦ of_scaled (scaled 1 (parse_u64 n))
  | none ↦ elim (strip_suffix "s" lexeme) [
    | some n ↦ of_scaled (scaled 1000 (parse_u64 n))
    | none ↦ elim (strip_suffix "m" lexeme) [
      | some n ↦ of_scaled (scaled 60000 (parse_u64 n))
      | none ↦ no_unit
    ]
  ]
]

-- The character that a backslash and this one stand for.
unfoldable pub unescape : Char → Option Char
unescape c =
    if code c == b'n'
    then some "\n"
    else if code c == b't'
    then some "\t"
    else if code c == b'r'
    then some "\r"
    else if code c == b'"'
    then some "\""
    else if code c == b'\\'
    then some "\\"
    else none

-- The text between the quotes, decoded; nothing at an escape that is not supported.
unfoldable pub decode : String → Option String
decode String.[] = some String.[]
decode (String.◌∷◌ c String.[]) = if code c == b'\\' then none else some (String.◌∷◌ c String.[])
decode (String.◌∷◌ c (String.◌∷◌ d s)) =
    let plain = decode (String.◌∷◌ d s) in
    let escaped = decode s in
    if code c == b'\\'
    then elim (unescape d) [
      | some e ↦ elim escaped [ some r ↦ some (String.◌∷◌ e r) | none ↦ none ]
      | none ↦ none
    ]
    else elim plain [ some r ↦ some (String.◌∷◌ c r) | none ↦ none ]

pub data Decoded : Type 0 where
  text : String → Decoded
  no_quotes bad_escape : Decoded

-- The text of a string token, whose lexeme has the quotes.
unfoldable pub decode_string : String → Decoded
decode_string lexeme = elim (strip_prefix "\"" lexeme) [
  | none ↦ no_quotes
  | some rest ↦ elim (strip_suffix "\"" rest) [
    | none ↦ no_quotes
    | some content ↦ elim (decode content) [ some s ↦ text s | none ↦ bad_escape ]
  ]
]
