-- ===== src/Parser/Literal/RoundTrip.antt =====
-- Writing a text as a string literal, and reading it: `decode_string` of src/parser/expression.rs.
use Prim.Native.Char.{Char, code}
use package.text.Mathlib.TextEquality.{Char-path, eq_iff}
use net_lang.Prelude.{
  ◌≡◌, refl, sym, subst, String, true, false, Option, none, some, ◌==◌, ==_iff, Bool-cases, inl,
  inr, if◌then◌else◌,
}
use net_lang.Prelude.Text.{str_eq}
use net_lang.Parser.Literal.{strip_prefix, strip_suffix, unescape, decode, text, decode_string}

-- The letter that stands after a backslash for a quote, a backslash, a newline, a carriage return or a
-- tab.
escaped : Char → Option Char
escaped c =
    if code c == b'"'
    then some "\""
    else if code c == b'\\'
    then some "\\"
    else if code c == 10
    then some "n"
    else if code c == 13
    then some "r"
    else if code c == 9
    then some "t"
    else none

-- A text with these characters written by a backslash and a letter, before what follows.
escape : String → String → String
escape String.[] rest = rest
escape (String.◌∷◌ c s) rest =
    let later = escape s rest in
    elim (escaped c) [ some d ↦ String.◌∷◌ "\\" (String.◌∷◌ d later) | none ↦ String.◌∷◌ c later ]

pub quote : String → String
quote s = String.◌∷◌ "\"" (escape s "\"")

-- The rule STRING of lexer/netlang.l, after its first quote: characters that are no quote, no
-- backslash and no line break, or a backslash with one of its letters, and the last quote.
pub data IsRest : String → Type 0 where
  last : IsRest "\""
  plain :
      (c : Char) (s : String)
      → (code c == b'"') ≡ false
      → (code c == b'\\') ≡ false
      → (code c == 10) ≡ false
      → (code c == 13) ≡ false
      → IsRest s
      → IsRest (String.◌∷◌ c s)
  newline : (s : String) → IsRest s → IsRest (String.◌∷◌ "\\" (String.◌∷◌ "n" s))
  tab : (s : String) → IsRest s → IsRest (String.◌∷◌ "\\" (String.◌∷◌ "t" s))
  return_ : (s : String) → IsRest s → IsRest (String.◌∷◌ "\\" (String.◌∷◌ "r" s))
  quoted : (s : String) → IsRest s → IsRest (String.◌∷◌ "\\" (String.◌∷◌ "\"" s))
  backslash : (s : String) → IsRest s → IsRest (String.◌∷◌ "\\" (String.◌∷◌ "\\" s))

abbrev pub IsStringToken : String → Type 0
IsStringToken lexeme = (s : String) × ((lexeme ≡ String.◌∷◌ "\"" s) × IsRest s)

-- What is known of a character by its escape.
data Escape (c : Char) : Option Char → Type 0 where
  bare :
      (code c == b'"') ≡ false
      → (code c == b'\\') ≡ false
      → (code c == 10) ≡ false
      → (code c == 13) ≡ false
      → Escape c none
  letter :
      (d : Char)
      → unescape d ≡ some c
      → ((s : String) → IsRest s → IsRest (String.◌∷◌ "\\" (String.◌∷◌ d s)))
      → Escape c (some d)

same_char : (c d : Char) → (code c == code d) ≡ true → d ≡ c
same_char c d h = sym (Char-path c d ((==_iff (code c) (code d)).0 h))

known :
    (c d e : Char)
    → (code c == code e) ≡ true
    → unescape d ≡ some e
    → ((s : String) → IsRest s → IsRest (String.◌∷◌ "\\" (String.◌∷◌ d s)))
    → Escape c (some d)
known c d e h u r = Escape.letter d (subst (λ x. unescape d ≡ some x) (same_char c e h) u) r

escaped-Escape : (c : Char) → Escape c (escaped c)
unfolding escaped unescape
escaped-Escape c = elim (Bool-cases (code c == b'"')) [
  | inl y ↦ rw y (known c "\"" "\"" y refl quoted)
  | inr a ↦ elim (Bool-cases (code c == b'\\')) [
    | inl y ↦ rw (a, y) (known c "\\" "\\" y refl backslash)
    | inr b ↦ elim (Bool-cases (code c == 10)) [
      | inl y ↦ rw (a, b, y) (known c "n" "\n" y refl newline)
      | inr d ↦ elim (Bool-cases (code c == 13)) [
        | inl y ↦ rw (a, b, d, y) (known c "r" "\r" y refl return_)
        | inr e ↦ elim (Bool-cases (code c == 9)) [
          | inl y ↦ rw (a, b, d, e, y) (known c "t" "\t" y refl tab)
          | inr f ↦ rw (a, b, d, e, f) (Escape.bare a b d e)
        ]
      ]
    ]
  ]
]

escape-IsRest : (s : String) → IsRest (escape s "\"")
unfolding escape
escape-IsRest String.[] = last
escape-IsRest (String.◌∷◌ c s) = go (escaped c) (escaped-Escape c) (escape-IsRest s)
  where
    go :
        (o : Option Char)
        → Escape c o
        → IsRest (escape s "\"")
        → IsRest (elim o [
          | some d ↦ String.◌∷◌ "\\" (String.◌∷◌ d (escape s "\""))
          | none ↦ String.◌∷◌ c (escape s "\"")
        ])
    go none (Escape.bare a b l e) r = plain c (escape s "\"") a b l e r
    go (some d) (Escape.letter _ u f) r = f (escape s "\"") r

decode-plain :
    (c : Char) (s : String) {r : String}
    → (code c == b'\\') ≡ false
    → decode s ≡ some r
    → decode (String.◌∷◌ c s) ≡ some (String.◌∷◌ c r)
unfolding decode
decode-plain c String.[] h e = rw h (cc)
decode-plain c (String.◌∷◌ d s) h e = rw (h, e)

decode-escaped :
    (d e : Char) (s : String) {r : String}
    → unescape d ≡ some e
    → decode s ≡ some r
    → decode (String.◌∷◌ "\\" (String.◌∷◌ d s)) ≡ some (String.◌∷◌ e r)
unfolding decode
decode-escaped d e s h g = rw (h, g)

decode-escape : (s : String) → decode (escape s "") ≡ some s
unfolding escape decode
decode-escape String.[] = refl
decode-escape (String.◌∷◌ c s) = go (escaped c) (escaped-Escape c) (decode-escape s)
  where
    go :
        (o : Option Char)
        → Escape c o
        → decode (escape s "") ≡ some s
        → decode (elim o [
          | some d ↦ String.◌∷◌ "\\" (String.◌∷◌ d (escape s ""))
          | none ↦ String.◌∷◌ c (escape s "")
        ])
          ≡ some (String.◌∷◌ c s)
    go none (Escape.bare a b l e) ih = decode-plain c (escape s "") b ih
    go (some d) (Escape.letter _ u f) ih = decode-escaped d c (escape s "") u ih

longer : (c d : Char) (x : String) → str_eq (String.◌∷◌ c (String.◌∷◌ d x)) "\"" ≡ false
longer c d x = elim (Bool-cases (str_eq (String.◌∷◌ c (String.◌∷◌ d x)) "\"")) [
  | inl y ↦ absurd (cc ((eq_iff (String.◌∷◌ c (String.◌∷◌ d x)) "\"").0 y))
  | inr n ↦ n
]

-- The last quote is taken off, and no other.
strip_suffix-keep :
    (c : Char) (x : String) {y : String}
    → strip_suffix "\"" x ≡ some y
    → strip_suffix "\"" (String.◌∷◌ c x) ≡ some (String.◌∷◌ c y)
unfolding strip_suffix
strip_suffix-keep c String.[] h = absurd (cc)
strip_suffix-keep c (String.◌∷◌ d x) h = rw (longer c d x, h)

only_quote : strip_suffix "\"" "\"" ≡ some ""
unfolding strip_suffix
only_quote = refl

strip_suffix-escape : (s : String) → strip_suffix "\"" (escape s "\"") ≡ some (escape s "")
unfolding escape
strip_suffix-escape String.[] = only_quote
strip_suffix-escape (String.◌∷◌ c s) = go (escaped c) (strip_suffix-escape s)
  where
    go :
        (o : Option Char)
        → strip_suffix "\"" (escape s "\"") ≡ some (escape s "")
        → strip_suffix "\"" (elim o [
          | some d ↦ String.◌∷◌ "\\" (String.◌∷◌ d (escape s "\""))
          | none ↦ String.◌∷◌ c (escape s "\"")
        ])
          ≡ some (elim o [
            | some d ↦ String.◌∷◌ "\\" (String.◌∷◌ d (escape s ""))
            | none ↦ String.◌∷◌ c (escape s "")
          ])
    go none ih = strip_suffix-keep c _ ih
    go (some d) ih = strip_suffix-keep "\\" _ (strip_suffix-keep d _ ih)

strip_prefix-quote : (s : String) → strip_prefix "\"" (quote s) ≡ some (escape s "\"")
unfolding strip_prefix quote
strip_prefix-quote s = refl

-- Every text is the value of a string token: written with escapes for quotes, backslashes, newlines,
-- carriage returns and tabs and a quote at both ends, it matches the lexer's rule for strings and is
-- decoded to itself.
pub decode_string-quote :
    (s : String) → IsStringToken (quote s) × (decode_string (quote s) ≡ text s)
unfolding decode_string quote
decode_string-quote s = (
  (escape s "\"", (refl, escape-IsRest s)),
  rw (strip_prefix-quote s, strip_suffix-escape s, decode-escape s, decode_string),
)
