-- ===== src/Parser/Reads/Streams.antt =====
-- The token streams that `Parser::new` of src/parser/mod.rs takes.
use net_lang.Prelude.{
  ℕ, zero, suc, ◌<◌, ◌≡◌, refl, ap, String, Bool, true, some, List, [], ◌∷◌, arith, length,
  get_elem?, Bool-cases, inl, inr, ◌↔◌,
}
use net_lang.Lexer.Token.{TokenKind, Token, kind_eq}
use net_lang.Parser.State.{Input, ok, ends_at_eof, new_parser}
use net_lang.Parser.Reads.{IsClosed}

-- A stream that `Parser::new` takes has no EOF token before its last.
pub ends_at_eof→IsClosed :
    (utf8 : String → List ℕ) (ts : List Token) → ends_at_eof utf8 ts ≡ true → IsClosed ts
unfolding ends_at_eof
ends_at_eof→IsClosed utf8 [] h j t e n = absurd (cc)
ends_at_eof→IsClosed utf8 (t ∷ []) h zero u e n = absurd (ground arith)
ends_at_eof→IsClosed utf8 (t ∷ []) h (suc j) u e n = absurd (cc)
ends_at_eof→IsClosed utf8 (t ∷ u ∷ ts) h zero v e n = omega arith
ends_at_eof→IsClosed utf8 (t ∷ u ∷ ts) h (suc j) v e n =
    omega (arith, ends_at_eof→IsClosed utf8 (u ∷ ts) (ground arith) j v e n)

-- An EOF token of such a stream is the last.
pub eof_is_last :
    (utf8 : String → List ℕ) (ts : List Token) (j : ℕ) (t : Token)
    → ends_at_eof utf8 ts ≡ true
    → get_elem? ts j ≡ some t
    → kind_eq t.kind TokenKind.eof ≡ true
    → suc j ≡ length ts
unfolding ends_at_eof
eof_is_last utf8 [] j t h e y = absurd (cc)
eof_is_last utf8 (u ∷ []) zero t h e y = omega arith
eof_is_last utf8 (u ∷ []) (suc j) t h e y = absurd (cc)
eof_is_last utf8 (u ∷ v ∷ ts) zero t h e y = absurd (ground arith)
eof_is_last utf8 (u ∷ v ∷ ts) (suc j) t h e y =
    ap suc (eof_is_last utf8 (v ∷ ts) j t (ground arith) e y)

pub ends_at_eof-nonempty :
    (utf8 : String → List ℕ) (ts : List Token) → ends_at_eof utf8 ts ≡ true → 0 < length ts
unfolding ends_at_eof
ends_at_eof-nonempty utf8 [] h = absurd (cc)
ends_at_eof-nonempty utf8 (t ∷ ts) h = omega arith

-- What `Parser::new` takes.
pub new_parser-ok :
    (utf8 : String → List ℕ) (tokens : List Token) (spans : Bool) {i : Input}
    → new_parser utf8 tokens spans ≡ ok i
    → (i.tokens ≡ tokens) × (ends_at_eof utf8 tokens ≡ true)
unfolding new_parser
new_parser-ok utf8 tokens spans h = ground arith

-- One EOF token, at the end.
abbrev pub HasOneEof : List Token → Type 0
HasOneEof tokens =
    (0 < length tokens)
    × ((j : ℕ) (t : Token)
        → get_elem? tokens j ≡ some t
        → (kind_eq t.kind TokenKind.eof ≡ true) ↔ (suc j ≡ length tokens))

HasOneEof→ends :
    (utf8 : String → List ℕ) (ts : List Token) → HasOneEof ts → ends_at_eof utf8 ts ≡ true
unfolding ends_at_eof
HasOneEof→ends utf8 [] (n, h) = absurd (omega arith)
HasOneEof→ends utf8 (t ∷ []) (n, h) = (h 0 t refl).1 refl
HasOneEof→ends utf8 (t ∷ u ∷ ts) (n, h) = elim (Bool-cases (kind_eq t.kind TokenKind.eof)) [
  | inl y ↦ absurd (omega (arith, (h 0 t refl).0 y))
  | inr m ↦ rw m (
      HasOneEof→ends utf8 (u ∷ ts) (
        omega arith,
        λ j v e. (λ y. omega (arith, (h (suc j) v e).0 y), λ y. (h (suc j) v e).1 (ap suc y)),
      ))
]

ends→HasOneEof :
    (utf8 : String → List ℕ) (ts : List Token) → ends_at_eof utf8 ts ≡ true → HasOneEof ts
ends→HasOneEof utf8 ts h = (
  ends_at_eof-nonempty utf8 ts h,
  λ j t e. (
    eof_is_last utf8 ts j t h e,
    λ l. elim (Bool-cases (kind_eq t.kind TokenKind.eof)) [
      | inl y ↦ y
      | inr n ↦ absurd (omega (arith, ends_at_eof→IsClosed utf8 ts h j t e n))
    ],
  ),
)

-- `Parser::new` takes a token stream exactly where it is not empty and its EOF tokens are the one
-- at the last index.
pub new_parser_iff :
    (utf8 : String → List ℕ) (tokens : List Token) (spans : Bool)
    → ((i : Input) × (new_parser utf8 tokens spans ≡ ok i)) ↔ HasOneEof tokens
unfolding new_parser
new_parser_iff utf8 tokens spans = (
  λ (i, e). ends→HasOneEof utf8 tokens (new_parser-ok utf8 tokens spans e).1,
  λ h. (record { tokens = tokens; spans = spans }, rw (HasOneEof→ends utf8 tokens h)),
)
