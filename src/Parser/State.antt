-- ===== src/Parser/State.antt =====
-- The parser's state and small methods: src/parser/mod.rs. The tokens and the choice of spans stay
-- the same for a parse; the position comes back also after an error.
use net_lang.Prelude.{
  ℕ, zero, suc, ◌-◌, String, Bool, true, false, Option, none, some, List, [], ◌∷◌, get_elem?,
  length, if◌then◌else◌,
}
use net_lang.Source.{Position, Span, point}
use net_lang.Ast.{F64}
use net_lang.Lexer.Token.{TokenKind, Token, kind_eq, token_span}

pub record ParseError : Type 0 where
  pub message : String
  pub line : ℕ
  pub column : ℕ
  pub span : Span

pub record Input : Type 0 where
  pub tokens : List Token
  pub spans : Bool

pub record Cursor : Type 0 where
  pub current : ℕ
  -- Whether a name and an opening brace begin a constructor.
  pub constructors : Bool

-- What Rust's own library does for a parser: the encoding of a text and the reading of a float, with
-- the answer whether it is finite.
pub record Reader : Type 0 where
  pub utf8 : String → List ℕ
  pub parse_float : String → Option F64
  pub is_finite : F64 → Bool

-- `panicked` is an index out of range, and `out_of_fuel` is the model's own.
pub data Outcome (A : Type 0) : Type 0 where
  ok : A → Outcome A
  err : ParseError → Outcome A
  panicked out_of_fuel : Outcome A

abbrev pub P : Type 0 → Type 0
P A = Input → Cursor → Outcome A × Cursor

abbrev pub pure : {A : Type 0} → A → P A
pure a i s = (ok a, s)

-- Go on from the end of a method, if it has a result.
abbrev pub go_on : {A B : Type 0} → Outcome A × Cursor → (A → P B) → Input → Outcome B × Cursor
go_on (ok a, s) f i = f a i s
go_on (err e, s) f i = (err e, s)
go_on (panicked, s) f i = (panicked, s)
go_on (out_of_fuel, s) f i = (out_of_fuel, s)

infixl 5 ◌>>=◌ ◌>>◌
abbrev pub ◌>>=◌ : {A B : Type 0} → P A → (A → P B) → P B
◌>>=◌ m f i s = go_on (m i s) f i

abbrev pub ◌>>◌ : {A B : Type 0} → P A → P B → P B
m >> k = m >>= λ _. k

abbrev pub exhausted : {A : Type 0} → P A
exhausted i s = (out_of_fuel, s)

abbrev pub spans_wanted : P Bool
spans_wanted i s = (ok i.spans, s)

-- `self.tokens[index]`.
unfoldable pub token_at : ℕ → P Token
token_at index i s = elim (get_elem? i.tokens index) [ some t ↦ (ok t, s) | none ↦ (panicked, s) ]

unfoldable pub peek : P Token
peek i s = token_at s.current i s

-- The index before the first token is out of range too.
unfoldable pub previous : P Token
previous i s = elim s.current [ zero ↦ (panicked, s) | suc n ↦ token_at n i s ]

unfoldable pub check : TokenKind → P Bool
check kind = peek >>= λ t. pure (kind_eq t.kind kind)

-- The last token is not passed.
abbrev move : Token → P Token
move t i s =
    (ok t, record s { current = if kind_eq t.kind TokenKind.eof then s.current else suc s.current })

unfoldable pub advance : P Token
advance = peek >>= move

-- `if self.matches(kind) { taken } else { other }`.
abbrev pub advance_if : {A : Type 0} → P A → P A → Bool → P A
advance_if taken other true = advance >> taken
advance_if taken other false = other

unfoldable pub if_matches : {A : Type 0} → TokenKind → P A → P A → P A
if_matches kind taken other = check kind >>= advance_if taken other

module _ (utf8 : String → List ℕ) where
  unfoldable pub error_at : {A : Type 0} → Token → String → P A
  error_at t message i s = (
    err (record { message = message; line = t.line; column = t.column; span = token_span utf8 t }),
    s,
  )

  unfoldable pub error : {A : Type 0} → String → P A
  error message = peek >>= λ t. error_at t message

  abbrev pub consume_if : TokenKind → String → Bool → P Token
  consume_if kind message true = advance
  consume_if kind message false = error message

  unfoldable pub consume : TokenKind → String → P Token
  consume kind message = check kind >>= consume_if kind message

  -- Where the next token begins, and where the last one ended.
  unfoldable pub start_of_next : P Position
  start_of_next = peek >>= λ t. pure (token_span utf8 t).start

  unfoldable pub end_of_previous : P Position
  end_of_previous = previous >>= λ t. pure (token_span utf8 t).end

  -- The test of `Parser::new`: one EOF token, at the end.
  unfoldable pub ends_at_eof : List Token → Bool
  ends_at_eof [] = false
  ends_at_eof (t ∷ []) = kind_eq t.kind TokenKind.eof
  ends_at_eof (t ∷ u ∷ ts) = if kind_eq t.kind TokenKind.eof then false else ends_at_eof (u ∷ ts)

  unfoldable pub last_token : List Token → Option Token
  last_token [] = none
  last_token (t ∷ []) = some t
  last_token (t ∷ u ∷ ts) = last_token (u ∷ ts)

  unfoldable pub new_parser : List Token → Bool → Outcome Input
  new_parser tokens spans =
      let message : String = "token stream must end with a single EOF token" in
      if ends_at_eof tokens
      then ok (record { tokens = tokens; spans = spans })
      else elim (last_token tokens) [
        | none ↦ err (record { message = message; line = 1; column = 1; span = point 1 1 })
        | some t ↦ err (record {
          message = message;
          line = t.line;
          column = t.column;
          span = token_span utf8 t;
        })
      ]

-- The tokens after the one at the position.
abbrev pub tokens_left : Input → Cursor → ℕ
tokens_left i s = length i.tokens - suc s.current

-- How a round of a loop ends.
pub data Round (S B : Type 0) : Type 0 where
  again : S → Round S B
  done : B → Round S B

module _ {S B : Type 0} where
  abbrev pub next_round : (S → P B) → Round S B → P B
  next_round rest (again a) = rest a
  next_round rest (done b) = pure b

  unfoldable pub loop : ℕ → (S → P (Round S B)) → S → P B
  loop zero body a = exhausted
  loop (suc f) body a = body a >>= next_round (loop f body)

  -- `loop { … }` over the variables `S`: each round takes a token, or is the last.
  unfoldable pub repeat : (S → P (Round S B)) → S → P B
  repeat body a i s = loop (suc (tokens_left i s)) body a i s
