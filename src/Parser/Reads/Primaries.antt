-- ===== src/Parser/Reads/Primaries.antt =====
-- The primary expressions of src/parser/expression.rs in the program logic.
use net_lang.Prelude.{ℕ, suc, ◌≡◌, refl, Bool, true, false, String, Option, none, some, arith, List}
use net_lang.Prelude.Int.{ℤ}
use net_lang.Source.{Position}
use net_lang.Ast.{Expr, F64, Transport, HttpMethod}
use net_lang.Lexer.Token.{TokenKind, Token, kind_eq, raw}
use net_lang.Lexer.Token.Kinds.{kind_eq→eq}
use net_lang.Parser.State.{Reader, Input}
use net_lang.Parser.Literal.{
  Duration, milliseconds, no_unit, out_of_range, Decoded, text, no_quotes, bad_escape,
}
use net_lang.Parser.Primary.{
  Levels, constructors_allowed, locate, integer_of, integer, string_of, string_value, float_of,
  duration_of, delimited, expression_round, expression_list, object_key, object_round,
  parse_object_fields, parse_object, parse_connection, parse_request, parse_name,
  parse_parenthesized, primary_of, parse_primary_inner, parse_primary,
}
use net_lang.Parser.Reads.{
  Parses, Parses-of, Moved-refl, ended, any, some_token, Parses-bind, Parses-bind_or, Parses-pure,
  IsIn, Parses-bind_at, Parses-bind_or_at,
}
use net_lang.Parser.Reads.Small.{
  spans_wanted-Parses, error_at-Parses, start_of_next-Parses, consume-Parses, advance-Parses,
  advance-IsIn, previous-Parses, end_of_previous-Parses, Parses-if,
}
use net_lang.Parser.Reads.Loops.{
  with_constructors-Parses, Parses-matches, next_item-Parses, items-Parses,
}

-- The recursive calls of an expression keep their promise.
pub record Fits (utf8 : String → List ℕ) (i : Input) (n : ℕ) (below : Levels) : Type 0 where
  pub unary : Parses utf8 i 1 n any below.unary
  pub or_ : Parses utf8 i 1 n any below.or_
  pub expression : Parses utf8 i 1 n any below.expression

module _ (reader : Reader) {i : Input} {n : ℕ} where
  pub locate-Parses :
      (start : Position) (e : Expr) → Parses reader.utf8 i 1 n any (locate reader start e)
  unfolding locate
  locate-Parses start e = Parses-bind spans_wanted-Parses λ wanted.
      Parses-if wanted (Parses-bind end_of_previous-Parses λ end. Parses-pure _ refl)
        (Parses-pure _ refl)

  module _ {p : ℕ} where
    integer_of-Parses :
        (t : Token)
        → IsIn i t
        → (z : Option ℤ) → Parses reader.utf8 i p n any (integer_of reader t z)
    integer_of-Parses t h (some z) = Parses-pure _ refl
    integer_of-Parses t h none = error_at-Parses t h _

    pub integer-Parses : (t : Token) → IsIn i t → Parses reader.utf8 i p n any (integer reader t)
    unfolding integer
    integer-Parses t h = integer_of-Parses t h _

    string_of-Parses :
        (t : Token) → IsIn i t → (d : Decoded) → Parses reader.utf8 i p n any (string_of reader t d)
    string_of-Parses t h (text s) = Parses-pure _ refl
    string_of-Parses t h no_quotes = error_at-Parses t h _
    string_of-Parses t h bad_escape = error_at-Parses t h _

    pub string_value-Parses :
        (t : Token) → IsIn i t → Parses reader.utf8 i p n any (string_value reader t)
    unfolding string_value
    string_value-Parses t h = string_of-Parses t h _

    float_of-Parses :
        (t : Token)
        → IsIn i t
        → (v : Option F64) → Parses reader.utf8 i p n any (float_of reader t v)
    float_of-Parses t h none = error_at-Parses t h _
    float_of-Parses t h (some v) =
        Parses-if (reader.is_finite v) (Parses-pure _ refl) (error_at-Parses t h _)

    duration_of-Parses :
        (t : Token)
        → IsIn i t
        → (d : Duration) → Parses reader.utf8 i p n any (duration_of reader t d)
    duration_of-Parses t h (milliseconds m) = Parses-pure _ refl
    duration_of-Parses t h no_unit = error_at-Parses t h _
    duration_of-Parses t h out_of_range = error_at-Parses t h _

    constructors_allowed-Parses : Parses reader.utf8 i p n any constructors_allowed
    constructors_allowed-Parses = Parses-of λ s at. (ended (λ c. cc), Moved-refl at)

  module _ {below : Levels} (fits : Fits reader.utf8 i n below) where
    pub delimited-Parses : (b : Bool) → Parses reader.utf8 i 1 n any (delimited reader below b)
    unfolding delimited
    delimited-Parses b = with_constructors-Parses b fits.expression

    pub expression_list-Parses :
        (closing : TokenKind)
        → kind_eq closing TokenKind.eof ≡ false
        → Parses reader.utf8 i 1 n any (expression_list reader below closing)
    unfolding expression_list expression_round
    expression_list-Parses closing h =
        Parses-bind
          (items-Parses closing
            λ xs. Parses-bind (delimited-Parses true) λ e. next_item-Parses closing _)
          λ values. Parses-bind (consume-Parses closing h _) λ t. Parses-pure _ refl

    object_key-Parses :
        (kind : TokenKind) (t : Token)
        → IsIn i t
        → Parses reader.utf8 i 1 n any (object_key reader below kind t)
    object_key-Parses TokenKind.identifier t h = Parses-pure _ refl
    object_key-Parses TokenKind.string t h = string_value-Parses t h
    object_key-Parses _ t h = error_at-Parses t h _

    parse_object_fields-Parses : Parses reader.utf8 i 1 n any (parse_object_fields reader below)
    unfolding parse_object_fields object_round kind_eq raw
    parse_object_fields-Parses =
        Parses-bind
          (items-Parses TokenKind.right_brace λ xs. Parses-bind_at advance-Parses λ t s e.
            Parses-bind (object_key-Parses t.kind t (advance-IsIn i s e)) λ key.
              Parses-bind (consume-Parses TokenKind.colon refl _) λ c.
                Parses-bind (delimited-Parses true) λ e. next_item-Parses TokenKind.right_brace _)
          λ fields.
            Parses-bind (consume-Parses TokenKind.right_brace refl _) λ t. Parses-pure _ refl

    parse_object-Parses : Parses reader.utf8 i 1 n any (parse_object reader below)
    unfolding parse_object
    parse_object-Parses =
        Parses-bind previous-Parses
          λ t. Parses-bind parse_object_fields-Parses λ fields. locate-Parses _ _

module _ (reader : Reader) {i : Input} {n : ℕ} {below : Levels}
    (fits : Fits reader.utf8 i n below) where
  parse_connection-Parses :
      (t : Transport) → Parses reader.utf8 i 1 n any (parse_connection reader below t)
  unfolding parse_connection kind_eq raw
  parse_connection-Parses t = Parses-bind (with_constructors-Parses false fits.or_) λ address.
      Parses-matches TokenKind.using refl
        (Parses-bind (consume-Parses TokenKind.identifier refl _) λ t. Parses-pure _ refl)
        (Parses-pure _ refl)

  parse_request-Parses :
      (m : HttpMethod) → Parses reader.utf8 i 1 n any (parse_request reader below m)
  unfolding parse_request kind_eq raw
  parse_request-Parses m = Parses-bind (delimited-Parses reader fits false) λ url.
      Parses-matches TokenKind.left_brace refl
        (Parses-bind (parse_object-Parses reader fits) λ config. Parses-pure _ refl)
        (Parses-pure _ refl)

  parse_name-Parses : (name : String) → Parses reader.utf8 i 1 n any (parse_name reader below name)
  unfolding parse_name kind_eq raw
  parse_name-Parses name = Parses-bind (constructors_allowed-Parses reader) λ allowed.
      Parses-if allowed
        (Parses-matches TokenKind.left_brace refl
          (Parses-bind (parse_object_fields-Parses reader fits) λ fields. Parses-pure _ refl)
          (Parses-pure _ refl))
        (Parses-pure _ refl)

  parse_parenthesized-Parses : Parses reader.utf8 i 1 n any (parse_parenthesized reader below)
  unfolding parse_parenthesized kind_eq raw
  parse_parenthesized-Parses =
      Parses-bind (delimited-Parses reader fits true)
        λ e. Parses-bind (consume-Parses TokenKind.right_paren refl _) λ t. Parses-pure _ refl

  primary_of-Parses :
      (kind : TokenKind) (t : Token)
      → IsIn i t
      → Parses reader.utf8 i 1 n any (primary_of reader below kind t)
  unfolding primary_of kind_eq raw
  primary_of-Parses TokenKind.tcp t h = parse_connection-Parses _
  primary_of-Parses TokenKind.udp t h = parse_connection-Parses _
  primary_of-Parses TokenKind.get t h = parse_request-Parses _
  primary_of-Parses TokenKind.post t h = parse_request-Parses _
  primary_of-Parses TokenKind.put t h = parse_request-Parses _
  primary_of-Parses TokenKind.patch t h = parse_request-Parses _
  primary_of-Parses TokenKind.delete t h = parse_request-Parses _
  primary_of-Parses TokenKind.head t h = parse_request-Parses _
  primary_of-Parses TokenKind.integer t h =
      Parses-bind (integer-Parses reader t h) λ z. Parses-pure _ refl
  primary_of-Parses TokenKind.float t h = float_of-Parses reader t h _
  primary_of-Parses TokenKind.string t h =
      Parses-bind (string_value-Parses reader t h) λ s. Parses-pure _ refl
  primary_of-Parses TokenKind.true t h = Parses-pure _ refl
  primary_of-Parses TokenKind.false t h = Parses-pure _ refl
  primary_of-Parses TokenKind.null t h = Parses-pure _ refl
  primary_of-Parses TokenKind.identifier t h = parse_name-Parses t.lexeme
  primary_of-Parses TokenKind.duration t h = duration_of-Parses reader t h _
  primary_of-Parses TokenKind.left_paren t h = parse_parenthesized-Parses
  primary_of-Parses TokenKind.left_bracket t h =
      Parses-bind (expression_list-Parses reader fits TokenKind.right_bracket refl)
        λ es. Parses-pure _ refl
  primary_of-Parses TokenKind.left_brace t h = parse_object-Parses reader fits
  primary_of-Parses _ t h = error_at-Parses t h _

  -- At the EOF token no expression begins.
  primary_of-eof :
      {p : ℕ} (kind : TokenKind) (t : Token)
      → IsIn i t
      → kind ≡ TokenKind.eof
      → Parses reader.utf8 i p (suc n) some_token (primary_of reader below kind t)
  unfolding primary_of
  primary_of-eof kind t h e = rw e (error_at-Parses t h _)

  pub parse_primary-Parses :
      {p : ℕ} → Parses reader.utf8 i p (suc n) some_token (parse_primary reader below)
  unfolding parse_primary parse_primary_inner
  parse_primary-Parses = Parses-bind start_of_next-Parses λ start.
      Parses-bind_or {j = some_token}
        (Parses-bind_or_at advance-Parses
          (λ t s e h. primary_of-Parses t.kind t (advance-IsIn i s e))
          (λ t s e h.
            primary_of-eof t.kind t (advance-IsIn i s e)
              (kind_eq→eq t.kind TokenKind.eof (ground arith))))
        (λ e h. locate-Parses reader start e) (λ e h. absurd (cc))
