-- ===== src/Parser/Primary.antt =====
-- The primary expressions of the parser: src/parser/expression.rs. A recursive call that comes after a token
-- of the method's own goes to `below`, the same methods with less fuel.
use net_lang.Prelude.{
  String, Bool, true, false, Option, none, some, List, [], ◌∷◌, ◌++◌, if◌then◌else◌,
}
use net_lang.Prelude.Int.{ℤ}
use net_lang.Source.{Position}
use net_lang.Ast.{
  F64, Expr, Exprs, no_exprs, expr_cons, ObjectFields, no_fields, field_cons, no_expr, some_expr,
  HttpMethod, Transport,
}
use net_lang.Lexer.Token as Lexer
use net_lang.Lexer.Token.{TokenKind, Token, kind_eq}
use net_lang.Parser.State.{
  P, Reader, Outcome, ◌>>=◌, ◌>>◌, pure, spans_wanted, previous, check, advance, if_matches,
  error_at, consume, start_of_next, end_of_previous, Round, again, done, repeat,
}
use net_lang.Parser.Literal.{
  parse_i64, Duration, milliseconds, no_unit, out_of_range, duration, Decoded, text, no_quotes,
  bad_escape, decode_string,
}

-- The methods that an expression calls again inside itself.
pub record Levels : Type 0 where
  pub unary : P Expr
  pub or_ : P Expr
  pub expression : P Expr

abbrev pub to_exprs : List Expr → Exprs
to_exprs [] = no_exprs
to_exprs (e ∷ es) = expr_cons e (to_exprs es)

abbrev pub to_fields : List (String × Expr) → ObjectFields
to_fields [] = no_fields
to_fields ((key, value) ∷ fs) = field_cons key value (to_fields fs)

-- `self.constructors` is set for a method, and put back also after an error.
unfoldable pub with_constructors : {A : Type 0} → Bool → P A → P A
with_constructors constructors m i s =
    let (outcome, s') = m i (record s { constructors = constructors }) in
    (outcome, record s' { constructors = s.constructors })

abbrev pub constructors_allowed : P Bool
constructors_allowed i s = (Outcome.ok s.constructors, s)

-- The node under the outermost location, if there is one.
abbrev pub inner : Expr → Expr
inner (Expr.located _ expression) = expression
inner expression = expression

unfoldable pub is_target : Expr → Bool
is_target (Expr.identifier _) = true
is_target (Expr.property _ _) = true
is_target (Expr.index _ _) = true
is_target _ = false

-- After a comma, unless the list is closed there.
unfoldable pub next_item : {A : Type 0} → TokenKind → List A → P (Round (List A) (List A))
next_item closing items =
    if_matches TokenKind.comma
      (do closed ← check closing; if closed then pure (done items) else pure (again items))
      (pure (done items))

-- The loop over the items of a list, unless it is empty.
unfoldable pub items :
    {A : Type 0} → TokenKind → (List A → P (Round (List A) (List A))) → P (List A)
items closing round = do closed ← check closing; if closed then pure [] else repeat round []

module _ (reader : Reader) where
  unfoldable pub locate : Position → Expr → P Expr
  locate start expression = do
    wanted ← spans_wanted
    if wanted
        then (do
          end ← end_of_previous reader.utf8
          pure (Expr.located (record { start = start; end = end }) (inner expression)))
        else pure expression

  abbrev pub integer_of : Token → Option ℤ → P ℤ
  integer_of token (some z) = pure z
  integer_of token none = error_at reader.utf8 token "integer is out of range"

  unfoldable pub integer : Token → P ℤ
  integer token = integer_of token (parse_i64 token.lexeme)

  abbrev pub string_of : Token → Decoded → P String
  string_of token (text s) = pure s
  string_of token no_quotes = error_at reader.utf8 token "invalid string"
  string_of token bad_escape = error_at reader.utf8 token "unsupported string escape"

  unfoldable pub string_value : Token → P String
  string_value token = string_of token (decode_string token.lexeme)

  abbrev pub float_of : Token → Option F64 → P Expr
  float_of token none = error_at reader.utf8 token "invalid float"
  float_of token (some value) =
      if reader.is_finite value
      then pure (Expr.float value)
      else error_at reader.utf8 token "float is out of range"

  abbrev pub duration_of : Token → Duration → P Expr
  duration_of token (milliseconds n) = pure (Expr.duration n)
  duration_of token no_unit = error_at reader.utf8 token "invalid duration"
  duration_of token out_of_range = error_at reader.utf8 token "duration is out of range"

  module _ (below : Levels) where
    unfoldable pub delimited : Bool → P Expr
    delimited constructors = with_constructors constructors below.expression

    unfoldable pub expression_round : TokenKind → List Expr → P (Round (List Expr) (List Expr))
    expression_round closing values = do
      value ← delimited true
      next_item closing (values ++ (value ∷ []))

    unfoldable pub expression_list : TokenKind → P Exprs
    expression_list closing = do
      values ← items closing (expression_round closing)
      consume reader.utf8 closing "expected closing delimiter after expression list"
      pure (to_exprs values)

    abbrev pub object_key : TokenKind → Token → P String
    object_key TokenKind.identifier key = pure key.lexeme
    object_key TokenKind.string key = string_value key
    object_key _ key = error_at reader.utf8 key "expected identifier or string object key"

    unfoldable pub object_round :
        List (String × Expr) → P (Round (List (String × Expr)) (List (String × Expr)))
    object_round fields = do
      token ← advance
      key ← object_key token.kind token
      consume reader.utf8 TokenKind.colon "expected ':' after object key"
      value ← delimited true
      next_item TokenKind.right_brace (fields ++ ((key, value) ∷ []))

    unfoldable pub parse_object_fields : P ObjectFields
    parse_object_fields = do
      fields ← items TokenKind.right_brace object_round
      consume reader.utf8 TokenKind.right_brace "expected '}' after object"
      pure (to_fields fields)

    unfoldable pub parse_object : P Expr
    parse_object = do
      token ← previous
      fields ← parse_object_fields
      locate (Lexer.token_span reader.utf8 token).start (Expr.object fields)

    unfoldable pub parse_connection : Transport → P Expr
    parse_connection transport = do
      address ← with_constructors false below.or_
      if_matches TokenKind.using
          (do
            protocol ←
                consume reader.utf8 TokenKind.identifier "expected protocol name after 'using'"
            pure (Expr.connection transport address (some protocol.lexeme)))
          (pure (Expr.connection transport address none))

    unfoldable pub parse_request : HttpMethod → P Expr
    parse_request method = do
      url ← delimited false
      if_matches TokenKind.left_brace
          (do config ← parse_object; pure (Expr.request method url (some_expr config)))
          (pure (Expr.request method url no_expr))

    -- A name, or a constructor where one may stand.
    unfoldable pub parse_name : String → P Expr
    parse_name name = do
      allowed ← constructors_allowed
      if allowed
          then if_matches TokenKind.left_brace
              (do fields ← parse_object_fields; pure (Expr.construct name fields))
              (pure (Expr.identifier name))
          else pure (Expr.identifier name)

    unfoldable pub parse_parenthesized : P Expr
    parse_parenthesized = do
      expression ← delimited true
      consume reader.utf8 TokenKind.right_paren "expected ')' after expression"
      pure expression

    unfoldable pub primary_of : TokenKind → Token → P Expr
    primary_of TokenKind.tcp token = parse_connection Transport.tcp
    primary_of TokenKind.udp token = parse_connection Transport.udp
    primary_of TokenKind.get token = parse_request HttpMethod.get
    primary_of TokenKind.post token = parse_request HttpMethod.post
    primary_of TokenKind.put token = parse_request HttpMethod.put
    primary_of TokenKind.patch token = parse_request HttpMethod.patch
    primary_of TokenKind.delete token = parse_request HttpMethod.delete
    primary_of TokenKind.head token = parse_request HttpMethod.head
    primary_of TokenKind.integer token = do value ← integer token; pure (Expr.integer value)
    primary_of TokenKind.float token = float_of token (reader.parse_float token.lexeme)
    primary_of TokenKind.string token = do value ← string_value token; pure (Expr.string value)
    primary_of TokenKind.true token = pure (Expr.boolean true)
    primary_of TokenKind.false token = pure (Expr.boolean false)
    primary_of TokenKind.null token = pure Expr.null
    primary_of TokenKind.identifier token = parse_name token.lexeme
    primary_of TokenKind.duration token = duration_of token (duration token.lexeme)
    primary_of TokenKind.left_paren token = parse_parenthesized
    primary_of TokenKind.left_bracket token = do
      values ← expression_list TokenKind.right_bracket
      pure (Expr.array values)
    primary_of TokenKind.left_brace token = parse_object
    primary_of _ token = error_at reader.utf8 token "expected expression"

    unfoldable pub parse_primary_inner : P Expr
    parse_primary_inner = do token ← advance; primary_of token.kind token

    unfoldable pub parse_primary : P Expr
    parse_primary = do
      start ← start_of_next reader.utf8
      expression ← parse_primary_inner
      locate start expression
