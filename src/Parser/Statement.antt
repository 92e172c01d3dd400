-- ===== src/Parser/Statement.antt =====
-- The statements of the parser: src/parser/statement.rs. `below` has the methods that a statement
-- calls again inside itself, with less fuel.
use net_lang.Prelude.{
  ℕ, zero, suc, String, Bool, true, false, Option, none, some, List, [], ◌∷◌, ◌++◌, if◌then◌else◌,
}
use net_lang.Prelude.Text.{str_eq}
use net_lang.Ast.{
  Expr, TypeAnnotation, TypeField, Parameter, Pattern, Stmt, Stmts, no_stmts, stmt_cons, no_stmt,
  some_stmt, MatchArms, no_arms, arm_cons, Program,
}
use net_lang.Lexer.Token as Lexer
use net_lang.Lexer.Token.{TokenKind, Token}
use net_lang.Parser.State.{
  P, Reader, ◌>>=◌, ◌>>◌, pure, exhausted, spans_wanted, advance, check, if_matches, error_at,
  consume, start_of_next, end_of_previous, Round, again, done, repeat, tokens_left,
}
use net_lang.Parser.Primary.{with_constructors, integer, string_value, next_item, items}
use net_lang.Parser.Expression.{parse_expression}

pub record StmtLevels : Type 0 where
  pub declaration : P Stmt
  pub else_if : P Stmt

abbrev pub to_stmts : List Stmt → Stmts
to_stmts [] = no_stmts
to_stmts (s ∷ ss) = stmt_cons s (to_stmts ss)

abbrev pub to_arms : List (Pattern × Stmt) → MatchArms
to_arms [] = no_arms
to_arms ((p, s) ∷ arms) = arm_cons p s (to_arms arms)

module _ (reader : Reader) where
  unfoldable pub parse_delimited_expression : Bool → P Expr
  parse_delimited_expression constructors = with_constructors constructors (parse_expression reader)

  unfoldable pub parse_type_name : P TypeAnnotation
  parse_type_name = do
    token ← consume reader.utf8 TokenKind.identifier "expected type name"
    wanted ← spans_wanted
    pure (record {
      name = token.lexeme;
      span = if wanted then some (Lexer.token_span reader.utf8 token) else none;
    })

  unfoldable pub parse_annotation : P (Option TypeAnnotation)
  parse_annotation =
      if_matches TokenKind.colon (do annotation ← parse_type_name; pure (some annotation))
        (pure none)

  unfoldable pub field_round : List TypeField → P (Round (List TypeField) (List TypeField))
  field_round fields = do
    name ← consume reader.utf8 TokenKind.identifier "expected field name"
    consume reader.utf8 TokenKind.colon "expected ':' after field name"
    annotation ← parse_type_name
    next_item TokenKind.right_brace
        (fields ++ (record { name = name.lexeme; annotation = annotation } ∷ []))

  unfoldable pub parse_type : P Stmt
  parse_type = do
    name ← consume reader.utf8 TokenKind.identifier "expected type declaration name"
    consume reader.utf8 TokenKind.left_brace "expected '{' after type name"
    fields ← items TokenKind.right_brace field_round
    consume reader.utf8 TokenKind.right_brace "expected '}' after type fields"
    pure (Stmt.type name.lexeme fields)

  unfoldable pub parse_let : P Stmt
  parse_let = do
    name ← consume reader.utf8 TokenKind.identifier "expected variable name"
    annotation ← parse_annotation
    consume reader.utf8 TokenKind.equal "expected '=' after variable name"
    value ← parse_expression reader
    consume reader.utf8 TokenKind.semicolon "expected ';' after variable declaration"
    pure (Stmt.let_ name.lexeme annotation value)

  unfoldable pub parse_loop_control : Stmt → P Stmt
  parse_loop_control statement = do
    consume reader.utf8 TokenKind.semicolon "expected ';' after loop control statement"
    pure statement

  unfoldable pub return_value : Bool → P (Option Expr)
  return_value true = pure none
  return_value false = do value ← parse_expression reader; pure (some value)

  unfoldable pub parse_return : P Stmt
  parse_return = do
    bare ← check TokenKind.semicolon
    value ← return_value bare
    consume reader.utf8 TokenKind.semicolon "expected ';' after return"
    pure (Stmt.return value)

  unfoldable pub parse_expression_statement : P Stmt
  parse_expression_statement = do
    expression ← parse_expression reader
    consume reader.utf8 TokenKind.semicolon "expected ';' after expression"
    pure (Stmt.expression expression)

  unfoldable pub parameter_round : List Parameter → P (Round (List Parameter) (List Parameter))
  parameter_round parameters = do
    name ← consume reader.utf8 TokenKind.identifier "expected parameter name"
    annotation ← parse_annotation
    next_item TokenKind.right_paren
        (parameters ++ (record { name = name.lexeme; annotation = annotation } ∷ []))

  unfoldable pub wildcard_or_error : Token → P Pattern
  wildcard_or_error token =
      if str_eq token.lexeme "_"
      then pure Pattern.wildcard
      else error_at reader.utf8 token "expected literal pattern or '_'"

  unfoldable pub pattern_of : TokenKind → Token → P Pattern
  pattern_of TokenKind.integer token = do value ← integer reader token; pure (Pattern.integer value)
  pattern_of TokenKind.string token = do
    value ← string_value reader token
    pure (Pattern.string value)
  pattern_of TokenKind.true token = pure (Pattern.boolean true)
  pattern_of TokenKind.false token = pure (Pattern.boolean false)
  pattern_of TokenKind.null token = pure Pattern.null
  pattern_of TokenKind.identifier token = wildcard_or_error token
  pattern_of _ token = error_at reader.utf8 token "expected literal pattern or '_'"

  unfoldable pub locate_pattern : Token → Pattern → P Pattern
  locate_pattern token pattern_ = do
    wanted ← spans_wanted
    pure
        (if wanted then Pattern.located (Lexer.token_span reader.utf8 token) pattern_ else pattern_)

  -- `while !self.check(RightBrace) && !self.is_at_end() { … }`.
  unfoldable pub until_brace : {S : Type 0} → P S → S → P (Round S S)
  until_brace body state = do
    closed ← check TokenKind.right_brace
    if closed then pure (done state) else (do
      ended ← check TokenKind.eof
      if ended then pure (done state) else (do next ← body; pure (again next)))

  module _ (below : StmtLevels) where
    unfoldable pub statement_round : List Stmt → P (Round (List Stmt) (List Stmt))
    statement_round statements =
        until_brace (do statement ← below.declaration; pure (statements ++ (statement ∷ [])))
          statements

    unfoldable pub parse_block : P Stmt
    parse_block = do
      consume reader.utf8 TokenKind.left_brace "expected '{' before block"
      statements ← repeat statement_round []
      consume reader.utf8 TokenKind.right_brace "expected '}' after block"
      pure (Stmt.block (to_stmts statements))

    unfoldable pub parse_arm : List (Pattern × Stmt) → P (List (Pattern × Stmt))
    parse_arm arms = do
      token ← advance
      bare ← pattern_of token.kind token
      pattern_ ← locate_pattern token bare
      consume reader.utf8 TokenKind.fat_arrow "expected '=>' after match pattern"
      body ← parse_block
      pure (arms ++ ((pattern_, body) ∷ []))

    unfoldable pub arm_round :
        List (Pattern × Stmt) → P (Round (List (Pattern × Stmt)) (List (Pattern × Stmt)))
    arm_round arms = until_brace (parse_arm arms) arms

    unfoldable pub parse_match : P Stmt
    parse_match = do
      expression ← parse_delimited_expression false
      consume reader.utf8 TokenKind.left_brace "expected '{' before match arms"
      arms ← repeat arm_round []
      consume reader.utf8 TokenKind.right_brace "expected '}' after match arms"
      pure (Stmt.match expression (to_arms arms))

    unfoldable pub parse_if : P Stmt
    parse_if = do
      condition ← parse_delimited_expression false
      then_branch ← parse_block
      if_matches TokenKind.else_
          (do
            else_branch ← if_matches TokenKind.if_ below.else_if parse_block
            pure (Stmt.if_ condition then_branch (some_stmt else_branch)))
          (pure (Stmt.if_ condition then_branch no_stmt))

    unfoldable pub parse_while : P Stmt
    parse_while = do
      condition ← parse_delimited_expression false
      body ← parse_block
      pure (Stmt.while condition body)

    -- The header and the body of a loop over a sequence.
    unfoldable pub parse_for : (String → Expr → Stmt → Stmt) → P Stmt
    parse_for statement = do
      variable ← consume reader.utf8 TokenKind.identifier "expected loop variable"
      consume reader.utf8 TokenKind.in_ "expected 'in' after loop variable"
      iterable ← parse_delimited_expression false
      body ← parse_block
      pure (statement variable.lexeme iterable body)

    unfoldable pub parse_return_annotation : P (Option TypeAnnotation)
    parse_return_annotation =
        if_matches TokenKind.arrow (do annotation ← parse_type_name; pure (some annotation))
          (pure none)

    unfoldable pub parse_function : P Stmt
    parse_function = do
      name ← consume reader.utf8 TokenKind.identifier "expected function name"
      consume reader.utf8 TokenKind.left_paren "expected '(' after function name"
      parameters ← items TokenKind.right_paren parameter_round
      consume reader.utf8 TokenKind.right_paren "expected ')' after parameters"
      return_annotation ← parse_return_annotation
      body ← parse_block
      pure (Stmt.function name.lexeme parameters return_annotation body)

    unfoldable pub parse_statement : P Stmt
    parse_statement = if_matches TokenKind.break (parse_loop_control Stmt.break) (
        if_matches TokenKind.continue (parse_loop_control Stmt.continue) (do
          block ← check TokenKind.left_brace
          if block
              then parse_block
              else (if_matches TokenKind.if_ parse_if (
                  if_matches TokenKind.while parse_while (
                    if_matches TokenKind.match parse_match (
                      if_matches TokenKind.for (parse_for Stmt.for) (
                        if_matches TokenKind.parallel (parse_for Stmt.parallel) (
                          if_matches TokenKind.return parse_return
                            parse_expression_statement))))))))

    unfoldable pub parse_declaration_inner : P Stmt
    parse_declaration_inner = if_matches TokenKind.type parse_type (
        if_matches TokenKind.fn parse_function
          (if_matches TokenKind.let_ parse_let parse_statement))

    unfoldable pub parse_declaration : P Stmt
    parse_declaration = do
      start ← start_of_next reader.utf8
      statement ← parse_declaration_inner
      wanted ← spans_wanted
      if wanted
          then (do
            end ← end_of_previous reader.utf8
            pure (Stmt.located (record { start = start; end = end }) statement))
          else pure statement

  unfoldable pub statement_levels : ℕ → StmtLevels
  statement_levels zero = record { declaration = exhausted; else_if = exhausted }
  statement_levels (suc fuel) =
      let below = statement_levels fuel in
      record { declaration = parse_declaration below; else_if = parse_if below }

  -- `while !self.is_at_end() { … }`.
  unfoldable pub program_round : P Stmt → List Stmt → P (Round (List Stmt) (List Stmt))
  program_round declaration statements = do
    ended ← check TokenKind.eof
    if ended
        then pure (done statements)
        else (do statement ← declaration; pure (again (statements ++ (statement ∷ []))))

  unfoldable pub parse_program : P Program
  parse_program i s =
      (do
        statements ←
            repeat (program_round (statement_levels (suc (tokens_left i s))).declaration) []
        pure (record { statements = to_stmts statements }))
        i s
