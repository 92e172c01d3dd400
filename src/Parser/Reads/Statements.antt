-- ===== src/Parser/Reads/Statements.antt =====
-- The statements of src/parser/statement.rs in the program logic.
use net_lang.Prelude.{ℕ, zero, suc, refl, String, Bool, true, false, List, [], arith}
use net_lang.Prelude.Text.{str_eq}
use net_lang.Ast.{Expr, Stmt, Pattern}
use net_lang.Lexer.Token.{TokenKind, Token, kind_eq, raw}
use net_lang.Parser.State.{P, Reader, Input}
use net_lang.Parser.Expression.{parse_expression}
use net_lang.Parser.Statement.{
  StmtLevels, parse_delimited_expression, parse_type_name, parse_annotation, field_round,
  parse_type, parse_let, parse_loop_control, return_value, parse_return, parse_expression_statement,
  parameter_round, wildcard_or_error, pattern_of, locate_pattern, until_brace, statement_round,
  parse_block, parse_arm, arm_round, parse_match, parse_if, parse_while, parse_for,
  parse_return_annotation, parse_function, parse_statement, parse_declaration_inner,
  parse_declaration, statement_levels,
}
use net_lang.Parser.Reads.{
  Parses, any, some_token, progress, Parses-bind, Parses-pure, Parses-exhausted, IsIn,
  Parses-bind_at,
}
use net_lang.Parser.Reads.Small.{
  error_at-Parses, check-Parses, start_of_next-Parses, consume-Parses, if_matches-Parses,
  advance-Parses, advance-IsIn, spans_wanted-Parses, end_of_previous-Parses, Parses-if,
}
use net_lang.Parser.Reads.Loops.{
  with_constructors-Parses, Parses-matches, next_item-Parses, items-Parses, repeat-Parses,
}
use net_lang.Parser.Reads.Primaries.{integer-Parses, string_value-Parses}
use net_lang.Parser.Reads.Expressions.{
  token_first, token_then, after_token, parse_expression-Parses,
}

-- The recursive calls of a statement keep their promise.
pub record Fits (utf8 : String → List ℕ) (i : Input) (n : ℕ) (below : StmtLevels) : Type 0 where
  pub declaration : Parses utf8 i 1 n some_token below.declaration
  pub else_if : Parses utf8 i 1 n any below.else_if

module _ (reader : Reader) {i : Input} {n : ℕ} where
  expression-Parses : Parses reader.utf8 i 1 n any (parse_expression reader)
  expression-Parses =
      after_token (parse_expression-Parses reader {p = 1} {n = n}) (omega arith) (omega arith)

  delimited-Parses : (b : Bool) → Parses reader.utf8 i 1 n any (parse_delimited_expression reader b)
  unfolding parse_delimited_expression
  delimited-Parses b = with_constructors-Parses b expression-Parses

  parse_type_name-Parses : Parses reader.utf8 i 1 n any (parse_type_name reader)
  unfolding parse_type_name kind_eq raw
  parse_type_name-Parses =
      Parses-bind (consume-Parses TokenKind.identifier refl _)
        λ t. Parses-bind spans_wanted-Parses λ wanted. Parses-pure _ refl

  parse_annotation-Parses : Parses reader.utf8 i 1 n any (parse_annotation reader)
  unfolding parse_annotation kind_eq raw
  parse_annotation-Parses =
      Parses-matches TokenKind.colon refl
        (Parses-bind parse_type_name-Parses λ a. Parses-pure _ refl) (Parses-pure _ refl)

  parse_type-Parses : Parses reader.utf8 i 1 n any (parse_type reader)
  unfolding parse_type field_round kind_eq raw
  parse_type-Parses = Parses-bind (consume-Parses TokenKind.identifier refl _) λ name.
      Parses-bind (consume-Parses TokenKind.left_brace refl _) λ t.
        Parses-bind
          (items-Parses TokenKind.right_brace λ fields.
            Parses-bind (consume-Parses TokenKind.identifier refl _) λ name.
              Parses-bind (consume-Parses TokenKind.colon refl _) λ t.
                Parses-bind parse_type_name-Parses λ a. next_item-Parses TokenKind.right_brace _)
          λ fields.
            Parses-bind (consume-Parses TokenKind.right_brace refl _) λ t. Parses-pure _ refl

  parse_let-Parses : Parses reader.utf8 i 1 n any (parse_let reader)
  unfolding parse_let kind_eq raw
  parse_let-Parses = Parses-bind (consume-Parses TokenKind.identifier refl _) λ name.
      Parses-bind parse_annotation-Parses λ annotation.
        Parses-bind (consume-Parses TokenKind.equal refl _) λ t.
          Parses-bind expression-Parses
            λ value. Parses-bind (consume-Parses TokenKind.semicolon refl _) λ t. Parses-pure _ refl

  parse_loop_control-Parses :
      (s : Stmt) → Parses reader.utf8 i 1 n any (parse_loop_control reader s)
  unfolding parse_loop_control kind_eq raw
  parse_loop_control-Parses s =
      Parses-bind (consume-Parses TokenKind.semicolon refl _) λ t. Parses-pure _ refl

  return_value-Parses : (b : Bool) → Parses reader.utf8 i 1 n any (return_value reader b)
  unfolding return_value
  return_value-Parses true = Parses-pure _ refl
  return_value-Parses false = Parses-bind expression-Parses λ value. Parses-pure _ refl

  parse_return-Parses : Parses reader.utf8 i 1 n any (parse_return reader)
  unfolding parse_return kind_eq raw
  parse_return-Parses = Parses-bind (check-Parses TokenKind.semicolon) λ bare.
      Parses-bind (return_value-Parses bare)
        λ value. Parses-bind (consume-Parses TokenKind.semicolon refl _) λ t. Parses-pure _ refl

  parse_expression_statement-Parses :
      {p : ℕ} → Parses reader.utf8 i p (suc n) some_token (parse_expression_statement reader)
  unfolding parse_expression_statement kind_eq raw
  parse_expression_statement-Parses =
      token_first (parse_expression-Parses reader)
        λ e. Parses-bind (consume-Parses TokenKind.semicolon refl _) λ t. Parses-pure _ refl

  pattern_of-Parses :
      (kind : TokenKind) (t : Token)
      → IsIn i t
      → Parses reader.utf8 i 1 n any (pattern_of reader kind t)
  unfolding pattern_of wildcard_or_error
  pattern_of-Parses TokenKind.integer t h =
      Parses-bind (integer-Parses reader t h) λ z. Parses-pure _ refl
  pattern_of-Parses TokenKind.string t h =
      Parses-bind (string_value-Parses reader t h) λ s. Parses-pure _ refl
  pattern_of-Parses TokenKind.true t h = Parses-pure _ refl
  pattern_of-Parses TokenKind.false t h = Parses-pure _ refl
  pattern_of-Parses TokenKind.null t h = Parses-pure _ refl
  pattern_of-Parses TokenKind.identifier t h =
      Parses-if (str_eq t.lexeme "_") (Parses-pure _ refl) (error_at-Parses t h _)
  pattern_of-Parses _ t h = error_at-Parses t h _

  locate_pattern-Parses :
      (t : Token) (p : Pattern) → Parses reader.utf8 i 1 n any (locate_pattern reader t p)
  unfolding locate_pattern
  locate_pattern-Parses t p = Parses-bind spans_wanted-Parses λ wanted. Parses-pure _ refl

  until_brace-Parses :
      {S : Type 0} {body : P S} (state : S)
      → Parses reader.utf8 i 1 n some_token body
      → Parses reader.utf8 i 1 n progress (until_brace reader body state)
  unfolding until_brace
  until_brace-Parses state h = Parses-bind (check-Parses TokenKind.right_brace) λ closed.
      Parses-if closed (Parses-pure _ refl) (
        Parses-bind (check-Parses TokenKind.eof)
          λ ended. Parses-if ended (Parses-pure _ refl) (token_then h λ next. Parses-pure _ refl))

  module _ {below : StmtLevels} (fits : Fits reader.utf8 i n below) where
    -- A block begins with a brace.
    block_first : {p : ℕ} → Parses reader.utf8 i p (suc n) some_token (parse_block reader below)
    unfolding parse_block statement_round kind_eq raw
    block_first = token_first (consume-Parses TokenKind.left_brace refl _) λ t.
        Parses-bind
          (repeat-Parses _ [] λ statements.
            until_brace-Parses statements
              (token_then fits.declaration λ statement. Parses-pure _ refl))
          λ statements.
            Parses-bind (consume-Parses TokenKind.right_brace refl _) λ t. Parses-pure _ refl

    parse_block-Parses : Parses reader.utf8 i 1 n any (parse_block reader below)
    parse_block-Parses = after_token (block_first {p = 1}) (omega arith) (omega arith)

    parse_arm-Parses :
        (arms : List (Pattern × Stmt))
        → Parses reader.utf8 i 1 n some_token (parse_arm reader below arms)
    unfolding parse_arm kind_eq raw
    parse_arm-Parses arms = Parses-bind_at advance-Parses λ t s e.
        Parses-bind (pattern_of-Parses t.kind t (advance-IsIn i s e)) λ bare.
          Parses-bind (locate_pattern-Parses t bare) λ pattern_.
            token_then (consume-Parses TokenKind.fat_arrow refl _)
              λ t. Parses-bind parse_block-Parses λ body. Parses-pure _ refl

    parse_match-Parses : Parses reader.utf8 i 1 n any (parse_match reader below)
    unfolding parse_match arm_round kind_eq raw
    parse_match-Parses = Parses-bind (delimited-Parses false) λ e.
        Parses-bind (consume-Parses TokenKind.left_brace refl _) λ t.
          Parses-bind (repeat-Parses _ [] λ arms. until_brace-Parses arms (parse_arm-Parses arms))
            λ arms.
              Parses-bind (consume-Parses TokenKind.right_brace refl _) λ t. Parses-pure _ refl

    -- The condition takes a token before the branches.
    if_first : {p : ℕ} → Parses reader.utf8 i p (suc n) some_token (parse_if reader below)
    unfolding parse_if parse_delimited_expression kind_eq raw
    if_first =
        token_first (with_constructors-Parses false (parse_expression-Parses reader)) λ condition.
          Parses-bind parse_block-Parses λ then_branch.
            Parses-matches TokenKind.else_ refl
              (Parses-bind (Parses-matches TokenKind.if_ refl fits.else_if parse_block-Parses)
                λ s. Parses-pure _ refl)
              (Parses-pure _ refl)

    parse_if-Parses : Parses reader.utf8 i 1 n any (parse_if reader below)
    parse_if-Parses = after_token (if_first {p = 1}) (omega arith) (omega arith)

    parse_while-Parses : Parses reader.utf8 i 1 n any (parse_while reader below)
    unfolding parse_while
    parse_while-Parses =
        Parses-bind (delimited-Parses false)
          λ condition. Parses-bind parse_block-Parses λ body. Parses-pure _ refl

    parse_for-Parses :
        (f : String → Expr → Stmt → Stmt) → Parses reader.utf8 i 1 n any (parse_for reader below f)
    unfolding parse_for kind_eq raw
    parse_for-Parses f = Parses-bind (consume-Parses TokenKind.identifier refl _) λ name.
        Parses-bind (consume-Parses TokenKind.in_ refl _) λ t.
          Parses-bind (delimited-Parses false)
            λ iterable. Parses-bind parse_block-Parses λ body. Parses-pure _ refl

    parse_return_annotation-Parses :
        Parses reader.utf8 i 1 n any (parse_return_annotation reader below)
    unfolding parse_return_annotation kind_eq raw
    parse_return_annotation-Parses =
        Parses-matches TokenKind.arrow refl
          (Parses-bind parse_type_name-Parses λ a. Parses-pure _ refl) (Parses-pure _ refl)

    parse_function-Parses : Parses reader.utf8 i 1 n any (parse_function reader below)
    unfolding parse_function parameter_round kind_eq raw
    parse_function-Parses = Parses-bind (consume-Parses TokenKind.identifier refl _) λ name.
        Parses-bind (consume-Parses TokenKind.left_paren refl _) λ t.
          Parses-bind
            (items-Parses TokenKind.right_paren λ ps.
              Parses-bind (consume-Parses TokenKind.identifier refl _) λ name.
                Parses-bind parse_annotation-Parses λ a. next_item-Parses TokenKind.right_paren _)
            λ ps. Parses-bind (consume-Parses TokenKind.right_paren refl _) λ t.
              Parses-bind parse_return_annotation-Parses
                λ a. Parses-bind parse_block-Parses λ body. Parses-pure _ refl

    module _ {p : ℕ} where
      parse_statement-Parses :
          Parses reader.utf8 i p (suc n) some_token (parse_statement reader below)
      unfolding parse_statement kind_eq raw
      parse_statement-Parses =
          if_matches-Parses TokenKind.break refl (parse_loop_control-Parses _) (
            if_matches-Parses TokenKind.continue refl (parse_loop_control-Parses _) (
              Parses-bind (check-Parses TokenKind.left_brace) λ block. Parses-if block block_first (
                if_matches-Parses TokenKind.if_ refl parse_if-Parses (
                  if_matches-Parses TokenKind.while refl parse_while-Parses (
                    if_matches-Parses TokenKind.match refl parse_match-Parses (
                      if_matches-Parses TokenKind.for refl (parse_for-Parses _) (
                        if_matches-Parses TokenKind.parallel refl (parse_for-Parses _) (
                          if_matches-Parses TokenKind.return refl parse_return-Parses
                            parse_expression_statement-Parses))))))))

      parse_declaration_inner-Parses :
          Parses reader.utf8 i p (suc n) some_token (parse_declaration_inner reader below)
      unfolding parse_declaration_inner kind_eq raw
      parse_declaration_inner-Parses = if_matches-Parses TokenKind.type refl parse_type-Parses (
          if_matches-Parses TokenKind.fn refl parse_function-Parses
            (if_matches-Parses TokenKind.let_ refl parse_let-Parses parse_statement-Parses))

      pub parse_declaration-Parses :
          Parses reader.utf8 i p (suc n) some_token (parse_declaration reader below)
      unfolding parse_declaration
      parse_declaration-Parses = Parses-bind start_of_next-Parses λ start.
          token_first parse_declaration_inner-Parses λ statement.
            Parses-bind spans_wanted-Parses λ wanted.
              Parses-if wanted (Parses-bind end_of_previous-Parses λ end. Parses-pure _ refl)
                (Parses-pure _ refl)

module _ (reader : Reader) {i : Input} where
  -- With fuel for each token that is left, the recursive calls keep their promise.
  pub statement_levels-Fits : (n : ℕ) → Fits reader.utf8 i n (statement_levels reader n)
  unfolding statement_levels
  statement_levels-Fits zero = record { declaration = Parses-exhausted; else_if = Parses-exhausted }
  statement_levels-Fits (suc n) =
      let fits = statement_levels-Fits n in
      record {
        declaration = parse_declaration-Parses reader fits;
        else_if = after_token (if_first reader fits {p = 1}) (omega arith) (omega arith);
      }
