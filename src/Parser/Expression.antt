-- ===== src/Parser/Expression.antt =====
-- The levels of an expression above the primary ones: src/parser/expression.rs. `levels` ties the
-- recursion on fuel, and `parse_expression` gives it one round for each token that is left.
use net_lang.Prelude.{ℕ, zero, suc, true, List, [], ◌∷◌, if◌then◌else◌}
use net_lang.Source.{Position}
use net_lang.Ast.{Expr, OptionExpr, no_expr, some_expr, UnaryOp, BinaryOp, unspanned}
use net_lang.Lexer.Token.{TokenKind}
use net_lang.Parser.State.{
  P, Reader, ◌>>=◌, ◌>>◌, pure, exhausted, previous, check, if_matches, error_at, error, consume,
  start_of_next, Round, again, done, repeat, tokens_left,
}
use net_lang.Parser.Primary.{Levels, locate, is_target, delimited, expression_list, parse_primary}

module _ (reader : Reader) where
  -- The operator at the position, its right operand, and the next round.
  unfoldable pub binary_round :
      Position → P Expr → List (TokenKind × BinaryOp) → Expr → P (Round Expr Expr)
  binary_round start operand [] left = pure (done left)
  binary_round start operand ((kind, operator) ∷ rest) left =
      let other = binary_round start operand rest left in
      if_matches kind
        (do
          right ← operand
          expression ← locate reader start (Expr.binary left operator right)
          pure (again expression))
        other

  unfoldable pub parse_binary : P Expr → List (TokenKind × BinaryOp) → P Expr
  parse_binary operand operators = do
    start ← start_of_next reader.utf8
    left ← operand
    repeat (binary_round start operand operators) left

  module _ (below : Levels) where
    unfoldable pub postfix_round : Position → Expr → P (Round Expr Expr)
    postfix_round start expression =
        if_matches TokenKind.left_paren
          (do
            arguments ← expression_list reader below TokenKind.right_paren
            next ← locate reader start (Expr.call expression arguments)
            pure (again next))
          (if_matches TokenKind.left_bracket
            (do
              index ← delimited reader below true
              consume reader.utf8 TokenKind.right_bracket "expected ']' after index"
              next ← locate reader start (Expr.index expression index)
              pure (again next))
            (if_matches TokenKind.receive
              (do next ← locate reader start (Expr.receive expression); pure (again next))
              (if_matches TokenKind.dot
                (do
                  name ← consume reader.utf8 TokenKind.identifier "expected property name after '.'"
                  next ← locate reader start (Expr.property expression name.lexeme)
                  pure (again next))
                (pure (done expression)))))

    unfoldable pub parse_postfix : P Expr
    parse_postfix = do
      start ← start_of_next reader.utf8
      expression ← parse_primary reader below
      repeat (postfix_round start) expression

    unfoldable pub unary_rest : Position → UnaryOp → P Expr
    unary_rest start operator = do
      expression ← below.unary
      locate reader start (Expr.unary operator expression)

    unfoldable pub parse_unary : P Expr
    parse_unary = do
      start ← start_of_next reader.utf8
      if_matches TokenKind.bang (unary_rest start UnaryOp.not)
          (if_matches TokenKind.minus (unary_rest start UnaryOp.negate) parse_postfix)

    unfoldable pub parse_factor : P Expr
    parse_factor = parse_binary parse_unary (
        (TokenKind.star, BinaryOp.multiply)
        ∷ (TokenKind.slash, BinaryOp.divide)
        ∷ (TokenKind.percent, BinaryOp.remainder)
        ∷ [])

    unfoldable pub parse_term : P Expr
    parse_term =
        parse_binary parse_factor
          ((TokenKind.plus, BinaryOp.add) ∷ (TokenKind.minus, BinaryOp.subtract) ∷ [])

    unfoldable pub parse_comparison : P Expr
    parse_comparison = parse_binary parse_term (
        (TokenKind.less, BinaryOp.less)
        ∷ (TokenKind.less_equal, BinaryOp.less_equal)
        ∷ (TokenKind.greater, BinaryOp.greater)
        ∷ (TokenKind.greater_equal, BinaryOp.greater_equal)
        ∷ [])

    unfoldable pub parse_equality : P Expr
    parse_equality =
        parse_binary parse_comparison (
          (TokenKind.equal_equal, BinaryOp.equal) ∷ (TokenKind.bang_equal, BinaryOp.not_equal) ∷ [])

    unfoldable pub parse_and : P Expr
    parse_and = parse_binary parse_equality ((TokenKind.and_and, BinaryOp.and) ∷ [])

    unfoldable pub parse_or : P Expr
    parse_or = parse_binary parse_and ((TokenKind.or_or, BinaryOp.or) ∷ [])

    unfoldable pub send_rest : Position → Expr → Expr → OptionExpr → P Expr
    send_rest start conn payload destination = do
      nested ← check TokenKind.send
      if nested
          then error reader.utf8 "parenthesize nested SEND expressions"
          else locate reader start (Expr.send conn payload destination)

    unfoldable pub parse_send : P Expr
    parse_send = do
      start ← start_of_next reader.utf8
      conn ← parse_or
      if_matches TokenKind.send
          (do
            payload ← below.or_
            if_matches TokenKind.to
                (do destination ← below.or_; send_rest start conn payload (some_expr destination))
                (send_rest start conn payload no_expr))
          (pure conn)

    unfoldable pub parse_assignment : P Expr
    parse_assignment = do
      start ← start_of_next reader.utf8
      target ← parse_send
      if_matches TokenKind.equal
          (if is_target (unspanned target)
            then (do value ← below.expression; locate reader start (Expr.assignment target value))
            else (do token ← previous; error_at reader.utf8 token "invalid assignment target"))
          (pure target)

  unfoldable pub levels : ℕ → Levels
  levels zero = record { unary = exhausted; or_ = exhausted; expression = exhausted }
  levels (suc fuel) =
      let below = levels fuel in
      record {
        unary = parse_unary below;
        or_ = parse_or below;
        expression = parse_assignment below;
      }

  unfoldable pub parse_expression : P Expr
  parse_expression i s = parse_assignment (levels (tokens_left i s)) i s

  unfoldable pub parse_expression_complete : P Expr
  parse_expression_complete = do
    expression ← parse_expression
    consume reader.utf8 TokenKind.eof "expected end of expression"
    pure expression
