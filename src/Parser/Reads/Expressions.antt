-- ===== src/Parser/Reads/Expressions.antt =====
-- The levels of an expression of src/parser/expression.rs in the program logic, and the fuel.
use net_lang.Prelude.{ℕ, zero, suc, ◌≤◌, ◌≡◌, refl, Bool, true, false, String, List, [], ◌∷◌, arith}
use net_lang.Source.{Position}
use net_lang.Ast.{Expr, OptionExpr, UnaryOp, BinaryOp, unspanned}
use net_lang.Lexer.Token.{TokenKind, kind_eq, raw}
use net_lang.Parser.State.{P, Reader, Input, ◌>>=◌, tokens_left}
use net_lang.Parser.Primary.{Levels, is_target}
use net_lang.Parser.Expression.{
  binary_round, parse_binary, postfix_round, parse_postfix, unary_rest, parse_unary, parse_factor,
  parse_term, parse_comparison, parse_equality, parse_and, parse_or, send_rest, parse_send,
  parse_assignment, levels, parse_expression,
}
use net_lang.Parser.Reads.{
  Parses, Parses-of, run, any, some_token, progress, Parses-bind, Parses-bind_or, Parses-pure,
  Parses-weaken, Parses-exhausted, Parses-bind_at,
}
use net_lang.Parser.Reads.Small.{
  error_at-Parses, error-Parses, check-Parses, start_of_next-Parses, consume-Parses,
  if_matches-Parses, previous-Parses, previous-IsIn, Parses-if,
}
use net_lang.Parser.Reads.Loops.{Parses-matches, repeat-Parses}
use net_lang.Parser.Reads.Primaries.{
  Fits, locate-Parses, delimited-Parses, expression_list-Parses, parse_primary-Parses,
}

-- What every kind of operator is.
abbrev IsNoEof : List (TokenKind × BinaryOp) → Type 0
IsNoEof [] = Unit
IsNoEof ((kind, _) ∷ rest) = (kind_eq kind TokenKind.eof ≡ false) × IsNoEof rest

-- A method that takes a token is one that may run after a token.
pub after_token :
    {utf8 : String → List ℕ} {i : Input} {A : Type 0} {p n o : ℕ} {m : P A}
    → Parses utf8 i p o some_token m
    → p ≤ 1
    → n ≤ o
    → Parses utf8 i 1 n any m
after_token h l r = Parses-weaken h l r (λ _ c. cc)

-- A token first, and then any rest.
pub token_then :
    {utf8 : String → List ℕ} {i : Input} {A B : Type 0} {p n : ℕ} {k : B → Bool} {m : P A}
    {f : A → P B}
    → Parses utf8 i p n some_token m
    → ((a : A) → Parses utf8 i 1 n any (f a))
    → Parses utf8 i p n k (m >>= f)
token_then {n = zero} hm hf = Parses-of λ s at. absurd (omega (arith, at.inside, at.left))
token_then {n = suc n} hm hf =
    Parses-bind_or hm (λ a h. Parses-weaken (hf a) (omega arith) (omega arith) (λ _ c. c))
      (λ a h. absurd (cc h))

-- A token first, and then the rest with one round less.
pub token_first :
    {utf8 : String → List ℕ} {i : Input} {A B : Type 0} {p n : ℕ} {m : P A} {f : A → P B}
    → Parses utf8 i p (suc n) some_token m
    → ((a : A) → Parses utf8 i 1 n any (f a))
    → Parses utf8 i p (suc n) some_token (m >>= f)
token_first hm hf = Parses-bind_or hm (λ a h. hf a) (λ a h. absurd (cc h))

module _ (reader : Reader) {i : Input} {n : ℕ} where
  binary_round-Parses :
      (start : Position) (operand : P Expr) (operators : List (TokenKind × BinaryOp)) (left : Expr)
      → IsNoEof operators
      → Parses reader.utf8 i 1 n any operand
      → Parses reader.utf8 i 1 n progress (binary_round reader start operand operators left)
  unfolding binary_round
  binary_round-Parses start operand [] left h ho = Parses-pure _ refl
  binary_round-Parses start operand ((kind, operator) ∷ rest) left (h, hs) ho =
      Parses-matches kind h
        (Parses-bind ho λ right. Parses-bind (locate-Parses reader start _) λ e. Parses-pure _ refl)
        (binary_round-Parses start operand rest left hs ho)

  parse_binary-Parses :
      {p : ℕ} {operand : P Expr} (operators : List (TokenKind × BinaryOp))
      → IsNoEof operators
      → Parses reader.utf8 i p (suc n) some_token operand
      → Parses reader.utf8 i 1 n any operand
      → Parses reader.utf8 i p (suc n) some_token (parse_binary reader operand operators)
  unfolding parse_binary
  parse_binary-Parses operators h hp ho = Parses-bind start_of_next-Parses λ start.
      token_first hp
        λ left. repeat-Parses _ left (λ e. binary_round-Parses start _ operators e h ho)

  module _ {below : Levels} (fits : Fits reader.utf8 i n below) where
    postfix_round-Parses :
        (start : Position) (e : Expr)
        → Parses reader.utf8 i 1 n progress (postfix_round reader below start e)
    unfolding postfix_round kind_eq raw
    postfix_round-Parses start e =
        Parses-matches TokenKind.left_paren refl
          (Parses-bind (expression_list-Parses reader fits TokenKind.right_paren refl)
            λ es. Parses-bind (locate-Parses reader start _) λ next. Parses-pure _ refl)
          (Parses-matches TokenKind.left_bracket refl
            (Parses-bind (delimited-Parses reader fits true) λ index.
              Parses-bind (consume-Parses TokenKind.right_bracket refl _)
                λ t. Parses-bind (locate-Parses reader start _) λ next. Parses-pure _ refl)
            (Parses-matches TokenKind.receive refl
              (Parses-bind (locate-Parses reader start _) λ next. Parses-pure _ refl)
              (Parses-matches TokenKind.dot refl
                (Parses-bind (consume-Parses TokenKind.identifier refl _)
                  λ name. Parses-bind (locate-Parses reader start _) λ next. Parses-pure _ refl)
                (Parses-pure _ refl))))

    unary_rest-Parses :
        (start : Position) (operator : UnaryOp)
        → Parses reader.utf8 i 1 n any (unary_rest reader below start operator)
    unfolding unary_rest
    unary_rest-Parses start operator = Parses-bind fits.unary λ e. locate-Parses reader start _

    send_rest-Parses :
        (start : Position) (conn payload : Expr) (destination : OptionExpr)
        → Parses reader.utf8 i 1 n any (send_rest reader below start conn payload destination)
    unfolding send_rest
    send_rest-Parses start conn payload destination =
        Parses-bind (check-Parses TokenKind.send)
          λ nested. Parses-if nested (error-Parses _) (locate-Parses reader start _)

    module _ {p : ℕ} where
      parse_postfix-Parses : Parses reader.utf8 i p (suc n) some_token (parse_postfix reader below)
      unfolding parse_postfix
      parse_postfix-Parses = Parses-bind start_of_next-Parses λ start.
          token_first (parse_primary-Parses reader fits)
            λ e. repeat-Parses _ e (postfix_round-Parses start)

      parse_unary-Parses : Parses reader.utf8 i p (suc n) some_token (parse_unary reader below)
      unfolding parse_unary kind_eq raw
      parse_unary-Parses = Parses-bind start_of_next-Parses λ start.
          if_matches-Parses TokenKind.bang refl (unary_rest-Parses start UnaryOp.not) (
            if_matches-Parses TokenKind.minus refl (unary_rest-Parses start UnaryOp.negate)
              parse_postfix-Parses)

    parse_factor-Parses :
        {p : ℕ} → Parses reader.utf8 i p (suc n) some_token (parse_factor reader below)
    unfolding parse_factor kind_eq raw
    parse_factor-Parses =
        parse_binary-Parses _ (refl, (refl, (refl, tt))) parse_unary-Parses
          (after_token {p = 0} parse_unary-Parses (omega arith) (omega arith))

    parse_term-Parses :
        {p : ℕ} → Parses reader.utf8 i p (suc n) some_token (parse_term reader below)
    unfolding parse_term kind_eq raw
    parse_term-Parses =
        parse_binary-Parses _ (refl, (refl, tt)) parse_factor-Parses
          (after_token {p = 0} parse_factor-Parses (omega arith) (omega arith))

    parse_comparison-Parses :
        {p : ℕ} → Parses reader.utf8 i p (suc n) some_token (parse_comparison reader below)
    unfolding parse_comparison kind_eq raw
    parse_comparison-Parses =
        parse_binary-Parses _ (refl, (refl, (refl, (refl, tt)))) parse_term-Parses
          (after_token {p = 0} parse_term-Parses (omega arith) (omega arith))

    parse_equality-Parses :
        {p : ℕ} → Parses reader.utf8 i p (suc n) some_token (parse_equality reader below)
    unfolding parse_equality kind_eq raw
    parse_equality-Parses =
        parse_binary-Parses _ (refl, (refl, tt)) parse_comparison-Parses
          (after_token {p = 0} parse_comparison-Parses (omega arith) (omega arith))

    parse_and-Parses : {p : ℕ} → Parses reader.utf8 i p (suc n) some_token (parse_and reader below)
    unfolding parse_and kind_eq raw
    parse_and-Parses =
        parse_binary-Parses _ (refl, tt) parse_equality-Parses
          (after_token {p = 0} parse_equality-Parses (omega arith) (omega arith))

    parse_or-Parses : {p : ℕ} → Parses reader.utf8 i p (suc n) some_token (parse_or reader below)
    unfolding parse_or kind_eq raw
    parse_or-Parses =
        parse_binary-Parses _ (refl, tt) parse_and-Parses
          (after_token {p = 0} parse_and-Parses (omega arith) (omega arith))

    parse_send-Parses :
        {p : ℕ} → Parses reader.utf8 i p (suc n) some_token (parse_send reader below)
    unfolding parse_send kind_eq raw
    parse_send-Parses = Parses-bind start_of_next-Parses λ start.
        token_first parse_or-Parses λ conn.
          Parses-matches TokenKind.send refl
            (Parses-bind fits.or_ λ payload.
              Parses-matches TokenKind.to refl
                (Parses-bind fits.or_ λ destination. send_rest-Parses start conn payload _)
                (send_rest-Parses start conn payload _))
            (Parses-pure _ refl)

    pub parse_assignment-Parses :
        {p : ℕ} → Parses reader.utf8 i p (suc n) some_token (parse_assignment reader below)
    unfolding parse_assignment kind_eq raw
    parse_assignment-Parses = Parses-bind start_of_next-Parses λ start.
        token_first parse_send-Parses λ target.
          Parses-matches TokenKind.equal refl
            (Parses-if (is_target (unspanned target))
              (Parses-bind fits.expression λ value. locate-Parses reader start _)
              (Parses-bind_at previous-Parses λ t s e. error_at-Parses t (previous-IsIn i s e) _))
            (Parses-pure _ refl)

module _ (reader : Reader) {i : Input} where
  -- With fuel for each token that is left, the recursive calls keep their promise.
  levels-Fits : (n : ℕ) → Fits reader.utf8 i n (levels reader n)
  unfolding levels
  levels-Fits zero = record {
    unary = Parses-exhausted;
    or_ = Parses-exhausted;
    expression = Parses-exhausted;
  }
  levels-Fits (suc n) =
      let fits = levels-Fits n in
      record {
        unary = after_token (parse_unary-Parses reader fits {p = 1}) (omega arith) (omega arith);
        or_ = after_token (parse_or-Parses reader fits {p = 1}) (omega arith) (omega arith);
        expression =
            after_token (parse_assignment-Parses reader fits {p = 1}) (omega arith) (omega arith);
      }

  pub parse_expression-Parses :
      {p n : ℕ} → Parses reader.utf8 i p n some_token (parse_expression reader)
  unfolding parse_expression
  parse_expression-Parses = Parses-of λ s at.
      run (parse_assignment-Parses reader (levels-Fits (tokens_left i s))) s (record {
        from = at.from;
        inside = at.inside;
        left = omega (arith, at.inside);
        closed = at.closed;
      })
