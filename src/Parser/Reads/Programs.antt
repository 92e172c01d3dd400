-- ===== src/Parser/Reads/Programs.antt =====
-- What a parse of a whole stream does: `Parser::new`, `parse_program` and
-- `parse_expression_complete` of src/parser.
use net_lang.Prelude.{
  ℕ, zero, suc, ◌<◌, ◌≡◌, refl, subst, String, Bool, true, Option, none, some, List, [], ◌∷◌, ◌++◌,
  ◌≢◌, arith, length, get_elem?, Bool-cases, inl, inr, ◌⊎◌,
}
use net_lang.Ast.{Stmt, Expr}
use net_lang.Lexer.Token.{TokenKind, Token, kind_eq}
use net_lang.Parser.State.{
  P, Input, Cursor, Outcome, ok, err, panicked, out_of_fuel, Reader, pure, ends_at_eof, new_parser,
  Round, again, done, check, ParseError, tokens_left, loop, repeat, go_on, next_round, peek,
  token_at, consume, ◌>>◌, advance, error, error_at,
}
use net_lang.Parser.Expression.{parse_expression, parse_expression_complete}
use net_lang.Parser.Statement.{statement_levels, program_round, parse_program}
use net_lang.Parser.Reads.{
  At, At-Moved, Located, Ends, ended, raised, Moved, Parses, run, any, some_token, progress,
  Parses-bind, Parses-pure,
}
use net_lang.Parser.Reads.Small.{token_at-some, get_elem?-some, check-Parses, Parses-if}
use net_lang.Parser.Reads.Streams.{
  ends_at_eof→IsClosed, eof_is_last, ends_at_eof-nonempty, new_parser-ok,
}
use net_lang.Parser.Reads.Loops.{repeat-Parses}
use net_lang.Parser.Reads.Expressions.{token_then, parse_expression-Parses}
use net_lang.Parser.Reads.Statements.{statement_levels-Fits, parse_declaration-Parses}

-- Where a parse begins.
abbrev pub start : Cursor
start = record { current = 0; constructors = true }

-- The position is at the EOF token.
abbrev IsAtEof : Input → Cursor → Type 0
IsAtEof i s =
    (t : Token) × (get_elem? i.tokens s.current ≡ some t) × (kind_eq t.kind TokenKind.eof ≡ true)

module _ {S B : Type 0} (body : S → P (Round S B)) (i : Input) where
  -- A round of the loop ended it.
  abbrev LastRound : B → Cursor → Type 0
  LastRound b t = (a : S) × (s : Cursor) × (body a i s ≡ (ok (done b), t))

  last_or_later :
      (rest : S → P B) (a : S) (s : Cursor) {b : B} {t : Cursor} (r : Outcome (Round S B) × Cursor)
      → body a i s ≡ r
      → go_on r (next_round rest) i ≡ (ok b, t)
      → ((a : S) (s : Cursor) → rest a i s ≡ (ok b, t) → LastRound b t)
      → LastRound b t
  last_or_later rest a s (ok (again a'), u) h e later = later a' u e
  last_or_later rest a s (ok (done b'), u) h e later = (a, s, cc)
  last_or_later rest a s (err _, u) h e later = absurd (cc)
  last_or_later rest a s (panicked, u) h e later = absurd (cc)
  last_or_later rest a s (out_of_fuel, u) h e later = absurd (cc)

  -- A loop with a result ended by a round that gave it.
  loop_last :
      (f : ℕ) (a : S) (s : Cursor) {b : B} {t : Cursor}
      → loop f body a i s ≡ (ok b, t)
      → LastRound b t
  unfolding loop
  loop_last zero a s e = absurd (cc)
  loop_last (suc f) a s e =
      last_or_later (loop f body) a s (body a i s) refl e (λ a' s' e'. loop_last f a' s' e')

-- The cases of a round of `parse_program`.
not_at_end :
    (r : Outcome Stmt × Cursor) (a b : List Stmt) (i : Input) (t : Cursor)
    → go_on r
        (λ statement. pure {A = Round (List Stmt) (List Stmt)} (again (a ++ (statement ∷ []))))
        i
      ≢ (ok (done b), t)
not_at_end (ok x, s) a b i t e = cc
not_at_end (err x, s) a b i t e = cc
not_at_end (panicked, s) a b i t e = cc
not_at_end (out_of_fuel, s) a b i t e = cc

token_cases : {A : Type 0} (o : Option A) → ((a : A) × (o ≡ some a)) ⊎ (o ≡ none)
token_cases (some a) = inl (a, refl)
token_cases none = inr refl

check_at :
    {t : Token} (kind : TokenKind) (i : Input) (s : Cursor)
    → get_elem? i.tokens s.current ≡ some t
    → check kind i s ≡ (ok (kind_eq t.kind kind), s)
unfolding check peek
check_at kind i s h = rw (token_at-some s.current i s h)

check_outside :
    (kind : TokenKind) (i : Input) (s : Cursor)
    → get_elem? i.tokens s.current ≡ none
    → check kind i s ≡ (panicked, s)
unfolding check peek token_at
check_outside kind i s h = rw (h, token_at)

program_round_last :
    (reader : Reader) (declaration : P Stmt) (a b : List Stmt) (i : Input) (s t : Cursor)
    → program_round reader declaration a i s ≡ (ok (done b), t)
    → IsAtEof i t
unfolding program_round
program_round_last reader declaration a b i s t e =
    elim (token_cases (get_elem? i.tokens s.current)) [
      | inr n ↦
          let outside : program_round reader declaration a i s ≡ (panicked, s) =
            rw (check_outside TokenKind.eof i s n) in
          absurd (cc)
      | inl (u, h) ↦ elim (Bool-cases (kind_eq u.kind TokenKind.eof)) [
        | inl y ↦
            let at_end : program_round reader declaration a i s ≡ (ok (done a), s) =
              rw (check_at TokenKind.eof i s h, y) in
            let same : s ≡ t = cc in subst (IsAtEof i) same (u, h, y)
        | inr n ↦
            absurd
              (not_at_end (declaration i s) a b i t (rw (check_at TokenKind.eof i s h, n) at e))
      ]
    ]

-- How a parse ends: with a value at the last token, or with a syntax error that carries the
-- line, the column and the span of a token of the stream.
pub data Stops {A : Type 0} (utf8 : String → List ℕ) (i : Input) : Outcome A × Cursor → Type 0 where
  parsed : (a : A) (s : Cursor) → suc s.current ≡ length i.tokens → Stops utf8 i (ok a, s)
  refused :
      (e : ParseError) (s : Cursor)
      → s.current < length i.tokens
      → Located utf8 i e
      → Stops utf8 i (err e, s)

loop_end :
    (reader : Reader) (declaration : P Stmt) (i : Input) (b : List Stmt)
    → (repeat (program_round reader declaration) [] i start).0 ≡ ok b
    → IsAtEof i (repeat (program_round reader declaration) [] i start).1
unfolding repeat
loop_end reader declaration i b h =
    let (a, s, e) =
      loop_last (program_round reader declaration) i (suc (tokens_left i start)) [] start {b = b}
        {t = (repeat (program_round reader declaration) [] i start).1} (cc) in
    program_round_last reader declaration a b i s _ e

peek_at :
    {t : Token} (i : Input) (s : Cursor)
    → get_elem? i.tokens s.current ≡ some t
    → peek i s ≡ (ok t, s)
unfolding peek
peek_at i s h = token_at-some s.current i s h

advance_at_eof :
    {t : Token} (i : Input) (s : Cursor)
    → get_elem? i.tokens s.current ≡ some t
    → kind_eq t.kind TokenKind.eof ≡ true
    → advance i s ≡ (ok t, s)
unfolding advance
advance_at_eof i s h y = rw (peek_at i s h, y)

module _ (reader : Reader) (i : Input) (whole : ends_at_eof reader.utf8 i.tokens ≡ true) where
  IsAtEof→last : (s : Cursor) → IsAtEof i s → suc s.current ≡ length i.tokens
  IsAtEof→last s (t, e, y) = eof_is_last reader.utf8 i.tokens s.current t whole e y

  Stops-pure :
      {A B : Type 0} {s t : Cursor} {o : Outcome A} (f : A → B)
      → Ends reader.utf8 i any s t o
      → Moved i s t
      → ((a : A) → o ≡ ok a → suc t.current ≡ length i.tokens)
      → Stops reader.utf8 i (go_on (o, t) (λ a. pure (f a)) i)
  Stops-pure {t} f (ended {a} _) g last = parsed (f a) t (last a refl)
  Stops-pure {t} f (raised {e} l) g last = refused e t g.inside l

  start-At : At 0 (suc (tokens_left i start)) i start
  start-At =
      let h = ends_at_eof-nonempty reader.utf8 i.tokens whole in
      record {
        from = omega arith;
        inside = h;
        left = omega arith;
        closed = ends_at_eof→IsClosed reader.utf8 i.tokens whole;
      }

  declarations-Parses :
      (n : ℕ) (statements : List Stmt)
      → Parses reader.utf8 i 0
          (suc n)
          progress
          (program_round reader (statement_levels reader (suc n)).declaration statements)
  unfolding program_round statement_levels
  declarations-Parses n statements = Parses-bind (check-Parses TokenKind.eof) λ ended.
      Parses-if ended (Parses-pure _ refl) (
        token_then (parse_declaration-Parses reader (statement_levels-Fits reader n))
          λ s. Parses-pure _ refl)

  program-Stops : Stops reader.utf8 i (parse_program reader i start)
  unfolding parse_program
  program-Stops =
      let n = tokens_left i start in
      let round = program_round reader (statement_levels reader (suc n)).declaration in
      let (e, g) = run (repeat-Parses round [] (declarations-Parses n)) start start-At in
      Stops-pure _ e g (λ b h.
        IsAtEof→last (repeat round [] i start).1
          (loop_end reader (statement_levels reader (suc n)).declaration i b h))

  consume_eof :
      (e : Expr) (n : ℕ) (s : Cursor)
      → At 0 n i s
      → Stops reader.utf8 i
          ((consume reader.utf8 TokenKind.eof "expected end of expression" >> pure e) i s)
  unfolding consume error error_at
  consume_eof e n s at =
      let (t, h) = get_elem?-some i.tokens s.current at.inside in
      elim (Bool-cases (kind_eq t.kind TokenKind.eof)) [
        | inl y ↦
            rw (check_at TokenKind.eof i s h, y, advance_at_eof i s h y)
              (parsed e s (IsAtEof→last s (t, h, y)))
        | inr n ↦
            rw (check_at TokenKind.eof i s h, n, peek_at i s h)
              (refused _ s at.inside (record {
                token = t;
                inside = (s.current, h);
                line = refl;
                column = refl;
                span = refl;
              }))
      ]

  -- After an expression the stream must end.
  complete_rest :
      {j : Expr → Bool} {s : Cursor} {n : ℕ} (r : Outcome Expr × Cursor)
      → At 0 n i s
      → Ends reader.utf8 i j s r.1 r.0
      → Moved i s r.1
      → Stops reader.utf8 i (
          go_on r (λ e. consume reader.utf8 TokenKind.eof "expected end of expression" >> pure e) i)
  complete_rest {n} (ok e, t) at _ g = consume_eof e n t (At-Moved at g)
  complete_rest (err e, t) at (raised l) g = refused e t g.inside l
  complete_rest (panicked, t) at h g = elim h [ ]
  complete_rest (out_of_fuel, t) at h g = elim h [ ]

  expression-Stops : Stops reader.utf8 i (parse_expression_complete reader i start)
  unfolding parse_expression_complete
  expression-Stops =
      let (e, g) = run {k = some_token} (parse_expression-Parses reader) start start-At in
      complete_rest (parse_expression reader i start) start-At e g

-- Every parse of a program ends: on a token stream that `Parser::new` takes, `parse_program`
-- returns a program, and then stands at the last token, or a syntax error that carries the line, the
-- column and the span of a token of the stream. No index is out of range, and the fuel of the model
-- does not run out.
pub parse_program-Stops :
    (reader : Reader) (tokens : List Token) (spans : Bool) {i : Input}
    → new_parser reader.utf8 tokens spans ≡ ok i
    → Stops reader.utf8 i (parse_program reader i start)
parse_program-Stops reader tokens spans {i} h =
    let (e, w) = new_parser-ok reader.utf8 tokens spans h in program-Stops reader i (rw e w)

-- Every parse of one expression ends: on a token stream that `Parser::new` takes,
-- `parse_expression_complete` returns an expression, and then stands at the last token, or a syntax
-- error that carries the line, the column and the span of a token of the stream. No index is out of
-- range, and the fuel of the model does not run out.
pub parse_expression_complete-Stops :
    (reader : Reader) (tokens : List Token) (spans : Bool) {i : Input}
    → new_parser reader.utf8 tokens spans ≡ ok i
    → Stops reader.utf8 i (parse_expression_complete reader i start)
parse_expression_complete-Stops reader tokens spans {i} h =
    let (e, w) = new_parser-ok reader.utf8 tokens spans h in expression-Stops reader i (rw e w)
