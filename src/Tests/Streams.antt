-- ===== src/Tests/Streams.antt =====
-- A scanner and token streams, and the theorems on the lexer and the parser at them.
use net_lang.Prelude.{
  ℕ, zero, suc, ◌<◌, ◌≡◌, ◌↔◌, refl, String, true, false, none, some, List, [], ◌∷◌, arith,
}
use net_lang.Prelude.Int.{pos, negsuc}
use net_lang.Source.{point}
use net_lang.Ast.{Expr, Stmt, no_stmts, stmt_cons, Program}
use net_lang.Ast.Pretty.{Format, pretty}
use net_lang.Ast.Pretty.Erased.{erase, pretty-erase}
use net_lang.Lexer.Token.{TokenKind, Token, kind_eq, from_raw, raw}
use net_lang.Lexer.Token.Kinds.{from_raw_iff}
use net_lang.Lexer.Stream.{Bridge, NetToken, Lexer, is_terminal, next_token, tokenize}
use net_lang.Lexer.Stream.Tokens.{Consumes, Tokenized, next_token-kept, tokenize-Tokenized}
use net_lang.Parser.State.{Reader, Input, Outcome, new_parser, ends_at_eof}
use net_lang.Parser.Literal.{Decoded, decode_string}
use net_lang.Parser.Literal.RoundTrip.{quote, IsStringToken, decode_string-quote}
use net_lang.Parser.Expression.{parse_expression_complete}
use net_lang.Parser.Statement.{parse_program}
use net_lang.Parser.Reads.Programs.{
  Stops, start, parse_program-Stops, parse_expression_complete-Stops,
}
use net_lang.Parser.Reads.Streams.{HasOneEof, new_parser_iff}

-- A scanner of a text `a;`, whose state is the number of characters left.
abbrev scan_letter : ℕ → NetToken × ℕ
scan_letter zero = (record { kind = pos 0; lexeme = []; line = 1; column = 3 }, 0)
scan_letter (suc zero) = (record { kind = pos 48; lexeme = 59 ∷ []; line = 1; column = 2 }, 0)
scan_letter (suc (suc n)) = (record { kind = pos 1; lexeme = 97 ∷ []; line = 1; column = 1 }, suc n)

abbrev letters : Bridge ℕ
letters = record { create = λ _. some 2; next = scan_letter; lossy = λ _. "a" }

takes_letter : (n : ℕ) → is_terminal (scan_letter n).0.kind ≡ false → (scan_letter n).1 < n
unfolding is_terminal
takes_letter zero h = absurd (cc)
takes_letter (suc zero) h = omega arith
takes_letter (suc (suc n)) h = omega arith

abbrev plain_reader : Reader
plain_reader = record { utf8 = λ _. 97 ∷ []; parse_float = λ _. none; is_finite = λ _. false }

abbrev token_of : TokenKind → String → ℕ → Token
token_of kind lexeme column = record { kind = kind; lexeme = lexeme; line = 1; column = column }

-- The tokens of `a;`.
abbrev statement_tokens : List Token
statement_tokens =
    token_of TokenKind.identifier "a" 1
    ∷ token_of TokenKind.semicolon ";" 2
    ∷ token_of TokenKind.eof "" 3
    ∷ []

abbrev statement_input : Input
statement_input = record { tokens = statement_tokens; spans = true }

statement_taken : new_parser plain_reader.utf8 statement_tokens true ≡ Outcome.ok statement_input
unfolding new_parser ends_at_eof kind_eq raw
statement_taken = refl

parse_program-Stops_example :
    Stops plain_reader.utf8 statement_input (parse_program plain_reader statement_input start)
parse_program-Stops_example =
    parse_program-Stops plain_reader statement_tokens true {i = statement_input} statement_taken

parse_expression_complete-Stops_example :
    Stops plain_reader.utf8 statement_input
      (parse_expression_complete plain_reader statement_input start)
parse_expression_complete-Stops_example =
    parse_expression_complete-Stops plain_reader statement_tokens true {i = statement_input}
      statement_taken

new_parser_iff_example :
    ((i : Input) × (new_parser plain_reader.utf8 statement_tokens false ≡ Outcome.ok i))
    ↔ HasOneEof statement_tokens
new_parser_iff_example = new_parser_iff plain_reader.utf8 statement_tokens false

from_raw_iff_example :
    (from_raw (negsuc 1) ≡ some TokenKind.eof) ↔ (negsuc 1 ≡ pos (raw TokenKind.eof))
from_raw_iff_example = from_raw_iff (negsuc 1) TokenKind.eof

letters_consume : Consumes letters (λ n. n)
letters_consume = record { takes = takes_letter }

abbrev new_letters : ℕ → Lexer ℕ
new_letters n = record { raw = n; terminal = none }

tokenize-Tokenized_example : Tokenized plain_reader.utf8 (tokenize letters 3 (new_letters 2))
tokenize-Tokenized_example =
    tokenize-Tokenized letters plain_reader.utf8 letters_consume 3 (new_letters 2) refl
      (omega arith)

at_end : is_terminal (scan_letter 0).0.kind ≡ true
unfolding is_terminal
at_end = refl

next_token-kept_example :
    next_token letters (next_token letters (new_letters 0)).1 ≡ next_token letters (new_letters 0)
next_token-kept_example = next_token-kept letters (new_letters 0) refl at_end

abbrev plain_format : Format
plain_format = record {
  show_integer = λ _. "n";
  show_float = λ _. "x";
  debug_string = λ text. text;
}

-- The program `a;` with its locations.
abbrev located_program : Program
located_program = record {
  statements =
      stmt_cons
        (Stmt.located (point 1 1)
          (Stmt.expression (Expr.located (point 1 1) (Expr.identifier "a"))))
        no_stmts;
}

pretty-erase_example :
    pretty plain_format (erase located_program) ≡ pretty plain_format located_program
pretty-erase_example = pretty-erase plain_format located_program

decode_string-quote_example :
    IsStringToken (quote "a\"\n\\b") × (decode_string (quote "a\"\n\\b") ≡ Decoded.text "a\"\n\\b")
decode_string-quote_example = decode_string-quote "a\"\n\\b"
