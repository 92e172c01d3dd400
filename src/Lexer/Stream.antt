-- ===== src/Lexer/Stream.antt =====
-- The stream of tokens: src/lexer/ffi.rs. The scanner is C++ code behind a bridge; it is a parameter,
-- with the decoding of the bytes that it hands out.
pub mod Tokens
use net_lang.Prelude.{
  ℕ, zero, suc, String, Bool, true, false, Option, none, some, List, [], ◌∷◌, ◌++◌, ◌==◌,
  if◌then◌else◌,
}
use net_lang.Prelude.Int.{ℤ, pos, negsuc}
use net_lang.Lexer.Token.{TokenKind, Token, kind_eq, from_raw}

-- What the scanner writes; `lexeme` is the bytes that the pointer and the length give.
pub record NetToken : Type 0 where
  pub kind : ℤ
  pub lexeme : List ℕ
  pub line : ℕ
  pub column : ℕ

pub record LexerError : Type 0 where
  pub message : String
  pub line : ℕ
  pub column : ℕ

-- The bridge over the scanner's own state, and `String::from_utf8_lossy`.
pub record Bridge (S : Type 0) : Type 0 where
  pub create : List ℕ → Option S
  pub next : S → NetToken × S
  pub lossy : List ℕ → String

pub data Scan (A : Type 0) : Type 0 where
  ok : A → Scan A
  err : LexerError → Scan A
  -- The model's own: the fuel has run out.
  out_of_fuel : Scan A

pub record Lexer (S : Type 0) : Type 0 where
  pub raw : S
  pub terminal : Option (Scan Token)

-- The errors of the scanner are numbers below 0: -2, -3 and -4 have texts of their own.
unfoldable pub scan_message : ℤ → String
scan_message (pos _) = "unexpected character"
scan_message (negsuc n) =
    if n == 1
    then "unterminated block comment"
    else if n == 2
    then "unsupported string escape"
    else if n == 3
    then "unterminated string"
    else "unexpected character"

-- `token.kind <= 0`.
unfoldable pub is_terminal : ℤ → Bool
is_terminal (pos n) = n == 0
is_terminal (negsuc _) = true

module _ {S : Type 0} (bridge : Bridge S) where
  unfoldable pub new_lexer : List ℕ → Scan (Lexer S)
  new_lexer source = elim (bridge.create source) [
    | none ↦ err (record {
      message = "could not create lexer (source may be too large)";
      line = 1;
      column = 1;
    })
    | some raw ↦ ok (record { raw = raw; terminal = none })
  ]

  abbrev pub scanned : NetToken → Option TokenKind → Scan Token
  scanned token (some kind) = ok (record {
    kind = kind;
    lexeme = bridge.lossy token.lexeme;
    line = token.line;
    column = token.column;
  })
  scanned token none =
      err (record { message = scan_message token.kind; line = token.line; column = token.column })

  -- A result of a terminal number is kept.
  unfoldable pub scan : NetToken → S → Scan Token × Lexer S
  scan token raw =
      let result = scanned token (from_raw token.kind) in
      (
        result,
        record { raw = raw; terminal = if is_terminal token.kind then some result else none },
      )

  unfoldable pub next_token : Lexer S → Scan Token × Lexer S
  next_token lexer = elim lexer.terminal [
    | some result ↦ (result, lexer)
    | none ↦ scan (bridge.next lexer.raw).0 (bridge.next lexer.raw).1
  ]

  abbrev pub push_token :
      List Token
      → (List Token → Lexer S → Scan (List Token))
      → Scan Token × Lexer S
      → Scan (List Token)
  push_token tokens rest (ok token, lexer) =
      let all : List Token = tokens ++ (token ∷ []) in
      if kind_eq token.kind TokenKind.eof then ok all else rest all lexer
  push_token tokens rest (err e, lexer) = err e
  push_token tokens rest (out_of_fuel, lexer) = out_of_fuel

  -- The loop of `tokenize`, over the tokens so far.
  unfoldable pub tokenize_from : ℕ → List Token → Lexer S → Scan (List Token)
  tokenize_from zero tokens lexer = out_of_fuel
  tokenize_from (suc f) tokens lexer = push_token tokens (tokenize_from f) (next_token lexer)

  unfoldable pub tokenize : ℕ → Lexer S → Scan (List Token)
  tokenize fuel lexer = tokenize_from fuel [] lexer
