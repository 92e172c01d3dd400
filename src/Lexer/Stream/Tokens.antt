-- ===== src/Lexer/Stream/Tokens.antt =====
-- What src/lexer/ffi.rs makes of any scanner: the end is kept, and `tokenize` gives a stream that
-- `Parser::new` takes.
use net_lang.Prelude.{
  ℕ, zero, suc, ◌<◌, ◌≡◌, refl, String, Bool, true, false, Option, none, some, List, [], ◌∷◌, ◌++◌,
  arith, Bool-cases, inl, inr, ◌⊎◌,
}
use net_lang.Prelude.Int.{ℤ}
use net_lang.Lexer.Token.{TokenKind, Token, kind_eq, from_raw, raw}
use net_lang.Lexer.Token.Kinds.{from_raw_iff}
use net_lang.Lexer.Stream.{
  Bridge, LexerError, Lexer, Scan, ok, err, scan, is_terminal, next_token, tokenize_from, tokenize,
}
use net_lang.Parser.State.{Outcome, ends_at_eof, new_parser}

-- A scanner whose every token takes some of its input, but for a terminal one.
pub record Consumes {S : Type 0} (bridge : Bridge S) (remaining : S → ℕ) : Type 0 where
  pub takes :
      (raw : S)
      → is_terminal (bridge.next raw).0.kind ≡ false
      → remaining (bridge.next raw).1 < remaining raw

-- No EOF token so far.
abbrev NoEof : List Token → Type 0
NoEof [] = Unit
NoEof (t ∷ ts) = (kind_eq t.kind TokenKind.eof ≡ false) × NoEof ts

NoEof-append :
    (ts : List Token) (t : Token)
    → NoEof ts
    → kind_eq t.kind TokenKind.eof ≡ false
    → NoEof (ts ++ (t ∷ []))
NoEof-append [] t h e = (e, tt)
NoEof-append (u ∷ ts) t (h, hs) e = (h, NoEof-append ts t hs e)

ends_at_eof-append :
    (utf8 : String → List ℕ) (ts : List Token) (t : Token)
    → NoEof ts
    → kind_eq t.kind TokenKind.eof ≡ true
    → ends_at_eof utf8 (ts ++ (t ∷ [])) ≡ true
unfolding ends_at_eof
ends_at_eof-append utf8 [] t h e = e
ends_at_eof-append utf8 (u ∷ []) t (h, hs) e = rw h e
ends_at_eof-append utf8 (u ∷ v ∷ ts) t (h, hs) e = rw h (ends_at_eof-append utf8 (v ∷ ts) t hs e)

-- A token of a terminal number is an EOF token.
terminal_is_eof :
    (z : ℤ) (k : TokenKind)
    → from_raw z ≡ some k
    → kind_eq k TokenKind.eof ≡ false
    → is_terminal z ≡ false
unfolding is_terminal kind_eq raw
terminal_is_eof z k e n = let p = (from_raw_iff z k).0 e in rw p n

option_cases : {A : Type 0} (o : Option A) → ((a : A) × (o ≡ some a)) ⊎ (o ≡ none)
option_cases (some a) = inl (a, refl)
option_cases none = inr refl

-- How `tokenize` ends: with a stream that `Parser::new` takes, or with an error.
pub data Tokenized (utf8 : String → List ℕ) : Scan (List Token) → Type 0 where
  stream :
      (tokens : List Token)
      → ((spans : Bool)
          → new_parser utf8 tokens spans ≡ Outcome.ok (record { tokens = tokens; spans = spans }))
      → Tokenized utf8 (ok tokens)
  failed : (e : LexerError) → Tokenized utf8 (err e)

new_parser-ends :
    (utf8 : String → List ℕ) (tokens : List Token) (spans : Bool)
    → ends_at_eof utf8 tokens ≡ true
    → new_parser utf8 tokens spans ≡ Outcome.ok (record { tokens = tokens; spans = spans })
unfolding new_parser
new_parser-ends utf8 tokens spans h = rw h

module _ {S : Type 0} (bridge : Bridge S) where
  next_token_new :
      (lexer : Lexer S)
      → lexer.terminal ≡ none
      → next_token bridge lexer ≡ scan bridge (bridge.next lexer.raw).0 (bridge.next lexer.raw).1
  unfolding next_token
  next_token_new lexer h = rw (h)

  -- Where the lexer holds no result yet and the scanner's next number is terminal, a second call of
  -- `next_token` returns what the first returned, with the same lexer.
  pub next_token-kept :
      (lexer : Lexer S)
      → lexer.terminal ≡ none
      → is_terminal (bridge.next lexer.raw).0.kind ≡ true
      → next_token bridge (next_token bridge lexer).1 ≡ next_token bridge lexer
  unfolding next_token scan
  next_token-kept lexer h y = rw (h, y)

  module _ (utf8 : String → List ℕ) {remaining : S → ℕ} (consumes : Consumes bridge remaining) where
    tokenize_from-Tokenized :
        (f : ℕ) (tokens : List Token) (lexer : Lexer S)
        → lexer.terminal ≡ none
        → remaining lexer.raw < f
        → NoEof tokens
        → Tokenized utf8 (tokenize_from bridge f tokens lexer)
    unfolding tokenize_from scan
    tokenize_from-Tokenized zero tokens lexer h l n = absurd (omega arith)
    tokenize_from-Tokenized (suc f) tokens lexer h l n =
        let token = (bridge.next lexer.raw).0 in
        elim (option_cases (from_raw token.kind)) [
          | inr e ↦ rw (next_token_new lexer h, e) (failed _)
          | inl (k, e) ↦ elim (Bool-cases (kind_eq k TokenKind.eof)) [
            | inl y ↦
                rw (next_token_new lexer h, e, y)
                  (stream _
                    λ spans. new_parser-ends utf8 _ spans (ends_at_eof-append utf8 tokens _ n y))
            | inr m ↦
                let t = terminal_is_eof token.kind k e m in
                rw (next_token_new lexer h, e, m)
                  (tokenize_from-Tokenized f _ _ (rw t) (omega (arith, consumes.takes lexer.raw t))
                    (NoEof-append tokens _ n m))
          ]
        ]

    -- `tokenize` ends: with fuel above what remains of the input, by a stream that `Parser::new`
    -- takes, or by an error. The lexer holds no result yet, and the scanner is any whose tokens take
    -- input, but for a terminal one.
    pub tokenize-Tokenized :
        (fuel : ℕ) (lexer : Lexer S)
        → lexer.terminal ≡ none
        → remaining lexer.raw < fuel
        → Tokenized utf8 (tokenize bridge fuel lexer)
    unfolding tokenize
    tokenize-Tokenized fuel lexer h l = tokenize_from-Tokenized fuel [] lexer h l tt
