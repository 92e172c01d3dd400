-- ===== src/Lexer/Token.antt =====
-- Tokens: src/lexer/token.rs. A kind is its number, which the scanner returns.
pub mod Kinds
use net_lang.Prelude.{
  ℕ, String, Bool, Option, none, some, List, [], ◌∷◌, ◌==◌, get_elem?, if◌then◌else◌,
}
use net_lang.Prelude.Int.{ℤ, pos, negsuc}
use net_lang.Source.{Position, Span, from_text}

pub data TokenKind : Type 0 where
  eof identifier integer float string duration let_ fn : TokenKind
  return if_ else_ while for in_ match parallel : TokenKind
  true false null get post put patch delete : TokenKind
  head plus minus star slash percent equal equal_equal : TokenKind
  bang bang_equal less less_equal greater greater_equal and_and or_or : TokenKind
  left_paren right_paren left_brace right_brace left_bracket right_bracket comma colon : TokenKind
  semicolon dot fat_arrow tcp udp send receive to : TokenKind
  using break continue arrow type : TokenKind

pub record Token : Type 0 where
  pub kind : TokenKind
  pub lexeme : String
  pub line : ℕ
  pub column : ℕ

-- The discriminant of a kind.
unfoldable pub raw : TokenKind → ℕ
raw eof = 0
raw identifier = 1
raw integer = 2
raw float = 3
raw string = 4
raw duration = 5
raw let_ = 6
raw fn = 7
raw return = 8
raw if_ = 9
raw else_ = 10
raw while = 11
raw for = 12
raw in_ = 13
raw match = 14
raw parallel = 15
raw true = 16
raw false = 17
raw null = 18
raw get = 19
raw post = 20
raw put = 21
raw patch = 22
raw delete = 23
raw head = 24
raw plus = 25
raw minus = 26
raw star = 27
raw slash = 28
raw percent = 29
raw equal = 30
raw equal_equal = 31
raw bang = 32
raw bang_equal = 33
raw less = 34
raw less_equal = 35
raw greater = 36
raw greater_equal = 37
raw and_and = 38
raw or_or = 39
raw left_paren = 40
raw right_paren = 41
raw left_brace = 42
raw right_brace = 43
raw left_bracket = 44
raw right_bracket = 45
raw comma = 46
raw colon = 47
raw semicolon = 48
raw dot = 49
raw fat_arrow = 50
raw tcp = 51
raw udp = 52
raw send = 53
raw receive = 54
raw to = 55
raw using = 56
raw break = 57
raw continue = 58
raw arrow = 59
raw type = 60

unfoldable pub kind_eq : TokenKind → TokenKind → Bool
kind_eq a b = raw a == raw b

-- The kinds by their numbers.
unfoldable pub kinds : List TokenKind
kinds =
    eof ∷ identifier ∷ integer ∷ float ∷ string ∷ duration ∷ let_ ∷ fn ∷ return ∷ if_ ∷ else_
    ∷ while ∷ for ∷ in_ ∷ match ∷ parallel ∷ true ∷ false ∷ null ∷ get ∷ post ∷ put ∷ patch ∷ delete
    ∷ head ∷ plus ∷ minus ∷ star ∷ slash ∷ percent ∷ equal ∷ equal_equal ∷ bang ∷ bang_equal ∷ less
    ∷ less_equal ∷ greater ∷ greater_equal ∷ and_and ∷ or_or ∷ left_paren ∷ right_paren ∷ left_brace
    ∷ right_brace ∷ left_bracket ∷ right_bracket ∷ comma ∷ colon ∷ semicolon ∷ dot ∷ fat_arrow ∷ tcp
    ∷ udp ∷ send ∷ receive ∷ to ∷ using ∷ break ∷ continue ∷ arrow ∷ type ∷ []

unfoldable pub from_raw : ℤ → Option TokenKind
from_raw (pos n) = get_elem? kinds n
from_raw (negsuc _) = none

unfoldable pub name : TokenKind → String
name eof = "EOF"
name identifier = "IDENTIFIER"
name integer = "INTEGER"
name float = "FLOAT"
name string = "STRING"
name duration = "DURATION"
name let_ = "LET"
name fn = "FN"
name return = "RETURN"
name if_ = "IF"
name else_ = "ELSE"
name while = "WHILE"
name for = "FOR"
name in_ = "IN"
name match = "MATCH"
name parallel = "PARALLEL"
name true = "TRUE"
name false = "FALSE"
name null = "NULL"
name get = "GET"
name post = "POST"
name put = "PUT"
name patch = "PATCH"
name delete = "DELETE"
name head = "HEAD"
name plus = "PLUS"
name minus = "MINUS"
name star = "STAR"
name slash = "SLASH"
name percent = "PERCENT"
name equal = "EQUAL"
name equal_equal = "EQUAL_EQUAL"
name bang = "BANG"
name bang_equal = "BANG_EQUAL"
name less = "LESS"
name less_equal = "LESS_EQUAL"
name greater = "GREATER"
name greater_equal = "GREATER_EQUAL"
name and_and = "AND_AND"
name or_or = "OR_OR"
name left_paren = "LEFT_PAREN"
name right_paren = "RIGHT_PAREN"
name left_brace = "LEFT_BRACE"
name right_brace = "RIGHT_BRACE"
name left_bracket = "LEFT_BRACKET"
name right_bracket = "RIGHT_BRACKET"
name comma = "COMMA"
name colon = "COLON"
name semicolon = "SEMICOLON"
name dot = "DOT"
name fat_arrow = "FAT_ARROW"
name tcp = "TCP"
name udp = "UDP"
name send = "SEND"
name receive = "RECEIVE"
name to = "TO"
name using = "USING"
name break = "BREAK"
name continue = "CONTINUE"
name arrow = "ARROW"
name type = "TYPE"

-- `utf8` is the encoding of a text.
unfoldable pub token_span : (String → List ℕ) → Token → Span
token_span utf8 token =
    from_text (record { line = token.line; column = token.column })
      (if kind_eq token.kind eof then [] else utf8 token.lexeme)
