-- ===== src/Lexer.antt =====
-- The lexer: src/lexer.
pub mod Token
pub mod Stream
