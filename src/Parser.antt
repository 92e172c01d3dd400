-- ===== src/Parser.antt =====
-- The parser: src/parser.
pub mod State
pub mod Literal
pub mod Primary
pub mod Expression
pub mod Statement
pub mod Reads
