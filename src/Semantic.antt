-- ===== src/Semantic.antt =====
-- The semantic analysis: src/semantic.
pub mod Scope
pub mod Analyzer
pub mod Types
pub mod Expression
pub mod Statement
pub mod Program
