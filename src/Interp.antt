-- ===== src/Interp.antt =====
-- The tree-walking interpreter: src/interpreter.
pub mod State
pub mod Port
pub mod Types
pub mod Operations
pub mod Access
pub mod Expression
pub mod Statement
pub mod Block
pub mod Call
pub mod Keeps
pub mod Parallel
pub mod Program
