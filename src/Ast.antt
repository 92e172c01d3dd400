-- ===== src/Ast.antt =====
-- The syntax tree: src/ast. `Box` and `Rc` leave no trace, and a `Vec` or an `Option` that holds
-- the tree itself is a type of its block.
pub mod Annotation
pub mod Expression
pub mod Statement
pub mod Pretty
unfoldable pub use Annotation.*
unfoldable pub use Expression.*
unfoldable pub use Statement.*
