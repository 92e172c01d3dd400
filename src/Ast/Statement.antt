-- ===== src/Ast/Statement.antt =====
-- Statements, patterns and programs: src/ast/statement.rs.
use net_lang.Prelude.{String, Bool, Option, none, some, List}
use net_lang.Prelude.Int.{ℤ}
use net_lang.Source.{Span}
use net_lang.Ast.Annotation.{TypeAnnotation, TypeField, Parameter}
use net_lang.Ast.Expression.{Expr}

pub data Pattern : Type 0 where
  located : Span → Pattern → Pattern
  integer : ℤ → Pattern
  string : String → Pattern
  boolean : Bool → Pattern
  null wildcard : Pattern

mutual
  pub data Stmt : Type 0 where
    type : String → List TypeField → Stmt
    break continue : Stmt
    located : Span → Stmt → Stmt
    parallel : String → Expr → Stmt → Stmt
    match : Expr → MatchArms → Stmt
    let_ : String → Option TypeAnnotation → Expr → Stmt
    expression : Expr → Stmt
    block : Stmts → Stmt
    if_ : Expr → Stmt → OptionStmt → Stmt
    while : Expr → Stmt → Stmt
    for : String → Expr → Stmt → Stmt
    function : String → List Parameter → Option TypeAnnotation → Stmt → Stmt
    return : Option Expr → Stmt

  pub data Stmts : Type 0 where
    no_stmts : Stmts
    stmt_cons : Stmt → Stmts → Stmts

  pub data OptionStmt : Type 0 where
    no_stmt : OptionStmt
    some_stmt : Stmt → OptionStmt

  pub data MatchArms : Type 0 where
    no_arms : MatchArms
    arm_cons : Pattern → Stmt → MatchArms → MatchArms

-- A program is the list of its top-level statements.
pub record Program : Type 0 where
  pub statements : Stmts

unfoldable pub unspanned_stmt : Stmt → Stmt
unspanned_stmt (Stmt.located _ inner) = unspanned_stmt inner
unspanned_stmt statement = statement

unfoldable pub stmt_span : Stmt → Option Span
stmt_span (Stmt.located s _) = some s
stmt_span _ = none

unfoldable pub unspanned_pattern : Pattern → Pattern
unspanned_pattern (Pattern.located _ inner) = unspanned_pattern inner
unspanned_pattern pattern_ = pattern_

unfoldable pub pattern_span : Pattern → Option Span
pattern_span (Pattern.located s _) = some s
pattern_span _ = none
