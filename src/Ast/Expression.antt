-- ===== src/Ast/Expression.antt =====
-- Expressions: src/ast/expression.rs. A float is the bit pattern of its IEEE 754 double.
use net_lang.Prelude.{ℕ, String, Bool, Option, none, some}
use net_lang.Prelude.Int.{ℤ}
use net_lang.Source.{Span}

pub data UnaryOp : Type 0 where
  not negate : UnaryOp

pub data BinaryOp : Type 0 where
  add subtract multiply divide remainder : BinaryOp
  less less_equal greater greater_equal equal not_equal : BinaryOp
  and or : BinaryOp

pub data HttpMethod : Type 0 where
  get post put patch delete head : HttpMethod

pub data Transport : Type 0 where
  tcp udp : Transport

pub data F64 : Type 0 where
  bits : ℕ → F64

mutual
  pub data Expr : Type 0 where
    construct : String → ObjectFields → Expr
    located : Span → Expr → Expr
    connection : Transport → Expr → Option String → Expr
    send : Expr → Expr → OptionExpr → Expr
    receive : Expr → Expr
    request : HttpMethod → Expr → OptionExpr → Expr
    integer : ℤ → Expr
    float : F64 → Expr
    string : String → Expr
    boolean : Bool → Expr
    null : Expr
    -- In milliseconds.
    duration : ℕ → Expr
    identifier : String → Expr
    array : Exprs → Expr
    object : ObjectFields → Expr
    unary : UnaryOp → Expr → Expr
    binary : Expr → BinaryOp → Expr → Expr
    assignment : Expr → Expr → Expr
    call : Expr → Exprs → Expr
    property : Expr → String → Expr
    index : Expr → Expr → Expr

  pub data Exprs : Type 0 where
    no_exprs : Exprs
    expr_cons : Expr → Exprs → Exprs

  pub data ObjectFields : Type 0 where
    no_fields : ObjectFields
    field_cons : String → Expr → ObjectFields → ObjectFields

  pub data OptionExpr : Type 0 where
    no_expr : OptionExpr
    some_expr : Expr → OptionExpr

-- The expression under its locations.
unfoldable pub unspanned : Expr → Expr
unspanned (Expr.located _ inner) = unspanned inner
unspanned expression = expression

-- The location of the outermost node only.
unfoldable pub span : Expr → Option Span
span (Expr.located s _) = some s
span _ = none
