-- ===== src/Ast/Pretty/Erased.antt =====
-- The printed form of a program does not show its locations: src/ast/pretty.rs.
use net_lang.Prelude.{◌≡◌, refl, String, Option, none, some, List, [], ◌∷◌, map}
use net_lang.Ast.Annotation.{TypeAnnotation, TypeField, Parameter}
use net_lang.Ast.Expression.{
  Expr, Exprs, no_exprs, expr_cons, ObjectFields, no_fields, field_cons, OptionExpr, no_expr,
  some_expr,
}
use net_lang.Ast.Statement.{
  Pattern, Stmt, Stmts, no_stmts, stmt_cons, OptionStmt, no_stmt, some_stmt, MatchArms, no_arms,
  arm_cons, Program, unspanned_pattern,
}
use net_lang.Ast.Pretty.{
  Format, suffix, type_fields, parameters, expression, expressions, field_trees, option_tree,
  pattern_text, return_trees, statement, statements, else_tree, arm_trees, pretty,
}

-- The syntax without its locations.
mutual
  pub erase_expr : Expr → Expr
  erase_expr (Expr.located _ inner) = erase_expr inner
  erase_expr (Expr.construct name fields) = Expr.construct name (erase_fields fields)
  erase_expr (Expr.connection transport address protocol) =
      Expr.connection transport (erase_expr address) protocol
  erase_expr (Expr.send target payload destination) =
      Expr.send (erase_expr target) (erase_expr payload) (erase_option destination)
  erase_expr (Expr.receive target) = Expr.receive (erase_expr target)
  erase_expr (Expr.request method url config) =
      Expr.request method (erase_expr url) (erase_option config)
  erase_expr (Expr.integer z) = Expr.integer z
  erase_expr (Expr.float x) = Expr.float x
  erase_expr (Expr.string text) = Expr.string text
  erase_expr (Expr.boolean b) = Expr.boolean b
  erase_expr Expr.null = Expr.null
  erase_expr (Expr.duration n) = Expr.duration n
  erase_expr (Expr.identifier name) = Expr.identifier name
  erase_expr (Expr.array values) = Expr.array (erase_exprs values)
  erase_expr (Expr.object fields) = Expr.object (erase_fields fields)
  erase_expr (Expr.unary operator e) = Expr.unary operator (erase_expr e)
  erase_expr (Expr.binary left operator right) =
      Expr.binary (erase_expr left) operator (erase_expr right)
  erase_expr (Expr.assignment target value) = Expr.assignment (erase_expr target) (erase_expr value)
  erase_expr (Expr.call callee arguments) = Expr.call (erase_expr callee) (erase_exprs arguments)
  erase_expr (Expr.property container name) = Expr.property (erase_expr container) name
  erase_expr (Expr.index container subscript) =
      Expr.index (erase_expr container) (erase_expr subscript)

  pub erase_exprs : Exprs → Exprs
  erase_exprs no_exprs = no_exprs
  erase_exprs (expr_cons e es) = expr_cons (erase_expr e) (erase_exprs es)

  pub erase_fields : ObjectFields → ObjectFields
  erase_fields no_fields = no_fields
  erase_fields (field_cons key value fs) = field_cons key (erase_expr value) (erase_fields fs)

  pub erase_option : OptionExpr → OptionExpr
  erase_option no_expr = no_expr
  erase_option (some_expr e) = some_expr (erase_expr e)

abbrev bare : TypeAnnotation → TypeAnnotation
bare a = record a { span = none }

abbrev erase_annotation : Option TypeAnnotation → Option TypeAnnotation
erase_annotation (some a) = some (bare a)
erase_annotation none = none

abbrev erase_field : TypeField → TypeField
erase_field f = record { name = f.name; annotation = bare f.annotation }

abbrev erase_parameter : Parameter → Parameter
erase_parameter p = record { name = p.name; annotation = erase_annotation p.annotation }

abbrev erase_value : Option Expr → Option Expr
erase_value (some e) = some (erase_expr e)
erase_value none = none

mutual
  pub erase_stmt : Stmt → Stmt
  erase_stmt (Stmt.located _ inner) = erase_stmt inner
  erase_stmt (Stmt.type name fields) = Stmt.type name (map erase_field fields)
  erase_stmt Stmt.break = Stmt.break
  erase_stmt Stmt.continue = Stmt.continue
  erase_stmt (Stmt.parallel variable iterable body) =
      Stmt.parallel variable (erase_expr iterable) (erase_stmt body)
  erase_stmt (Stmt.match value arms) = Stmt.match (erase_expr value) (erase_arms arms)
  erase_stmt (Stmt.let_ name annotation value) =
      Stmt.let_ name (erase_annotation annotation) (erase_expr value)
  erase_stmt (Stmt.expression e) = Stmt.expression (erase_expr e)
  erase_stmt (Stmt.block body) = Stmt.block (erase_stmts body)
  erase_stmt (Stmt.if_ condition then_branch else_branch) =
      Stmt.if_ (erase_expr condition) (erase_stmt then_branch) (erase_else else_branch)
  erase_stmt (Stmt.while condition body) = Stmt.while (erase_expr condition) (erase_stmt body)
  erase_stmt (Stmt.for variable iterable body) =
      Stmt.for variable (erase_expr iterable) (erase_stmt body)
  erase_stmt (Stmt.function name ps annotation body) =
      Stmt.function name (map erase_parameter ps) (erase_annotation annotation) (erase_stmt body)
  erase_stmt (Stmt.return value) = Stmt.return (erase_value value)

  pub erase_stmts : Stmts → Stmts
  erase_stmts no_stmts = no_stmts
  erase_stmts (stmt_cons s ss) = stmt_cons (erase_stmt s) (erase_stmts ss)

  pub erase_else : OptionStmt → OptionStmt
  erase_else no_stmt = no_stmt
  erase_else (some_stmt s) = some_stmt (erase_stmt s)

  pub erase_arms : MatchArms → MatchArms
  erase_arms no_arms = no_arms
  erase_arms (arm_cons p body arms) =
      arm_cons (unspanned_pattern p) (erase_stmt body) (erase_arms arms)

pub erase : Program → Program
erase program = record { statements = erase_stmts program.statements }

pattern_text-unspanned_pattern :
    (format : Format) (p : Pattern)
    → pattern_text format (unspanned_pattern p) ≡ pattern_text format p
unfolding pattern_text unspanned_pattern
pattern_text-unspanned_pattern format (Pattern.located _ p) =
    pattern_text-unspanned_pattern format p
pattern_text-unspanned_pattern format (Pattern.integer _) = refl
pattern_text-unspanned_pattern format (Pattern.string _) = refl
pattern_text-unspanned_pattern format (Pattern.boolean _) = refl
pattern_text-unspanned_pattern format Pattern.null = refl
pattern_text-unspanned_pattern format Pattern.wildcard = refl

suffix-erase :
    (mark : String) (a : Option TypeAnnotation) → suffix mark (erase_annotation a) ≡ suffix mark a
suffix-erase mark (some a) = refl
suffix-erase mark none = refl

type_fields-erase : (fs : List TypeField) → type_fields (map erase_field fs) ≡ type_fields fs
type_fields-erase [] = refl
type_fields-erase (f ∷ fs) = rw (type_fields-erase fs)

parameters-erase : (ps : List Parameter) → parameters (map erase_parameter ps) ≡ parameters ps
parameters-erase [] = refl
parameters-erase (p ∷ ps) = rw (suffix-erase ": " p.annotation, parameters-erase ps)

module _ (format : Format) where
  mutual
    unfolding erase_expr expression

    expression-erase : (e : Expr) → expression format (erase_expr e) ≡ expression format e
    expression-erase (Expr.located _ inner) = expression-erase inner
    expression-erase (Expr.construct name fields) = rw (field_trees-erase fields)
    expression-erase (Expr.connection transport address protocol) = rw (expression-erase address)
    expression-erase (Expr.send target payload destination) = rw (
      expression-erase target,
      expression-erase payload,
      option_tree-erase "Destination" destination,
    )
    expression-erase (Expr.receive target) = rw (expression-erase target)
    expression-erase (Expr.request method url config) =
        rw (expression-erase url, option_tree-erase "Config" config)
    expression-erase (Expr.integer z) = refl
    expression-erase (Expr.float x) = refl
    expression-erase (Expr.string text) = refl
    expression-erase (Expr.boolean b) = refl
    expression-erase Expr.null = refl
    expression-erase (Expr.duration n) = refl
    expression-erase (Expr.identifier name) = refl
    expression-erase (Expr.array values) = rw (expressions-erase values)
    expression-erase (Expr.object fields) = rw (field_trees-erase fields)
    expression-erase (Expr.unary operator e) = rw (expression-erase e)
    expression-erase (Expr.binary left operator right) =
        rw (expression-erase left, expression-erase right)
    expression-erase (Expr.assignment target value) =
        rw (expression-erase target, expression-erase value)
    expression-erase (Expr.call callee arguments) =
        rw (expression-erase callee, expressions-erase arguments)
    expression-erase (Expr.property container name) = rw (expression-erase container)
    expression-erase (Expr.index container subscript) =
        rw (expression-erase container, expression-erase subscript)

    expressions-erase : (es : Exprs) → expressions format (erase_exprs es) ≡ expressions format es
    expressions-erase no_exprs = refl
    expressions-erase (expr_cons e es) = rw (expression-erase e, expressions-erase es)

    field_trees-erase :
        (fs : ObjectFields) → field_trees format (erase_fields fs) ≡ field_trees format fs
    field_trees-erase no_fields = refl
    field_trees-erase (field_cons key value fs) = rw (expression-erase value, field_trees-erase fs)

    option_tree-erase :
        (label : String) (o : OptionExpr)
        → option_tree format label (erase_option o) ≡ option_tree format label o
    option_tree-erase label no_expr = refl
    option_tree-erase label (some_expr e) = rw (expression-erase e)

  return_trees-erase :
      (o : Option Expr) → return_trees format (erase_value o) ≡ return_trees format o
  return_trees-erase (some e) = rw (expression-erase e)
  return_trees-erase none = refl

  mutual
    unfolding erase_stmt statement

    statement-erase : (s : Stmt) → statement format (erase_stmt s) ≡ statement format s
    statement-erase (Stmt.located _ inner) = statement-erase inner
    statement-erase (Stmt.type name fields) = rw (type_fields-erase fields)
    statement-erase Stmt.break = refl
    statement-erase Stmt.continue = refl
    statement-erase (Stmt.parallel variable iterable body) =
        rw (expression-erase iterable, statement-erase body)
    statement-erase (Stmt.match value arms) = rw (expression-erase value, arm_trees-erase arms)
    statement-erase (Stmt.let_ name annotation value) =
        rw (suffix-erase ": " annotation, expression-erase value)
    statement-erase (Stmt.expression e) = rw (expression-erase e)
    statement-erase (Stmt.block body) = rw (statements-erase body)
    statement-erase (Stmt.if_ condition then_branch else_branch) =
        rw (expression-erase condition, statement-erase then_branch, else_tree-erase else_branch)
    statement-erase (Stmt.while condition body) =
        rw (expression-erase condition, statement-erase body)
    statement-erase (Stmt.for variable iterable body) =
        rw (expression-erase iterable, statement-erase body)
    statement-erase (Stmt.function name ps annotation body) =
        rw (parameters-erase ps, suffix-erase " -> " annotation, statement-erase body)
    statement-erase (Stmt.return value) = rw (return_trees-erase value)

    statements-erase : (ss : Stmts) → statements format (erase_stmts ss) ≡ statements format ss
    statements-erase no_stmts = refl
    statements-erase (stmt_cons s ss) = rw (statement-erase s, statements-erase ss)

    else_tree-erase : (o : OptionStmt) → else_tree format (erase_else o) ≡ else_tree format o
    else_tree-erase no_stmt = refl
    else_tree-erase (some_stmt s) = rw (statement-erase s)

    arm_trees-erase :
        (arms : MatchArms) → arm_trees format (erase_arms arms) ≡ arm_trees format arms
    arm_trees-erase no_arms = refl
    arm_trees-erase (arm_cons p body arms) =
        rw (pattern_text-unspanned_pattern format p, statement-erase body, arm_trees-erase arms)

  -- The printed form of a program is that of the program without the locations of its statements,
  -- expressions, patterns and annotations.
  pub pretty-erase : (program : Program) → pretty format (erase program) ≡ pretty format program
  unfolding pretty erase
  pretty-erase program = rw (statements-erase program.statements)
