-- ===== src/Ast/Pretty.antt =====
-- The printed form of a program: src/ast/pretty.rs. `texts` is Rust's formatting of numbers and texts.
pub mod Erased
use Prim.Native.String as Text
use net_lang.Prelude.{
  ℕ, String, Bool, true, false, Option, none, some, List, [], ◌∷◌, if◌then◌else◌,
}
use net_lang.Prelude.Int.{ℤ, pos}
use net_lang.Ast.Annotation.{TypeAnnotation, TypeField, Parameter}
use net_lang.Ast.Expression.{
  F64, Expr, Exprs, no_exprs, expr_cons, ObjectFields, no_fields, field_cons, OptionExpr, no_expr,
  some_expr, UnaryOp, BinaryOp, HttpMethod, Transport,
}
use net_lang.Ast.Statement.{
  Pattern, Stmt, Stmts, no_stmts, stmt_cons, OptionStmt, no_stmt, some_stmt, MatchArms, no_arms,
  arm_cons, Program, unspanned_pattern,
}

mutual
  pub data Tree : Type 0 where
    node : String → Trees → Tree

  pub data Trees : Type 0 where
    no_trees : Trees
    tree_cons : Tree → Trees → Trees

-- Rust's formatting of numbers and quoting of texts.
pub record Format : Type 0 where
  pub show_integer : ℤ → String
  pub show_float : F64 → String
  pub debug_string : String → String

infixr 65 ◌<>◌
abbrev pub ◌<>◌ : String → String → String
◌<>◌ = Text.◌++◌

abbrev pub leaf : String → Tree
leaf label = node label no_trees

abbrev pub one : Tree → Trees
one t = tree_cons t no_trees

abbrev pub two : Tree → Tree → Trees
two t u = tree_cons t (one u)

abbrev pub is_last : Trees → Bool
is_last no_trees = true
is_last (tree_cons _ _) = false

unfoldable mutual
  pub write : Tree → String → Bool → String
  write (node label children) prefix last =
      prefix
      <> (if last then "└── " else "├── ")
      <> label
      <> "\n"
      <> write_all children (prefix <> (if last then "    " else "│   "))

  -- The children, of which the last is drawn otherwise.
  pub write_all : Trees → String → String
  write_all no_trees prefix = ""
  write_all (tree_cons t ts) prefix = write t prefix (is_last ts) <> write_all ts prefix

unfoldable pub transport_name : Transport → String
transport_name Transport.tcp = "TCP"
transport_name Transport.udp = "UDP"

unfoldable pub unary_name : UnaryOp → String
unary_name UnaryOp.not = "!"
unary_name UnaryOp.negate = "-"

unfoldable pub binary_name : BinaryOp → String
binary_name BinaryOp.add = "+"
binary_name BinaryOp.subtract = "-"
binary_name BinaryOp.multiply = "*"
binary_name BinaryOp.divide = "/"
binary_name BinaryOp.remainder = "%"
binary_name BinaryOp.less = "<"
binary_name BinaryOp.less_equal = "<="
binary_name BinaryOp.greater = ">"
binary_name BinaryOp.greater_equal = ">="
binary_name BinaryOp.equal = "=="
binary_name BinaryOp.not_equal = "!="
binary_name BinaryOp.and = "&&"
binary_name BinaryOp.or = "||"

unfoldable pub method_name : HttpMethod → String
method_name HttpMethod.get = "GET"
method_name HttpMethod.post = "POST"
method_name HttpMethod.put = "PUT"
method_name HttpMethod.patch = "PATCH"
method_name HttpMethod.delete = "DELETE"
method_name HttpMethod.head = "HEAD"

abbrev pub bool_text : Bool → String
bool_text true = "true"
bool_text false = "false"

abbrev pub suffix : String → Option TypeAnnotation → String
suffix mark (some a) = mark <> a.name
suffix mark none = ""

abbrev pub type_fields : List TypeField → Trees
type_fields [] = no_trees
type_fields (f ∷ fs) = tree_cons (leaf (f.name <> ": " <> f.annotation.name)) (type_fields fs)

abbrev pub parameters : List Parameter → Trees
parameters [] = no_trees
parameters (p ∷ ps) = tree_cons (leaf (p.name <> suffix ": " p.annotation)) (parameters ps)

abbrev pub protocol_tree : Option String → Trees
protocol_tree (some p) = one (leaf ("Protocol " <> p))
protocol_tree none = no_trees

module _ (format : Format) where
  unfoldable mutual
    pub expression : Expr → Tree
    expression (Expr.construct name fields) = node ("Construct " <> name) (field_trees fields)
    expression (Expr.located _ inner) = expression inner
    expression (Expr.connection transport address protocol) =
        node ("Connection " <> transport_name transport)
          (tree_cons (node "Address" (one (expression address))) (protocol_tree protocol))
    expression (Expr.send target payload destination) = node "Send" (
        tree_cons (node "Connection" (one (expression target))) (
          tree_cons (node "Data" (one (expression payload)))
            (option_tree "Destination" destination)))
    expression (Expr.receive target) = node "Receive" (one (expression target))
    expression (Expr.integer value) = leaf ("Integer " <> format.show_integer value)
    expression (Expr.float value) = leaf ("Float " <> format.show_float value)
    expression (Expr.string value) = leaf ("String " <> format.debug_string value)
    expression (Expr.boolean value) = leaf ("Boolean " <> bool_text value)
    expression Expr.null = leaf "Null"
    expression (Expr.duration value) = leaf ("Duration " <> format.show_integer (pos value) <> "ms")
    expression (Expr.identifier name) = leaf ("Identifier " <> name)
    expression (Expr.array values) = node "Array" (expressions values)
    expression (Expr.object fields) = node "Object" (field_trees fields)
    expression (Expr.unary operator inner) =
        node ("Unary " <> unary_name operator) (one (expression inner))
    expression (Expr.binary left operator right) =
        node ("Binary " <> binary_name operator) (two (expression left) (expression right))
    expression (Expr.assignment target value) =
        node "Assignment"
          (two (node "Target" (one (expression target))) (node "Value" (one (expression value))))
    expression (Expr.call callee arguments) =
        node "Call"
          (two (node "Callee" (one (expression callee))) (node "Arguments" (expressions arguments)))
    expression (Expr.property container name) =
        node ("Property " <> name) (one (expression container))
    expression (Expr.index container subscript) = node "Index" (
        two (node "Object" (one (expression container)))
          (node "Subscript" (one (expression subscript))))
    expression (Expr.request method url config) =
        node ("Request " <> method_name method)
          (tree_cons (node "URL" (one (expression url))) (option_tree "Config" config))

    pub expressions : Exprs → Trees
    expressions no_exprs = no_trees
    expressions (expr_cons e es) = tree_cons (expression e) (expressions es)

    pub field_trees : ObjectFields → Trees
    field_trees no_fields = no_trees
    field_trees (field_cons key value fs) =
        tree_cons (node ("Field " <> format.debug_string key) (one (expression value)))
          (field_trees fs)

    pub option_tree : String → OptionExpr → Trees
    option_tree label no_expr = no_trees
    option_tree label (some_expr e) = one (node label (one (expression e)))

  -- The text of a pattern under its locations: `arm.pattern.unspanned()` takes all of them off, so the
  -- `unreachable!` after it is none of the cases.
  unfoldable pub pattern_text : Pattern → String
  pattern_text (Pattern.located _ p) = pattern_text p
  pattern_text (Pattern.integer value) = format.show_integer value
  pattern_text (Pattern.string value) = format.debug_string value
  pattern_text (Pattern.boolean value) = bool_text value
  pattern_text Pattern.null = "null"
  pattern_text Pattern.wildcard = "_"

  abbrev pub return_trees : Option Expr → Trees
  return_trees (some e) = one (expression e)
  return_trees none = no_trees

  abbrev pub loop_tree : String → String → Tree → Tree → Tree
  loop_tree keyword variable iterable body =
      node (keyword <> variable) (two (node "Iterable" (one iterable)) body)

  unfoldable mutual
    pub statement : Stmt → Tree
    statement (Stmt.type name fields) = node ("Type " <> name) (type_fields fields)
    statement Stmt.break = leaf "Break"
    statement Stmt.continue = leaf "Continue"
    statement (Stmt.located _ inner) = statement inner
    statement (Stmt.let_ name annotation value) =
        node ("Let " <> name <> suffix ": " annotation) (one (expression value))
    statement (Stmt.expression e) = node "Expression" (one (expression e))
    statement (Stmt.block body) = node "Block" (statements body)
    statement (Stmt.function name ps annotation body) =
        node ("Function " <> name <> suffix " -> " annotation)
          (two (node "Parameters" (parameters ps)) (statement body))
    statement (Stmt.return value) = node "Return" (return_trees value)
    statement (Stmt.if_ condition then_branch else_branch) = node "If" (
        tree_cons (node "Condition" (one (expression condition)))
          (tree_cons (node "Then" (one (statement then_branch))) (else_tree else_branch)))
    statement (Stmt.while condition body) =
        node "While" (two (node "Condition" (one (expression condition))) (statement body))
    statement (Stmt.for variable iterable body) =
        loop_tree "For " variable (expression iterable) (statement body)
    statement (Stmt.parallel variable iterable body) =
        loop_tree "Parallel " variable (expression iterable) (statement body)
    statement (Stmt.match value arms) =
        node "Match" (tree_cons (node "Value" (one (expression value))) (arm_trees arms))

    pub statements : Stmts → Trees
    statements no_stmts = no_trees
    statements (stmt_cons s ss) = tree_cons (statement s) (statements ss)

    pub else_tree : OptionStmt → Trees
    else_tree no_stmt = no_trees
    else_tree (some_stmt s) = one (node "Else" (one (statement s)))

    pub arm_trees : MatchArms → Trees
    arm_trees no_arms = no_trees
    arm_trees (arm_cons p body arms) =
        tree_cons (node ("Arm " <> pattern_text p) (one (statement body))) (arm_trees arms)

  unfoldable pub pretty : Program → String
  pretty program = "Program\n" <> write_all (statements program.statements) ""
