-- ===== src/Semantic/Program.antt =====
-- The checks of each statement, and `analyze`: src/semantic/mod.rs.
use net_lang.Prelude.{ℕ, suc, none, some, List, [], ◌∷◌}
use net_lang.Ast.{
  Stmt, Stmts, OptionStmt, MatchArms, no_stmts, stmt_cons, no_stmt, some_stmt, no_arms, arm_cons,
  Program,
}
use net_lang.Types.{new_registry}
use net_lang.Semantic.Scope.{new_scopes}
use net_lang.Semantic.Analyzer.{
  Analyzer, Check, SemanticError, Place, LoopKind, ◌then◌, skip, under_span, in_context, in_scope,
  in_loop,
}
use net_lang.Semantic.Expression.{expression}
use net_lang.Semantic.Statement.{
  Checks, single, scoped, type_declaration, check_break, check_continue, check_let, check_returned,
  declare_parameters, in_function, in_iteration, hoist,
}

unfoldable mutual
  unfolding single scoped type_declaration check_break check_continue check_let check_returned
      declare_parameters in_function in_iteration hoist expression under_span in_context in_scope
      in_loop

  pub statement : Stmt → Checks
  statement (Stmt.located sp inner) =
      (under_span (some sp) (statement inner).0, under_span (some sp) (statement inner).1)
  statement (Stmt.type name fields) = single (Stmt.type name fields) (type_declaration name fields)
  statement Stmt.break = single Stmt.break check_break
  statement Stmt.continue = single Stmt.continue check_continue
  statement (Stmt.let_ name annotation value) =
      single (Stmt.let_ name annotation value) (check_let name annotation value)
  statement (Stmt.expression e) = single (Stmt.expression e) (expression e)
  statement (Stmt.block body) = (
    scoped Place.block (hoist 0 body then statements_from 0 body),
    hoist 0 body then statements_from 0 body,
  )
  statement (Stmt.function name parameters annotation body) =
      single (Stmt.function name parameters annotation body) (
        in_context (Place.function name) (
          in_scope
            (in_function annotation (declare_parameters parameters then (statement body).1))))
  statement (Stmt.return value) = single (Stmt.return value) (check_returned value)
  statement (Stmt.if_ test then_branch else_branch) =
      single (Stmt.if_ test then_branch else_branch) (
        expression test
        then scoped Place.if_branch (statement then_branch).1
        then else_statement else_branch)
  statement (Stmt.while test body) =
      single (Stmt.while test body)
        (expression test then in_loop LoopKind.serial (scoped Place.while_body (statement body).1))
  statement (Stmt.for variable iterable body) =
      single (Stmt.for variable iterable body)
        (expression iterable then in_iteration LoopKind.serial variable (statement body).1)
  statement (Stmt.parallel variable iterable body) =
      single (Stmt.parallel variable iterable body)
        (expression iterable then in_iteration LoopKind.parallel variable (statement body).1)
  statement (Stmt.match e arms) = single (Stmt.match e arms) (expression e then match_arms 0 arms)

  pub else_statement : OptionStmt → Check
  else_statement no_stmt = skip
  else_statement (some_stmt branch) = scoped Place.else_branch (statement branch).1

  pub match_arms : ℕ → MatchArms → Check
  match_arms i no_arms = skip
  match_arms i (arm_cons _ body rest) =
      scoped (Place.match_arm (suc i)) (statement body).1 then match_arms (suc i) rest

  pub statements_from : ℕ → Stmts → Check
  statements_from i no_stmts = skip
  statements_from i (stmt_cons s rest) =
      in_context (Place.statement (suc i)) (statement s).0 then statements_from (suc i) rest

unfoldable pub statements : Stmts → Check
unfolding statement hoist
statements block = hoist 0 block then statements_from 0 block

unfoldable pub new_analyzer : ℕ → Program → Analyzer
unfolding new_scopes new_registry
new_analyzer identity program = record {
  types = new_registry identity program;
  declared_types = [];
  return_type = none;
  loops = [];
  current_span = none;
  scopes = new_scopes;
  function_depth = 0;
  context = Place.program ∷ [];
  errors = [];
  parallel_boundaries = [];
}

-- The errors of a program; none of them means that it is accepted.
unfoldable pub analyze : ℕ → Program → List SemanticError
unfolding new_analyzer statements in_scope
analyze identity program =
    (in_scope (statements program.statements) (new_analyzer identity program)).errors
