-- ===== src/Interp/Block.antt =====
-- The runner of each statement: `statements`, `body` and `statement` of src/interpreter/mod.rs.
use net_lang.Prelude.{ℕ, Option, none, some, List, [], ◌∷◌, if◌then◌else◌}
use net_lang.Ast.{
  Expr, Stmt, Stmts, OptionStmt, MatchArms, no_stmts, stmt_cons, no_stmt, some_stmt, no_arms,
  arm_cons, span, stmt_span,
}
use net_lang.Runtime.Value.{Value, Values}
use net_lang.Runtime.Host.{Platform}
use net_lang.Interp.State.{M, Environment, Flow, ◌>>=◌, ◌>>◌, pure, panic, with_span}
use net_lang.Interp.Expression.{expression}
use net_lang.Interp.Parallel.{parallel}
use net_lang.Interp.Statement.{
  Step, Runner, pattern_matches, single, plain, step_in_block, condition, run_while, run_for,
  return_value, bind_variable, in_block, flow_of,
}

module _ {H : Type 0} (platform : Platform H) (call : Value → Values → M H Value) where
  abbrev evaluate : Expr → Environment → M H Value
  evaluate = expression platform call

  unfoldable mutual
    pub run : Stmt → Runner H
    run (Stmt.located sp inner) = ((run inner).0, λ env. with_span (some sp) ((run inner).1 env))
    run (Stmt.type name fields) = plain (Stmt.type name fields) (λ env. pure Flow.normal)
    run Stmt.break = plain Stmt.break (λ env. pure Flow.break)
    run Stmt.continue = plain Stmt.continue (λ env. pure Flow.continue)
    run (Stmt.parallel variable iterable body) = plain (Stmt.parallel variable iterable body) λ env.
        do
          values ← evaluate iterable env
          parallel platform variable values env (run body).1
          pure Flow.normal
    run (Stmt.match e arms) =
        plain (Stmt.match e arms) λ env. evaluate e env >>= λ v. run_arms arms v env
    run (Stmt.let_ name annotation e) =
        let step : Step H =
          λ slot env. evaluate e env >>= λ v. bind_variable name (span e) slot v env in
        (step, single (Stmt.let_ name annotation e) step)
    run (Stmt.expression e) =
        plain (Stmt.expression e) λ env. evaluate e env >>= λ _. pure Flow.normal
    run (Stmt.block statements) = (
      λ slot env. flow_of (in_block statements (run_all statements) ([] ∷ env)) >>= λ flow.
          pure (flow, env),
      λ env. flow_of (in_block statements (run_all statements) env),
    )
    run (Stmt.if_ test then_branch else_branch) =
        plain (Stmt.if_ test then_branch else_branch) λ env.
          condition (span test) (evaluate test env) >>= λ b.
          if b then (run then_branch).1 ([] ∷ env) else run_else else_branch env
    run (Stmt.while test body) =
        plain (Stmt.while test body)
          λ env. run_while (condition (span test) (evaluate test env)) ((run body).1 ([] ∷ env))
    run (Stmt.for variable iterable body) =
        plain (Stmt.for variable iterable body)
          λ env. evaluate iterable env >>= run_for variable env (run body).1
    run (Stmt.function name parameters annotation body) =
        plain (Stmt.function name parameters annotation body) (λ env. pure Flow.normal)
    run (Stmt.return none) = plain (Stmt.return none) (λ env. return_value none Value.null)
    run (Stmt.return (some e)) =
        plain (Stmt.return (some e)) λ env. evaluate e env >>= return_value (span e)

    pub run_else : OptionStmt → Environment → M H Flow
    run_else no_stmt env = pure Flow.normal
    run_else (some_stmt branch) env = (run branch).1 ([] ∷ env)

    pub run_arms : MatchArms → Value → Environment → M H Flow
    run_arms no_arms value env = pure Flow.normal
    run_arms (arm_cons pattern_ body rest) value env =
        let later = run_arms rest value env in
        if pattern_matches pattern_ value then (run body).1 ([] ∷ env) else later

    -- The first statement that does not end normally ends the block.
    pub run_all : Stmts → List (Option ℕ) → Environment → M H (Flow × Environment)
    run_all no_stmts slots env = pure (Flow.normal, env)
    run_all (stmt_cons statement rest) [] env = panic
    run_all (stmt_cons statement rest) (slot ∷ slots) env =
        step_in_block (stmt_span statement) (run statement).0 slot env >>= λ (flow, env').
        elim flow [ Flow.normal ↦ run_all rest slots env' | other ↦ pure (other, env') ]

  -- `statements` on a whole block, with the scope that it leaves.
  unfoldable pub statements : Stmts → Environment → M H (Flow × Environment)
  statements block = in_block block (run_all block)
