-- ===== src/Interp/Keeps/Runs.antt =====
-- What every statement of src/interpreter/mod.rs keeps, by induction on the syntax, if the calls
-- of function values keep it.
use net_lang.Prelude.{ℕ, Option, none, some, List, [], ◌∷◌}
use net_lang.Ast.{
  Expr, Stmt, Stmts, OptionStmt, MatchArms, no_stmts, stmt_cons, no_stmt, some_stmt, no_arms,
  arm_cons, span, stmt_span,
}
use net_lang.Runtime.Value.{Value, Values}
use net_lang.Runtime.Host.{Platform}
use net_lang.Interp.State.{M, Context, Environment, Flow, ◌>>=◌, pure}
use net_lang.Interp.Expression.{expression}
use net_lang.Interp.Statement.{Runner, plain, plain_step, pattern_matches, flow_of}
use net_lang.Interp.Block.{run, run_else, run_arms, run_all, statements}
use net_lang.Interp.Keeps.{Keeps, Any, Keeps-pure, Keeps-map}
use net_lang.Interp.Keeps.Small.{Keeps-panic, Keeps-with_span, Keeps-if}
use net_lang.Interp.Keeps.Evaluation.{◌thereafter◌, Keeps-expression}
use net_lang.Interp.Keeps.Workers.{Keeps-parallel}
use net_lang.Interp.Keeps.Loops.{Keeps-run_while, Keeps-run_for}
use net_lang.Interp.Keeps.Blocks.{
  OwnSlot, OwnSlots, Keeps-step_in_block, Keeps-single, Keeps-condition, Keeps-return_value,
  Keeps-bind_variable, Keeps-in_block,
}

-- A statement keeps the state both ways it is run.
KeepsRunner : {H : Type 0} → ℕ → Context → Runner H → Type 0
KeepsRunner n c r =
    ((slot : Option ℕ) (env : Environment) → OwnSlot c slot → Keeps n c 0 Any (r.0 slot env))
    × ((env : Environment) → Keeps n c 0 Any (r.1 env))

module _ {H : Type 0} {n : ℕ} where
  Keeps-plain :
      {c : Context} (s : Stmt) {m : Environment → M H Flow}
      → ((env : Environment) → Keeps n c 0 Any (m env))
      → KeepsRunner n c (plain s m)
  unfolding plain KeepsRunner plain_step
  Keeps-plain {c} s {m} h = (steps, Keeps-single s steps)
    where
      steps :
          (slot : Option ℕ) (env : Environment)
          → OwnSlot c slot
          → Keeps n c 0 Any (m env >>= plain_step env)
      steps slot env own = h env thereafter λ flow. Keeps-pure _ tt

  Keeps-flow_of :
      {c : Context} {m : M H (Flow × Environment)} → Keeps n c 0 Any m → Keeps n c 0 Any (flow_of m)
  Keeps-flow_of h = h thereafter λ (flow, _). Keeps-pure flow tt

  module _ (platform : Platform H) {call : Value → Values → M H Value}
      (calls : (c : Context) (f : Value) (args : Values) → Keeps n c 0 Any (call f args)) where
    evaluated :
        {c : Context} (e : Expr) (env : Environment)
        → Keeps n c 1 Any (expression platform call e env)
    evaluated {c} = Keeps-expression platform call (calls c)

    value_of :
        {c : Context} (e : Expr) (env : Environment)
        → Keeps n c 0 Any (expression platform call e env)
    value_of e env = Keeps-map (λ _ q. q) (evaluated e env)

    mutual
      unfolding run run_else run_arms run_all KeepsRunner

      run-Keeps : (c : Context) (s : Stmt) → KeepsRunner n c (run platform call s)
      run-Keeps c (Stmt.located sp inner) =
          ((run-Keeps c inner).0, λ env. Keeps-with_span (some sp) ((run-Keeps c inner).1 env))
      run-Keeps c (Stmt.type name fields) = Keeps-plain _ λ env. Keeps-pure _ tt
      run-Keeps c Stmt.break = Keeps-plain _ λ env. Keeps-pure _ tt
      run-Keeps c Stmt.continue = Keeps-plain _ λ env. Keeps-pure _ tt
      run-Keeps c (Stmt.parallel variable iterable body) = Keeps-plain _ λ env.
          value_of iterable env thereafter λ values.
          Keeps-parallel platform variable values env _ (λ c'. (run-Keeps c' body).1)
          thereafter λ _. Keeps-pure _ tt
      run-Keeps c (Stmt.match e arms) =
          Keeps-plain _ λ env. value_of e env thereafter λ v. run_arms-Keeps c arms v env
      run-Keeps c (Stmt.let_ name annotation e) = (steps, Keeps-single _ steps)
        where
          steps :
              (slot : Option ℕ) (env : Environment)
              → OwnSlot c slot
              → Keeps n c 0 Any ((run platform call (Stmt.let_ name annotation e)).0 slot env)
          steps slot env own =
              value_of e env thereafter λ v. Keeps-bind_variable name (span e) slot v env own
      run-Keeps c (Stmt.expression e) =
          Keeps-plain _ λ env. value_of e env thereafter λ _. Keeps-pure _ tt
      run-Keeps c (Stmt.block ss) = (
        λ slot env own.
            Keeps-flow_of (Keeps-in_block ss (run_all-Keeps c ss) ([] ∷ env)) thereafter λ flow.
            Keeps-pure _ tt,
        λ env. Keeps-flow_of (Keeps-in_block ss (run_all-Keeps c ss) env),
      )
      run-Keeps c (Stmt.if_ test then_branch else_branch) = Keeps-plain _ λ env.
          Keeps-map (λ _ q. q) (Keeps-condition (span test) (evaluated test env)) thereafter λ b.
          Keeps-if b ((run-Keeps c then_branch).1 ([] ∷ env)) (run_else-Keeps c else_branch env)
      run-Keeps c (Stmt.while test body) = Keeps-plain _ λ env.
          Keeps-run_while _ _ (Keeps-condition (span test) (evaluated test env))
            ((run-Keeps c body).1 ([] ∷ env))
      run-Keeps c (Stmt.for variable iterable body) = Keeps-plain _ λ env.
          value_of iterable env thereafter λ v. Keeps-run_for variable env _ v (run-Keeps c body).1
      run-Keeps c (Stmt.function name parameters annotation body) =
          Keeps-plain _ λ env. Keeps-pure _ tt
      run-Keeps c (Stmt.return none) = Keeps-plain _ λ env. Keeps-return_value none Value.null
      run-Keeps c (Stmt.return (some e)) =
          Keeps-plain _ λ env. value_of e env thereafter λ v. Keeps-return_value (span e) v

      run_else-Keeps :
          (c : Context) (o : OptionStmt) (env : Environment)
          → Keeps n c 0 Any (run_else platform call o env)
      run_else-Keeps c no_stmt env = Keeps-pure _ tt
      run_else-Keeps c (some_stmt branch) env = (run-Keeps c branch).1 ([] ∷ env)

      run_arms-Keeps :
          (c : Context) (arms : MatchArms) (v : Value) (env : Environment)
          → Keeps n c 0 Any (run_arms platform call arms v env)
      run_arms-Keeps c no_arms v env = Keeps-pure _ tt
      run_arms-Keeps c (arm_cons p body rest) v env =
          Keeps-if (pattern_matches p v) ((run-Keeps c body).1 ([] ∷ env))
            (run_arms-Keeps c rest v env)

      run_all-Keeps :
          (c : Context) (ss : Stmts) (slots : List (Option ℕ)) (env : Environment)
          → OwnSlots c slots
          → Keeps n c 0 Any (run_all platform call ss slots env)
      run_all-Keeps c no_stmts slots env own = Keeps-pure _ tt
      run_all-Keeps c (stmt_cons s rest) [] env own = Keeps-panic
      run_all-Keeps c (stmt_cons s rest) (slot ∷ slots) env own =
          Keeps-step_in_block (stmt_span s) (run-Keeps c s).0 slot env own.0
          thereafter λ (flow, env'). go (λ env'. run_all-Keeps c rest slots env' own.1) flow env'
        where
          go :
              ((env : Environment) → Keeps n c 0 Any (run_all platform call rest slots env))
              → (flow : Flow) (env' : Environment)
              → Keeps n c 0 Any (elim flow [
                | Flow.normal ↦ run_all platform call rest slots env'
                | other ↦ pure (other, env')
              ])
          go h Flow.normal env' = h env'
          go h Flow.break env' = Keeps-pure _ tt
          go h Flow.continue env' = Keeps-pure _ tt
          go h (Flow.return v) env' = Keeps-pure _ tt

    pub Keeps-body :
        (c : Context) (s : Stmt) (env : Environment) → Keeps n c 0 Any ((run platform call s).1 env)
    unfolding KeepsRunner
    Keeps-body c s = (run-Keeps c s).1

    pub Keeps-statements :
        (c : Context) (ss : Stmts) (env : Environment)
        → Keeps n c 0 Any (statements platform call ss env)
    unfolding statements
    Keeps-statements c ss env = Keeps-in_block ss (run_all-Keeps c ss) env
