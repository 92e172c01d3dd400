-- ===== src/Interp/Program.antt =====
-- Executing a program: `execute_with_limits` of src/interpreter/mod.rs.
use net_lang.Prelude.{
  ℕ, String, Bool, true, false, ◌&&◌, Option, none, some, List, [], ◌∷◌, ◌++◌, leb, length,
  get_elem?, if◌then◌else◌,
}
use net_lang.Prelude.Text.{str_eq, lookup, insert}
use net_lang.Source.{Span}
use net_lang.Ast.{Stmt, Stmts, no_stmts, stmt_cons, Program, unspanned_stmt, stmt_span}
use net_lang.Types.{new_registry}
use net_lang.Runtime.Value.{Value, Values, Builtin, nil}
use net_lang.Runtime.Host.{Message, Platform}
use net_lang.Runtime.Builtin.{all_builtins, builtin_name}
use net_lang.Interp.Port.{Port, direct}
use net_lang.Interp.State.{
  M, Context, State, Environment, Binding, Limits, RuntimeError, Outcome, ok, err, ◌>>=◌, pure,
  panic, fail,
}
use net_lang.Interp.Block.{statements}
use net_lang.Interp.Call.{call}
use net_lang.Semantic.Analyzer.{SemanticError}
use net_lang.Semantic.Program.{analyze}

-- The built-in bindings and the scope that names them.
unfoldable pub install :
    List Builtin → List Binding → List (String × ℕ) → List Binding × List (String × ℕ)
install [] bindings scope = (bindings, scope)
install (b ∷ bs) bindings scope =
    install bs
      (bindings
        ++ record { annotation = none; value = some (Value.builtin b); mutable = false } ∷ [])
      (insert (builtin_name b) (length bindings) scope)

unfoldable pub builtin_bindings : List Binding × List (String × ℕ)
builtin_bindings =
    install all_builtins
      (record { annotation = none; value = some Value.print; mutable = false } ∷ [])
      (("print", 0) ∷ [])

unfoldable pub is_main : Stmt → Bool
is_main (Stmt.function name _ _ _) = str_eq name "main"
is_main _ = false

unfoldable pub has_parameters : Stmt → Bool
has_parameters (Stmt.function _ (_ ∷ _) _ _) = true
has_parameters _ = false

-- The first `main` with parameters, by its location.
unfoldable pub bad_main : Stmts → Option (Option Span)
bad_main no_stmts = none
bad_main (stmt_cons s rest) =
    if is_main (unspanned_stmt s) && has_parameters (unspanned_stmt s)
    then some (stmt_span s)
    else bad_main rest

unfoldable pub declares_main : Stmts → Bool
declares_main no_stmts = false
declares_main (stmt_cons s rest) = if is_main (unspanned_stmt s) then true else declares_main rest

-- `env.last().unwrap().get("main")`.
unfoldable pub main_binding : Environment → Option ℕ
main_binding [] = none
main_binding (scope ∷ _) = lookup "main" scope

pub data ExecutionError : Type 0 where
  semantic : List SemanticError → ExecutionError
  runtime : RuntimeError → ExecutionError

pub data Execution : Type 0 where
  finished : Value → Execution
  failed : ExecutionError → Execution
  panicked out_of_fuel : Execution

abbrev pub of_outcome : Outcome Value → Execution
of_outcome (ok v) = finished v
of_outcome (err e) = failed (runtime e)
of_outcome Outcome.panicked = panicked
of_outcome Outcome.out_of_fuel = out_of_fuel

unfoldable pub start_context : ℕ → Program → Limits → Context
start_context identity program limits = record {
  types = new_registry identity program;
  limits = limits;
  captured_bindings = 0;
  in_parallel_worker = false;
}

module _ {H : Type 0} where
  unfoldable pub call_if_function : (Value → Values → M H Value) → Option Value → M H Value
  call_if_function run (some (Value.function f)) = run (Value.function f) nil
  call_if_function run _ = pure Value.null

  unfoldable pub call_bound : (Value → Values → M H Value) → Option Binding → M H Value
  call_bound run none = panic
  call_bound run (some b) = call_if_function run b.value

  unfoldable pub call_named : (Value → Values → M H Value) → Option ℕ → M H Value
  call_named run none = pure Value.null
  call_named run (some id) = λ c s. call_bound run (get_elem? s.bindings id) c s

  -- A call of `main`, if the top level leaves a function under that name.
  unfoldable pub call_main : (Value → Values → M H Value) → Stmts → Environment → M H Value
  call_main run program env =
      if declares_main program then call_named run (main_binding env) else pure Value.null

  -- The refusal of a `main` at the given place, or the run.
  unfoldable pub unless_bad : Option (Option Span) → M H Value → M H Value
  unless_bad (some at) m = λ c s. fail Message.main_parameters c (record s { current_span = at })
  unless_bad none m = m

  unfoldable pub unless_errors : List SemanticError → H → Execution × Port H → Execution × Port H
  unless_errors [] h run = run
  unless_errors (e ∷ es) h run = (failed (semantic (e ∷ es)), direct h)

  unfoldable pub start_state : Limits → H → State H
  start_state limits h = record {
    return_type = none;
    current_span = none;
    runtime = direct h;
    bindings = builtin_bindings.0;
    functions = [];
    remaining_steps = limits.steps;
    expression_depth = 0;
    call_stack = [];
  }

module _ {H : Type 0} (platform : Platform H) where
  unfoldable pub run_program : ℕ → Stmts → M H Value
  run_program depth program = unless_bad (bad_main program) (
      statements platform (call platform depth) program ([] ∷ builtin_bindings.1 ∷ [])
      >>= λ (_, env). call_main (call platform depth) program env)

  -- The run under valid limits, and the refusal of the other ones.
  unfoldable pub execute_analyzed : Bool → ℕ → Program → Limits → H → Execution × Port H
  execute_analyzed false identity program limits h = (
    failed (runtime (record { message = Message.worker_limit; call_stack = []; span = none })),
    direct h,
  )
  execute_analyzed true identity program limits h =
      let (r, s) =
        run_program limits.call_depth program.statements (start_context identity program limits)
          (start_state limits h) in
      (of_outcome r, s.runtime)

  -- `identity` is the number of the registry's allocation. As many calls nest as `call_depth` says.
  unfoldable pub execute_with_limits : ℕ → Program → Limits → H → Execution × Port H
  execute_with_limits identity program limits h = unless_errors (analyze identity program) h (
      execute_analyzed (leb 1 limits.parallel_workers && leb limits.parallel_workers 64) identity
        program limits h)
