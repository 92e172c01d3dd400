-- ===== src/Interp/Keeps/Programs.antt =====
-- What a run of statements and of a program keeps: `execute_with_limits` and `statements` of
-- src/interpreter/mod.rs, with the calls that the depth limit allows.
use net_lang.Prelude.{
  ℕ, ◌+◌, ◌≤◌, ◌≡◌, ◌≢◌, refl, arith, length, get_elem?, Bool, true, false, Option, none, some,
  List, [], ◌∷◌,
}
use net_lang.Source.{Span}
use net_lang.Ast.{Stmts, Program}
use net_lang.Runtime.Value.{Value, Values, nil}
use net_lang.Runtime.Host.{Platform}
use net_lang.Interp.State.{
  M, Context, State, Environment, Binding, Limits, Outcome, ◌>>=◌, ok, err, panicked, out_of_fuel,
  fail,
}
use net_lang.Interp.Port.{Port}
use net_lang.Interp.Block.{statements}
use net_lang.Interp.Call.{call}
use net_lang.Interp.Program.{
  bad_main, declares_main, main_binding, call_main, call_named, call_bound, call_if_function,
  unless_bad, unless_errors, execute_analyzed, run_program, execute_with_limits, start_context,
  start_state, Execution, of_outcome,
}
use net_lang.Semantic.Program.{analyze}
use net_lang.Semantic.Analyzer.{SemanticError}
use net_lang.Interp.Keeps.{Kept, Keeps, Any, Keeps-pure}
use net_lang.Interp.Keeps.Small.{Keeps-panic, Keeps-if}
use net_lang.Interp.Keeps.Evaluation.{◌thereafter◌}
use net_lang.Interp.Keeps.Workers.{Ends-ne}
use net_lang.Interp.Keeps.Calls.{Fine, Fine-Keeps, Keeps-Fine, Keeps-call}
use net_lang.Interp.Keeps.Runs.{Keeps-statements}

module _ {H : Type 0} (platform : Platform H) where
  -- As many nested calls as the depth limit leaves are enough for a block: whatever its statements
  -- are, and however it ends, also by an error or a failed index, it gains no step, puts the call
  -- stack, the location, the expression depth and the return contract back, removes no binding, and
  -- changes no binding that a worker captured.
  pub statements-Kept :
      (c : Context) (n : ℕ) (block : Stmts) (env : Environment) (s : State H)
      → c.limits.call_depth ≤ n + length s.call_stack
      → c.captured_bindings ≤ length s.bindings
      → Kept c s (statements platform (call platform n) block env c s).1
  statements-Kept c n block env s room boundary =
      (Keeps-statements platform (Keeps-call platform n) c block env).kept s
        (record { room = room; boundary = boundary })

module _ {H : Type 0} {n : ℕ} {c : Context} (run : Value → Values → M H Value) where
  Keeps-call_bound :
      ((f : Value) (arguments : Values) → Keeps n c 0 Any (run f arguments))
      → (b : Option Binding) → Keeps n c 0 Any (call_bound run b)
  unfolding call_bound call_if_function
  Keeps-call_bound h none = Keeps-panic
  Keeps-call_bound h (some b) = go b.value
    where
      go : (v : Option Value) → Keeps n c 0 Any (call_if_function run v)
      go (some (Value.function f)) = h (Value.function f) nil
      go _ = Keeps-pure _ tt

  Keeps-call_named :
      ((f : Value) (arguments : Values) → Keeps n c 0 Any (run f arguments))
      → (id : Option ℕ) → Keeps n c 0 Any (call_named run id)
  unfolding call_named Fine
  Keeps-call_named h none = Keeps-pure _ tt
  Keeps-call_named h (some id) =
      Keeps-Fine λ s r. Fine-Keeps (Keeps-call_bound h (get_elem? s.bindings id)) s r

  Keeps-call_main :
      ((f : Value) (arguments : Values) → Keeps n c 0 Any (run f arguments))
      → (program : Stmts) (env : Environment) → Keeps n c 0 Any (call_main run program env)
  unfolding call_main
  Keeps-call_main h program env =
      Keeps-if (declares_main program) (Keeps-call_named h (main_binding env)) (Keeps-pure _ tt)

module _ {H : Type 0} (platform : Platform H) where
  Keeps-program :
      {n : ℕ} {c : Context} (program : Stmts) (env : Environment)
      → Keeps n c 0 Any (
          statements platform (call platform n) program env >>= λ (_, env).
          call_main (call platform n) program env)
  Keeps-program {n} {c} program env =
      Keeps-statements platform (Keeps-call platform n) c program env thereafter λ (_, env').
      Keeps-call_main _ (Keeps-call platform n c) program env'

unless_bad-ends :
    {H : Type 0} (c : Context) (s : State H) (bad : Option (Option Span)) (m : M H Value)
    → (m c s).0 ≢ out_of_fuel
    → (unless_bad bad m c s).0 ≢ out_of_fuel
unfolding unless_bad fail
unless_bad-ends c s (some at) m h = λ e. cc
unless_bad-ends c s none m h = h

of_outcome-ends : (o : Outcome Value) → o ≢ out_of_fuel → of_outcome o ≢ Execution.out_of_fuel
of_outcome-ends (ok v) h e = cc
of_outcome-ends (err r) h e = cc
of_outcome-ends panicked h e = cc
of_outcome-ends out_of_fuel h e = h refl

unless_errors-ends :
    {H : Type 0} (errors : List SemanticError) (h : H) (run : Execution × Port H)
    → run.0 ≢ Execution.out_of_fuel
    → (unless_errors errors h run).0 ≢ Execution.out_of_fuel
unfolding unless_errors
unless_errors-ends [] h run ends = ends
unless_errors-ends (e ∷ es) h run ends = λ e. cc

module _ {H : Type 0} (platform : Platform H) where
  run_program-ends :
      (c : Context) (program : Stmts) (s : State H)
      → c.captured_bindings ≡ 0
      → (run_program platform c.limits.call_depth program c s).0 ≢ out_of_fuel
  unfolding run_program
  run_program-ends c program s e = unless_bad-ends c s (bad_main program) _ (
      Ends-ne (
        (Keeps-program platform program _).ends s
          (record { room = omega arith; boundary = omega (arith, e) })))

  execute_analyzed-ends :
      (valid : Bool) (identity : ℕ) (program : Program) (limits : Limits) (h : H)
      → (execute_analyzed platform valid identity program limits h).0 ≢ Execution.out_of_fuel
  unfolding execute_analyzed start_context
  execute_analyzed-ends false identity program limits h = λ e. cc
  execute_analyzed-ends true identity program limits h = of_outcome-ends _ (
      run_program-ends (start_context identity program limits) program.statements
        (start_state limits h) refl)

  -- Executing a program always comes to an end: for every program, every limits and every host it
  -- finishes, fails or panics, and the model's depth and rounds are never too few.
  pub execute_with_limits-ends :
      (identity : ℕ) (program : Program) (limits : Limits) (h : H)
      → (execute_with_limits platform identity program limits h).0 ≢ Execution.out_of_fuel
  unfolding execute_with_limits
  execute_with_limits-ends identity program limits h =
      unless_errors-ends (analyze identity program) h _
        (execute_analyzed-ends _ identity program limits h)
