-- ===== src/Interp/Statement.antt =====
-- Statements and calls: src/interpreter/mod.rs. A statement of a block and the body of a loop, a
-- branch or a function are run differently, so a statement means a `Runner` with both ways.
use net_lang.Prelude.{
  ℕ, zero, suc, String, Bool, true, false, Option, none, some, List, [], ◌∷◌, ◌++◌, length,
}
use net_lang.Prelude.Int.{eq_ℤ}
use net_lang.Prelude.Text.{str_eq}
use net_lang.Source.{Span}
use net_lang.Ast.{
  Stmt, Stmts, Pattern, no_stmts, stmt_cons, stmt_span, unspanned_stmt, unspanned_pattern,
}
use net_lang.Runtime.Value.{Value, Values, nil, cons}
use net_lang.Runtime.Host.{Message}
use net_lang.Interp.State.{
  M, Environment, Function, Flow, ok, out_of_fuel, ◌>>=◌, ◌>>◌, pure, panic, fail, or_else,
  locate_error, with_span, tick, allocate, write, annotate, insert_local,
}
use net_lang.Interp.Types.{check_value_type, check_binding_type, resolve_annotation}
use net_lang.Interp.Expression.{boolean}
use net_lang.Interp.Operations.{bool_eq}

-- The test of a match arm.
unfoldable pub pattern_matches : Pattern → Value → Bool
unfolding eq_ℤ unspanned_pattern
pattern_matches pattern_ value = test (unspanned_pattern pattern_) value
  where
    test : Pattern → Value → Bool
    test Pattern.wildcard _ = true
    test Pattern.null Value.null = true
    test (Pattern.integer a) (Value.integer b) = eq_ℤ a b
    test (Pattern.string a) (Value.string b) = str_eq a b
    test (Pattern.boolean a) (Value.boolean b) = bool_eq a b
    test _ _ = false

abbrev pub Step : Type 0 → Type 0
Step H = Option ℕ → Environment → M H (Flow × Environment)

-- As a statement of a block, with its slot, and as a body in a scope that is made for it.
abbrev pub Runner : Type 0 → Type 0
Runner H = Step H × (Environment → M H Flow)

module _ {H : Type 0} where
  -- The slot of one statement: a variable stays hidden until its statement has run.
  unfoldable pub reserve_one : Stmt → Environment → M H (Option ℕ × Environment)
  reserve_one (Stmt.let_ _ annotation _) env = do
    id ← allocate none true
    (λ c. annotate id (resolve_annotation c.types annotation) c)
    pure (some id, env)
  reserve_one (Stmt.function name _ _ _) env = do
    id ← allocate none false
    env' ← insert_local name id env
    pure (some id, env')
  reserve_one _ env = pure (none, env)

  unfoldable pub reserve : Stmts → Environment → M H (List (Option ℕ) × Environment)
  reserve no_stmts env = pure ([], env)
  reserve (stmt_cons statement rest) env = do
    (slot, env₁) ← reserve_one (unspanned_stmt statement) env
    (slots, env₂) ← reserve rest env₁
    pure (slot ∷ slots, env₂)

  -- The function of a declaration, and its number in the list.
  unfoldable pub add_function : Function → M H ℕ
  add_function f c s = (ok (length s.functions), record s { functions = s.functions ++ f ∷ [] })

  -- A function captures the names declared above it, and all functions of its block.
  unfoldable pub declare_one : Option Span → Stmt → Option ℕ → Environment → M H Environment
  declare_one at (Stmt.let_ name _ _) (some id) env = insert_local name id env
  declare_one at (Stmt.function name parameters annotation body) (some id) env = do
    number ← λ c.
        add_function
          (record {
            name = name;
            parameters = parameters;
            return_type = resolve_annotation c.types annotation;
            return_span = or_else (elim annotation [ some a ↦ a.span | none ↦ none ]) at;
            body = body;
            closure = env;
          })
          c
    write id (Value.function number)
    pure env
  declare_one at (Stmt.let_ _ _ _) none env = panic
  declare_one at (Stmt.function _ _ _ _) none env = panic
  declare_one at _ slot env = pure env

  unfoldable pub declare_functions : Stmts → List (Option ℕ) → Environment → M H (Unit {0})
  declare_functions (stmt_cons statement rest) (slot ∷ slots) env = do
    env' ← declare_one (stmt_span statement) (unspanned_stmt statement) slot env
    declare_functions rest slots env'
  declare_functions _ _ env = pure tt

  -- The two passes of `statements` before it runs them.
  unfoldable pub prepare : Stmts → Environment → M H (List (Option ℕ) × Environment)
  prepare statements env = do
    (slots, env') ← reserve statements env
    declare_functions statements slots env'
    pure (slots, env')

  unfoldable pub plain_step : Environment → Flow → M H (Flow × Environment)
  plain_step env flow = pure (flow, env)

  -- Run one statement of a block under its location.
  unfoldable pub step_in_block : Option Span → Step H → Step H
  step_in_block at step slot env = with_span at (tick >> step slot env)

  -- A statement that is no block, as a body: `statements` on it alone.
  unfoldable pub single : Stmt → Step H → Environment → M H Flow
  single statement step env = do
    (slots, env₁) ← prepare (stmt_cons statement no_stmts) env
    elim slots [
      | [] ↦ panic
      | slot ∷ _ ↦ step_in_block none step slot env₁ >>= λ (flow, _). pure flow
    ]

  -- The runner of a statement that does not extend the scope.
  unfoldable pub plain : Stmt → (Environment → M H Flow) → Runner H
  plain statement run =
      let step : Step H = λ _ env. run env >>= plain_step env in (step, single statement step)

  unfoldable pub condition : Option Span → M H Value → M H Bool
  condition at value = value >>= λ v. locate_error at (boolean v)

  -- How a loop goes on from the end of its body, and from its test.
  unfoldable pub after_body : M H Flow → Flow → M H Flow
  after_body again Flow.break = pure Flow.normal
  after_body again (Flow.return v) = pure (Flow.return v)
  after_body again Flow.normal = again
  after_body again Flow.continue = again

  unfoldable pub after_test : M H Flow → Bool → M H Flow
  after_test round true = round
  after_test round false = pure Flow.normal

  -- `loop { if !condition { break } match body { … } }`, on fuel.
  unfoldable pub while_loop : ℕ → M H Bool → M H Flow → M H Flow
  while_loop zero test body = λ c s. (out_of_fuel, s)
  while_loop (suc f) test body =
      let again = while_loop f test body in test >>= after_test (body >>= after_body again)

  -- Each round spends a step, so the steps left are fuel enough.
  unfoldable pub run_while : M H Bool → M H Flow → M H Flow
  run_while test body c s = while_loop (suc s.remaining_steps) test body c s

  unfoldable pub for_loop : String → Environment → (Environment → M H Flow) → Values → M H Flow
  for_loop variable env body nil = pure Flow.normal
  for_loop variable env body (cons value rest) =
      let again = for_loop variable env body rest in
      tick
      >> (allocate (some value) true >>= λ id.
          body (((variable, id) ∷ []) ∷ env) >>= after_body again)

  unfoldable pub run_for : String → Environment → (Environment → M H Flow) → Value → M H Flow
  run_for variable env body (Value.array values) = for_loop variable env body values
  run_for variable env body _ = fail Message.for_requires_array

  -- The current return contract applied to a value, for `return`.
  unfoldable pub return_value : Option Span → Value → M H Flow
  return_value at value c s =
      (locate_error at (check_value_type s.return_type value) >> pure (Flow.return value)) c s

  -- Store the value of a variable in its slot and show its name.
  unfoldable pub bind_variable :
      String → Option Span → Option ℕ → Value → Environment → M H (Flow × Environment)
  bind_variable name at none value env = panic
  bind_variable name at (some id) value env = do
    locate_error at (check_binding_type id value)
    write id value
    env' ← insert_local name id env
    pure (Flow.normal, env')

  -- `statements`, with the run of the statements given.
  unfoldable pub in_block :
      Stmts
      → (List (Option ℕ) → Environment → M H (Flow × Environment))
      → Environment
      → M H (Flow × Environment)
  in_block statements run_all env = prepare statements env >>= λ (slots, env'). run_all slots env'

  abbrev pub flow_of : M H (Flow × Environment) → M H Flow
  flow_of m = m >>= λ (flow, _). pure flow
