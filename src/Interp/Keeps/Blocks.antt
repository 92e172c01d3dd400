-- ===== src/Interp/Keeps/Blocks.antt =====
-- What the statements of src/interpreter/mod.rs keep, if the calls of function values keep it.
use net_lang.Prelude.{refl, arith, ℕ, ◌≤◌, String, true, false, Option, none, some, List, [], ◌∷◌}
use net_lang.Source.{Span}
use net_lang.Ast.{Stmt, Stmts, no_stmts, stmt_cons, stmt_span, unspanned_stmt}
use net_lang.Runtime.Value.{Value}
use net_lang.Interp.State.{
  M, Context, State, Environment, Flow, ◌>>=◌, pure, annotate, locate_error, panic, Function,
}
use net_lang.Interp.Types.{check_value_type, resolve_annotation}
use net_lang.Interp.Statement.{
  Step, reserve_one, reserve, add_function, declare_one, declare_functions, prepare, step_in_block,
  single, condition, return_value, bind_variable, in_block,
}
use net_lang.Interp.Keeps.{ended, Keeps, Any, Keeps-pure, Keeps-bind}
use net_lang.Interp.Keeps.Small.{
  Keeps-panic, Keeps-reader, Keeps-locate_error, Keeps-with_span, Keeps-tick,
}
use net_lang.Interp.Keeps.Store.{
  Keeps-allocate, Keeps-write, Keeps-annotate, Keeps-insert_local, Keeps-check_value_type,
  Keeps-check_binding_type,
}
use net_lang.Interp.Keeps.Steps.{Keeps-boolean}
use net_lang.Interp.Keeps.Evaluation.{◌thereafter◌}

-- A slot is a binding that no worker captured.
abbrev pub OwnSlot : Context → Option ℕ → Type 0
OwnSlot c (some id) = c.captured_bindings ≤ id
OwnSlot c none = Unit

abbrev pub OwnSlots : Context → List (Option ℕ) → Type 0
OwnSlots c [] = Unit
OwnSlots c (slot ∷ slots) = OwnSlot c slot × OwnSlots c slots

module _ {H : Type 0} {n : ℕ} {c : Context} where
  Keeps-reserve_one :
      (s : Stmt) (env : Environment)
      → Keeps n c 0 (λ (p : Option ℕ × Environment). OwnSlot c p.0) (reserve_one {H = H} s env)
  unfolding reserve_one
  Keeps-reserve_one (Stmt.let_ _ annotation _) env = Keeps-bind (Keeps-allocate none true) λ id own.
      Keeps-bind
        (Keeps-reader (λ c. annotate id (resolve_annotation c.types annotation))
          (Keeps-annotate id _ own))
        λ _ _. Keeps-pure _ own
  Keeps-reserve_one (Stmt.function name _ _ _) env =
      Keeps-bind (Keeps-allocate none false)
        λ id own. Keeps-bind (Keeps-insert_local name id env) λ env' _. Keeps-pure _ own
  Keeps-reserve_one _ env = Keeps-pure _ tt

  Keeps-reserve :
      (ss : Stmts) (env : Environment)
      → Keeps n c 0 (λ (p : List (Option ℕ) × Environment). OwnSlots c p.0) (reserve {H = H} ss env)
  unfolding reserve
  Keeps-reserve no_stmts env = Keeps-pure _ tt
  Keeps-reserve (stmt_cons s rest) env =
      Keeps-bind (Keeps-reserve_one (unspanned_stmt s) env) λ (slot, env₁) own.
        Keeps-bind (Keeps-reserve rest env₁) λ (slots, env₂) owns. Keeps-pure _ (own, owns)

  Keeps-declare_one :
      (at : Option Span) (s : Stmt) (slot : Option ℕ) (env : Environment)
      → OwnSlot c slot
      → Keeps n c 0 Any (declare_one {H = H} at s slot env)
  unfolding declare_one add_function
  Keeps-declare_one at (Stmt.let_ name _ _) (some id) env own = Keeps-insert_local name id env
  Keeps-declare_one at (Stmt.function name parameters annotation body) (some id) env own =
      Keeps-bind (added _)
        λ number _. Keeps-bind (Keeps-write id (Value.function number) own) λ _ _. Keeps-pure env tt
    where
      added : (f : Context → Function) → Keeps {H = H} n c 0 Any (λ c. add_function (f c) c)
      added f = record {
        ends = λ s r. ended tt (omega arith);
        kept = λ s r. record {
          steps = omega arith;
          stack = refl;
          span = refl;
          depth = refl;
          contract = refl;
          grows = omega arith;
          captures = λ i h. refl;
        };
      }
  Keeps-declare_one at (Stmt.let_ _ _ _) none env own = Keeps-panic
  Keeps-declare_one at (Stmt.function _ _ _ _) none env own = Keeps-panic
  Keeps-declare_one at _ slot env own = Keeps-pure env tt

  Keeps-declare_functions :
      (ss : Stmts) (slots : List (Option ℕ)) (env : Environment)
      → OwnSlots c slots
      → Keeps n c 0 Any (declare_functions {H = H} ss slots env)
  unfolding declare_functions
  Keeps-declare_functions (stmt_cons s rest) (slot ∷ slots) env own =
      Keeps-bind (Keeps-declare_one (stmt_span s) (unspanned_stmt s) slot env own.0)
        λ env' _. Keeps-declare_functions rest slots env' own.1
  Keeps-declare_functions (stmt_cons s rest) [] env own = Keeps-pure tt tt
  Keeps-declare_functions no_stmts slots env own = Keeps-pure tt tt

  pub Keeps-prepare :
      (ss : Stmts) (env : Environment)
      → Keeps n c 0 (λ (p : List (Option ℕ) × Environment). OwnSlots c p.0) (prepare {H = H} ss env)
  unfolding prepare
  Keeps-prepare ss env = Keeps-bind (Keeps-reserve ss env) λ (slots, env') own.
      Keeps-bind (Keeps-declare_functions ss slots env' own) λ _ _. Keeps-pure _ own

  pub Keeps-step_in_block :
      (at : Option Span) {step : Step H}
      → ((slot : Option ℕ) (env : Environment) → OwnSlot c slot → Keeps n c 0 Any (step slot env))
      → (slot : Option ℕ) (env : Environment) → OwnSlot c slot
      → Keeps n c 0 Any (step_in_block at step slot env)
  unfolding step_in_block
  Keeps-step_in_block at h slot env own =
      Keeps-with_span at (Keeps-tick thereafter λ _. h slot env own)

  pub Keeps-single :
      (s : Stmt) {step : Step H}
      → ((slot : Option ℕ) (env : Environment) → OwnSlot c slot → Keeps n c 0 Any (step slot env))
      → (env : Environment) → Keeps n c 0 Any (single s step env)
  unfolding single
  Keeps-single s {step} h env =
      Keeps-bind (Keeps-prepare (stmt_cons s no_stmts) env) λ (slots, env') own. go slots env' own
    where
      go :
          (slots : List (Option ℕ)) (env' : Environment)
          → OwnSlots c slots
          → Keeps {H = H} {A = Flow} n c 0 Any (elim slots [
            | [] ↦ panic
            | slot ∷ _ ↦ step_in_block none step slot env' >>= λ (flow, _). pure flow
          ])
      go [] env' own = Keeps-panic
      go (slot ∷ rest) env' own =
          Keeps-step_in_block none h slot env' own.0 thereafter λ (flow, _). Keeps-pure flow tt

  pub Keeps-condition :
      (at : Option Span) {m : M H Value} → Keeps n c 1 Any m → Keeps n c 1 Any (condition at m)
  unfolding condition
  Keeps-condition at h = Keeps-bind h λ v _. Keeps-locate_error at (Keeps-boolean v)

  pub Keeps-return_value :
      (at : Option Span) (v : Value) → Keeps n c 0 Any (return_value {H = H} at v)
  unfolding return_value
  Keeps-return_value at v = record { ends = λ s r. (go s).ends s r; kept = λ s r. (go s).kept s r }
    where
      go :
          (s : State H)
          → Keeps n c 0 Any (
              locate_error {H = H} at (check_value_type s.return_type v) >>= λ _.
              pure (Flow.return v))
      go s =
          Keeps-bind (Keeps-locate_error at (Keeps-check_value_type s.return_type v))
            λ _ _. Keeps-pure _ tt

  pub Keeps-bind_variable :
      (name : String) (at : Option Span) (slot : Option ℕ) (v : Value) (env : Environment)
      → OwnSlot c slot
      → Keeps n c 0 Any (bind_variable {H = H} name at slot v env)
  unfolding bind_variable
  Keeps-bind_variable name at none v env own = Keeps-panic
  Keeps-bind_variable name at (some id) v env own =
      Keeps-bind (Keeps-locate_error at (Keeps-check_binding_type id v)) λ _ _.
        Keeps-bind (Keeps-write id v own)
          λ _ _. Keeps-bind (Keeps-insert_local name id env) λ env' _. Keeps-pure _ tt

  pub Keeps-in_block :
      (ss : Stmts) {run_all : List (Option ℕ) → Environment → M H (Flow × Environment)}
      → ((slots : List (Option ℕ)) (env : Environment)
          → OwnSlots c slots
          → Keeps n c 0 Any (run_all slots env))
      → (env : Environment) → Keeps n c 0 Any (in_block ss run_all env)
  unfolding in_block
  Keeps-in_block ss h env = Keeps-bind (Keeps-prepare ss env) λ (slots, env') own. h slots env' own
