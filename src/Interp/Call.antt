-- ===== src/Interp/Call.antt =====
-- Calls: `call` of src/interpreter/mod.rs. A call of a function runs its body with the calls that
-- one less depth allows, so the recursion is on the depth that is left.
use net_lang.Prelude.{
  ℕ, zero, suc, String, true, Option, none, some, List, [], ◌∷◌, ◌==◌, leb, length, get_elem?,
  if◌then◌else◌,
}
use Prim.Native.String
use mathlib.Core.List.{tail}
use net_lang.Prelude.Text.{insert}
use net_lang.Ast.{Stmt, Parameter}
use net_lang.Types.{ResolvedType}
use net_lang.Runtime.Value.{Value, Values, to_list, value_type_name}
use net_lang.Runtime.Host.{Message, Platform, of_reply}
use net_lang.Runtime.Builtin.{call_builtin}
use net_lang.Runtime.Display.{display}
use net_lang.Interp.Port.{port_runtime, port_print}
use net_lang.Interp.State.{
  M, State, Environment, Function, Flow, out_of_fuel, ◌>>=◌, ◌>>◌, pure, fail, on_runtime,
  locate_error, allocate, annotate,
}
use net_lang.Interp.Types.{check_value_type, resolve_annotation}
use net_lang.Interp.Block.{run}

module _ {H : Type 0} where
  -- The state of a call, put back when it ends, also by an error.
  unfoldable pub in_call : {A : Type 0} → String → Option ResolvedType → M H A → M H A
  in_call name return_type m c s =
      let inner : State H = record s {
        call_stack = name ∷ s.call_stack;
        expression_depth = 0;
        return_type = return_type;
      } in
      let (r, s') = m c inner in
      (
        r,
        record s' {
          return_type = s.return_type;
          expression_depth = s.expression_depth;
          call_stack = tail s'.call_stack;
        },
      )

  unfoldable pub bind_parameters :
      List Parameter → List Value → List (String × ℕ) → M H (List (String × ℕ))
  bind_parameters (p ∷ ps) (v ∷ vs) scope = do
    (λ c. check_value_type (resolve_annotation c.types p.annotation) v c)
    id ← allocate (some v) true
    (λ c. annotate id (resolve_annotation c.types p.annotation) c)
    bind_parameters ps vs (insert p.name id scope)
  bind_parameters _ _ scope = pure scope

  -- What the end of a function's body means to its caller.
  unfoldable pub finish_call : Function → Flow → M H Value
  finish_call f Flow.normal =
      locate_error f.return_span (check_value_type f.return_type Value.null) >> pure Value.null
  finish_call f Flow.break = fail Message.control_exits_function
  finish_call f Flow.continue = fail Message.control_exits_function
  finish_call f (Flow.return v) = pure v

  -- A call within the depth limit, of a function with the right number of arguments.
  unfoldable pub enter_function :
      (Stmt → Environment → M H Flow) → Function → List Value → M H Value
  enter_function body f arguments = bind_parameters f.parameters arguments [] >>= λ scope.
      in_call f.name f.return_type (body f.body (scope ∷ f.closure) >>= finish_call f)

  unfoldable pub apply_function :
      (Stmt → Environment → M H Flow) → Option Function → List Value → M H Value
  apply_function body none arguments = fail Message.invalid_function_handle
  apply_function body (some f) arguments =
      if length arguments == length f.parameters
      then enter_function body f arguments
      else fail (Message.argument_count f.name (length f.parameters) (length arguments))

  unfoldable pub call_function : (Stmt → Environment → M H Flow) → ℕ → List Value → M H Value
  call_function body id arguments c s =
      if leb c.limits.call_depth (length s.call_stack)
      then fail Message.call_depth_limit c s
      else apply_function body (get_elem? s.functions id) arguments c s

  module _ (platform : Platform H) where
    unfoldable pub joined : List Value → String
    joined [] = ""
    joined (v ∷ []) = display platform.texts v
    joined (v ∷ w ∷ vs) = String.◌++◌ (display platform.texts v) (String.◌++◌ " " (joined (w ∷ vs)))

    unfoldable pub call_value : (Stmt → Environment → M H Flow) → Value → Values → M H Value
    call_value body (Value.builtin b) arguments =
        on_runtime (call_builtin platform.texts (port_runtime platform) b (to_list arguments))
    call_value body Value.print arguments =
        on_runtime (λ p.
          let (r, p') = port_print platform (joined (to_list arguments)) p in (of_reply r, p'))
        >> pure Value.null
    call_value body (Value.function id) arguments = call_function body id (to_list arguments)
    call_value body value arguments = fail (Message.cannot_call (value_type_name value))

    -- `depth` is the number of calls that may still nest.
    unfoldable pub call : ℕ → Value → Values → M H Value
    call zero = call_value (λ body env c s. (out_of_fuel, s))
    call (suc depth) = call_value (λ body env. (run platform (call depth) body).1 env)
