-- ===== src/Interp/Expression.antt =====
-- Expressions: src/interpreter/expression.rs. `call` is the call of a function value at the depth
-- that is left, which src/interpreter/mod.rs supplies. Each constructor's clause is its arm of
-- `expression_inner` under the step and the depth that `expression` counts.
use net_lang.Prelude.{
  ℕ, String, Bool, true, false, Option, none, some, List, [], ◌∷◌, ◌++◌, ◌==◌, ltb, get_elem?,
  if◌then◌else◌,
}
use net_lang.Prelude.Int.{pos, negsuc}
use net_lang.Source.{Span}
use net_lang.Ast.{
  Expr, Exprs, ObjectFields, OptionExpr, no_exprs, expr_cons, no_fields, field_cons, no_expr,
  some_expr, BinaryOp, Transport, HttpMethod, TypeField, span,
}
use net_lang.Types.{ResolvedType, resolve, named, fields_of, find_field}
use net_lang.Runtime.Value.{
  Value, Values, Fields, nil, cons, end, get_field, insert_field, count_fields, value_type_name,
}
use net_lang.Runtime.Host.{Message, Platform, Reply, of_reply}
use net_lang.Interp.Port.{Port, port_runtime}
use net_lang.Interp.State.{
  M, Environment, ◌>>=◌, ◌>>◌, pure, panic, fail, lift, on_runtime, locate_error, with_span, tick,
  counted, binding, write, read, resolve_name,
}
use net_lang.Interp.Types.{check_value_type, check_binding_type}
use net_lang.Interp.Operations.{bool_eq}
use net_lang.Interp.Operations.Binary.{binary, unary}
use net_lang.Interp.Access.{Selector, get, set}

module _ {H : Type 0} where
  unfoldable pub boolean : Value → M H Bool
  unfolding fail value_type_name
  boolean (Value.boolean v) = pure v
  boolean value = fail (Message.expected_boolean (value_type_name value))

  -- `&&` and `||` on a left value, with the right side still to run.
  unfoldable pub short_circuit : Bool → Value → M H Value → M H Value
  unfolding boolean
  short_circuit stop left right = do
    l ← boolean left
    let rest = right >>= λ v. boolean v >>= λ r. pure (Value.boolean r)
    if bool_eq stop l then pure (Value.boolean l) else rest

  -- A field of a constructor: its contract, if the type declares it.
  unfoldable pub check_field : List TypeField → String → Option Span → Value → M H (Unit {0})
  unfolding find_field check_value_type locate_error resolve
  check_field definition key at value c =
      let expected : Option ResolvedType = elim (find_field key definition) [
        | some f ↦ resolve c.types f.annotation.name
        | none ↦ none
      ] in
      locate_error at (check_value_type expected value) c

  -- The number and the fields of a named type.
  unfoldable pub named_type : String → M H (ℕ × List TypeField)
  unfolding fail resolve fields_of
  named_type name c s = elim (resolve c.types name) [
    | some (named id) ↦ elim (fields_of c.types id) [
      | some definition ↦ pure (id, definition) c s
      | none ↦ panic c s
    ]
    | _ ↦ fail (Message.unknown_named_type name) c s
  ]

  unfoldable pub byte_at : List ℕ → Value → M H Value
  unfolding fail
  byte_at bytes (Value.integer (pos i)) = elim (get_elem? bytes i) [
    | some b ↦ pure (Value.integer (pos b))
    | none ↦ fail Message.byte_index_bounds
  ]
  byte_at bytes (Value.integer (negsuc _)) = fail Message.byte_index_negative
  byte_at bytes _ = fail Message.byte_index_integer

  unfoldable pub get_index : Value → Value → M H Value
  unfolding byte_at get lift
  get_index (Value.bytes bytes) i = byte_at bytes i
  get_index value i = lift (get value (Selector.index i))

  unfoldable pub as_destination : Value → M H (Option String)
  unfolding fail
  as_destination (Value.string text) = pure (some text)
  as_destination _ = fail Message.destination_string

  -- The checks of an assignment that stand before its value is evaluated.
  unfoldable pub check_target : ℕ → M H (Unit {0})
  unfolding binding fail
  check_target id = binding id >>= λ b c s.
      if b.mutable
      then (if ltb id c.captured_bindings then fail Message.read_only_capture c s else pure tt c s)
      else fail Message.immutable_function_binding c s

  unfoldable pub assign : ℕ → List Selector → Value → M H Value
  unfolding check_binding_type write read set lift
  assign id [] value = do check_binding_type id value; write id value; pure value
  assign id (selector ∷ rest) value = do
    root ← read id
    root' ← (λ c. lift (set c.types (selector ∷ rest) value root) c)
    check_binding_type id root'
    write id root'
    pure value

module _ {H : Type 0} (platform : Platform H) where
  abbrev host_call : (Port H → Reply Value × Port H) → M H Value
  host_call operation = on_runtime λ p. let (r, p') = operation p in (of_reply r, p')

  abbrev configuration_key : Transport → String
  configuration_key Transport.udp = "bind"
  configuration_key Transport.tcp = "listen"

  -- The field of a `listen` or `bind` configuration, which must be the only one.
  unfoldable pub open_at : Transport → Bool → Option Value → M H Value
  unfolding fail on_runtime port_runtime
  open_at Transport.udp true (some (Value.string address)) =
      host_call ((port_runtime platform).bind_udp address)
  open_at Transport.tcp true (some (Value.string address)) =
      host_call ((port_runtime platform).listen_tcp address)
  open_at transport true (some _) = fail (Message.address_field (configuration_key transport))
  open_at transport _ _ = fail (Message.configuration_field (configuration_key transport))

  unfoldable pub configure : Transport → Option String → Fields → M H Value
  unfolding get_field count_fields fail open_at
  configure transport (some _) fields = fail Message.protocol_with_configuration
  configure transport none fields =
      open_at transport (count_fields fields == 1) (get_field (configuration_key transport) fields)

  unfoldable pub connect : Transport → Option String → Value → M H Value
  unfolding configure fail on_runtime port_runtime
  connect transport protocol (Value.object fields) = configure transport protocol fields
  connect transport protocol (Value.string address) =
      host_call ((port_runtime platform).connect transport address protocol)
  connect transport protocol _ = fail Message.address_string

  unfoldable pub request : HttpMethod → Value → M H Value → M H Value
  unfolding fail on_runtime port_runtime
  request method (Value.string url) config =
      config >>= λ v. host_call ((port_runtime platform).request method url v)
  request method _ config = fail Message.url_string

  -- A binary operator on the value of its left side, with the right side still to run.
  unfoldable pub apply_binary : Value → BinaryOp → M H Value → M H Value
  unfolding short_circuit binary lift
  apply_binary l BinaryOp.and right = short_circuit false l right
  apply_binary l BinaryOp.or right = short_circuit true l right
  apply_binary l operator right =
      right >>= λ r. lift (binary platform.floats platform.texts l operator r)

  module _ (call : Value → Values → M H Value) where
    unfoldable mutual
      unfolding apply_binary check_field named_type get_index as_destination check_target assign
          connect request unary lift get tick counted with_span fail resolve_name read on_runtime
          port_runtime insert_field

      pub expression : Expr → Environment → M H Value
      expression (Expr.located sp inner) env = with_span (some sp) (expression inner env)
      expression (Expr.construct name fields) env = counted do
        (id, definition) ← named_type name
        values ← construct_fields fields env definition end
        λ c. pure (Value.record_ c.types.identity id name values) c
      expression (Expr.connection transport address protocol) env =
          counted (expression address env >>= connect transport protocol)
      expression (Expr.send handle_ payload destination) env = counted do
        handle ← expression handle_ env
        sent ← expression payload env
        to ← destination_of destination env
        host_call ((port_runtime platform).send handle sent to)
      expression (Expr.receive handle_) env =
          counted
            do handle ← expression handle_ env; host_call ((port_runtime platform).receive handle)
      expression (Expr.request method url config) env =
          counted do address ← expression url env; request method address (config_of config env)
      expression (Expr.integer v) env = counted (pure (Value.integer v))
      expression (Expr.float v) env = counted (pure (Value.float v))
      expression (Expr.string v) env = counted (pure (Value.string v))
      expression (Expr.boolean v) env = counted (pure (Value.boolean v))
      expression Expr.null env = counted (pure Value.null)
      expression (Expr.duration v) env = counted (pure (Value.duration v))
      expression (Expr.identifier name) env = counted (resolve_name env name >>= read)
      expression (Expr.array values) env =
          counted do vs ← expressions values env; pure (Value.array vs)
      expression (Expr.object fields) env =
          counted do fs ← object_fields fields env end; pure (Value.object fs)
      expression (Expr.unary operator operand) env =
          counted
            (expression operand env >>= λ v. lift (unary platform.floats platform.texts operator v))
      expression (Expr.binary left operator right) env =
          counted do l ← expression left env; apply_binary l operator (expression right env)
      expression (Expr.assignment target_ value) env = counted do
        (id, selectors) ← target target_ env
        check_target id
        v ← expression value env
        assign id selectors v
      expression (Expr.call callee arguments) env =
          counted do f ← expression callee env; vs ← expressions arguments env; call f vs
      expression (Expr.property container name) env =
          counted do v ← expression container env; lift (get v (Selector.property name))
      expression (Expr.index container subscript) env =
          counted do v ← expression container env; i ← expression subscript env; get_index v i

      -- The place that an assignment writes: a binding, and the selectors from its value.
      pub target : Expr → Environment → M H (ℕ × List Selector)
      target (Expr.located sp inner) env = with_span (some sp) (target inner env)
      target (Expr.identifier name) env = tick >> (resolve_name env name >>= λ id. pure (id, []))
      target (Expr.property container name) env = do
        tick
        (root, selectors) ← target container env
        pure (root, selectors ++ Selector.property name ∷ [])
      target (Expr.index container subscript) env = do
        tick
        (root, selectors) ← target container env
        i ← expression subscript env
        pure (root, selectors ++ Selector.index i ∷ [])
      target _ env = tick >> fail Message.unrooted_assignment

      pub expressions : Exprs → Environment → M H Values
      expressions no_exprs env = pure nil
      expressions (expr_cons e rest) env = do
        v ← expression e env
        vs ← expressions rest env
        pure (cons v vs)

      pub object_fields : ObjectFields → Environment → Fields → M H Fields
      object_fields no_fields env values = pure values
      object_fields (field_cons key e rest) env values = do
        v ← expression e env
        object_fields rest env (insert_field key v values)

      pub construct_fields : ObjectFields → Environment → List TypeField → Fields → M H Fields
      construct_fields no_fields env definition values = pure values
      construct_fields (field_cons key e rest) env definition values = do
        v ← expression e env
        check_field definition key (span e) v
        construct_fields rest env definition (insert_field key v values)

      pub destination_of : OptionExpr → Environment → M H (Option String)
      destination_of no_expr env = pure none
      destination_of (some_expr e) env = expression e env >>= as_destination

      -- A request without a configuration has an empty object.
      pub config_of : OptionExpr → Environment → M H Value
      config_of no_expr env = pure (Value.object end)
      config_of (some_expr e) env = expression e env
