-- ===== src/Interp/Keeps/Evaluation.antt =====
-- What the evaluation of an expression keeps, if the calls of function values keep it.
use net_lang.Prelude.{ℕ, some, List}
use net_lang.Ast.{
  Expr, Exprs, ObjectFields, OptionExpr, no_exprs, expr_cons, no_fields, field_cons, no_expr,
  some_expr, TypeField, span,
}
use net_lang.Runtime.Value.{Value, Values, Fields}
use net_lang.Runtime.Host.{Platform}
use net_lang.Interp.State.{M, Context, Environment, ◌>>=◌, pure}
use net_lang.Interp.Operations.Binary.{unary}
use net_lang.Interp.Access.{Selector, get}
use net_lang.Interp.Expression.{
  expression, target, expressions, object_fields, construct_fields, destination_of, config_of,
}
use net_lang.Interp.Keeps.{Keeps, Any, Keeps-pure, Keeps-map, Keeps-bind}
use net_lang.Interp.Keeps.Small.{
  Keeps-fail, Keeps-lift, Keeps-reader, Keeps-on_runtime, Keeps-with_span, Keeps-counted,
  Keeps-tick,
}
use net_lang.Interp.Keeps.Store.{Keeps-read, Keeps-resolve_name}
use net_lang.Interp.Keeps.Steps.{
  Keeps-check_field, Keeps-named_type, Keeps-get_index, Keeps-as_destination, Keeps-check_target,
  Keeps-assign, Keeps-connect, Keeps-request, Keeps-apply_binary,
}

-- Sequencing, where nothing is known of the results.
module _ {H A B : Type 0} {n : ℕ} {c : Context} {k : ℕ} {Q : B → Type 0} where
  infixr 3 ◌thereafter◌
  pub ◌thereafter◌ :
      {P : A → Type 0} {m : M H A} {f : A → M H B}
      → Keeps n c k P m
      → ((a : A) → Keeps n c 0 Q (f a))
      → Keeps n c 0 Q (m >>= f)
  h thereafter g = Keeps-map (λ _ q. q) (Keeps-bind h λ a _. g a)

module _ {H : Type 0} {n : ℕ} {c : Context} (platform : Platform H)
    (call : Value → Values → M H Value)
    (calls : (f : Value) (arguments : Values) → Keeps n c 0 Any (call f arguments)) where
  mutual
    unfolding expression

    expression-Keeps :
        (e : Expr) (env : Environment) → Keeps n c 1 Any (expression platform call e env)
    expression-Keeps (Expr.located sp inner) env =
        Keeps-with_span (some sp) (expression-Keeps inner env)
    expression-Keeps (Expr.construct name fields) env = Keeps-counted (
        Keeps-named_type name thereafter λ (id, definition).
        construct_fields-Keeps fields env definition _ thereafter λ values.
        Keeps-reader (λ c. pure (Value.record_ c.types.identity id name values)) (Keeps-pure _ tt))
    expression-Keeps (Expr.connection transport address protocol) env =
        Keeps-counted
          (expression-Keeps address env thereafter Keeps-connect platform transport protocol)
    expression-Keeps (Expr.send handle payload destination) env = Keeps-counted (
        expression-Keeps handle env thereafter λ _. expression-Keeps payload env thereafter λ _.
        destination_of-Keeps destination env thereafter λ _. Keeps-on_runtime _)
    expression-Keeps (Expr.receive handle) env =
        Keeps-counted (expression-Keeps handle env thereafter λ _. Keeps-on_runtime _)
    expression-Keeps (Expr.request method url config) env = Keeps-counted (
        expression-Keeps url env thereafter λ v.
        Keeps-request platform method v (config_of-Keeps config env))
    expression-Keeps (Expr.integer v) env = Keeps-counted (Keeps-pure _ tt)
    expression-Keeps (Expr.float v) env = Keeps-counted (Keeps-pure _ tt)
    expression-Keeps (Expr.string v) env = Keeps-counted (Keeps-pure _ tt)
    expression-Keeps (Expr.boolean v) env = Keeps-counted (Keeps-pure _ tt)
    expression-Keeps Expr.null env = Keeps-counted (Keeps-pure _ tt)
    expression-Keeps (Expr.duration v) env = Keeps-counted (Keeps-pure _ tt)
    expression-Keeps (Expr.identifier name) env =
        Keeps-counted (Keeps-resolve_name env name thereafter Keeps-read)
    expression-Keeps (Expr.array values) env =
        Keeps-counted (expressions-Keeps values env thereafter λ _. Keeps-pure _ tt)
    expression-Keeps (Expr.object fields) env =
        Keeps-counted (object_fields-Keeps fields env _ thereafter λ _. Keeps-pure _ tt)
    expression-Keeps (Expr.unary operator operand) env = Keeps-counted (
        expression-Keeps operand env thereafter λ v.
        Keeps-lift (unary platform.floats platform.texts operator v))
    expression-Keeps (Expr.binary left operator right) env = Keeps-counted (
        expression-Keeps left env thereafter λ l.
        Keeps-apply_binary platform l operator (Keeps-map (λ _ q. q) (expression-Keeps right env)))
    expression-Keeps (Expr.assignment place value) env = Keeps-counted (
        target-Keeps place env thereafter λ (id, selectors).
        Keeps-bind (Keeps-check_target id)
          λ _ own. expression-Keeps value env thereafter λ v. Keeps-assign id selectors v own)
    expression-Keeps (Expr.call callee arguments) env = Keeps-counted (
        expression-Keeps callee env thereafter λ f.
        expressions-Keeps arguments env thereafter λ vs. calls f vs)
    expression-Keeps (Expr.property container name) env =
        Keeps-counted (
          expression-Keeps container env thereafter λ v.
          Keeps-lift (get v (Selector.property name)))
    expression-Keeps (Expr.index container subscript) env = Keeps-counted (
        expression-Keeps container env thereafter λ v.
        expression-Keeps subscript env thereafter λ i. Keeps-get_index v i)

    target-Keeps : (e : Expr) (env : Environment) → Keeps n c 0 Any (target platform call e env)
    target-Keeps (Expr.located sp inner) env = Keeps-with_span (some sp) (target-Keeps inner env)
    target-Keeps (Expr.identifier name) env =
        Keeps-tick thereafter λ _. Keeps-resolve_name env name thereafter λ _. Keeps-pure _ tt
    target-Keeps (Expr.property container name) env =
        Keeps-tick thereafter λ _. target-Keeps container env thereafter λ _. Keeps-pure _ tt
    target-Keeps (Expr.index container subscript) env = Keeps-tick thereafter λ _.
        target-Keeps container env thereafter λ _.
        expression-Keeps subscript env thereafter λ _. Keeps-pure _ tt
    target-Keeps _ env = Keeps-tick thereafter λ _. Keeps-fail _

    expressions-Keeps :
        (es : Exprs) (env : Environment) → Keeps n c 0 Any (expressions platform call es env)
    expressions-Keeps no_exprs env = Keeps-pure _ tt
    expressions-Keeps (expr_cons e rest) env = expression-Keeps e env thereafter λ _.
        expressions-Keeps rest env thereafter λ _. Keeps-pure _ tt

    object_fields-Keeps :
        (fs : ObjectFields) (env : Environment) (values : Fields)
        → Keeps n c 0 Any (object_fields platform call fs env values)
    object_fields-Keeps no_fields env values = Keeps-pure _ tt
    object_fields-Keeps (field_cons key e rest) env values =
        expression-Keeps e env thereafter λ _. object_fields-Keeps rest env _

    construct_fields-Keeps :
        (fs : ObjectFields) (env : Environment) (definition : List TypeField) (values : Fields)
        → Keeps n c 0 Any (construct_fields platform call fs env definition values)
    construct_fields-Keeps no_fields env definition values = Keeps-pure _ tt
    construct_fields-Keeps (field_cons key e rest) env definition values =
        expression-Keeps e env thereafter λ v.
        Keeps-check_field definition key (span e) v thereafter λ _.
        construct_fields-Keeps rest env definition _

    destination_of-Keeps :
        (o : OptionExpr) (env : Environment) → Keeps n c 0 Any (destination_of platform call o env)
    destination_of-Keeps no_expr env = Keeps-pure _ tt
    destination_of-Keeps (some_expr e) env = expression-Keeps e env thereafter Keeps-as_destination

    config_of-Keeps :
        (o : OptionExpr) (env : Environment) → Keeps n c 0 Any (config_of platform call o env)
    config_of-Keeps no_expr env = Keeps-pure _ tt
    config_of-Keeps (some_expr e) env = Keeps-map (λ _ q. q) (expression-Keeps e env)

  -- A value costs a step at least.
  pub Keeps-expression :
      (e : Expr) (env : Environment) → Keeps n c 1 Any (expression platform call e env)
  Keeps-expression = expression-Keeps
