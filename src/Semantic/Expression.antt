-- ===== src/Semantic/Expression.antt =====
-- Expressions: `expression` of src/semantic/mod.rs, with `constructor` of src/semantic/types.rs.
use net_lang.Prelude.{
  ℕ, String, Option, none, some, List, [], ◌∷◌, ◌==◌, ltb, ◌&&◌, if◌then◌else◌, suc,
}
use net_lang.Prelude.Text.{contains}
use net_lang.Ast.{
  Expr, Exprs, ObjectFields, OptionExpr, no_exprs, expr_cons, no_fields, field_cons, no_expr,
  some_expr, TypeField, unspanned, span,
}
use net_lang.Types.{ResolvedType, named, resolve, fields_of, find_field}
use net_lang.Semantic.Scope.{Symbol, resolve_symbol, resolve_with_depth, is_mutable}
use net_lang.Semantic.Analyzer.{
  Analyzer, Check, SemanticErrorKind, Detail, ◌then◌, skip, report, under_span, resolve_name,
}
use net_lang.Semantic.Types.{check_option, check_arguments, check_member, member_type}

unfoldable pub count_exprs : Exprs → ℕ
count_exprs no_exprs = 0
count_exprs (expr_cons _ es) = suc (count_exprs es)

-- The identifier at the root of a chain of properties and indices.
unfoldable pub root_name : Expr → Option String
root_name (Expr.located _ inner) = root_name inner
root_name (Expr.property container _) = root_name container
root_name (Expr.index container _) = root_name container
root_name (Expr.identifier name) = some name
root_name _ = none

-- A worker may not assign to what it captured.
unfoldable pub check_captured : String → Check
unfolding resolve_with_depth is_mutable report
check_captured name a = elim a.parallel_boundaries [
  | [] ↦ a
  | (boundary, _) ∷ _ ↦ elim (resolve_with_depth name a.scopes) [
    | some (depth, symbol) ↦
        if ltb depth boundary && is_mutable symbol
        then report SemanticErrorKind.captured_assignment (Detail.named name) a
        else a
    | none ↦ a
  ]
]

unfoldable pub check_parallel_assignment : Expr → Check
unfolding check_captured root_name
check_parallel_assignment target a = elim (root_name target) [
  | some name ↦ check_captured name a
  | none ↦ a
]

-- An identifier as an assignment's target.
unfoldable pub check_assigned_name : String → Check
unfolding resolve_name is_mutable report
check_assigned_name name a =
    let (found, a') = resolve_name name a in
    elim found [
      | some symbol ↦
          if is_mutable symbol
          then a'
          else report SemanticErrorKind.immutable_assignment (Detail.named name) a'
      | none ↦ a'
    ]

unfoldable pub check_target : Expr → Check → Check
unfolding check_assigned_name report
check_target (Expr.identifier name) analyzed = check_assigned_name name
check_target (Expr.property _ _) analyzed = analyzed
check_target (Expr.index _ _) analyzed = analyzed
check_target _ analyzed =
    report SemanticErrorKind.invalid_assignment_target Detail.plain then analyzed

-- The contract of an assignment's target on its value.
unfoldable pub check_assigned_value : Expr → Expr → Expr → Check
unfolding member_type check_option resolve_symbol
check_assigned_value (Expr.property _ _) target value a =
    check_option value (member_type target a) a
check_assigned_value (Expr.index _ _) target value a = check_option value (member_type target a) a
check_assigned_value (Expr.identifier name) target value a = elim (resolve_symbol name a.scopes) [
  | some (Symbol.variable annotation) ↦ check_option value annotation a
  | some (Symbol.parameter annotation) ↦ check_option value annotation a
  | _ ↦ a
]
check_assigned_value _ target value a = a

-- The arity and the parameters' types of a callee that is a function's name.
unfoldable pub callee_symbol : Expr → Analyzer → Option (String × ℕ × List (Option ResolvedType))
unfolding unspanned resolve_symbol
callee_symbol callee a = elim (unspanned callee) [
  | Expr.identifier name ↦ elim (resolve_symbol name a.scopes) [
    | some (Symbol.function arity parameters _) ↦ some (name, arity, parameters)
    | _ ↦ none
  ]
  | _ ↦ none
]

unfoldable pub check_arity : Expr → ℕ → Check
unfolding callee_symbol report
check_arity callee given a = elim (callee_symbol callee a) [
  | some (name, arity, _) ↦
      if arity == given
      then a
      else report SemanticErrorKind.argument_count (Detail.counts name arity given) a
  | none ↦ a
]

unfoldable pub check_parameters : Expr → Exprs → Check
unfolding callee_symbol check_arguments
check_parameters callee arguments a = elim (callee_symbol callee a) [
  | some (_, _, parameters) ↦ check_arguments arguments parameters a
  | none ↦ a
]

-- `constructor` on its name, one field, and the fields that are missing.
unfoldable pub definition_of : String → Analyzer → Option (List TypeField)
unfolding resolve fields_of
definition_of name a = elim (resolve a.types name) [
  | some (named id) ↦ fields_of a.types id
  | _ ↦ none
]

unfoldable pub check_constructed : String → Check
unfolding resolve report
check_constructed name a = elim (resolve a.types name) [
  | some (named _) ↦ a
  | _ ↦ report SemanticErrorKind.invalid_constructor (Detail.not_a_type name) a
]

unfoldable pub check_duplicate_field : String → String → List String → Check
unfolding report
check_duplicate_field name key seen =
    if contains key seen
    then report SemanticErrorKind.invalid_constructor (Detail.duplicate_field name key)
    else skip

unfoldable pub check_constructor_field : String → Option (List TypeField) → String → Expr → Check
unfolding find_field resolve check_option report
check_constructor_field name none key value a = a
check_constructor_field name (some definition) key value a = elim (find_field key definition) [
  | some expected ↦ check_option value (resolve a.types expected.annotation.name) a
  | none ↦ report SemanticErrorKind.invalid_constructor (Detail.unknown_field name key) a
]

unfoldable pub check_missing : String → List TypeField → List String → Check
unfolding report
check_missing name [] seen = skip
check_missing name (f ∷ fs) seen =
    (if contains f.name seen
      then skip
      else report SemanticErrorKind.invalid_constructor (Detail.missing_field name f.name))
    then check_missing name fs seen

unfoldable pub field_keys : ObjectFields → List String
field_keys no_fields = []
field_keys (field_cons key _ rest) = key ∷ field_keys rest

unfoldable pub check_all_present : String → ObjectFields → Check
unfolding definition_of check_missing field_keys
check_all_present name fields a = elim (definition_of name a) [
  | some definition ↦ check_missing name definition (field_keys fields) a
  | none ↦ a
]

unfoldable pub index_name : Expr → Option String
unfolding unspanned
index_name e = elim (unspanned e) [ Expr.string name ↦ some name | _ ↦ none ]

unfoldable pub check_index : Expr → Expr → Check
unfolding index_name check_member
check_index container subscript a = elim (index_name subscript) [
  | some name ↦ check_member container name a
  | none ↦ a
]

unfoldable mutual
  unfolding under_span resolve_name check_target check_parallel_assignment check_assigned_value
      check_arity check_parameters check_constructed check_duplicate_field check_constructor_field
      check_all_present definition_of check_member check_index unspanned span count_exprs

  pub expression : Expr → Check
  expression (Expr.construct name fields) a =
      let definition = definition_of name a in
      (check_constructed name
          then constructor_fields fields name definition []
          then check_all_present name fields)
        a
  expression (Expr.located sp inner) a = under_span (some sp) (expression inner) a
  expression (Expr.connection _ address _) a = expression address a
  expression (Expr.send handle payload destination) a =
      (expression handle then expression payload then option_expression destination) a
  expression (Expr.receive handle) a = expression handle a
  expression (Expr.identifier name) a = (resolve_name name a).1
  expression (Expr.array values) a = expressions values a
  expression (Expr.object fields) a = object_fields fields a
  expression (Expr.unary _ operand) a = expression operand a
  expression (Expr.binary left _ right) a = (expression left then expression right) a
  expression (Expr.assignment target value) a =
      (under_span (span target) (
            check_target (unspanned target) (expression target)
            then check_parallel_assignment target)
          then expression value
          then check_assigned_value (unspanned target) target value)
        a
  expression (Expr.call callee arguments) a =
      (expression callee
          then check_arity callee (count_exprs arguments)
          then expressions arguments
          then check_parameters callee arguments)
        a
  expression (Expr.property container name) a =
      (expression container then check_member container name) a
  expression (Expr.index container subscript) a =
      (expression container then expression subscript then check_index container subscript) a
  expression (Expr.request _ url config) a = (expression url then option_expression config) a
  expression _ a = a

  pub expressions : Exprs → Check
  expressions no_exprs a = a
  expressions (expr_cons e es) a = (expression e then expressions es) a

  pub option_expression : OptionExpr → Check
  option_expression no_expr a = a
  option_expression (some_expr e) a = expression e a

  pub object_fields : ObjectFields → Check
  object_fields no_fields a = a
  object_fields (field_cons _ value rest) a = (expression value then object_fields rest) a

  pub constructor_fields : ObjectFields → String → Option (List TypeField) → List String → Check
  constructor_fields no_fields name definition seen a = a
  constructor_fields (field_cons key value rest) name definition seen a =
      (expression value
          then check_duplicate_field name key seen
          then check_constructor_field name definition key value
          then constructor_fields rest name definition (key ∷ seen))
        a
