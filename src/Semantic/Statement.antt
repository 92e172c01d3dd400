-- ===== src/Semantic/Statement.antt =====
-- Statements and programs: src/semantic/mod.rs. A statement is checked in two ways, as one of a
-- block and as a body in a scope that was made for it, so it means a pair of checks.
use mathlib.Core.List.{tail}
use net_lang.Prelude.{
  ℕ, suc, ◌+◌, ◌-◌, String, Bool, true, false, ◌&&◌, Option, none, some, List, [], ◌∷◌, ◌==◌,
  length, if◌then◌else◌,
}
use net_lang.Prelude.Text.{contains}
use net_lang.Ast.{
  Expr, Stmt, Stmts, no_stmts, stmt_cons, Parameter, TypeField, TypeAnnotation, stmt_span,
  unspanned_stmt, from_name,
}
use net_lang.Types.{ResolvedType, TypeRegistry, resolve, has_required_cycle, answer}
use net_lang.Semantic.Scope.{Symbol}
use net_lang.Semantic.Analyzer.{
  Analyzer, Check, SemanticErrorKind, Detail, Place, LoopKind, ◌then◌, skip, report, under_span,
  in_context, in_scope, in_loop, declare, resolve_type, resolve_option,
}
use net_lang.Semantic.Types.{check_option}
use net_lang.Semantic.Expression.{expression}

unfoldable pub is_reserved : String → Bool
unfolding from_name
is_reserved name = elim (from_name name) [
  | some _ ↦ true
  | none ↦ contains name ("array" ∷ "object" ∷ "function" ∷ "null" ∷ "connection" ∷ [])
]

unfoldable pub check_top_level : Check
unfolding report
check_top_level a =
    if length a.scopes == 2 && a.function_depth == 0
    then a
    else report SemanticErrorKind.invalid_type_declaration Detail.not_top_level a

unfoldable pub check_type_fields : String → List TypeField → List String → Check
unfolding report resolve_type
check_type_fields name [] seen = skip
check_type_fields name (f ∷ fs) seen =
    (if contains f.name seen
      then report SemanticErrorKind.duplicate_declaration (Detail.duplicate_field name f.name)
      else skip)
    then (λ a. (resolve_type f.annotation a).1)
    then check_type_fields name fs (f.name ∷ seen)

unfoldable pub declare_type : String → Check
unfolding report
declare_type name a =
    if contains name a.declared_types
    then report SemanticErrorKind.duplicate_declaration (Detail.duplicate_type name) a
    else record a { declared_types = name ∷ a.declared_types }

unfoldable pub type_declaration : String → List TypeField → Check
unfolding check_top_level is_reserved declare_type check_type_fields has_required_cycle report
type_declaration name fields =
    check_top_level
    then (if is_reserved name
        then report SemanticErrorKind.invalid_type_declaration (Detail.reserved_name name)
        else skip)
    then declare_type name
    then check_type_fields name fields []
    then (λ a. elim (has_required_cycle a.types name) [
      | answer true ↦
          report SemanticErrorKind.invalid_type_declaration (Detail.required_cycle name) a
      | _ ↦ a
    ])

unfoldable pub check_break : Check
unfolding report
check_break a = elim a.loops [
  | [] ↦ report SemanticErrorKind.break_outside_loop Detail.plain a
  | LoopKind.serial ∷ _ ↦ a
  | LoopKind.parallel ∷ _ ↦ report SemanticErrorKind.break_across_parallel Detail.plain a
]

unfoldable pub check_continue : Check
unfolding report
check_continue a = elim a.loops [
  | [] ↦ report SemanticErrorKind.continue_outside_loop Detail.plain a
  | _ ∷ _ ↦ a
]

-- Whether the innermost worker boundary stands in the current function.
unfoldable pub at_boundary : Analyzer → Bool
at_boundary a = elim a.parallel_boundaries [
  | [] ↦ false
  | (_, depth) ∷ _ ↦ depth == a.function_depth
]

unfoldable pub check_return : Check
unfolding at_boundary report
check_return a =
    if at_boundary a
    then report SemanticErrorKind.return_across_parallel Detail.plain a
    else if a.function_depth == 0
    then report SemanticErrorKind.return_outside_function Detail.plain a
    else a

-- A `return` without a value returns null.
unfoldable pub check_returned : Option Expr → Check
unfolding check_return expression check_option
check_returned none = check_return then (λ a. check_option Expr.null a.return_type a)
check_returned (some value) =
    check_return then expression value then (λ a. check_option value a.return_type a)

unfoldable pub resolve_parameters :
    List Parameter → Analyzer → List (Option ResolvedType) × Analyzer
unfolding resolve_option
resolve_parameters [] a = ([], a)
resolve_parameters (p ∷ ps) a =
    let (ty, a₁) = resolve_option p.annotation a in
    let (tys, a₂) = resolve_parameters ps a₁ in (ty ∷ tys, a₂)

unfoldable pub hoist_function : String → List Parameter → Option TypeAnnotation → Check
unfolding resolve_parameters resolve_option declare
hoist_function name parameters annotation a =
    let (types, a₁) = resolve_parameters parameters a in
    let (result, a₂) = resolve_option annotation a₁ in
    declare name (Symbol.function (length parameters) types result) a₂

-- Only functions are hoisted; `i` counts the statements before.
unfoldable pub hoist : ℕ → Stmts → Check
unfolding hoist_function under_span in_context unspanned_stmt stmt_span
hoist i no_stmts = skip
hoist i (stmt_cons statement rest) =
    elim (unspanned_stmt statement) [
      | Stmt.function name parameters annotation _ ↦
          under_span (stmt_span statement)
            (in_context (Place.statement (suc i)) (hoist_function name parameters annotation))
      | _ ↦ skip
    ]
    then hoist (suc i) rest

-- An annotation whose errors were reported where the function was hoisted.
unfoldable pub resolve_silently : TypeRegistry → Option TypeAnnotation → Option ResolvedType
unfolding resolve
resolve_silently types none = none
resolve_silently types (some annotation) = resolve types annotation.name

unfoldable pub declare_parameters : List Parameter → Check
unfolding declare resolve_silently
declare_parameters [] = skip
declare_parameters (p ∷ ps) =
    (λ a. declare p.name (Symbol.parameter (resolve_silently a.types p.annotation)) a)
    then declare_parameters ps

-- A function's body: its own loops and return contract, put back at its end.
unfoldable pub in_function : Option TypeAnnotation → Check → Check
unfolding resolve_silently
in_function annotation f a =
    let a' = f (record a {
      function_depth = a.function_depth + 1;
      loops = [];
      return_type = resolve_silently a.types annotation;
    }) in
    record a' {
      function_depth = a'.function_depth - 1;
      loops = a.loops;
      return_type = a.return_type;
    }

unfoldable pub check_let : String → Option TypeAnnotation → Expr → Check
unfolding expression resolve_option check_option declare
check_let name annotation value a =
    let (ty, a₁) = resolve_option annotation (expression value a) in
    declare name (Symbol.variable ty) (check_option value ty a₁)

-- Within a worker boundary, where the loop is parallel.
unfoldable pub in_boundary : LoopKind → Check → Check
in_boundary LoopKind.serial f a = f a
in_boundary LoopKind.parallel f a =
    let a' = f (record a {
      parallel_boundaries = (length a.scopes, a.function_depth) ∷ a.parallel_boundaries;
    }) in
    record a' { parallel_boundaries = tail a'.parallel_boundaries }

unfoldable pub in_iteration : LoopKind → String → Check → Check
unfolding in_context in_loop in_boundary in_scope declare
in_iteration kind variable body =
    in_context
      (elim kind [
        | LoopKind.serial ↦ Place.for variable
        | LoopKind.parallel ↦ Place.parallel variable
      ])
      (in_loop kind (in_boundary kind (in_scope (declare variable Symbol.loop_variable then body))))

unfoldable pub scoped : Place → Check → Check
unfolding in_context in_scope
scoped place body = in_context place (in_scope body)

-- As a statement of a block, and as a body in the current scope.
abbrev pub Checks : Type 0
Checks = Check × Check

-- A statement that is no block, as a body: `statements` on it alone.
unfoldable pub single : Stmt → Check → Checks
unfolding hoist in_context
single statement check =
    (check, hoist 0 (stmt_cons statement no_stmts) then in_context (Place.statement 1) check)
