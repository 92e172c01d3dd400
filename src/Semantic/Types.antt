-- ===== src/Semantic/Types.antt =====
-- What is known of an expression's type without running it, and the checks that use it:
-- src/semantic/types.rs. Types are compared by name, as in the code.
use net_lang.Prelude.{
  String, Bool, true, false, ◌&&◌, ◌||◌, Option, none, some, List, ◌∷◌, if◌then◌else◌,
}
use net_lang.Prelude.Text.{str_eq}
use net_lang.Ast.{Expr, Exprs, expr_cons, BinaryOp, UnaryOp, unspanned, span}
use net_lang.Types.{ResolvedType, TypeRegistry, named, resolve, type_name, fields_of, find_field}
use net_lang.Semantic.Scope.{Symbol, Scopes, resolve_symbol}
use net_lang.Semantic.Analyzer.{
  Analyzer, Check, SemanticErrorKind, Detail, ◌then◌, skip, report, under_span,
}

-- The declared type of a field, from the name of the object's type.
unfoldable pub field_type : TypeRegistry → String → Option String → Option String
unfolding resolve fields_of find_field
field_type types name none = none
field_type types name (some object) = elim (resolve types object) [
  | some (named id) ↦ elim (fields_of types id) [
    | some fs ↦ elim (find_field name fs) [ some f ↦ some f.annotation.name | none ↦ none ]
    | none ↦ none
  ]
  | _ ↦ none
]

unfoldable pub is_test : BinaryOp → Bool
is_test BinaryOp.add = false
is_test BinaryOp.subtract = false
is_test BinaryOp.multiply = false
is_test BinaryOp.divide = false
is_test BinaryOp.remainder = false
is_test _ = true

abbrev is_number_name : String → Bool
is_number_name t = str_eq t "int" || str_eq t "float"

abbrev is_add : BinaryOp → Bool
is_add BinaryOp.add = true
is_add _ = false

abbrev is_add_or_subtract : BinaryOp → Bool
is_add_or_subtract BinaryOp.add = true
is_add_or_subtract BinaryOp.subtract = true
is_add_or_subtract _ = false

unfoldable pub arithmetic_type : BinaryOp → String → String → Option String
arithmetic_type op l r =
    if is_add op && (str_eq l "string" || str_eq r "string")
    then some "string"
    else if is_add op && (str_eq l "bytes" && str_eq r "bytes")
    then some "bytes"
    else if is_add_or_subtract op && (str_eq l "duration" && str_eq r "duration")
    then some "duration"
    else if str_eq l "int" && str_eq r "int"
    then some "int"
    else if is_number_name l && is_number_name r
    then some "float"
    else none

abbrev both : Option String → Option String → (String → String → Option String) → Option String
both (some l) (some r) f = f l r
both _ _ f = none

abbrev numeric_only : Option String → Option String
numeric_only (some t) = if is_number_name t then some t else none
numeric_only none = none

-- The annotations of symbols come from `resolve`, so each has a name.
abbrev name_of : TypeRegistry → Option ResolvedType → Option String
name_of types (some ty) = type_name types ty
name_of types none = none

-- What an identifier's symbol says of its type.
unfoldable pub symbol_type : TypeRegistry → Option Symbol → Option String
unfolding type_name
symbol_type types (some (Symbol.variable annotation)) = name_of types annotation
symbol_type types (some (Symbol.parameter annotation)) = name_of types annotation
symbol_type types (some (Symbol.function _ _ _)) = some "function"
symbol_type types (some Symbol.builtin) = some "function"
symbol_type types _ = none

-- The result of a call, where the callee is a function's name.
unfoldable pub call_type : TypeRegistry → Scopes → Expr → Option String
unfolding unspanned resolve_symbol type_name
call_type types scopes callee = elim (unspanned callee) [
  | Expr.identifier name ↦ elim (resolve_symbol name scopes) [
    | some (Symbol.function _ _ result) ↦ name_of types result
    | _ ↦ none
  ]
  | _ ↦ none
]

unfoldable pub known_type : TypeRegistry → Scopes → Expr → Option String
unfolding field_type is_test arithmetic_type symbol_type call_type unspanned resolve type_name
    resolve_symbol
known_type types scopes (Expr.located _ inner) = known_type types scopes inner
known_type types scopes (Expr.property container name) =
    field_type types name (known_type types scopes container)
known_type types scopes (Expr.index container subscript) =
    let object = known_type types scopes container in
    elim (unspanned subscript) [ Expr.string name ↦ field_type types name object | _ ↦ none ]
known_type types scopes (Expr.construct name _) = name_of types (resolve types name)
known_type types scopes (Expr.integer _) = some "int"
known_type types scopes (Expr.float _) = some "float"
known_type types scopes (Expr.boolean _) = some "bool"
known_type types scopes (Expr.string _) = some "string"
known_type types scopes (Expr.duration _) = some "duration"
known_type types scopes Expr.null = some "null"
known_type types scopes (Expr.array _) = some "array"
known_type types scopes (Expr.object _) = some "object"
known_type types scopes (Expr.identifier name) = symbol_type types (resolve_symbol name scopes)
known_type types scopes (Expr.assignment _ value) = known_type types scopes value
known_type types scopes (Expr.call callee _) = call_type types scopes callee
known_type types scopes (Expr.unary UnaryOp.not _) = some "bool"
known_type types scopes (Expr.unary UnaryOp.negate operand) =
    numeric_only (known_type types scopes operand)
known_type types scopes (Expr.binary left operator right) =
    let l = known_type types scopes left in
    let r = known_type types scopes right in
    if is_test operator then some "bool" else both l r (arithmetic_type operator)
known_type types scopes _ = none

unfoldable pub check_type : Expr → ResolvedType → Check
unfolding known_type type_name under_span report span
check_type e expected a = elim (known_type a.types a.scopes e) [
  | some actual ↦ elim (type_name a.types expected) [
    | some wanted ↦
        if str_eq actual wanted
        then a
        else under_span (span e)
            (report SemanticErrorKind.type_mismatch (Detail.pair wanted actual)) a
    | none ↦ a
  ]
  | none ↦ a
]

unfoldable pub check_option : Expr → Option ResolvedType → Check
unfolding check_type
check_option e none = skip
check_option e (some expected) = check_type e expected

-- `arguments.iter().zip(parameters)`.
unfoldable pub check_arguments : Exprs → List (Option ResolvedType) → Check
unfolding check_option
check_arguments (expr_cons e es) (p ∷ ps) = check_option e p then check_arguments es ps
check_arguments _ _ = skip

unfoldable pub check_member : Expr → String → Check
unfolding known_type resolve fields_of find_field report
check_member container name a = elim (known_type a.types a.scopes container) [
  | some known ↦ elim (resolve a.types known) [
    | some (named id) ↦ elim (fields_of a.types id) [
      | some fs ↦ elim (find_field name fs) [
        | some _ ↦ a
        | none ↦ report SemanticErrorKind.type_mismatch (Detail.unknown_field known name) a
      ]
      | none ↦ a
    ]
    | _ ↦ a
  ]
  | none ↦ a
]

unfoldable pub member_type : Expr → Analyzer → Option ResolvedType
unfolding known_type resolve
member_type target a = elim (known_type a.types a.scopes target) [
  | some name ↦ resolve a.types name
  | none ↦ none
]
