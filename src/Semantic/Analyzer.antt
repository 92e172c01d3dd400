-- ===== src/Semantic/Analyzer.antt =====
-- The analyzer's state, its errors and its small methods: src/semantic/mod.rs and
-- src/semantic/error.rs. Each format string of an error is a constructor that keeps its arguments;
-- the innermost context and the innermost loop stand first.
use mathlib.Core.List.{tail}
use net_lang.Prelude.{ℕ, String, Option, none, some, List, [], ◌∷◌, ◌++◌, if◌then◌else◌}
use net_lang.Source.{Span}
use net_lang.Ast.{TypeAnnotation}
use net_lang.Types.{ResolvedType, TypeRegistry, resolve}
use net_lang.Semantic.Scope.{Symbol, Scopes, declare_symbol, resolve_symbol, enter, leave}

pub data SemanticErrorKind : Type 0 where
  undefined_name duplicate_declaration return_outside_function immutable_assignment :
      SemanticErrorKind
  invalid_assignment_target argument_count captured_assignment : SemanticErrorKind
  return_across_parallel break_outside_loop continue_outside_loop : SemanticErrorKind
  break_across_parallel unknown_type type_mismatch : SemanticErrorKind
  invalid_type_declaration invalid_constructor : SemanticErrorKind

-- The text of an error beside its kind.
pub data Detail : Type 0 where
  plain : Detail
  named : String → Detail
  -- A name or an expected type, and a field, a type or an actual type.
  pair : String → String → Detail
  -- A function's name, its arity and the number of arguments.
  counts : String → ℕ → ℕ → Detail
  not_top_level : Detail
  reserved_name required_cycle : String → Detail
  duplicate_type not_a_type : String → Detail
  duplicate_field unknown_field missing_field : String → String → Detail

pub data Place : Type 0 where
  program block if_branch else_branch while_body : Place
  statement match_arm : ℕ → Place
  function for parallel : String → Place

pub record SemanticError : Type 0 where
  pub kind : SemanticErrorKind
  pub detail : Detail
  pub context : List Place
  pub span : Option Span

pub data LoopKind : Type 0 where
  serial parallel : LoopKind

pub record Analyzer : Type 0 where
  pub types : TypeRegistry
  pub declared_types : List String
  pub return_type : Option ResolvedType
  pub loops : List LoopKind
  pub current_span : Option Span
  pub scopes : Scopes
  pub function_depth : ℕ
  pub context : List Place
  pub errors : List SemanticError
  -- The scope depth and the function depth at each worker boundary, the innermost first.
  pub parallel_boundaries : List (ℕ × ℕ)

-- A method that returns nothing.
abbrev pub Check : Type 0
Check = Analyzer → Analyzer

infixl 5 ◌then◌
abbrev pub ◌then◌ : Check → Check → Check
◌then◌ f g a = g (f a)

abbrev pub skip : Check
skip a = a

-- `span.or(previous)`.
abbrev pub or_previous : Option Span → Option Span → Option Span
or_previous (some s) previous = some s
or_previous none previous = previous

unfoldable pub report : SemanticErrorKind → Detail → Check
report kind detail a = record a {
  errors =
      a.errors
      ++ record { kind = kind; detail = detail; context = a.context; span = a.current_span } ∷ [];
}

-- Run under a location where one is given, and put the former one back.
unfoldable pub under_span : Option Span → Check → Check
under_span span f a =
    let a' = f (record a { current_span = or_previous span a.current_span }) in
    record a' { current_span = a.current_span }

unfoldable pub in_context : Place → Check → Check
in_context place f a =
    let a' = f (record a { context = place ∷ a.context }) in record a' { context = tail a'.context }

unfoldable pub in_scope : Check → Check
unfolding enter leave
in_scope f a =
    let a' = f (record a { scopes = enter a.scopes }) in record a' { scopes = leave a'.scopes }

unfoldable pub in_loop : LoopKind → Check → Check
in_loop kind f a =
    let a' = f (record a { loops = kind ∷ a.loops }) in record a' { loops = tail a'.loops }

unfoldable pub declare : String → Symbol → Check
unfolding report declare_symbol
declare name symbol a =
    let (fresh, scopes) = declare_symbol name symbol a.scopes in
    if fresh
    then record a { scopes = scopes }
    else report SemanticErrorKind.duplicate_declaration (Detail.named name)
        (record a { scopes = scopes })

unfoldable pub resolve_name : String → Analyzer → Option Symbol × Analyzer
unfolding report resolve_symbol
resolve_name name a = elim (resolve_symbol name a.scopes) [
  | some symbol ↦ (some symbol, a)
  | none ↦ (none, report SemanticErrorKind.undefined_name (Detail.named name) a)
]

unfoldable pub resolve_type : TypeAnnotation → Analyzer → Option ResolvedType × Analyzer
unfolding report under_span resolve
resolve_type annotation a = elim (resolve a.types annotation.name) [
  | some ty ↦ (some ty, a)
  | none ↦ (
    none,
    under_span annotation.span
        (report SemanticErrorKind.unknown_type (Detail.named annotation.name)) a,
  )
]

unfoldable pub resolve_option : Option TypeAnnotation → Analyzer → Option ResolvedType × Analyzer
unfolding resolve_type
resolve_option none a = (none, a)
resolve_option (some annotation) a = resolve_type annotation a
