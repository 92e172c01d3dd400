-- ===== src/Semantic/Scope.antt =====
-- Symbols and lexical scopes: src/semantic/scope.rs. The innermost scope stands first.
pub mod Lookup
use mathlib.Core.List.{tail}
use net_lang.Prelude.{ℕ, String, Bool, true, false, Option, none, some, List, [], ◌∷◌, length}
use net_lang.Prelude.Text.{lookup, insert}
use net_lang.Types.{ResolvedType}
use net_lang.Runtime.Value.{Builtin}
use net_lang.Runtime.Builtin.{all_builtins, builtin_name, builtin_arity}

pub data Symbol : Type 0 where
  variable parameter : Option ResolvedType → Symbol
  loop_variable : Symbol
  -- The arity, the parameters' types and the result's.
  function : ℕ → List (Option ResolvedType) → Option ResolvedType → Symbol
  builtin : Symbol

unfoldable pub is_mutable : Symbol → Bool
is_mutable (function _ _ _) = false
is_mutable builtin = false
is_mutable _ = true

abbrev pub Scope : Type 0
Scope = List (String × Symbol)

abbrev pub Scopes : Type 0
Scopes = List Scope

unfoldable pub insert_builtins : List Builtin → Scope → Scope
unfolding builtin_name builtin_arity
insert_builtins [] scope = scope
insert_builtins (b ∷ bs) scope =
    insert_builtins bs (insert (builtin_name b) (function (builtin_arity b) [] none) scope)

unfoldable pub new_scopes : Scopes
unfolding insert_builtins all_builtins
new_scopes = insert_builtins all_builtins (("print", builtin) ∷ []) ∷ []

unfoldable pub enter : Scopes → Scopes
enter scopes = [] ∷ scopes

-- The code asserts that the built-in scope stays.
unfoldable pub leave : Scopes → Scopes
leave scopes = tail scopes

-- On a duplicate the first symbol stays, and the answer is false.
unfoldable pub declare_symbol : String → Symbol → Scopes → Bool × Scopes
declare_symbol name symbol [] = (false, [])
declare_symbol name symbol (scope ∷ outer) = elim (lookup name scope) [
  | some _ ↦ (false, scope ∷ outer)
  | none ↦ (true, insert name symbol scope ∷ outer)
]

-- The depth of a scope is the number of the scopes around it.
unfoldable pub resolve_with_depth : String → Scopes → Option (ℕ × Symbol)
resolve_with_depth name [] = none
resolve_with_depth name (scope ∷ outer) = elim (lookup name scope) [
  | some symbol ↦ some (length outer, symbol)
  | none ↦ resolve_with_depth name outer
]

unfoldable pub resolve_symbol : String → Scopes → Option Symbol
unfolding resolve_with_depth
resolve_symbol name scopes = elim (resolve_with_depth name scopes) [
  | some (_, symbol) ↦ some symbol
  | none ↦ none
]
