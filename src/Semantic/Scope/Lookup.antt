-- ===== src/Semantic/Scope/Lookup.antt =====
-- Declaring and resolving names: src/semantic/scope.rs.
use net_lang.Prelude.{
  ◌≡◌, arith, String, true, some, [], ◌∷◌, Option-cases, inl, inr, if◌then◌else◌,
}
use net_lang.Prelude.Text.{str_eq, lookup, lookup-insert}
use net_lang.Semantic.Scope.{Symbol, Scopes, declare_symbol, resolve_symbol, resolve_with_depth}

-- After a declaration that is no duplicate its name means the declared symbol, and every other
-- name what it meant before, at any depth of scopes.
pub resolve_symbol-declare_symbol :
    (name other : String) (symbol : Symbol) (scopes scopes' : Scopes)
    → declare_symbol name symbol scopes ≡ (true, scopes')
    → resolve_symbol other scopes'
      ≡ (if str_eq name other then some symbol else resolve_symbol other scopes)
unfolding declare_symbol resolve_symbol resolve_with_depth
resolve_symbol-declare_symbol name other symbol [] scopes' h = ground arith
resolve_symbol-declare_symbol name other symbol (scope ∷ outer) scopes' h =
    elim (Option-cases (lookup name scope)) [
      | inl new ↦ ground (arith, lookup-insert scope name symbol other, new)
      | inr (old, found) ↦ ground (arith, found)
    ]
