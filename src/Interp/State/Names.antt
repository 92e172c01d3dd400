-- ===== src/Interp/State/Names.antt =====
-- Names in an environment: `insert` into its last scope and `resolve` of src/interpreter/mod.rs.
use net_lang.Prelude.{ℕ, ◌≡◌, arith, String, some, [], ◌∷◌, if◌then◌else◌}
use net_lang.Prelude.Text.{str_eq, lookup-insert}
use net_lang.Interp.State.{Context, State, Environment, ok, find_name, insert_local}

-- After a name is bound in the innermost scope it means the new binding, also where an outer scope
-- or that scope had the name, and every other name means what it meant.
pub find_name-insert_local :
    {H : Type 0} (name other : String) (id : ℕ) (env env' : Environment) (c : Context) (s : State H)
    → (insert_local name id env c s).0 ≡ ok env'
    → find_name env' other ≡ (if str_eq name other then some id else find_name env other)
unfolding find_name insert_local
find_name-insert_local name other id [] env' c s h = absurd (cc h)
find_name-insert_local name other id (scope ∷ outer) env' c s h =
    ground (arith, lookup-insert scope name id other, h)
