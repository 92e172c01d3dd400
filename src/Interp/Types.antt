-- ===== src/Interp/Types.antt =====
-- Contracts on values: `check_value_type` and `check_binding_type` of src/interpreter/mod.rs.
use net_lang.Prelude.{ℕ, Bool, true, false, Option, none, some, ◌==◌, ◌&&◌, if◌then◌else◌}
use net_lang.Ast.{int, float, bool, string, duration, bytes, TypeAnnotation}
use net_lang.Types.{ResolvedType, TypeRegistry, primitive, named, resolve, type_name}
use net_lang.Runtime.Value.{Value, value_type_name}
use net_lang.Runtime.Host.{Message, Result, ok, err, panicked}
use net_lang.Interp.State.{M, lift, ◌>>=◌, binding}

-- The `valid` of `check_value_type`.
unfoldable pub has_type : TypeRegistry → ResolvedType → Value → Bool
has_type types (named id) (Value.record_ identity type_id _ _) =
    type_id == id && identity == types.identity
has_type types (named id) _ = false
has_type types (primitive int) (Value.integer _) = true
has_type types (primitive float) (Value.float _) = true
has_type types (primitive bool) (Value.boolean _) = true
has_type types (primitive string) (Value.string _) = true
has_type types (primitive duration) (Value.duration _) = true
has_type types (primitive bytes) (Value.bytes _) = true
has_type types (primitive _) _ = false

unfoldable pub check_value : TypeRegistry → Option ResolvedType → Value → Result (Unit {0})
unfolding has_type type_name value_type_name
check_value types none value = ok tt
check_value types (some expected) value =
    if has_type types expected value then ok tt else elim (type_name types expected) [
      | some name ↦ err (Message.type_mismatch name (value_type_name value))
      | none ↦ panicked
    ]

-- `annotation.as_ref().and_then(|a| self.types.resolve(&a.name))`.
unfoldable pub resolve_annotation : TypeRegistry → Option TypeAnnotation → Option ResolvedType
unfolding resolve
resolve_annotation types none = none
resolve_annotation types (some a) = resolve types a.name

module _ {H : Type 0} where
  unfoldable pub check_value_type : Option ResolvedType → Value → M H (Unit {0})
  unfolding check_value lift
  check_value_type expected value c = lift (check_value c.types expected value) c

  unfoldable pub check_binding_type : ℕ → Value → M H (Unit {0})
  unfolding check_value_type binding
  check_binding_type id value = binding id >>= λ b. check_value_type b.annotation value
