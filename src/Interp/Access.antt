-- ===== src/Interp/Access.antt =====
-- Reading and writing inside a value: `get` and `set` of src/interpreter/expression.rs. A write
-- returns the new root.
pub mod RoundTrip
use net_lang.Prelude.{
  ℕ, zero, suc, String, Bool, true, false, Option, none, some, List, [], ◌∷◌, ◌==◌, if◌then◌else◌,
}
use net_lang.Prelude.Int.{pos, negsuc}
use net_lang.Types.{TypeRegistry, resolve, fields_of, find_field}
use net_lang.Runtime.Value.{Value, Values, nil, cons, get_field, insert_field, value_type_name}
use net_lang.Runtime.Host.{Message, Result, ok, err, panicked, of_option, ◌>>=◌}
use net_lang.Interp.Types.{check_value}

pub data Selector : Type 0 where
  property : String → Selector
  index : Value → Selector

-- The key that a property or a text index selects.
unfoldable pub key_of : Selector → Option String
key_of (property key) = some key
key_of (index (Value.string key)) = some key
key_of _ = none

unfoldable pub value_at : Values → ℕ → Option Value
value_at nil i = none
value_at (cons v vs) zero = some v
value_at (cons v vs) (suc i) = value_at vs i

unfoldable pub set_value_at : Values → ℕ → Value → Values
set_value_at nil i w = nil
set_value_at (cons v vs) zero w = cons w vs
set_value_at (cons v vs) (suc i) w = cons v (set_value_at vs i w)

unfoldable pub count_values : Values → ℕ
count_values nil = 0
count_values (cons _ vs) = suc (count_values vs)

-- The element at an index that must be an integer and not negative.
unfoldable pub element : Values → Value → Message → Result (ℕ × Value)
unfolding value_at count_values
element values (Value.integer (pos i)) m =
    of_option (value_at values i) (Message.index_bounds i (count_values values)) >>= λ v. ok (i, v)
element values (Value.integer (negsuc _)) m = err Message.negative_index
element values _ m = err m

unfoldable pub get_in_array : Values → Selector → Result Value
unfolding element
get_in_array values (index i) = element values i (Message.invalid_access "array") >>= λ (_, v). ok v
get_in_array values (property _) = err (Message.invalid_access "array")

unfoldable pub get : Value → Selector → Result Value
unfolding key_of get_in_array get_field value_type_name
get (Value.record_ _ _ name fields) selector = elim (key_of selector) [
  | some key ↦ of_option (get_field key fields) (Message.no_record_field name key)
  | none ↦ err (Message.invalid_access name)
]
get (Value.object fields) selector = elim (key_of selector) [
  | some key ↦ of_option (get_field key fields) (Message.no_object_field key)
  | none ↦ err (Message.invalid_access "object")
]
get (Value.array values) selector = get_in_array values selector
get value selector = err (Message.invalid_access (value_type_name value))

abbrev is_empty {ℓ} : {A : Type ℓ} → List A → Bool
is_empty [] = true
is_empty _ = false

module _ (types : TypeRegistry) where
  -- What `set` demands of a field of a record of type `type_id` before it writes there.
  unfoldable pub check_record_field : ℕ → ℕ → String → String → Bool → Value → Result (Unit {0})
  unfolding find_field fields_of check_value resolve
  check_record_field identity type_id name key last value =
      if identity == types.identity
      then elim (fields_of types type_id) [
        | none ↦ panicked
        | some definition ↦
            of_option (find_field key definition) (Message.no_record_field name key) >>= λ f.
            if last then check_value types (resolve types f.annotation.name) value else ok tt
      ]
      else err Message.foreign_record

  -- One step of `set`, which goes on with `rest` in the selected child.
  unfoldable pub set_step : Selector → Bool → (Value → Result Value) → Value → Value → Result Value
  unfolding check_record_field key_of get_field insert_field element set_value_at
  set_step selector last below value (Value.record_ identity type_id name fields) =
      elim (key_of selector) [
        | none ↦ err Message.invalid_assignment_access
        | some key ↦ check_record_field identity type_id name key last value >>= λ _.
            of_option (get_field key fields) (Message.missing_field key) >>= λ child.
            below child >>= λ child'.
            ok (Value.record_ identity type_id name (insert_field key child' fields))
      ]
  set_step selector last below value (Value.object fields) = elim (key_of selector) [
    | none ↦ err Message.invalid_assignment_access
    | some key ↦
        if last
        then ok (Value.object (insert_field key value fields))
        else of_option (get_field key fields) (Message.no_object_field key) >>= λ child.
            below child >>= λ child'. ok (Value.object (insert_field key child' fields))
  ]
  set_step (index i) last below value (Value.array values) =
      element values i Message.invalid_assignment_access >>= λ (n, child).
      below child >>= λ child'. ok (Value.array (set_value_at values n child'))
  set_step selector last below value root = err Message.invalid_assignment_access

  unfoldable pub set : List Selector → Value → Value → Result Value
  unfolding set_step
  set [] value root = ok value
  set (selector ∷ rest) value root = set_step selector (is_empty rest) (set rest value) value root
