-- ===== src/Runtime/Value.antt =====
-- Runtime values: src/runtime/value.rs. The maps of an object and of a record are kept sorted by
-- key, with one entry for a key, as a `BTreeMap` is; an `Arc<()>` is the number of its allocation.
use Prim.Native.Nat.{Ordering}
use net_lang.Prelude.{ℕ, suc, String, Bool, Option, none, some, List, [], ◌∷◌}
use net_lang.Prelude.Int.{ℤ}
use net_lang.Prelude.Text.{compare_str}
use net_lang.Ast.{F64}

pub data Builtin : Type 0 where
  bytes encode_utf8 decode_utf8 byte_len close set_timeout accept local_address : Builtin

mutual
  pub data Value : Type 0 where
    -- The identity of the execution, the number of the type, its name and the fields.
    record_ : ℕ → ℕ → String → Fields → Value
    integer : ℤ → Value
    float : F64 → Value
    string : String → Value
    bytes : List ℕ → Value
    connection : ℕ → Value
    boolean : Bool → Value
    null : Value
    duration : ℕ → Value
    array : Values → Value
    object : Fields → Value
    function : ℕ → Value
    print : Value
    builtin : Builtin → Value

  pub data Values : Type 0 where
    nil : Values
    cons : Value → Values → Values

  pub data Fields : Type 0 where
    end : Fields
    entry : String → Value → Fields → Fields

abbrev pub to_list : Values → List Value
to_list nil = []
to_list (cons v vs) = v ∷ to_list vs

abbrev pub from_list : List Value → Values
from_list [] = nil
from_list (v ∷ vs) = cons v (from_list vs)

unfoldable pub get_field : String → Fields → Option Value
unfolding compare_str
get_field key end = none
get_field key (entry k v rest) =
    let later = get_field key rest in
    elim (compare_str k key) [ Ordering.eq ↦ some v | Ordering.lt ↦ later | Ordering.gt ↦ none ]

unfoldable pub insert_field : String → Value → Fields → Fields
unfolding compare_str
insert_field key value end = entry key value end
insert_field key value (entry k v rest) =
    let later = entry k v (insert_field key value rest) in
    elim (compare_str k key) [
      | Ordering.eq ↦ entry k value rest
      | Ordering.lt ↦ later
      | Ordering.gt ↦ entry key value (entry k v rest)
    ]

unfoldable pub count_fields : Fields → ℕ
count_fields end = 0
count_fields (entry _ _ rest) = suc (count_fields rest)

unfoldable pub value_type_name : Value → String
value_type_name (record_ _ _ name _) = name
value_type_name (integer _) = "integer"
value_type_name (float _) = "float"
value_type_name (string _) = "string"
value_type_name (bytes _) = "bytes"
value_type_name (connection _) = "connection"
value_type_name (boolean _) = "boolean"
value_type_name null = "null"
value_type_name (duration _) = "duration"
value_type_name (array _) = "array"
value_type_name (object _) = "object"
value_type_name _ = "function"
