-- ===== src/Runtime/Display.antt =====
-- The text of a value: `Display` in src/runtime/value.rs.
use net_lang.Prelude.{String, true, false}
use Prim.Native.String.{◌++◌}
use net_lang.Runtime.Value.{
  Value, Values, Fields, record_, integer, float, string, bytes, connection, boolean, null,
  duration, array, object, nil, cons, end, entry,
}
use net_lang.Runtime.Host.{TextUnit}

module _ (tx : TextUnit) where
  -- A nested text is shown quoted; `shown` is the value's own text.
  unfoldable pub nested : Value → String → String
  nested (string text) shown = tx.debug_string text
  nested _ shown = shown

  unfoldable mutual
    pub display : Value → String
    display (record_ _ _ name fields) = name ++ " {" ++ display_record_fields fields ++ "}"
    display (integer v) = tx.show_integer v
    display (float v) = tx.show_float v
    display (string v) = v
    display (bytes v) = "bytes" ++ tx.debug_bytes v
    display (connection _) = "<connection>"
    display (boolean true) = "true"
    display (boolean false) = "false"
    display null = "null"
    display (duration v) = tx.show_natural v ++ "ms"
    display (array values) = "[" ++ display_values values ++ "]"
    display (object fields) = "{" ++ display_object_fields fields ++ "}"
    display _ = "<function>"

    pub display_values : Values → String
    display_values nil = ""
    display_values (cons v nil) = nested v (display v)
    display_values (cons v (cons w vs)) = nested v (display v) ++ ", " ++ display_values (cons w vs)

    pub display_record_fields : Fields → String
    display_record_fields end = ""
    display_record_fields (entry k v end) = k ++ ": " ++ nested v (display v)
    display_record_fields (entry k v (entry k' v' rest)) =
        k ++ ": " ++ nested v (display v) ++ ", " ++ display_record_fields (entry k' v' rest)

    pub display_object_fields : Fields → String
    display_object_fields end = ""
    display_object_fields (entry k v end) = tx.debug_string k ++ ": " ++ nested v (display v)
    display_object_fields (entry k v (entry k' v' rest)) =
        tx.debug_string k
        ++ ": "
        ++ nested v (display v)
        ++ ", "
        ++ display_object_fields (entry k' v' rest)
