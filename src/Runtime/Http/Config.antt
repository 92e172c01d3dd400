-- ===== src/Runtime/Http/Config.antt =====
-- The configuration of a request: `Options::parse` and `json_value` of src/runtime/http.rs.
use Prim.Native.String as Text
use net_lang.Prelude.{String, ◌&&◌, Option, none, some, List, [], ◌∷◌, ◌++◌, leb, if◌then◌else◌}
use net_lang.Prelude.Int.{pos}
use net_lang.Prelude.Text.{str_eq, insert}
use net_lang.Runtime.Value.{Value, Values, nil, cons, Fields, end, entry, value_type_name}
use net_lang.Runtime.Http.{
  Json, JsonItems, no_items, item, JsonFields, no_fields, field, Options, Client, Result, ok, err,
  ◌>>=◌,
}

module _ {W : Type 0} (client : Client W) where
  unfoldable mutual
    pub json_value : Value → Result Json
    json_value Value.null = ok Json.null
    json_value (Value.boolean b) = ok (Json.boolean b)
    json_value (Value.integer z) = ok (Json.integer z)
    json_value (Value.string s) = ok (Json.string s)
    json_value (Value.float x) =
        if client.is_finite x then ok (Json.float x) else err "JSON numbers must be finite"
    json_value (Value.array vs) = json_items vs >>= λ items. ok (Json.array items)
    json_value (Value.object fs) = json_fields fs >>= λ fields. ok (Json.object fields)
    json_value v = err (Text.◌++◌ (value_type_name v) " cannot be encoded as JSON")

    pub json_items : Values → Result JsonItems
    json_items nil = ok no_items
    json_items (cons v vs) = json_value v >>= λ j. json_items vs >>= λ js. ok (item j js)

    pub json_fields : Fields → Result JsonFields
    json_fields end = ok no_fields
    json_fields (entry key v fs) =
        json_value v >>= λ j. json_fields fs >>= λ js. ok (field key j js)

  abbrev pub header :
      Option String → Option String → List (String × String) → Result (List (String × String))
  header none _ headers = err "invalid HTTP header name"
  header (some name) none headers = err "invalid HTTP header value"
  header (some name) (some value) headers = ok (insert name value headers)

  -- A later header of one name replaces the earlier.
  unfoldable pub parse_headers : Fields → List (String × String) → Result (List (String × String))
  parse_headers end headers = ok headers
  parse_headers (entry name (Value.string value) fs) headers =
      header (client.header_name name) (client.header_value value) headers >>= parse_headers fs
  parse_headers (entry name _ fs) headers = err "header values must be strings"

  abbrev pub query_text : (Value → String) → Value → Result String
  query_text show (Value.string s) = ok (show (Value.string s))
  query_text show (Value.integer z) = ok (show (Value.integer z))
  query_text show (Value.float x) = ok (show (Value.float x))
  query_text show (Value.boolean b) = ok (show (Value.boolean b))
  query_text show _ = err "query values must be strings, numbers, or booleans"

  module _ (show : Value → String) where
    unfoldable pub parse_query : Fields → List (String × String) → Result (List (String × String))
    parse_query end query = ok query
    parse_query (entry name v fs) query =
        query_text show v >>= λ text. parse_query fs (query ++ ((name, text) ∷ []))

    abbrev pub set_headers : Value → Options → Result Options
    set_headers (Value.object fs) o =
        parse_headers fs o.headers >>= λ headers. ok (record o { headers = headers })
    set_headers _ o = err "headers must be an object"

    abbrev pub set_query : Value → Options → Result Options
    set_query (Value.object fs) o =
        parse_query fs o.query >>= λ query. ok (record o { query = query })
    set_query _ o = err "query must be an object"

    abbrev pub set_json : Value → Options → Result Options
    set_json v o = json_value v >>= λ j. ok (record o { json = some j })

    abbrev pub set_timeout : Value → Options → Result Options
    set_timeout (Value.duration ms) o =
        if leb 1 ms && leb ms 86400000
        then ok (record o { timeout = ms })
        else err "timeout must be a positive duration of at most 24 hours"
    set_timeout _ o = err "timeout must be a positive duration of at most 24 hours"

    abbrev pub set_retry : Value → Options → Result Options
    set_retry (Value.integer (pos count)) o =
        if leb count 10
        then ok (record o { retries = count })
        else err "retry must be an integer from 0 to 10"
    set_retry _ o = err "retry must be an integer from 0 to 10"

    unfoldable pub set_option : String → Value → Options → Result Options
    set_option key v o =
        if str_eq key "headers"
        then set_headers v o
        else if str_eq key "query"
        then set_query v o
        else if str_eq key "json"
        then set_json v o
        else if str_eq key "timeout"
        then set_timeout v o
        else if str_eq key "retry"
        then set_retry v o
        else err (Text.◌++◌ "unsupported request option '" (Text.◌++◌ key "'"))

    unfoldable pub set_options : Fields → Options → Result Options
    set_options end o = ok o
    set_options (entry key v fs) o = set_option key v o >>= set_options fs

    abbrev pub default_options : Options
    default_options = record { headers = []; query = []; json = none; timeout = 30000; retries = 0 }

    unfoldable pub parse : Value → Result Options
    parse (Value.object fs) = set_options fs default_options
    parse _ = err "request configuration must be an object"
