-- ===== src/Runtime/Http/Request.antt =====
-- The request and its retries: `HttpRuntime::request` of src/runtime/http.rs.
use Prim.Native.String as Text
use net_lang.Prelude.{
  ℕ, zero, suc, ◌*◌, String, Bool, true, false, ◌&&◌, ◌||◌, Option, none, some, List, [], ◌∷◌, ◌++◌,
  ◌==◌, ltb, length, if◌then◌else◌,
}
use net_lang.Prelude.Int.{pos}
use net_lang.Prelude.Text.{str_eq}
use net_lang.Ast.{HttpMethod}
use net_lang.Runtime.Host.{Reply}
use net_lang.Runtime.Value.{
  Value, nil, cons, Fields, end, entry, to_list, from_list, get_field, insert_field,
}
use net_lang.Runtime.Http.{
  Options, Response, Sent, responded, refused, Client, Result, ok, err, ◌>>=◌,
}
use net_lang.Runtime.Http.Config.{parse}

abbrev pub max_body_bytes : ℕ
max_body_bytes = 8 * 1024 * 1024

-- The value of a header that comes again is an array of all.
abbrev pub repeated : Option Value → String → Value
repeated none text = Value.string text
repeated (some (Value.array vs)) text =
    Value.array (from_list (to_list vs ++ (Value.string text ∷ [])))
repeated (some v) text = Value.array (cons v (cons (Value.string text) nil))

unfoldable pub response_headers : List (String × Option String) → Fields → Result Fields
response_headers [] fields = ok fields
response_headers ((name, none) ∷ rest) fields = err "response header is not text"
response_headers ((name, some text) ∷ rest) fields =
    response_headers rest (insert_field name (repeated (get_field name fields) text) fields)

module _ {W : Type 0} (client : Client W) where
  abbrev pub body_text : Option String → Result String
  body_text (some text) = ok text
  body_text none = err "HTTP response body is not UTF-8 text"

  abbrev pub response_body : Reply (List ℕ) → Result String
  response_body (Reply.err e) = err (Text.◌++◌ "cannot read HTTP response body: " e)
  response_body (Reply.ok bytes) =
      if ltb max_body_bytes (length bytes)
      then err "HTTP response body exceeds 8 MiB limit"
      else body_text (client.from_utf8 bytes)

  unfoldable pub response_value : Response → Result Value
  response_value r = response_headers r.headers end >>= λ headers. response_body r.body >>= λ body.
      ok (
        Value.object (
          entry "body" (Value.string body) (
            entry "headers" (Value.object headers)
              (entry "status" (Value.integer (pos r.status)) end))))

  -- The statuses after which a request is tried again.
  abbrev pub is_transient : ℕ → Bool
  is_transient status = status == 429 || status == 502 || status == 503 || status == 504

  -- Whether a try that came back may be made again.
  abbrev pub may_retry : Sent → Bool
  may_retry (responded r) = is_transient r.status
  may_retry (refused e) = e.is_timeout || e.is_connect

  abbrev pub final : Sent → Result Value
  final (responded r) = response_value r
  final (refused e) = err (Text.◌++◌ "HTTP request failed: " e.message)

  -- The tries of a request; the number is that of the retries left.
  unfoldable pub attempts : ℕ → HttpMethod → String → Options → W → Result Value × W
  attempts zero method url o w = let (sent, w') = client.send method url o w in (final sent, w')
  attempts (suc left) method url o w =
      let (sent, w') = client.send method url o w in
      let again = attempts left method url o w' in
      if may_retry sent then again else (final sent, w')

  abbrev pub checked_url :
      Option (record { url : String; scheme : String; has_host : Bool }) → Result String
  checked_url none = err "request URL must be an absolute HTTP(S) URL"
  checked_url (some u) =
      if (str_eq u.scheme "http" || str_eq u.scheme "https") && u.has_host
      then ok u.url
      else err "request URL must be an absolute HTTP(S) URL"

  -- The client is made at the first request, and kept.
  abbrev pub with_client : HttpMethod → Options → Result String → Bool → W → Result Value × Bool × W
  with_client method o (err e) built w = (err e, built, w)
  with_client method o (ok url) true w =
      let (r, w') = attempts o.retries method url o w in (r, true, w')
  with_client method o (ok url) false w = elim (client.build w).0 [
    | Reply.err e ↦
        (err (Text.◌++◌ "cannot initialize HTTP runtime: " e), false, (client.build w).1)
    | Reply.ok _ ↦ let (r, w') = attempts o.retries method url o (client.build w).1 in (r, true, w')
  ]

  abbrev pub with_options :
      HttpMethod → String → Result Options → Bool → W → Result Value × Bool × W
  with_options method url (err e) built w = (err e, built, w)
  with_options method url (ok o) built w =
      with_client method o (checked_url (client.parse_url url)) built w

  -- `built` is whether the runtime has its client.
  unfoldable pub request :
      (Value → String) → HttpMethod → String → Value → Bool → W → Result Value × Bool × W
  request show method url config built w =
      with_options method url (parse client show config) built w
