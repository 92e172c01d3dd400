-- ===== src/Runtime/Builtin.antt =====
-- Standard helpers: src/runtime/builtin.rs.
pub mod Bytes
use net_lang.Prelude.{ℕ, String, Bool, ◌&&◌, List, [], ◌∷◌, ◌==◌, leb, length, if◌then◌else◌, ltb}
use net_lang.Prelude.Int.{pos, checked}
use net_lang.Runtime.Value.{
  Value, Values, Builtin, nil, cons, value_type_name, encode_utf8, decode_utf8, byte_len, close,
  set_timeout, accept, local_address,
}
use net_lang.Runtime.Host.{
  Message, Reply, TextUnit, Runtime, Result, ok, err, panicked, of_reply, of_option, ◌>>=◌,
}

unfoldable pub all_builtins : List Builtin
all_builtins =
    Builtin.bytes ∷ encode_utf8 ∷ decode_utf8 ∷ byte_len ∷ close ∷ set_timeout ∷ accept
    ∷ local_address ∷ []

unfoldable pub builtin_name : Builtin → String
builtin_name Builtin.bytes = "bytes"
builtin_name encode_utf8 = "encode_utf8"
builtin_name decode_utf8 = "decode_utf8"
builtin_name byte_len = "byte_len"
builtin_name close = "close"
builtin_name set_timeout = "set_timeout"
builtin_name accept = "accept"
builtin_name local_address = "local_address"

unfoldable pub builtin_arity : Builtin → ℕ
builtin_arity set_timeout = 2
builtin_arity _ = 1

-- `u8::try_from` on each element of an array.
unfoldable pub to_bytes : Values → Result (List ℕ)
to_bytes nil = ok []
to_bytes (cons (Value.integer (pos n)) rest) =
    if ltb n 256 then (to_bytes rest >>= λ bs. ok (n ∷ bs)) else err Message.bytes_range
to_bytes (cons _ rest) = err Message.bytes_range

abbrev pub max_timeout : ℕ
max_timeout = 86_400_000

abbrev pub in_timeout_range : ℕ → Bool
in_timeout_range ms = leb 1 ms && leb ms max_timeout

abbrev map_reply : {A H : Type 0} → (A → Value) → Reply A × H → Result Value × H
map_reply f (r, h) = (of_reply r >>= λ a. ok (f a), h)

module _ {H : Type 0} (tx : TextUnit) (rt : Runtime H) where
  -- The second argument of `set_timeout`.
  unfoldable pub call_set_timeout : Value → List Value → H → Result Value × H
  call_set_timeout argument (Value.duration ms ∷ _) h =
      if in_timeout_range ms
      then map_reply (λ _. Value.null) (rt.set_timeout argument ms h)
      else (err Message.timeout_duration, h)
  call_set_timeout argument (_ ∷ _) h = (err Message.timeout_duration, h)
  call_set_timeout argument [] h = (panicked, h)

  -- The arms of the final `match`.
  unfoldable pub call_unary : Builtin → Value → H → Result Value × H
  unfolding to_bytes builtin_name value_type_name checked
  call_unary accept listener h = map_reply (λ v. v) (rt.accept listener h)
  call_unary local_address value h = map_reply Value.string (rt.local_address value h)
  call_unary close value h = map_reply (λ _. Value.null) (rt.close value h)
  call_unary Builtin.bytes (Value.array values) h =
      (to_bytes values >>= λ bs. ok (Value.bytes bs), h)
  call_unary encode_utf8 (Value.string text) h = (ok (Value.bytes (tx.utf8 text)), h)
  call_unary decode_utf8 (Value.bytes bs) h =
      let decoded = tx.from_utf8 bs in
      (
        of_option decoded.text (Message.invalid_utf8 decoded.valid_up_to) >>= λ t.
            ok (Value.string t),
        h,
      )
  call_unary byte_len (Value.bytes bs) h = (
    of_option (checked (pos (length bs))) Message.byte_length_range >>= λ n. ok (Value.integer n),
    h,
  )
  call_unary function value h =
      (err (Message.unsupported_argument (builtin_name function) (value_type_name value)), h)

  unfoldable pub call_builtin : Builtin → List Value → H → Result Value × H
  unfolding call_unary call_set_timeout builtin_arity builtin_name
  call_builtin b [] h = (err (Message.argument_count (builtin_name b) (builtin_arity b) 0), h)
  call_builtin b (argument ∷ rest) h =
      let arguments = length (argument ∷ rest) in
      let unary = call_unary b argument h in
      let timeout = call_set_timeout argument rest h in
      if arguments == builtin_arity b
      then elim b [ Builtin.set_timeout ↦ timeout | _ ↦ unary ]
      else (err (Message.argument_count (builtin_name b) (builtin_arity b) arguments), h)
