-- ===== src/Interp/Keeps/Steps.antt =====
-- What the single steps of an expression's evaluation keep: src/interpreter/expression.rs.
use net_lang.Prelude.{
  ℕ, ◌≤◌, ◌≡◌, refl, String, Bool, true, false, Option, none, some, List, [], ◌∷◌, ltb, get_elem?,
  arith, if◌then◌else◌,
}
use net_lang.Prelude.Int.{pos, negsuc}
use net_lang.Source.{Span}
use net_lang.Ast.{BinaryOp, Transport, HttpMethod, TypeField}
use net_lang.Types.{ResolvedType, primitive, named, resolve, fields_of, find_field}
use net_lang.Runtime.Value.{Value, Fields}
use net_lang.Runtime.Host.{Message, Platform}
use net_lang.Interp.State.{M, Context, pure, panic, fail, lift}
use net_lang.Interp.Operations.{bool_eq}
use net_lang.Interp.Operations.Binary.{binary}
use net_lang.Interp.Access.{Selector, get, set}
use net_lang.Interp.Expression.{
  boolean, short_circuit, check_field, named_type, byte_at, get_index, as_destination, check_target,
  assign, open_at, configure, connect, request, apply_binary,
}
use net_lang.Interp.Keeps.{ended, Keeps, Any, Kept-refl, Keeps-pure, Keeps-bind}
use net_lang.Interp.Keeps.Small.{
  Keeps-fail, Keeps-panic, Keeps-lift, Keeps-reader, Keeps-on_runtime, Keeps-locate_error, Keeps-if,
}
use net_lang.Interp.Keeps.Store.{
  Keeps-binding, Keeps-write, Keeps-read, Keeps-check_value_type, Keeps-check_binding_type,
}

module _ {H : Type 0} {n : ℕ} {c : Context} where
  pub Keeps-boolean : (v : Value) → Keeps n c 0 Any (boolean {H = H} v)
  unfolding boolean
  Keeps-boolean (Value.boolean b) = Keeps-pure b tt
  Keeps-boolean _ = Keeps-fail _

  pub Keeps-short_circuit :
      (stop : Bool) (v : Value) {right : M H Value}
      → Keeps n c 0 Any right
      → Keeps n c 0 Any (short_circuit stop v right)
  unfolding short_circuit
  Keeps-short_circuit stop v h = Keeps-bind (Keeps-boolean v) λ l _.
      Keeps-if (bool_eq stop l) (Keeps-pure _ tt)
        (Keeps-bind h λ r _. Keeps-bind (Keeps-boolean r) λ b _. Keeps-pure _ tt)

  pub Keeps-check_field :
      (definition : List TypeField) (key : String) (at : Option Span) (v : Value)
      → Keeps n c 0 Any (check_field {H = H} definition key at v)
  unfolding check_field
  Keeps-check_field definition key at v =
      let h =
        Keeps-locate_error at (
          Keeps-check_value_type {H = H} {n = n} {c = c} (expected (find_field key definition))
            v) in
      record { ends = h.ends; kept = h.kept }
    where
      expected : Option TypeField → Option ResolvedType
      expected o = elim o [ some f ↦ resolve c.types f.annotation.name | none ↦ none ]

  pub Keeps-named_type : (name : String) → Keeps n c 0 Any (named_type {H = H} name)
  unfolding named_type
  Keeps-named_type name =
      let h = go (resolve c.types name) in record { ends = h.ends; kept = h.kept }
    where
      found : ℕ → Option (List TypeField) → M H (ℕ × List TypeField)
      found id o c s = elim o [ some definition ↦ pure (id, definition) c s | none ↦ panic c s ]

      found_Keeps : (id : ℕ) (o : Option (List TypeField)) → Keeps n c 0 Any (found id o)
      found_Keeps id (some d) =
          let h = Keeps-pure {H = H} (id, d) tt in record { ends = h.ends; kept = h.kept }
      found_Keeps id none =
          let h = Keeps-panic {H = H} {A = ℕ × List TypeField} {Q = Any} in
          record { ends = h.ends; kept = h.kept }

      look : Option ResolvedType → M H (ℕ × List TypeField)
      look o c s = elim o [
        | some (named id) ↦ found id (fields_of c.types id) c s
        | _ ↦ fail (Message.unknown_named_type name) c s
      ]

      go : (o : Option ResolvedType) → Keeps n c 0 Any (look o)
      go (some (named id)) =
          let h = found_Keeps id (fields_of c.types id) in record { ends = h.ends; kept = h.kept }
      go (some (primitive p)) =
          let h =
            Keeps-fail {H = H} {A = ℕ × List TypeField} {k = 0} {Q = Any}
              (Message.unknown_named_type name) in
          record { ends = h.ends; kept = h.kept }
      go none =
          let h =
            Keeps-fail {H = H} {A = ℕ × List TypeField} {k = 0} {Q = Any}
              (Message.unknown_named_type name) in
          record { ends = h.ends; kept = h.kept }

  pub Keeps-byte_at : (bytes : List ℕ) (i : Value) → Keeps n c 0 Any (byte_at {H = H} bytes i)
  unfolding byte_at
  Keeps-byte_at bytes (Value.integer (pos i)) = go (get_elem? bytes i)
    where
      go :
          (o : Option ℕ)
          → Keeps {H = H} {A = Value} n c 0 Any (elim o [
            | some b ↦ pure (Value.integer (pos b))
            | none ↦ fail Message.byte_index_bounds
          ])
      go (some b) = Keeps-pure _ tt
      go none = Keeps-fail _
  Keeps-byte_at bytes (Value.integer (negsuc _)) = Keeps-fail _
  Keeps-byte_at bytes _ = Keeps-fail _

  pub Keeps-get_index : (v i : Value) → Keeps n c 0 Any (get_index {H = H} v i)
  unfolding get_index
  Keeps-get_index (Value.bytes bytes) i = Keeps-byte_at bytes i
  Keeps-get_index v i = Keeps-lift (get v (Selector.index i))

  pub Keeps-as_destination : (v : Value) → Keeps n c 0 Any (as_destination {H = H} v)
  unfolding as_destination
  Keeps-as_destination (Value.string text) = Keeps-pure _ tt
  Keeps-as_destination _ = Keeps-fail _

  -- Only a binding that no worker captured passes the checks of an assignment.
  pub Keeps-check_target :
      (id : ℕ) → Keeps n c 0 (λ _. c.captured_bindings ≤ id) (check_target {H = H} id)
  unfolding check_target
  Keeps-check_target id =
      Keeps-bind (Keeps-binding id) λ b _. go b.mutable (ltb id c.captured_bindings) refl
    where
      tested : Bool → Bool → M H (Unit {0})
      tested mutable captured c s =
          if mutable
          then (if captured then fail Message.read_only_capture c s else pure tt c s)
          else fail Message.immutable_function_binding c s

      go :
          (mutable captured : Bool)
          → ltb id c.captured_bindings ≡ captured
          → Keeps n c 0
              (λ _. c.captured_bindings ≤ id)
              (λ c s.
                if mutable
                then (if ltb id c.captured_bindings
                    then fail {H = H} Message.read_only_capture c s
                    else pure tt c s)
                else fail Message.immutable_function_binding c s)
      go false captured e =
          let h =
            Keeps-fail {H = H} {k = 0} {Q = λ _. c.captured_bindings ≤ id}
              Message.immutable_function_binding in
          record { ends = h.ends; kept = h.kept }
      go true true e =
          let h =
            Keeps-fail {H = H} {k = 0} {Q = λ _. c.captured_bindings ≤ id}
              Message.read_only_capture in
          record { ends = λ s r. rw e (h.ends s r); kept = λ s r. rw e (h.kept s r) }
      go true false e = record {
        ends = λ s r. rw e (ended (ground arith) (omega arith));
        kept = λ s r. rw e (Kept-refl s);
      }

  pub Keeps-assign :
      (id : ℕ) (selectors : List Selector) (v : Value)
      → c.captured_bindings ≤ id
      → Keeps n c 0 Any (assign {H = H} id selectors v)
  unfolding assign
  Keeps-assign id [] v own =
      Keeps-bind (Keeps-check_binding_type id v)
        λ _ _. Keeps-bind (Keeps-write id v own) λ _ _. Keeps-pure v tt
  Keeps-assign id (selector ∷ rest) v own = Keeps-bind (Keeps-read id) λ root _.
      Keeps-bind (Keeps-reader (λ c. lift (set c.types (selector ∷ rest) v root)) (Keeps-lift _))
        λ root' _.
          Keeps-bind (Keeps-check_binding_type id root')
            λ _ _. Keeps-bind (Keeps-write id root' own) λ _ _. Keeps-pure v tt

  Keeps-open_at :
      (platform : Platform H) (transport : Transport) (only : Bool) (v : Option Value)
      → Keeps n c 0 Any (open_at platform transport only v)
  unfolding open_at
  Keeps-open_at platform Transport.udp true (some (Value.string address)) = Keeps-on_runtime _
  Keeps-open_at platform Transport.tcp true (some (Value.string address)) = Keeps-on_runtime _
  Keeps-open_at platform Transport.udp true (some _) = Keeps-fail _
  Keeps-open_at platform Transport.tcp true (some _) = Keeps-fail _
  Keeps-open_at platform Transport.udp _ _ = Keeps-fail _
  Keeps-open_at platform Transport.tcp _ _ = Keeps-fail _

  Keeps-configure :
      (platform : Platform H) (transport : Transport) (protocol : Option String) (fields : Fields)
      → Keeps n c 0 Any (configure platform transport protocol fields)
  unfolding configure
  Keeps-configure platform transport (some _) fields = Keeps-fail _
  Keeps-configure platform transport none fields = Keeps-open_at platform transport _ _

  pub Keeps-connect :
      (platform : Platform H) (transport : Transport) (protocol : Option String) (v : Value)
      → Keeps n c 0 Any (connect platform transport protocol v)
  unfolding connect
  Keeps-connect platform transport protocol (Value.object fields) =
      Keeps-configure platform transport protocol fields
  Keeps-connect platform transport protocol (Value.string address) = Keeps-on_runtime _
  Keeps-connect platform transport protocol _ = Keeps-fail _

  pub Keeps-request :
      (platform : Platform H) (method : HttpMethod) (v : Value) {config : M H Value}
      → Keeps n c 0 Any config
      → Keeps n c 0 Any (request platform method v config)
  unfolding request
  Keeps-request platform method (Value.string url) h = Keeps-bind h λ v _. Keeps-on_runtime _
  Keeps-request platform method _ h = Keeps-fail _

  pub Keeps-apply_binary :
      (platform : Platform H) (l : Value) (operator : BinaryOp) {right : M H Value}
      → Keeps n c 0 Any right
      → Keeps n c 0 Any (apply_binary platform l operator right)
  unfolding apply_binary
  Keeps-apply_binary platform l BinaryOp.and h = Keeps-short_circuit false l h
  Keeps-apply_binary platform l BinaryOp.or h = Keeps-short_circuit true l h
  Keeps-apply_binary platform l operator h =
      Keeps-bind h λ r _. Keeps-lift (binary platform.floats platform.texts l operator r)
