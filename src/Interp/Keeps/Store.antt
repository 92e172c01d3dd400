-- ===== src/Interp/Keeps/Store.antt =====
-- What the methods on bindings and scopes keep.
use net_lang.Prelude.{
  ℕ, ◌≤◌, refl, String, Bool, Option, none, some, [], ◌∷◌, get_elem?, set, length-set,
  length-append, get_elem?-set_ne, get_elem?-append_left, arith,
}
use net_lang.Types.{ResolvedType}
use net_lang.Runtime.Value.{Value}
use net_lang.Runtime.Host.{Message}
use net_lang.Interp.State.{
  Context, State, Environment, Binding, Outcome, ok, panicked, pure, fail, lift, allocate, binding,
  write, annotate, read, find_name, resolve_name, insert_local,
}
use net_lang.Interp.Types.{check_value_type, check_binding_type, check_value}
use net_lang.Interp.Keeps.{Kept, Ends, ended, died, Keeps, Any, Kept-refl, Keeps-pure, Keeps-bind}
use net_lang.Interp.Keeps.Small.{Keeps-fail, Keeps-panic, Keeps-lift, Keeps-reader}

module _ {H : Type 0} {n : ℕ} {c : Context} where
  pub Keeps-allocate :
      (value : Option Value) (mutable : Bool)
      → Keeps n c 0 (λ id. c.captured_bindings ≤ id) (allocate {H = H} value mutable)
  unfolding allocate
  Keeps-allocate value mutable = record {
    ends = λ s r. ended r.boundary (omega arith);
    kept = λ s r. record {
      steps = omega arith;
      stack = refl;
      span = refl;
      depth = refl;
      contract = refl;
      grows = omega (arith, length-append s.bindings (fresh ∷ []));
      captures = λ i h. get_elem?-append_left s.bindings (fresh ∷ []) i (omega (arith, r.boundary));
    };
  }
    where
      fresh : Binding
      fresh = record { annotation = none; value = value; mutable = mutable }

  pub Keeps-binding : (id : ℕ) → Keeps n c 0 Any (binding {H = H} id)
  unfolding binding
  Keeps-binding id = record {
    ends = λ s r. go s (get_elem? s.bindings id);
    kept = λ s r. stays s (get_elem? s.bindings id);
  }
    where
      look : State H → Option Binding → Outcome Binding × State H
      look s o = elim o [ some b ↦ (ok b, s) | none ↦ (panicked, s) ]

      go : (s : State H) (o : Option Binding) → Ends 0 Any s (look s o).1 (look s o).0
      go s (some b) = ended tt (omega arith)
      go s none = died

      stays : (s : State H) (o : Option Binding) → Kept c s (look s o).1
      stays s (some b) = Kept-refl s
      stays s none = Kept-refl s

  -- A change of a binding that no worker captured.
  Keeps-set :
      (id : ℕ) (b : Binding)
      → c.captured_bindings ≤ id
      → Keeps {H = H} n c 0 Any (λ c s. (ok tt, record s { bindings = set s.bindings id b }))
  Keeps-set id b own = record {
    ends = λ s r. ended tt (omega arith);
    kept = λ s r. record {
      steps = omega arith;
      stack = refl;
      span = refl;
      depth = refl;
      contract = refl;
      grows = omega (arith, length-set s.bindings id b);
      captures = λ i h. get_elem?-set_ne s.bindings id i b (omega (arith, h, own));
    };
  }

  pub Keeps-write :
      (id : ℕ) (value : Value) → c.captured_bindings ≤ id → Keeps n c 0 Any (write {H = H} id value)
  unfolding write
  Keeps-write id value own =
      Keeps-bind (Keeps-binding id) (λ b _. Keeps-set id (record b { value = some value }) own)

  pub Keeps-annotate :
      (id : ℕ) (annotation : Option ResolvedType)
      → c.captured_bindings ≤ id
      → Keeps n c 0 Any (annotate {H = H} id annotation)
  unfolding annotate
  Keeps-annotate id annotation own =
      Keeps-bind (Keeps-binding id) (λ b _. Keeps-set id (record b { annotation = annotation }) own)

  pub Keeps-read : (id : ℕ) → Keeps n c 0 Any (read {H = H} id)
  unfolding read
  Keeps-read id = Keeps-bind (Keeps-binding id) (λ b _. go b.value)
    where
      go :
          (o : Option Value)
          → Keeps {H = H} {A = Value} n c 0 Any
              (elim o [ some v ↦ pure v | none ↦ fail Message.uninitialized_binding ])
      go (some v) = Keeps-pure v tt
      go none = Keeps-fail _

  pub Keeps-resolve_name :
      (env : Environment) (name : String) → Keeps n c 0 Any (resolve_name {H = H} env name)
  unfolding resolve_name
  Keeps-resolve_name env name = go (find_name env name)
    where
      go :
          (o : Option ℕ)
          → Keeps {H = H} {A = ℕ} n c 0 Any
              (elim o [ some id ↦ pure id | none ↦ fail (Message.undefined_name name) ])
      go (some id) = Keeps-pure id tt
      go none = Keeps-fail _

  pub Keeps-insert_local :
      (name : String) (id : ℕ) (env : Environment)
      → Keeps n c 0 Any (insert_local {H = H} name id env)
  unfolding insert_local
  Keeps-insert_local name id [] = Keeps-panic
  Keeps-insert_local name id (scope ∷ outer) = Keeps-pure _ tt

  pub Keeps-check_value_type :
      (expected : Option ResolvedType) (value : Value)
      → Keeps n c 0 Any (check_value_type {H = H} expected value)
  unfolding check_value_type
  Keeps-check_value_type expected value =
      Keeps-reader (λ c. lift (check_value c.types expected value)) (Keeps-lift _)

  pub Keeps-check_binding_type :
      (id : ℕ) (value : Value) → Keeps n c 0 Any (check_binding_type {H = H} id value)
  unfolding check_binding_type
  Keeps-check_binding_type id value =
      Keeps-bind (Keeps-binding id) (λ b _. Keeps-check_value_type b.annotation value)
