-- ===== src/Interp/Keeps/Calls.antt =====
-- What a call keeps, and that calls end: as many nest as the limit of src/interpreter/mod.rs says,
-- so the recursion on the depth that is left never reaches its end.
use net_lang.Prelude.{
  arith, refl, ap, ℕ, zero, suc, ◌<◌, ◌≡◌, ◌==◌, if◌then◌else◌, leb, leb→lt, length, get_elem?,
  String, Bool, true, false, Option, none, some, List, [], ◌∷◌,
}
use mathlib.Core.List.{tail}
use net_lang.Ast.{Stmt, Parameter}
use net_lang.Types.{ResolvedType}
use net_lang.Runtime.Value.{Value, Values, to_list}
use net_lang.Runtime.Host.{Message, Platform}
use net_lang.Interp.State.{M, Context, State, Environment, Function, Flow, annotate, fail}
use net_lang.Interp.Types.{check_value_type, resolve_annotation}
use net_lang.Interp.Call.{
  in_call, bind_parameters, finish_call, enter_function, apply_function, call_function, call_value,
  call,
}
use net_lang.Interp.Keeps.{Kept, Ready, Ends, Ends-map, Keeps, Any, Keeps-pure, Keeps-bind}
use net_lang.Interp.Keeps.Small.{
  Keeps-fail, Ends-between, Keeps-reader, Keeps-locate_error, Keeps-on_runtime,
}
use net_lang.Interp.Keeps.Store.{Keeps-allocate, Keeps-annotate, Keeps-check_value_type}
use net_lang.Interp.Keeps.Evaluation.{◌thereafter◌}
use net_lang.Interp.Keeps.Runs.{Keeps-body}

module _ {H : Type 0} {n : ℕ} {c : Context} where
  -- One call more on the stack is one level less that is left.
  Keeps-in_call :
      {A : Type 0} {m : M H A} (name : String) (contract : Option ResolvedType)
      → Keeps n c 0 Any m
      → Keeps (suc n) c 0 Any (in_call name contract m)
  unfolding in_call
  Keeps-in_call {m} name contract h = record {
    ends = λ s r. Ends-between refl refl (h.ends (inner s) (ready s r));
    kept = λ s r.
        let k = h.kept (inner s) (ready s r) in
        record {
          steps = k.steps;
          stack = ap tail k.stack;
          span = k.span;
          depth = refl;
          contract = refl;
          grows = k.grows;
          captures = k.captures;
        };
  }
    where
      inner : State H → State H
      inner s = record s {
        call_stack = name ∷ s.call_stack;
        expression_depth = 0;
        return_type = contract;
      }

      ready : (s : State H) → Ready (suc n) c s → Ready n c (inner s)
      ready s r = record { room = omega (arith, r.room); boundary = r.boundary }

  Keeps-bind_parameters :
      (ps : List Parameter) (vs : List Value) (scope : List (String × ℕ))
      → Keeps n c 0 Any (bind_parameters {H = H} ps vs scope)
  unfolding bind_parameters
  Keeps-bind_parameters (p ∷ ps) (v ∷ vs) scope =
      Keeps-reader (λ c. check_value_type (resolve_annotation c.types p.annotation) v)
        (Keeps-check_value_type _ v)
      thereafter λ _. Keeps-bind (Keeps-allocate (some v) true) λ id own.
        Keeps-reader (λ c. annotate id (resolve_annotation c.types p.annotation))
          (Keeps-annotate id _ own)
        thereafter λ _. Keeps-bind_parameters ps vs _
  Keeps-bind_parameters [] vs scope = Keeps-pure _ tt
  Keeps-bind_parameters (p ∷ ps) [] scope = Keeps-pure _ tt

  Keeps-finish_call : (f : Function) (flow : Flow) → Keeps n c 0 Any (finish_call {H = H} f flow)
  unfolding finish_call
  Keeps-finish_call f Flow.normal =
      Keeps-locate_error f.return_span (Keeps-check_value_type f.return_type Value.null)
      thereafter λ _. Keeps-pure _ tt
  Keeps-finish_call f Flow.break = Keeps-fail _
  Keeps-finish_call f Flow.continue = Keeps-fail _
  Keeps-finish_call f (Flow.return v) = Keeps-pure v tt

-- What `Keeps` says of a method at one state.
unfoldable pub Fine : {H A : Type 0} → Context → State H → M H A → Type 0
Fine c s m = Ends 0 Any s (m c s).1 (m c s).0 × Kept c s (m c s).1

-- Entering a function where the depth limit lets it.
Entering : {H : Type 0} → ℕ → Context → (Stmt → Environment → M H Flow) → Type 0
Entering {H} n c body =
    (f : Function) (arguments : List Value) (s : State H)
    → Ready n c s
    → length s.call_stack < c.limits.call_depth
    → Fine c s (enter_function body f arguments)

Fine-if :
    {H A : Type 0} (c : Context) (s : State H) (x y : M H A) (b : Bool)
    → Fine c s x
    → Fine c s y
    → Fine c s (if b then x else y)
Fine-if c s x y true hx hy = hx
Fine-if c s x y false hx hy = hy

module _ {H : Type 0} {n : ℕ} {c : Context} where
  pub Fine-Keeps :
      {A : Type 0} {Q : A → Type 0} {m : M H A}
      → Keeps n c 0 Q m
      → (s : State H) → Ready n c s
      → Fine c s m
  unfolding Fine
  Fine-Keeps h s r = (Ends-map (λ _ _. tt) (h.ends s r), h.kept s r)

  pub Keeps-Fine :
      {A : Type 0} {m : M H A} → ((s : State H) → Ready n c s → Fine c s m) → Keeps n c 0 Any m
  unfolding Fine
  Keeps-Fine h = record { ends = λ s r. (h s r).0; kept = λ s r. (h s r).1 }

module _ {H : Type 0} {n : ℕ} {c : Context} (body : Stmt → Environment → M H Flow) where
  Keeps-enter_function :
      ((s : Stmt) (env : Environment) → Keeps n c 0 Any (body s env))
      → (f : Function) (arguments : List Value)
      → Keeps (suc n) c 0 Any (enter_function body f arguments)
  unfolding enter_function
  Keeps-enter_function h f arguments =
      Keeps-bind_parameters f.parameters arguments [] thereafter λ scope.
      Keeps-in_call f.name f.return_type
        (h f.body (scope ∷ f.closure) thereafter Keeps-finish_call f)

  Entering-suc :
      ((s : Stmt) (env : Environment) → Keeps n c 0 Any (body s env)) → Entering (suc n) c body
  unfolding Entering
  Entering-suc h f arguments s r room = Fine-Keeps (Keeps-enter_function h f arguments) s r

  Keeps-call_function :
      Entering n c body
      → (id : ℕ) (arguments : List Value) → Keeps n c 0 Any (call_function body id arguments)
  unfolding call_function apply_function Entering Fine
  Keeps-call_function enter id arguments =
      Keeps-Fine λ s r.
        go s r (get_elem? s.functions id) (leb c.limits.call_depth (length s.call_stack)) refl
    where
      applied :
          (s : State H)
          → Ready n c s
          → length s.call_stack < c.limits.call_depth
          → (o : Option Function) → Fine c s (apply_function body o arguments)
      applied s r room none = Fine-Keeps {Q = Any} (Keeps-fail _) s r
      applied s r room (some f) =
          Fine-if c s _ _ (length arguments == length f.parameters) (enter f arguments s r room)
            (Fine-Keeps {Q = Any} (Keeps-fail _) s r)

      go :
          (s : State H)
          → Ready n c s
          → (o : Option Function) (b : Bool) → leb c.limits.call_depth (length s.call_stack) ≡ b
          → Fine c s (λ c s.
            if b then fail Message.call_depth_limit c s else apply_function body o arguments c s)
      go s r o true e = Fine-Keeps {Q = Any} (Keeps-fail _) s r
      go s r o false e = applied s r (leb→lt _ _ e) o

-- With no level left the limit refuses the call.
Entering-zero :
    {H : Type 0} (c : Context) (body : Stmt → Environment → M H Flow) → Entering 0 c body
unfolding Entering
Entering-zero c body f arguments s r room = absurd (omega (arith, r.room, room))

module _ {H : Type 0} (platform : Platform H) where
  Keeps-call_value :
      {n : ℕ} {c : Context} (body : Stmt → Environment → M H Flow)
      → Entering n c body
      → (f : Value) (arguments : Values) → Keeps n c 0 Any (call_value platform body f arguments)
  unfolding call_value
  Keeps-call_value body enter (Value.builtin b) arguments = Keeps-on_runtime _
  Keeps-call_value body enter Value.print arguments =
      Keeps-on_runtime _ thereafter λ _. Keeps-pure _ tt
  Keeps-call_value body enter (Value.function id) arguments =
      Keeps-call_function body enter id (to_list arguments)
  Keeps-call_value body enter value arguments = Keeps-fail _

  pub Keeps-call :
      (n : ℕ) (c : Context) (f : Value) (arguments : Values)
      → Keeps n c 0 Any (call platform n f arguments)
  unfolding call
  Keeps-call zero c = Keeps-call_value _ (Entering-zero c _)
  Keeps-call (suc n) c = Keeps-call_value _ (Entering-suc _ (Keeps-body platform (Keeps-call n) c))
