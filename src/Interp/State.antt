-- ===== src/Interp/State.antt =====
-- The interpreter's state and the monad of its methods: src/interpreter/mod.rs. What no method
-- changes stands in `Context`; the state comes back after an error too. The innermost scope and the
-- innermost call stand first in their lists.
pub mod Names
use net_lang.Prelude.{
  true, false, ℕ, zero, suc, ◌+◌, ◌-◌, String, Bool, Option, none, some, List, [], ◌∷◌, ◌++◌, leb,
  length, get_elem?, set,
}
use net_lang.Prelude.Text.{lookup, insert}
use net_lang.Source.{Span}
use net_lang.Ast.{Parameter, Stmt}
use net_lang.Types.{ResolvedType, TypeRegistry}
use net_lang.Runtime.Value.{Value}
use net_lang.Runtime.Host
use net_lang.Runtime.Host.{Message, Reply, Result, of_reply}
use net_lang.Interp.Port.{Port}

abbrev pub Environment : Type 0
Environment = List (List (String × ℕ))

pub record Limits : Type 0 where
  pub steps : ℕ
  pub call_depth : ℕ
  pub expression_depth : ℕ
  pub parallel_workers : ℕ
  pub parallel_output_bytes : ℕ

abbrev pub default_limits : Limits
default_limits = record {
  steps = 1_000_000;
  call_depth = 128;
  expression_depth = 256;
  parallel_workers = 4;
  parallel_output_bytes = 1_048_576;
}

pub record Binding : Type 0 where
  pub annotation : Option ResolvedType
  pub value : Option Value
  pub mutable : Bool

pub record Function : Type 0 where
  pub name : String
  pub parameters : List Parameter
  pub return_type : Option ResolvedType
  pub return_span : Option Span
  pub body : Stmt
  pub closure : Environment

pub data Flow : Type 0 where
  normal break continue : Flow
  return : Value → Flow

pub record RuntimeError : Type 0 where
  pub message : Message
  pub call_stack : List String
  pub span : Option Span

pub record Context : Type 0 where
  pub types : TypeRegistry
  pub limits : Limits
  pub captured_bindings : ℕ
  pub in_parallel_worker : Bool

pub record State (H : Type 0) : Type 0 where
  pub return_type : Option ResolvedType
  pub current_span : Option Span
  pub runtime : Port H
  pub bindings : List Binding
  pub functions : List Function
  pub remaining_steps : ℕ
  pub expression_depth : ℕ
  pub call_stack : List String

-- How a method ends. `panicked` is a failed index, `unwrap` or `unreachable!`, and `out_of_fuel`
-- is the model's own: it has no counterpart in the program.
pub data Outcome (A : Type 0) : Type 0 where
  ok : A → Outcome A
  err : RuntimeError → Outcome A
  panicked out_of_fuel : Outcome A

-- `span.or(previous)`.
abbrev pub or_else {ℓ} : {A : Type ℓ} → Option A → Option A → Option A
or_else (some a) b = some a
or_else none b = b

abbrev pub locate : {A : Type 0} → Option Span → Outcome A → Outcome A
locate span (err e) = err (record e { span = or_else span e.span })
locate span other = other

abbrev pub M : Type 0 → Type 0 → Type 0
M H A = Context → State H → Outcome A × State H

unfoldable pub find_name : Environment → String → Option ℕ
find_name [] name = none
find_name (scope ∷ outer) name = elim (lookup name scope) [
  | some id ↦ some id
  | none ↦ find_name outer name
]

module _ {H : Type 0} where
  abbrev pub pure : {A : Type 0} → A → M H A
  pure a c s = (ok a, s)

  -- Go on from the end of a method, if it has a result.
  abbrev pub resume :
      {A B : Type 0} → Outcome A × State H → (A → M H B) → Context → Outcome B × State H
  resume (ok a, s) f c = f a c s
  resume (err e, s) f c = (err e, s)
  resume (panicked, s) f c = (panicked, s)
  resume (out_of_fuel, s) f c = (out_of_fuel, s)

  infixl 5 ◌>>=◌ ◌>>◌
  abbrev pub ◌>>=◌ : {A B : Type 0} → M H A → (A → M H B) → M H B
  ◌>>=◌ m f c s = resume (m c s) f c

  abbrev pub ◌>>◌ : {A B : Type 0} → M H A → M H B → M H B
  m >> k = m >>= λ _. k

  abbrev pub panic : {A : Type 0} → M H A
  panic c s = (panicked, s)

  unfoldable pub error : Message → State H → RuntimeError
  error m s = record { message = m; call_stack = s.call_stack; span = s.current_span }

  unfoldable pub fail : {A : Type 0} → Message → M H A
  unfolding error
  fail m c s = (err (error m s), s)

  unfoldable pub lift : {A : Type 0} → Result A → M H A
  unfolding fail
  lift (Host.ok a) = pure a
  lift (Host.err m) = fail m
  lift Host.panicked = panic

  -- A call of the runtime that the interpreter holds.
  unfoldable pub on_runtime : {A : Type 0} → (Port H → Result A × Port H) → M H A
  unfolding lift
  on_runtime operation c s = let (r, p) = operation s.runtime in lift r c (record s { runtime = p })

  -- `error.span = span.or(error.span)`.
  unfoldable pub locate_error : {A : Type 0} → Option Span → M H A → M H A
  locate_error span m c s = let (r, s') = m c s in (locate span r, s')

  -- Run with another current location, and put the former one back.
  unfoldable pub with_span : {A : Type 0} → Option Span → M H A → M H A
  with_span span m c s =
      let (r, s') = m c (record s { current_span = or_else span s.current_span }) in
      (r, record s' { current_span = s.current_span })

  unfoldable pub tick : M H (Unit {0})
  unfolding fail
  tick c s = elim s.remaining_steps [
    | zero ↦ fail Message.step_limit c s
    | suc n ↦ (ok tt, record s { remaining_steps = n })
  ]

  -- `expression` around `expression_inner`: one step, and one more level where there is room.
  unfoldable pub deeper_if : {A : Type 0} → Bool → M H A → M H A
  unfolding fail
  deeper_if true m = fail Message.expression_depth_limit
  deeper_if false m = λ c s.
      let (r, s') = m c (record s { expression_depth = s.expression_depth + 1 }) in
      (r, record s' { expression_depth = s'.expression_depth - 1 })

  unfoldable pub deeper : {A : Type 0} → M H A → M H A
  unfolding deeper_if
  deeper m c s = deeper_if (leb c.limits.expression_depth s.expression_depth) m c s

  unfoldable pub counted : {A : Type 0} → M H A → M H A
  unfolding tick deeper
  counted m = tick >> deeper m

  -- The number of the new binding is the length before.
  unfoldable pub allocate : Option Value → Bool → M H ℕ
  allocate value mutable c s = (
    ok (length s.bindings),
    record s {
      bindings = s.bindings ++ record { annotation = none; value = value; mutable = mutable } ∷ [];
    },
  )

  unfoldable pub binding : ℕ → M H Binding
  binding id c s = elim (get_elem? s.bindings id) [ some b ↦ (ok b, s) | none ↦ (panicked, s) ]

  unfoldable pub write : ℕ → Value → M H (Unit {0})
  unfolding binding
  write id value = binding id >>= λ b c s.
      (ok tt, record s { bindings = set s.bindings id (record b { value = some value }) })

  unfoldable pub annotate : ℕ → Option ResolvedType → M H (Unit {0})
  unfolding binding
  annotate id annotation = binding id >>= λ b c s.
      (ok tt, record s { bindings = set s.bindings id (record b { annotation = annotation }) })

  unfoldable pub read : ℕ → M H Value
  unfolding binding fail
  read id = binding id >>= λ b. elim b.value [
    | some v ↦ pure v
    | none ↦ fail Message.uninitialized_binding
  ]

  unfoldable pub resolve_name : Environment → String → M H ℕ
  unfolding find_name fail
  resolve_name env name = elim (find_name env name) [
    | some id ↦ pure id
    | none ↦ fail (Message.undefined_name name)
  ]

  -- `env.last_mut().unwrap().insert(name, id)`.
  unfoldable pub insert_local : String → ℕ → Environment → M H Environment
  insert_local name id [] = panic
  insert_local name id (scope ∷ outer) = pure (insert name id scope ∷ outer)
