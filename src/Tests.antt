-- ===== src/Tests.antt =====
-- A concrete platform, programs and states for the tests, and a witness of each theorem that has
-- hypotheses. The floats of the platform are no doubles: the programs here use none.
pub mod Witnesses
pub mod Streams
pub mod Hosts
use Prim.Native.Nat.{Ordering}
use net_lang.Prelude.{ℕ, String, Bool, true, false, Option, none, some, List, [], ◌∷◌, ◌++◌}
use net_lang.Prelude.Int.{ℤ, pos}
use net_lang.Ast.{
  F64, Expr, Exprs, Stmt, Stmts, no_stmts, stmt_cons, no_exprs, expr_cons, no_stmt, Program,
  Transport, HttpMethod, BinaryOp,
}
use net_lang.Types.{TypeRegistry}
use net_lang.Runtime.Value.{Value, Values, Fields}
use net_lang.Runtime.Host.{FloatUnit, TextUnit, Runtime, Platform, Reply, ok, err}
use net_lang.Interp.State.{State, Context, Environment, Limits}
use net_lang.Interp.Access.{Selector}
use net_lang.Interp.Program.{start_state, start_context}

-- A host that keeps what is printed and refuses all else.
abbrev pub Log : Type 0
Log = List String

abbrev refuse : {A : Type 0} → Log → Reply A × Log
refuse h = (err "not supported", h)

abbrev pub log_runtime : Runtime Log
log_runtime = record {
  listen_tcp = λ _. refuse;
  accept = λ _. refuse;
  local_address = λ _. refuse;
  set_timeout = λ _ _. refuse;
  bind_udp = λ _. refuse;
  print = λ text h. (ok tt, h ++ text ∷ []);
  close = λ _. refuse;
  connect = λ _ _ _. refuse;
  send = λ _ _ _. refuse;
  receive = λ _. refuse;
  request = λ _ _ _. refuse;
}

abbrev pub plain_texts : TextUnit
plain_texts = record {
  show_integer = λ _. "n";
  show_float = λ _. "x";
  show_natural = λ _. "n";
  debug_string = λ text. text;
  debug_bytes = λ _. "bytes";
  utf8 = λ _. [];
  from_utf8 = λ _. record { text = none; valid_up_to = 0 };
}

abbrev pub no_floats : FloatUnit
no_floats = record {
  add = λ a _. a;
  sub = λ a _. a;
  mul = λ a _. a;
  div = λ a _. a;
  rem = λ a _. a;
  neg = λ a. a;
  fract = λ a. a;
  eq = λ _ _. false;
  partial_cmp = λ _ _. none;
  is_nan = λ _. true;
  is_finite = λ _. false;
  of_integer = λ _. F64.bits 0;
  to_i64 = λ _. pos 0;
  to_i128 = λ _. pos 0;
}

abbrev pub log_platform : Platform Log
log_platform = record {
  floats = no_floats;
  texts = plain_texts;
  runtime = log_runtime;
  fork = λ h. (ok h, h);
}

abbrev pub small_limits : Limits
small_limits = record {
  steps = 40;
  call_depth = 2;
  expression_depth = 8;
  parallel_workers = 2;
  parallel_output_bytes = 64;
}

-- `let n = 1; while n < 3 { n = n + 1; print("n"); }`
abbrev pub counting : Stmts
counting = stmt_cons (Stmt.let_ "n" none (Expr.integer (pos 1))) (
    stmt_cons
      (Stmt.while (Expr.binary (Expr.identifier "n") BinaryOp.less (Expr.integer (pos 3))) (
        Stmt.block (
          stmt_cons
            (Stmt.expression (
              Expr.assignment (Expr.identifier "n")
                (Expr.binary (Expr.identifier "n") BinaryOp.add (Expr.integer (pos 1)))))
            (stmt_cons
              (Stmt.expression
                (Expr.call (Expr.identifier "print") (expr_cons (Expr.string "n") no_exprs)))
              no_stmts))))
      no_stmts)

abbrev pub counting_program : Program
counting_program = record { statements = counting }

-- `function main() { main(); }`
abbrev pub endless_program : Program
endless_program = record {
  statements =
      stmt_cons
        (Stmt.function "main" [] none (
          Stmt.block
            (stmt_cons (Stmt.expression (Expr.call (Expr.identifier "main") no_exprs)) no_stmts)))
        no_stmts;
}

abbrev pub counting_context : Context
counting_context = start_context 0 counting_program small_limits

abbrev pub counting_start : State Log
counting_start = start_state small_limits []

abbrev pub counting_scopes : Environment
counting_scopes = [] ∷ (("print", 0) ∷ []) ∷ []

-- `{ rows: [null, x] }` and its path `.rows[1]`.
abbrev pub nested_value : Value → Value
nested_value x = Value.object (
    Fields.entry "rows" (Value.array (Values.cons Value.null (Values.cons x Values.nil)))
      Fields.end)

abbrev pub nested_path : List Selector
nested_path = Selector.property "rows" ∷ Selector.index (Value.integer (pos 1)) ∷ []

-- `type Node { next: Link }` and `type Link { node: Node }`.
abbrev pub linked_types : TypeRegistry
linked_types = record {
  identity = 0;
  definitions =
      ("Node", record { name = "next"; annotation = record { name = "Link"; span = none } } ∷ [])
      ∷ ("Link", record { name = "node"; annotation = record { name = "Node"; span = none } } ∷ [])
      ∷ [];
}

-- `type Node { }`
abbrev pub node_program : Program
node_program = record { statements = stmt_cons (Stmt.type "Node" []) no_stmts }
