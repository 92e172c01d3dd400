-- ===== src/Tests/Witnesses.antt =====
-- Each theorem at a concrete input where its hypotheses hold.
use Prim.Native.Nat.{ℕ, min}
use net_lang.Prelude.{Bool, ◌≡◌, ◌≢◌, refl, arith, true, some, [], ◌∷◌, if◌then◌else◌}
use net_lang.Prelude.Text.{str_eq}
use net_lang.Prelude.Int.{ℤ, pos, negsuc, IsI64, ◌+ℤ◌, ◌-ℤ◌, ◌*ℤ◌, checked, i64_checked_mul}
use net_lang.Source.{usize_max, from_text}
use net_lang.Source.Advance.{from_text-line}
use net_lang.Ast.{BinaryOp}
use net_lang.Types.{ResolvedType, resolve, type_name, search_cycle}
use net_lang.Types.{new_registry, collect_definitions, position}
use net_lang.Runtime.Value.{cons, nil}
use net_lang.Types.Registry.{resolve-new_registry}
use net_lang.Runtime.Builtin.{to_bytes}
use net_lang.Runtime.Builtin.Bytes.{AllBytes, of_bytes, to_bytes-AllBytes}
use net_lang.Interp.State.{find_name, insert_local}
use net_lang.Interp.State.Names.{find_name-insert_local}
use net_lang.Ast.{from_name, unspanned_stmt}
use net_lang.Tests.{node_program}
use net_lang.Types.{
  Search, has_required_cycle, push_required, is_seen, fields_of, edges_of, required, edges_below,
}
use net_lang.Types.Cycle.Inside.{has_required_cycle-answers}
use net_lang.Types.Cycle.Sound.{Requires, has_required_cycle-Requires}
use net_lang.Types.Names.{type_name-resolve}
use net_lang.Runtime.Value.{Value}
use net_lang.Runtime.Host.{ok}
use net_lang.Semantic.Scope.{Symbol, declare_symbol, resolve_symbol}
use net_lang.Semantic.Scope.Lookup.{resolve_symbol-declare_symbol}
use net_lang.Interp.Port.{worker, port_print}
use net_lang.Interp.Port.Buffer.{IsCounted, port_print-IsCounted}
use net_lang.Interp.Access.{set}
use net_lang.Interp.Access.RoundTrip.{get_path, get_path-set}
use net_lang.Interp.Operations.{integer_binary}
use net_lang.Interp.Operations.Integers.{exact, integer_binary-IsI64, integer_binary-exact}
use net_lang.Interp.Block.{statements}
use net_lang.Interp.Call.{call}
use net_lang.Interp.Program.{execute_with_limits, Execution, start_state, start_context}
use net_lang.Interp.Keeps.{Kept}
use net_lang.Interp.Keeps.Programs.{execute_with_limits-ends, statements-Kept}
use net_lang.Tests.{
  log_platform, small_limits, counting, counting_context, counting_start, counting_scopes,
  endless_program, nested_value, nested_path, linked_types,
}

execute_with_limits-ends_example :
    (execute_with_limits log_platform 0 endless_program small_limits []).0 ≢ Execution.out_of_fuel
execute_with_limits-ends_example =
    execute_with_limits-ends log_platform 0 endless_program small_limits []

statements-Kept_example :
    Kept counting_context counting_start
      (statements log_platform
        (call log_platform 2)
        counting
        counting_scopes
        counting_context
        counting_start).1
unfolding start_context start_state
statements-Kept_example =
    statements-Kept log_platform counting_context 2 counting counting_scopes counting_start
      (omega arith) (omega arith)

-- `value.rows[1] = null`
get_path-set_example : get_path nested_path (nested_value Value.null) ≡ ok Value.null
unfolding set
get_path-set_example =
    get_path-set linked_types nested_path Value.null (nested_value (Value.boolean true))
      (nested_value Value.null) refl

integer_binary-IsI64_example : (z : ℤ) × ((Value.integer (negsuc 5) ≡ Value.integer z) × IsI64 z)
unfolding integer_binary i64_checked_mul checked ◌*ℤ◌
integer_binary-IsI64_example =
    integer_binary-IsI64 (pos 2) (negsuc 2) BinaryOp.multiply (Value.integer (negsuc 5))
      (omega arith, omega arith) refl

integer_binary-exact_example :
    (integer_binary (pos 9_223_372_036_854_775_807) BinaryOp.add (pos 1)
      ≡ exact (pos 9_223_372_036_854_775_807 +ℤ pos 1))
    × ((integer_binary (pos 9_223_372_036_854_775_807) BinaryOp.subtract (pos 1)
          ≡ exact (pos 9_223_372_036_854_775_807 -ℤ pos 1))
        × (integer_binary (pos 9_223_372_036_854_775_807) BinaryOp.multiply (pos 1)
            ≡ exact (pos 9_223_372_036_854_775_807 *ℤ pos 1)))
integer_binary-exact_example = integer_binary-exact (pos 9_223_372_036_854_775_807) (pos 1)

port_print-IsCounted_example :
    IsCounted log_platform.texts (port_print log_platform "two" (worker [] ("one" ∷ []) 1 2)).1
port_print-IsCounted_example =
    port_print-IsCounted log_platform "two" (worker [] ("one" ∷ []) 1 2) (refl, omega arith)

resolve_symbol-declare_symbol_example :
    resolve_symbol "a" ((("a", Symbol.builtin) ∷ ("b", Symbol.loop_variable) ∷ []) ∷ []) ≡ (
      if str_eq "b" "a"
      then some Symbol.loop_variable
      else resolve_symbol "a" ((("a", Symbol.builtin) ∷ []) ∷ []))
unfolding declare_symbol
resolve_symbol-declare_symbol_example =
    resolve_symbol-declare_symbol "b" "a" Symbol.loop_variable ((("a", Symbol.builtin) ∷ []) ∷ [])
      ((("a", Symbol.builtin) ∷ ("b", Symbol.loop_variable) ∷ []) ∷ []) refl

type_name-resolve_example : type_name linked_types (ResolvedType.named 0) ≡ some "Node"
unfolding resolve
type_name-resolve_example = type_name-resolve linked_types "Node" (ResolvedType.named 0) refl

from_text-line_example :
    (from_text (record { line = 1; column = 1 }) (65 ∷ 10 ∷ [])).end.line ≡ min 2 usize_max
from_text-line_example =
    from_text-line (record { line = 1; column = 1 }) (65 ∷ 10 ∷ []) (omega arith)

resolve-new_registry_example :
    resolve (new_registry 0 node_program) "Node" ≡ some (ResolvedType.named 0)
unfolding new_registry collect_definitions position unspanned_stmt from_name
resolve-new_registry_example = resolve-new_registry 0 node_program 0 "Node" [] refl refl

to_bytes-AllBytes_example :
    AllBytes (7 ∷ 255 ∷ [])
    × (of_bytes (7 ∷ 255 ∷ []) ≡ cons (Value.integer (pos 7)) (cons (Value.integer (pos 255)) nil))
unfolding to_bytes
to_bytes-AllBytes_example =
    to_bytes-AllBytes (cons (Value.integer (pos 7)) (cons (Value.integer (pos 255)) nil))
      (7 ∷ 255 ∷ []) refl

find_name-insert_local_example :
    find_name ((("print", 3) ∷ []) ∷ (("print", 0) ∷ []) ∷ []) "print"
    ≡ (if str_eq "print" "print" then some 3 else find_name counting_scopes "print")
unfolding insert_local
find_name-insert_local_example =
    find_name-insert_local "print" "print" 3 counting_scopes
      ((("print", 3) ∷ []) ∷ (("print", 0) ∷ []) ∷ []) counting_context counting_start refl

has_required_cycle-answers_example :
    (found : Bool) × (has_required_cycle linked_types "Node" ≡ Search.answer found)
has_required_cycle-answers_example = has_required_cycle-answers linked_types "Node"

has_required_cycle-Requires_example :
    (start : ℕ) × ((resolve linked_types "Node" ≡ some (ResolvedType.named start))
      × Requires linked_types start start)
unfolding has_required_cycle search_cycle push_required is_seen fields_of edges_of required resolve
    position from_name edges_below
has_required_cycle-Requires_example = has_required_cycle-Requires linked_types "Node" refl
