-- ===== src/Runtime/Transport/Calls.antt =====
-- Sequences of operations on the sockets of src/runtime/transport.rs, with the results as values.
-- Between them the other runtimes of the process, those of workers too, take numbers from NEXT_ID.
use Prim.Native.Nat.{min}
use net_lang.Prelude.{ℕ, ◌+◌, ◌-◌, ◌^◌, String, Option, List, [], ◌∷◌}
use net_lang.Ast as Ast
use net_lang.Runtime.Value.{Value}
use net_lang.Runtime.Transport.{Os, State, ok, T, ◌>>=◌, pure}
use net_lang.Runtime.Transport.Operations

-- The operations with their arguments, and how many numbers other runtimes take.
pub data Call : Type 0 where
  listen_tcp bind_udp : String → Call
  accept : ℕ → Value → Call
  connect : Ast.Transport → String → Option String → Call
  set_timeout : Value → ℕ → Call
  close local_address : Value → Call
  send : Value → Value → Option String → Call
  receive : ℕ → Value → Call
  elsewhere : ℕ → Call

-- The counter stops at the largest `u64`.
abbrev pub counter_after : ℕ → ℕ → ℕ
counter_after n next_id = min (next_id + n) (2 ^ 64 - 1)

module _ {W H : Type 0} (os : Os W H) (utf8 : String → List ℕ) where
  unfoldable pub run_call : Call → T W H Value
  run_call (Call.listen_tcp address) = Operations.listen_tcp os address
  run_call (Call.bind_udp address) = Operations.bind_udp os address
  run_call (Call.accept rounds v) = Operations.accept os rounds v
  run_call (Call.connect transport address protocol) =
      Operations.connect os transport address protocol
  run_call (Call.set_timeout v n) = Operations.set_timeout os v n >>= λ _. pure Value.null
  run_call (Call.close v) = Operations.close os v >>= λ _. pure Value.null
  run_call (Call.local_address v) =
      Operations.local_address os v >>= λ address. pure (Value.string address)
  run_call (Call.send v w to) = Operations.send os utf8 v w to
  run_call (Call.receive rounds v) = Operations.receive os rounds v
  run_call (Call.elsewhere n) =
      λ s. (ok Value.null, record s { next_id = counter_after n s.next_id })

  unfoldable pub run_calls : List Call → State W H → State W H
  run_calls [] s = s
  run_calls (c ∷ cs) s = run_calls cs (run_call c s).1
