-- ===== src/Tests/Hosts.antt =====
-- An operating system and a client that refuse much, and the theorems on sockets, requests and
-- diagnostics at them.
use net_lang.Prelude.{
  ℕ, suc, ◌+◌, ◌≤◌, ◌<◌, ◌≡◌, ◌⊎◌, refl, String, true, false, Option, none, some, List, [], ◌∷◌,
  arith,
}
use net_lang.Prelude.Int.{pos}
use net_lang.Ast as Ast
use net_lang.Source.{Span}
use net_lang.Diagnostic.{marker_width, caret_column, expand_tabs}
use net_lang.Diagnostic.Marker.{char_count, marker_bounds}
use net_lang.Runtime.Value.{Value, end, entry}
use net_lang.Runtime.Host.{Reply}
use net_lang.Runtime.Transport.{Os, failed, State, err, ok}
use net_lang.Runtime.Transport.Sockets.{Socket, udp, find}
use net_lang.Runtime.Transport.Operations.{accept, connect, close, send, receive}
use net_lang.Runtime.Transport.Effects.{Admitted, table}
use net_lang.Runtime.Transport.Opening.{IsConnected, IsAccepted, accept-Admitted, connect-Admitted}
use net_lang.Runtime.Transport.Calls.{Call, run_call, run_calls}
use net_lang.Runtime.Transport.Changes.{Change, run_call-Change}
use net_lang.Runtime.Transport.Closed.{IsValid, run_calls-IsValid, close-run_calls}
use net_lang.Runtime.Http.{Options, Client, refused, Result}
use net_lang.Runtime.Http.Config.{parse, set_options, set_option}
use net_lang.Runtime.Http.Request.{attempts, final, may_retry}
use net_lang.Runtime.Http.Bounds.{after, sent_at, parse_bounds, attempts_last}

-- A system with UDP sockets and nothing to read; its state is a number of calls.
abbrev quiet : {A : Type 0} → ℕ → Reply A × ℕ
quiet n = (Reply.err "not supported", suc n)

abbrev done_ : ℕ → Reply (Unit {0}) × ℕ
done_ n = (Reply.ok tt, suc n)

abbrev small_os : Os ℕ ℕ
small_os = record {
  bind_tcp = λ _. quiet;
  bind_udp = λ _ n. (Reply.ok n, suc n);
  set_nonblocking = λ _ _. done_;
  set_read_timeout = λ _ _. done_;
  set_write_timeout = λ _ _. done_;
  local_addr = λ _. quiet;
  now = λ n. (n, suc n);
  sleep = λ pause n. pause + n;
  try_accept = λ _ n. (failed "not supported", suc n);
  resolve = λ address n. (Reply.ok (address ∷ []), suc n);
  is_ipv4 = λ _. true;
  connect_tcp = λ _ _. quiet;
  connect_udp = λ _ _. done_;
  write_all = λ _ _. done_;
  send = λ _ _. quiet;
  send_to = λ _ _ _. quiet;
  try_read = λ _ n. (failed "not supported", suc n);
  recv = λ _. quiet;
  recv_from = λ _. quiet;
}

-- One connected socket under the number 1.
abbrev one_socket : State ℕ ℕ
one_socket = record { runtime = record { sockets = (1, udp 7) ∷ [] }; next_id = 2; world = 0 }

abbrev plain_utf8 : String → List ℕ
plain_utf8 _ = []

only_one : (id : ℕ) (x : Socket ℕ) → find id one_socket.runtime.sockets ≡ some x → id < 2
unfolding find
only_one id x e = ground arith

one_socket-IsValid : IsValid (table one_socket)
one_socket-IsValid = record { limit = omega arith; given = only_one; counted = omega arith }

connect-Admitted_example :
    Admitted
      (IsConnected Ast.Transport.udp)
      (table one_socket)
      (connect small_os Ast.Transport.udp "host:1" none one_socket).0
      (table (connect small_os Ast.Transport.udp "host:1" none one_socket).1)
connect-Admitted_example = connect-Admitted small_os Ast.Transport.udp "host:1" one_socket

accept-Admitted_example :
    Admitted IsAccepted
      (table one_socket)
      (accept small_os 5 (Value.connection 1) one_socket).0
      (table (accept small_os 5 (Value.connection 1) one_socket).1)
accept-Admitted_example = accept-Admitted small_os 5 (Value.connection 1) one_socket

run_call-Change_example :
    Change
      (table one_socket)
      (Call.close (Value.connection 1))
      (run_call small_os plain_utf8 (Call.close (Value.connection 1)) one_socket).0
      (table (run_call small_os plain_utf8 (Call.close (Value.connection 1)) one_socket).1)
run_call-Change_example =
    run_call-Change small_os plain_utf8 (Call.close (Value.connection 1)) one_socket

abbrev some_calls : List Call
some_calls =
    Call.bind_udp "host:2" ∷ Call.elsewhere 5 ∷ Call.connect Ast.Transport.udp "host:1" none ∷ []

run_calls-IsValid_example : IsValid (table (run_calls small_os plain_utf8 some_calls one_socket))
run_calls-IsValid_example =
    run_calls-IsValid small_os plain_utf8 some_calls one_socket one_socket-IsValid

closes : (close small_os (Value.connection 1) one_socket).0 ≡ ok tt
unfolding close find
closes = refl

abbrev closed_text : String
closed_text =
    "connection is closed or belongs to another runtime; create connections inside parallel workers"

abbrev closed_later : State ℕ ℕ
closed_later =
    run_calls small_os plain_utf8 some_calls (close small_os (Value.connection 1) one_socket).1

close-run_calls_example :
    ((payload : Value) (to : Option String)
      → send small_os plain_utf8 (Value.connection 1) payload to closed_later
        ≡ (err closed_text, closed_later))
    × ((rounds : ℕ)
        → receive small_os rounds (Value.connection 1) closed_later
          ≡ (err closed_text, closed_later))
    × (close small_os (Value.connection 1) closed_later
        ≡ (err "connection is closed or belongs to another runtime", closed_later))
close-run_calls_example =
    close-run_calls small_os plain_utf8 1 one_socket some_calls one_socket-IsValid closes

-- A client whose every try times out; its state counts them.
abbrev slow_client : Client ℕ
slow_client = record {
  parse_url = λ _. none;
  header_name = λ name. some name;
  header_value = λ value. some value;
  is_finite = λ _. true;
  from_utf8 = λ _. none;
  build = λ n. (Reply.ok tt, n);
  send = λ _ _ _ n.
      (refused (record { is_timeout = true; is_connect = false; message = "timed out" }), suc n);
}

abbrev three_retries : Options
three_retries = record { headers = []; query = []; json = none; timeout = 30000; retries = 3 }

attempts_last_example :
    (k : ℕ) × (k ≤ 3)
    × (attempts slow_client 3 Ast.HttpMethod.get "u" three_retries 0 ≡ (
      final slow_client (sent_at slow_client Ast.HttpMethod.get "u" three_retries k 0),
      after slow_client Ast.HttpMethod.get "u" three_retries (suc k) 0,
    ))
    × ((j : ℕ)
        → j < k
        → may_retry slow_client (sent_at slow_client Ast.HttpMethod.get "u" three_retries j 0)
          ≡ true)
    × ((may_retry slow_client (sent_at slow_client Ast.HttpMethod.get "u" three_retries k 0)
          ≡ false)
        ⊎ (k ≡ 3))
attempts_last_example = attempts_last slow_client Ast.HttpMethod.get "u" three_retries 3 0

abbrev show_value : Value → String
show_value _ = "v"

-- The options of a request that may be tried three times more.
abbrev retry_config : Value
retry_config = Value.object (entry "retry" (Value.integer (pos 3)) end)

retry_taken : parse slow_client show_value retry_config ≡ Result.ok three_retries
unfolding parse set_options set_option
retry_taken = refl

parse_bounds_example :
    (1 ≤ three_retries.timeout) × (three_retries.timeout ≤ 86400000) × (three_retries.retries ≤ 10)
parse_bounds_example = parse_bounds slow_client show_value retry_config retry_taken

abbrev two_columns : Span
two_columns = record {
  start = record { line = 1; column = 2 };
  end = record { line = 1; column = 4 };
}

marker_bounds_example :
    (1 ≤ marker_width "let a" two_columns)
    × (caret_column "let a" two_columns + marker_width "let a" two_columns
        ≤ char_count (expand_tabs "let a") + 1)
marker_bounds_example = marker_bounds "let a" two_columns
