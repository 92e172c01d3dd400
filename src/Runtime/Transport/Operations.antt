-- ===== src/Runtime/Transport/Operations.antt =====
-- The operations of src/runtime/transport.rs. `rounds` bounds the loops that wait for a connection
-- or try an interrupted read again.
use Prim.Native.Nat.{min}
use Prim.Native.String.{◌++◌}
use net_lang.Prelude.{
  ℕ, zero, suc, ◌-◌, String, Bool, true, false, Option, none, some, List, [], ◌∷◌, ◌==◌, ◌&&◌, not,
  leb, length, if◌then◌else◌,
}
use net_lang.Ast as Ast
use net_lang.Runtime.Value.{Value, end, entry}
use net_lang.Runtime.Transport.{
  Attempt, got, interrupted, would_block, failed, Os, State, Outcome, ok, err, out_of_fuel, T, pure,
  fail, exhausted, ◌>>=◌, ◌>>◌, call, observe, ensure_capacity, insert, socket,
}
use net_lang.Runtime.Transport.Sockets.{
  Socket, tcp, udp, unconnected_udp, listener, find, put, remove,
}

abbrev pub default_timeout : ℕ
default_timeout = 5000

module _ {W H : Type 0} (os : Os W H) where
  unfoldable pub listen_tcp : String → T W H Value
  listen_tcp address = do
    ensure_capacity
    handle_ ← call "TCP listen failed: " (os.bind_tcp address)
    call "cannot configure TCP listener: " (os.set_nonblocking handle_ true)
    insert (listener handle_ default_timeout)

  abbrev pub handle_of : Socket H → H
  handle_of (tcp h) = h
  handle_of (udp h) = h
  handle_of (unconnected_udp h) = h
  handle_of (listener h _) = h

  unfoldable pub local_address : Value → T W H String
  local_address conn = do
    x ← socket conn
    call "cannot read local address: " (os.local_addr (handle_of x))

  -- One round of the wait for a connection: how long to sleep before the next, if there is none.
  abbrev pub accepted :
      (ℕ → T W H (H × String)) → T W H (H × String) → ℕ → Attempt (H × String) → T W H (H × String)
  accepted wait again left (got pair) = pure pair
  accepted wait again left interrupted = again
  accepted wait again left (would_block e) = wait (min 5 left)
  accepted wait again left (failed e) = fail ("TCP accept failed: " ++ e)

  unfoldable pub pause : ℕ → T W H (Unit {0})
  pause milliseconds = observe (λ w. (tt, os.sleep milliseconds w))

  unfoldable pub accept_from : ℕ → H → ℕ → ℕ → T W H (H × String)
  accept_from zero h timeout started = exhausted
  accept_from (suc f) h timeout started =
      let again = accept_from f h timeout started in
      observe os.now >>= λ now.
      if leb timeout (now - started)
      then fail "TCP accept timed out"
      else (observe (os.try_accept h) >>= λ attempt. observe os.now >>= λ later.
          accepted (λ length_. pause length_ >> again) again (timeout - (later - started)) attempt)

  abbrev pub listening : Socket H → T W H (H × ℕ)
  listening (listener h timeout) = pure (h, timeout)
  listening _ = fail "accept requires a TCP listener"

  unfoldable pub accepted_object : String → Value → Value
  accepted_object address conn =
      Value.object (entry "address" (Value.string address) (entry "connection" conn end))

  unfoldable pub accept : ℕ → Value → T W H Value
  accept rounds listener_ = do
    ensure_capacity
    x ← socket listener_
    (h, timeout) ← listening x
    started ← observe os.now
    (stream, address) ← accept_from rounds h timeout started
    call "cannot configure accepted TCP connection: " (os.set_nonblocking stream false)
    call "" (os.set_read_timeout stream timeout)
    call "" (os.set_write_timeout stream timeout)
    conn ← insert (tcp stream)
    pure (accepted_object address conn)

  unfoldable pub both_timeouts : H → ℕ → T W H (Unit {0})
  both_timeouts h timeout = do
    let message : String = "cannot set socket timeout (read timeout may already be updated): "
    call message (os.set_read_timeout h timeout)
    call message (os.set_write_timeout h timeout)

  -- A listener keeps its timeout in the table.
  abbrev pub retime : ℕ → ℕ → Socket H → T W H (Unit {0})
  retime id timeout (listener h _) s = (
    ok tt,
    record s { runtime = record { sockets = put id (listener h timeout) s.runtime.sockets } },
  )
  retime id timeout (tcp h) s = both_timeouts h timeout s
  retime id timeout (udp h) s = both_timeouts h timeout s
  retime id timeout (unconnected_udp h) s = both_timeouts h timeout s

  abbrev pub number_of : Value → ℕ
  number_of (Value.connection id) = id
  number_of _ = 0

  unfoldable pub set_timeout : Value → ℕ → T W H (Unit {0})
  set_timeout conn milliseconds =
      if leb 1 milliseconds && leb milliseconds 86400000
      then (socket conn >>= λ x. retime (number_of conn) milliseconds x)
      else fail "socket timeout must be from 1ms through 24h"

  unfoldable pub bind_udp : String → T W H Value
  bind_udp address = do
    ensure_capacity
    handle_ ← call "UDP bind failed: " (os.bind_udp address)
    call "" (os.set_read_timeout handle_ default_timeout)
    call "" (os.set_write_timeout handle_ default_timeout)
    insert (unconnected_udp handle_)

  abbrev pub close_found : ℕ → Option (Socket H) → T W H (Unit {0})
  close_found id (some _) s =
      (ok tt, record s { runtime = record { sockets = remove id s.runtime.sockets } })
  close_found id none s = (err "connection is closed or belongs to another runtime", s)

  unfoldable pub close : Value → T W H (Unit {0})
  close (Value.connection id) s = close_found id (find id s.runtime.sockets) s
  close _ s = (err "close requires a connection", s)

  -- A connection to one endpoint.
  unfoldable pub connect_to : Ast.Transport → String → T W H (Socket H)
  connect_to Ast.Transport.tcp address = do
    h ← call "cannot connect: " (os.connect_tcp address default_timeout)
    call "cannot connect: " (os.set_read_timeout h default_timeout)
    call "cannot connect: " (os.set_write_timeout h default_timeout)
    pure (tcp h)
  connect_to Ast.Transport.udp address = do
    h ← call "cannot connect: " (os.bind_udp (if os.is_ipv4 address then "0.0.0.0:0" else "[::]:0"))
    call "cannot connect: " (os.connect_udp h address)
    call "cannot connect: " (os.set_read_timeout h default_timeout)
    call "cannot connect: " (os.set_write_timeout h default_timeout)
    pure (udp h)

  -- A connection is kept; after an error the next endpoint is tried.
  abbrev pub connected :
      (String → T W H Value) → Outcome (Socket H) × State W H → Outcome Value × State W H
  connected next (ok x, s) = insert x s
  connected next (err e, s) = next e s
  connected next (out_of_fuel, s) = (out_of_fuel, s)

  unfoldable pub connect_any : Ast.Transport → List String → String → T W H Value
  connect_any transport [] last_error s = fail last_error s
  connect_any transport (address ∷ rest) last_error s =
      connected (connect_any transport rest) (connect_to transport address s)

  unfoldable pub connect : Ast.Transport → String → Option String → T W H Value
  connect transport address (some _) = fail "protocol-aware connections are not implemented"
  connect transport address none = do
    ensure_capacity
    addresses ← call "cannot resolve connection address: " (os.resolve address)
    connect_any transport addresses "connection address resolved to no endpoints"

  abbrev pub is_unconnected : Socket H → Bool
  is_unconnected (unconnected_udp _) = true
  is_unconnected _ = false

  abbrev pub has_destination : Option String → Bool
  has_destination (some _) = true
  has_destination none = false

  abbrev pub bytes_of : (String → List ℕ) → Value → T W H (List ℕ)
  bytes_of utf8 (Value.string text) = pure (utf8 text)
  bytes_of utf8 (Value.bytes bytes) = pure bytes
  bytes_of utf8 _ = fail "SEND data must be a string or bytes"

  abbrev pub whole_datagram : List ℕ → ℕ → T W H Value
  whole_datagram bytes count =
      if count == length bytes
      then pure Value.null
      else fail "UDP SEND did not send the complete datagram"

  abbrev pub send_bytes : Socket H → List ℕ → Option String → T W H Value
  send_bytes (listener _ _) bytes destination = fail "SEND requires a connection, not a listener"
  send_bytes (unconnected_udp h) bytes none = fail "unconnected UDP SEND requires TO destination"
  send_bytes (unconnected_udp h) bytes (some destination) =
      call "UDP SEND TO failed: " (os.send_to h bytes destination) >>= whole_datagram bytes
  send_bytes (tcp h) bytes destination =
      call "TCP SEND failed (data may have been partially sent): " (os.write_all h bytes)
      >> pure Value.null
  send_bytes (udp h) bytes destination =
      call "UDP SEND failed: " (os.send h bytes) >>= whole_datagram bytes

  unfoldable pub send : (String → List ℕ) → Value → Value → Option String → T W H Value
  send utf8 conn payload destination = socket conn >>= λ x.
      if has_destination destination && not (is_unconnected x)
      then fail "TO requires an unconnected UDP socket"
      else (bytes_of utf8 payload >>= λ bytes. send_bytes x bytes destination)

  -- `break result`, or another round after an interruption.
  abbrev pub read_again : T W H (List ℕ) → Attempt (List ℕ) → T W H (List ℕ)
  read_again again (got bytes) = pure bytes
  read_again again interrupted = again
  read_again again (would_block e) = fail ("TCP RECEIVE failed: " ++ e)
  read_again again (failed e) = fail ("TCP RECEIVE failed: " ++ e)

  unfoldable pub read : ℕ → H → T W H (List ℕ)
  read zero h = exhausted
  read (suc f) h = observe (os.try_read h) >>= read_again (read f h)

  -- An empty TCP read is the end of the stream.
  abbrev pub chunk : List ℕ → Value
  chunk [] = Value.null
  chunk (b ∷ bytes) = Value.bytes (b ∷ bytes)

  abbrev pub datagram : List ℕ × String → Value
  datagram (bytes, address) =
      Value.object (entry "address" (Value.string address) (entry "data" (Value.bytes bytes) end))

  abbrev pub receive_from : ℕ → Socket H → T W H Value
  receive_from rounds (listener _ _) =
      fail "RECEIVE requires a connection; use accept(listener) first"
  receive_from rounds (unconnected_udp h) =
      call "UDP RECEIVE failed: " (os.recv_from h) >>= λ message. pure (datagram message)
  receive_from rounds (tcp h) = read rounds h >>= λ bytes. pure (chunk bytes)
  receive_from rounds (udp h) =
      call "UDP RECEIVE failed: " (os.recv h) >>= λ bytes. pure (Value.bytes bytes)

  unfoldable pub receive : ℕ → Value → T W H Value
  receive rounds conn = socket conn >>= receive_from rounds
