-- ===== src/Runtime/Transport/Opening.antt =====
-- The operations of src/runtime/transport.rs by what they do to the table of sockets: those that open
-- a socket, and those that keep the table.
use net_lang.Prelude.{
  ℕ, zero, suc, ◌-◌, ◌≡◌, refl, subst, String, if◌then◌else◌, not, ◌&&◌, Option, none, some, List,
  [], ◌∷◌, leb,
}
use net_lang.Ast as Ast
use net_lang.Runtime.Value.{Value, entry, end}
use net_lang.Runtime.Transport.{
  Attempt, got, interrupted, would_block, failed, Os, State, Outcome, ok, err, out_of_fuel, T, fail,
  ◌>>=◌, insert,
}
use net_lang.Runtime.Transport.Sockets.{Socket, tcp, udp, unconnected_udp, listener}
use net_lang.Runtime.Transport.Operations.{
  default_timeout, accepted_object, pause, listen_tcp, accepted, accept_from, listening, accept,
  both_timeouts, bind_udp, connect_to, connected, connect_any, connect, bytes_of, whole_datagram,
  send_bytes, read_again, read, receive_from, has_destination, is_unconnected,
}
use net_lang.Runtime.Transport.Effects.{
  Table, table, Post, Gives, Gives-pure, Gives-bind, Opened, refused, starved, Admitted, Keeps,
  Opens, Keeps-pure, Keeps-fail, Keeps-exhausted, Keeps-call, Keeps-observe, Keeps-if, Keeps-bind,
  Opens-bind, Opens-map, insert-Opens, socket-Keeps, below_limit,
}

-- What the operations return and insert: the handle of the number, and the kind of the socket.
abbrev pub IsOf : {H : Type 0} → Ast.Transport → Socket H → Type 0
IsOf {H} Ast.Transport.tcp x = (h : H) × (x ≡ tcp h)
IsOf {H} Ast.Transport.udp x = (h : H) × (x ≡ udp h)

abbrev pub IsConnected : {H : Type 0} → Ast.Transport → Value → ℕ → Socket H → Type 0
IsConnected transport v id x = (v ≡ Value.connection id) × IsOf transport x

abbrev pub IsListening : {H : Type 0} → Value → ℕ → Socket H → Type 0
IsListening {H} v id x = (v ≡ Value.connection id) × ((h : H) × (x ≡ listener h default_timeout))

abbrev pub IsBound : {H : Type 0} → Value → ℕ → Socket H → Type 0
IsBound {H} v id x = (v ≡ Value.connection id) × ((h : H) × (x ≡ unconnected_udp h))

abbrev pub IsAccepted : {H : Type 0} → Value → ℕ → Socket H → Type 0
IsAccepted {H} v id x =
    ((address : String) × (v
        ≡ Value.object (
            entry "address" (Value.string address) (entry "connection" (Value.connection id) end))))
    × IsOf Ast.Transport.tcp x

accepted_lem :
    {W H : Type 0} (os : Os W H) (address : String) (v : Value) (id : ℕ) (x : Socket H)
    → IsConnected Ast.Transport.tcp v id x
    → IsAccepted (accepted_object os address v) id x
unfolding accepted_object
accepted_lem os address v id x (e, q) = ((address, rw e refl), q)

module _ {W H : Type 0} (os : Os W H) where
  listening-Keeps : (x : Socket H) → Keeps (listening os x)
  listening-Keeps (listener h timeout) = Keeps-pure _
  listening-Keeps _ = Keeps-fail _

  accepted-Keeps :
      {wait : ℕ → T W H (H × String)} {again : T W H (H × String)} (left : ℕ)
      (a : Attempt (H × String))
      → ((n : ℕ) → Keeps (wait n))
      → Keeps again
      → Keeps (accepted os wait again left a)
  accepted-Keeps left (got pair) hw ha = Keeps-pure _
  accepted-Keeps left interrupted hw ha = ha
  accepted-Keeps left (would_block e) hw ha = hw _
  accepted-Keeps left (failed e) hw ha = Keeps-fail _

  pause-Keeps : (n : ℕ) → Keeps (pause os n)
  unfolding pause
  pause-Keeps n = Keeps-observe _

  accept_from-Keeps :
      (f : ℕ) (h : H) (timeout started : ℕ) → Keeps (accept_from os f h timeout started)
  unfolding accept_from
  accept_from-Keeps zero h timeout started = Keeps-exhausted
  accept_from-Keeps (suc f) h timeout started =
      let ih = accept_from-Keeps f h timeout started in
      Keeps-bind (Keeps-observe _) λ now. Keeps-if (leb timeout (now - started)) (Keeps-fail _) (
        Keeps-bind (Keeps-observe _) λ attempt. Keeps-bind (Keeps-observe _) λ later.
          accepted-Keeps (timeout - (later - started)) attempt
            (λ n. Keeps-bind (pause-Keeps n) λ _. ih) ih)

  connect_to-Keeps :
      (transport : Ast.Transport) (address : String) → Keeps (connect_to os transport address)
  unfolding connect_to
  connect_to-Keeps Ast.Transport.tcp address =
      Keeps-bind (Keeps-call _ _)
        λ h. Keeps-bind (Keeps-call _ _) λ _. Keeps-bind (Keeps-call _ _) λ _. Keeps-pure _
  connect_to-Keeps Ast.Transport.udp address = Keeps-bind (Keeps-call _ _) λ h.
      Keeps-bind (Keeps-call _ _)
        λ _. Keeps-bind (Keeps-call _ _) λ _. Keeps-bind (Keeps-call _ _) λ _. Keeps-pure _

  -- A connection has the socket of its transport.
  connect_to-Gives :
      (transport : Ast.Transport) (address : String)
      → Gives (IsOf transport) (connect_to os transport address)
  unfolding connect_to
  connect_to-Gives Ast.Transport.tcp address =
      Gives-bind (Keeps-call _ _) λ h.
        Gives-bind (Keeps-call _ _) λ _. Gives-bind (Keeps-call _ _) λ _. Gives-pure _ (h, refl)
  connect_to-Gives Ast.Transport.udp address = Gives-bind (Keeps-call _ _) λ h.
      Gives-bind (Keeps-call _ _) λ _.
        Gives-bind (Keeps-call _ _) λ _. Gives-bind (Keeps-call _ _) λ _. Gives-pure _ (h, refl)

  connected-Opened :
      (transport : Ast.Transport) {next : String → T W H Value} (t : Table H)
      (r : Outcome (Socket H) × State W H)
      → table r.1 ≡ t
      → Post (IsOf transport) r.0
      → ((e : String) → Opens (IsConnected transport) (next e))
      → Opened (IsConnected transport) t (connected os next r).0 (table (connected os next r).1)
  connected-Opened transport {next} t (ok x, u) e q h =
      subst (λ v. Opened (IsConnected transport) v (insert x u).0 (table (insert x u).1)) e
        ((insert-Opens {R = IsConnected transport} x (λ id. (refl, q))).effect u)
  connected-Opened transport {next} t (err m, u) e q h =
      subst (λ v. Opened (IsConnected transport) v (next m u).0 (table (next m u).1)) e
        ((h m).effect u)
  connected-Opened transport t (out_of_fuel, u) e q h = rw e starved

  connect_any-Opens :
      (transport : Ast.Transport) (addresses : List String) (last_error : String)
      → Opens (IsConnected transport) (connect_any os transport addresses last_error)
  unfolding connect_any
  connect_any-Opens transport [] last_error = record { effect = λ s. refused }
  connect_any-Opens transport (address ∷ rest) last_error = record {
    effect = λ s.
        connected-Opened transport (table s) (connect_to os transport address s)
          ((connect_to-Keeps transport address).same s)
          ((connect_to-Gives transport address).post s) (λ e. connect_any-Opens transport rest e);
  }

  -- A listener is opened below the limit, or nothing changes.
  pub listen_tcp-Admitted :
      (address : String) (s : State W H)
      → Admitted IsListening
          (table s)
          (listen_tcp os address s).0
          (table (listen_tcp os address s).1)
  unfolding listen_tcp
  listen_tcp-Admitted address s =
      below_limit
        (Opens-bind (Keeps-call _ _)
          λ h. Opens-bind (Keeps-call _ _) λ _. insert-Opens _ (λ id. (refl, (h, refl))))
        s

  pub bind_udp-Admitted :
      (address : String) (s : State W H)
      → Admitted IsBound (table s) (bind_udp os address s).0 (table (bind_udp os address s).1)
  unfolding bind_udp
  bind_udp-Admitted address s =
      below_limit
        (Opens-bind (Keeps-call _ _) λ h.
          Opens-bind (Keeps-call _ _)
            λ _. Opens-bind (Keeps-call _ _) λ _. insert-Opens _ (λ id. (refl, (h, refl))))
        s

  -- Accepting is refused at the limit of 1,024 sockets; below it a result goes with a TCP socket more
  -- under the next number, which the result's connection carries, and an error with an unchanged table.
  pub accept-Admitted :
      (rounds : ℕ) (v : Value) (s : State W H)
      → Admitted IsAccepted (table s) (accept os rounds v s).0 (table (accept os rounds v s).1)
  unfolding accept
  accept-Admitted rounds v s =
      below_limit
        (Opens-bind (socket-Keeps v) λ x. Opens-bind (listening-Keeps x) λ (h, timeout).
          Opens-bind (Keeps-observe _) λ started.
            Opens-bind (accept_from-Keeps rounds h timeout started) λ (stream, address).
              Opens-bind (Keeps-call _ _) λ _. Opens-bind (Keeps-call _ _) λ _.
                Opens-bind (Keeps-call _ _) λ _.
                  Opens-map (accepted_object os address) (accepted_lem os address) (
                    insert-Opens {R = IsConnected Ast.Transport.tcp} _
                      (λ id. (refl, (stream, refl)))))
        s

  -- Connecting without a protocol is refused at the limit of 1,024 sockets; below it a result goes with
  -- one socket of the transport more under the next number, which the result carries, and an error with
  -- an unchanged table.
  pub connect-Admitted :
      (transport : Ast.Transport) (address : String) (s : State W H)
      → Admitted
          (IsConnected transport)
          (table s)
          (connect os transport address none s).0
          (table (connect os transport address none s).1)
  unfolding connect
  connect-Admitted transport address s =
      below_limit (Opens-bind (Keeps-call _ _) λ addresses. connect_any-Opens _ addresses _) s

  bytes_of-Keeps : (utf8 : String → List ℕ) (v : Value) → Keeps (bytes_of os utf8 v)
  bytes_of-Keeps utf8 (Value.string text) = Keeps-pure _
  bytes_of-Keeps utf8 (Value.bytes bytes) = Keeps-pure _
  bytes_of-Keeps utf8 _ = Keeps-fail _

  whole_datagram-Keeps : (bytes : List ℕ) (count : ℕ) → Keeps (whole_datagram os bytes count)
  whole_datagram-Keeps bytes count = Keeps-if _ (Keeps-pure _) (Keeps-fail _)

  send_bytes-Keeps :
      (x : Socket H) (bytes : List ℕ) (to : Option String) → Keeps (send_bytes os x bytes to)
  send_bytes-Keeps (listener _ _) bytes to = Keeps-fail _
  send_bytes-Keeps (unconnected_udp h) bytes none = Keeps-fail _
  send_bytes-Keeps (unconnected_udp h) bytes (some a) =
      Keeps-bind (Keeps-call _ _) (whole_datagram-Keeps bytes)
  send_bytes-Keeps (tcp h) bytes to = Keeps-bind (Keeps-call _ _) λ _. Keeps-pure _
  send_bytes-Keeps (udp h) bytes to = Keeps-bind (Keeps-call _ _) (whole_datagram-Keeps bytes)

  -- What `send` does with the socket of its handle.
  pub send_to-Keeps :
      (utf8 : String → List ℕ) (w : Value) (to : Option String) (x : Socket H)
      → Keeps (
          if has_destination os to && not (is_unconnected os x)
          then fail "TO requires an unconnected UDP socket"
          else (bytes_of os utf8 w >>= λ bytes. send_bytes os x bytes to))
  send_to-Keeps utf8 w to x =
      Keeps-if (has_destination os to && not (is_unconnected os x)) (Keeps-fail _)
        (Keeps-bind (bytes_of-Keeps utf8 w) λ bytes. send_bytes-Keeps x bytes to)

  read_again-Keeps :
      {again : T W H (List ℕ)} (a : Attempt (List ℕ)) → Keeps again → Keeps (read_again os again a)
  read_again-Keeps (got bytes) h = Keeps-pure _
  read_again-Keeps interrupted h = h
  read_again-Keeps (would_block e) h = Keeps-fail _
  read_again-Keeps (failed e) h = Keeps-fail _

  read-Keeps : (f : ℕ) (h : H) → Keeps (read os f h)
  unfolding read
  read-Keeps zero h = Keeps-exhausted
  read-Keeps (suc f) h = Keeps-bind (Keeps-observe _) λ a. read_again-Keeps a (read-Keeps f h)

  pub receive_from-Keeps : (rounds : ℕ) (x : Socket H) → Keeps (receive_from os rounds x)
  receive_from-Keeps rounds (listener _ _) = Keeps-fail _
  receive_from-Keeps rounds (unconnected_udp h) = Keeps-bind (Keeps-call _ _) λ _. Keeps-pure _
  receive_from-Keeps rounds (tcp h) = Keeps-bind (read-Keeps rounds h) λ _. Keeps-pure _
  receive_from-Keeps rounds (udp h) = Keeps-bind (Keeps-call _ _) λ _. Keeps-pure _

  pub both_timeouts-Keeps : (h : H) (n : ℕ) → Keeps (both_timeouts os h n)
  unfolding both_timeouts
  both_timeouts-Keeps h n = Keeps-bind (Keeps-call _ _) λ _. Keeps-call _ _
