-- ===== src/Runtime/Transport/Changes.antt =====
-- What each operation of src/runtime/transport.rs does to the table of sockets and the counter, by its
-- result.
use net_lang.Prelude.{
  ℕ, suc, ◌^◌, ◌≤◌, ◌<◌, ◌≡◌, refl, sym, subst, true, String, ◌&&◌, none, some, List, length, leb,
  arith, Bool-cases, Option-cases, inl, inr,
}
use net_lang.Runtime.Value.{Value}
use net_lang.Runtime.Transport.{
  Os, State, Outcome, ok, err, out_of_fuel, T, ◌>>=◌, pure, call, socket,
}
use net_lang.Runtime.Transport.Sockets.{
  Socket, tcp, udp, unconnected_udp, listener, find, put, remove,
}
use net_lang.Runtime.Transport.Operations.{
  handle_of, local_address, both_timeouts, retime, set_timeout, close, connect, send, receive,
}
use net_lang.Runtime.Transport.Calls.{Call, counter_after, run_call}
use net_lang.Runtime.Transport.Effects.{
  Table, table, Opened, opened, refused, starved, Admitted, admitted, full, opened_table, Keeps,
  Keeps-pure, Keeps-call, Keeps-bind,
}
use net_lang.Runtime.Transport.Opening.{
  IsListening, IsBound, IsAccepted, IsConnected, listen_tcp-Admitted, bind_udp-Admitted,
  accept-Admitted, connect-Admitted, send_to-Keeps, receive_from-Keeps, both_timeouts-Keeps,
}

-- The handle that an operation on an open socket is about.
abbrev pub handle_of_call : Call → Value
handle_of_call (Call.accept _ v) = v
handle_of_call (Call.set_timeout v _) = v
handle_of_call (Call.close v) = v
handle_of_call (Call.local_address v) = v
handle_of_call (Call.send v _ _) = v
handle_of_call (Call.receive _ v) = v
handle_of_call _ = Value.null

-- What an operation that opens a socket returns and inserts; the others open none.
abbrev pub OpensBy : {H : Type 0} → Call → Value → ℕ → Socket H → Type 0
OpensBy (Call.listen_tcp _) = IsListening
OpensBy (Call.bind_udp _) = IsBound
OpensBy (Call.accept _ _) = IsAccepted
OpensBy (Call.connect transport _ none) = IsConnected transport
OpensBy _ = λ v id x. ⊥

-- An operation that returns a value and keeps the table.
abbrev pub KeepsTable : {H : Type 0} → Call → Socket H → Type 0
KeepsTable (Call.set_timeout _ n) (listener _ _) = ⊥
KeepsTable (Call.set_timeout _ n) _ = (1 ≤ n) × (n ≤ 86400000)
KeepsTable (Call.local_address _) _ = Unit
KeepsTable (Call.send _ _ _) _ = Unit
KeepsTable (Call.receive _ _) _ = Unit
KeepsTable _ _ = ⊥

-- The abstract steps of a table, by the operation and its result. Without a value nothing changes.
pub data Change {H : Type 0} (t : Table H) : Call → Outcome Value → Table H → Type 0 where
  failed : {c : Call} {e : String} → Change t c (err e) t
  unfinished : {c : Call} → Change t c out_of_fuel t
  -- One socket more, below the limit and under the next number.
  more :
      {c : Call} {v : Value} (x : Socket H)
      → length t.sockets < 1024
      → suc t.next_id < 2 ^ 64
      → OpensBy c v t.next_id x
      → Change t c (ok v) (opened_table x t)
  -- The socket of the closed handle less.
  closed :
      (id : ℕ) (x : Socket H)
      → find id t.sockets ≡ some x
      → Change t
          (Call.close (Value.connection id))
          (ok Value.null)
          (record { sockets = remove id t.sockets; next_id = t.next_id })
  -- Another timeout for the listener of the handle.
  retimed :
      (id n : ℕ) (h : H) (m : ℕ)
      → find id t.sockets ≡ some (listener h m)
      → 1 ≤ n
      → n ≤ 86400000
      → Change t
          (Call.set_timeout (Value.connection id) n)
          (ok Value.null)
          (record { sockets = put id (listener h n) t.sockets; next_id = t.next_id })
  -- The socket of the handle is used.
  used :
      {c : Call} {v : Value} (id : ℕ) (x : Socket H)
      → handle_of_call c ≡ Value.connection id
      → find id t.sockets ≡ some x
      → KeepsTable c x
      → Change t c (ok v) t
  -- Other runtimes take numbers.
  taken :
      (n : ℕ)
      → Change t
          (Call.elsewhere n)
          (ok Value.null)
          (record { sockets = t.sockets; next_id = counter_after n t.next_id })

module _ {H : Type 0} {c : Call} where
  Opened-Change :
      {t u : Table H} {o : Outcome Value}
      → length t.sockets < 1024
      → Opened (OpensBy c) t o u
      → Change t c o u
  Opened-Change l (opened x r h) = more x l h r
  Opened-Change l refused = failed
  Opened-Change l starved = unfinished

  Admitted-Change :
      {t u : Table H} {o : Outcome Value} → Admitted (OpensBy c) t o u → Change t c o u
  Admitted-Change (admitted l h) = Opened-Change l h
  Admitted-Change (full h) = failed

module _ {W H : Type 0} where
  used_by :
      {c : Call} {t : Table H} (id : ℕ) (x : Socket H) (r : Outcome Value × State W H)
      → handle_of_call c ≡ Value.connection id
      → find id t.sockets ≡ some x
      → KeepsTable c x
      → table r.1 ≡ t
      → Change t c r.0 (table r.1)
  used_by {c} {t} id x (ok v, u) g e k h = subst (Change t c (ok v)) (sym h) (used id x g e k)
  used_by {c} {t} id x (err m, u) g e k h = subst (Change t c (err m)) (sym h) failed
  used_by {c} {t} id x (out_of_fuel, u) g e k h = subst (Change t c out_of_fuel) (sym h) unfinished

  -- An operation that uses the socket of its handle, if there is one.
  socket-Change :
      {c : Call} {f : Socket H → T W H Value} (v : Value) (s : State W H)
      → handle_of_call c ≡ v
      → ((x : Socket H) → KeepsTable c x)
      → ((x : Socket H) → Keeps (f x))
      → Change (table s) c ((socket v >>= f) s).0 (table ((socket v >>= f) s).1)
  unfolding socket
  socket-Change {f} (Value.connection id) s g k h =
      elim (Option-cases (find id s.runtime.sockets)) [
        | inl e ↦ rw e failed
        | inr (x, e) ↦ rw e (used_by id x (f x s) g e (k x) ((h x).same s))
      ]
  socket-Change _ s g k h = failed

module _ {W H : Type 0} (os : Os W H) (utf8 : String → List ℕ) where
  local_address-Change :
      (v : Value) (s : State W H)
      → let c : Call = Call.local_address v in
        Change (table s) c (run_call os utf8 c s).0 (table (run_call os utf8 c s).1)
  unfolding run_call local_address socket
  local_address-Change (Value.connection id) s = elim (Option-cases (find id s.runtime.sockets)) [
    | inl e ↦ rw e failed
    | inr (x, e) ↦
        let m : T W H Value =
          call "cannot read local address: " (os.local_addr (handle_of os x)) >>= λ a.
          pure (Value.string a) in
        rw e (
          used_by id x (m s) refl e tt
            ((Keeps-bind (Keeps-call _ _) (λ a. Keeps-pure (Value.string a))).same s))
  ]
  local_address-Change _ s = failed

  close-Change :
      (v : Value) (s : State W H)
      → let c : Call = Call.close v in
        Change (table s) c (run_call os utf8 c s).0 (table (run_call os utf8 c s).1)
  unfolding run_call close
  close-Change (Value.connection id) s = elim (Option-cases (find id s.runtime.sockets)) [
    | inl e ↦ rw e failed
    | inr (x, e) ↦ rw e (closed id x e)
  ]
  close-Change _ s = failed

  timeouts-Change :
      (id n : ℕ) (h : H) (x : Socket H) (s : State W H)
      → find id s.runtime.sockets ≡ some x
      → KeepsTable (Call.set_timeout (Value.connection id) n) x
      → let r = (both_timeouts os h n >>= λ _. pure Value.null) s in
        Change (table s) (Call.set_timeout (Value.connection id) n) r.0 (table r.1)
  timeouts-Change id n h x s e k =
      used_by id x ((both_timeouts os h n >>= λ _. pure Value.null) s) refl e k
        ((Keeps-bind (both_timeouts-Keeps os h n) (λ _. Keeps-pure Value.null)).same s)

  retime-Change :
      (id n : ℕ) (x : Socket H) (s : State W H)
      → find id s.runtime.sockets ≡ some x
      → 1 ≤ n
      → n ≤ 86400000
      → let r = (retime os id n x >>= λ _. pure Value.null) s in
        Change (table s) (Call.set_timeout (Value.connection id) n) r.0 (table r.1)
  retime-Change id n (listener h m) s e l g = retimed id n h m e l g
  retime-Change id n (tcp h) s e l g = timeouts-Change id n h (tcp h) s e (l, g)
  retime-Change id n (udp h) s e l g = timeouts-Change id n h (udp h) s e (l, g)
  retime-Change id n (unconnected_udp h) s e l g =
      timeouts-Change id n h (unconnected_udp h) s e (l, g)

  within : (n : ℕ) → (leb 1 n && leb n 86400000) ≡ true → (1 ≤ n) × (n ≤ 86400000)
  within n h = ground arith

  set_timeout-Change :
      (v : Value) (n : ℕ) (s : State W H)
      → let c : Call = Call.set_timeout v n in
        Change (table s) c (run_call os utf8 c s).0 (table (run_call os utf8 c s).1)
  unfolding run_call set_timeout socket
  set_timeout-Change (Value.connection id) n s = elim (Bool-cases (leb 1 n && leb n 86400000)) [
    | inr m ↦ rw m failed
    | inl y ↦ elim (Option-cases (find id s.runtime.sockets)) [
      | inl e ↦ rw (y, e) failed
      | inr (x, e) ↦ let (l, g) = within n y in rw (y, e) (retime-Change id n x s e l g)
    ]
  ]
  set_timeout-Change _ n s = elim (Bool-cases (leb 1 n && leb n 86400000)) [
    | inr m ↦ rw m failed
    | inl y ↦ rw y failed
  ]

  -- Each operation is the step of the abstract table that belongs to it and its result. A result of
  -- an opening operation goes with one socket of its kind more, below the limit and under the next
  -- number, whose handle it returns; `close` takes the socket of its handle away; `set_timeout`
  -- from 1 millisecond to 24 hours writes the timeout of a listener; the others need a socket under
  -- their handle and keep the table, as every operation does that returns an error. Numbers that
  -- other runtimes take only move the counter.
  pub run_call-Change :
      (c : Call) (s : State W H)
      → Change (table s) c (run_call os utf8 c s).0 (table (run_call os utf8 c s).1)
  unfolding run_call connect send receive
  run_call-Change (Call.listen_tcp address) s = Admitted-Change (listen_tcp-Admitted os address s)
  run_call-Change (Call.bind_udp address) s = Admitted-Change (bind_udp-Admitted os address s)
  run_call-Change (Call.accept rounds v) s = Admitted-Change (accept-Admitted os rounds v s)
  run_call-Change (Call.connect transport address none) s =
      Admitted-Change (connect-Admitted os transport address s)
  run_call-Change (Call.connect transport address (some _)) s = failed
  run_call-Change (Call.set_timeout v n) s = set_timeout-Change v n s
  run_call-Change (Call.close v) s = close-Change v s
  run_call-Change (Call.local_address v) s = local_address-Change v s
  run_call-Change (Call.send v w to) s =
      socket-Change v s refl (λ _. tt) (send_to-Keeps os utf8 w to)
  run_call-Change (Call.receive rounds v) s =
      socket-Change v s refl (λ _. tt) (receive_from-Keeps os rounds)
  run_call-Change (Call.elsewhere n) s = taken n
