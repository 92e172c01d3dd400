-- ===== src/Runtime/Transport/Closed.antt =====
-- The table of sockets of src/runtime/transport.rs over any sequence of operations.
use net_lang.Prelude.{
  ℕ, ◌^◌, ◌≤◌, ◌<◌, ◌≡◌, String, Option, none, some, List, [], ◌∷◌, length, arith, Option-cases,
  inl, inr,
}
use net_lang.Runtime.Value.{Value}
use net_lang.Runtime.Transport.{Os, State, Outcome, ok, err, socket}
use net_lang.Runtime.Transport.Sockets.{
  Socket, listener, find, find-put, find-remove, length-put, length-remove, length-put_found,
}
use net_lang.Runtime.Transport.Operations.{close, send, receive}
use net_lang.Runtime.Transport.Calls.{Call, run_call, run_calls}
use net_lang.Runtime.Transport.Effects.{Table, table}
use net_lang.Runtime.Transport.Changes.{
  Change, failed, unfinished, more, closed, retimed, used, taken, run_call-Change,
}

-- The table: no more sockets than the limit, and each under a number that has been given out.
pub record IsValid {H : Type 0} (t : Table H) : Type 0 where
  pub limit : length t.sockets ≤ 1024
  pub given : (id : ℕ) (x : Socket H) → find id t.sockets ≡ some x → id < t.next_id
  pub counted : t.next_id < 2 ^ 64

-- A number that was given out and has no socket.
abbrev IsClosed : {H : Type 0} → ℕ → Table H → Type 0
IsClosed id t = (id < t.next_id) × (find id t.sockets ≡ none)

module _ {H : Type 0} where
  Change-IsValid :
      {t u : Table H} {c : Call} {o : Outcome Value} → IsValid t → Change t c o u → IsValid u
  Change-IsValid v failed = v
  Change-IsValid v unfinished = v
  Change-IsValid v (used id x g e k) = v
  Change-IsValid {t} v (taken n) = record {
    limit = v.limit;
    given = λ id x e. let old = v.given id x e in let low = v.counted in ground arith;
    counted = ground arith;
  }
  Change-IsValid {t} v (more x l c r) = record {
    limit = omega (arith, length-put t.next_id x t.sockets);
    given = λ id y e.
        let law = find-put t.next_id id x t.sockets in
        let old = v.given id y in ground (arith, law, old);
    counted = c;
  }
  Change-IsValid {t} v (closed k y f) = record {
    limit = omega (arith, v.limit, length-remove k t.sockets);
    given = λ id y e.
        let law = find-remove k id t.sockets in let old = v.given id y in ground (arith, law, old);
    counted = v.counted;
  }
  Change-IsValid {t} v (retimed k n h m f low high) =
      let x = listener h n in
      let y = listener h m in
      record {
        limit = omega (arith, v.limit, length-put_found k x y t.sockets f);
        given = λ id z e.
            let law = find-put k id x t.sockets in
            let old = v.given id z in let here = v.given k y f in ground (arith, law, old);
        counted = v.counted;
      }

  Change-IsClosed :
      {t u : Table H} {c : Call} {o : Outcome Value} (id : ℕ)
      → IsValid t
      → IsClosed id t
      → Change t c o u
      → IsClosed id u
  Change-IsClosed id v h failed = h
  Change-IsClosed id v h unfinished = h
  Change-IsClosed id v h (used _ _ _ _ _) = h
  Change-IsClosed id v (l, e) (taken n) = let low = v.counted in (ground arith, e)
  Change-IsClosed {t} id v (l, e) (more x _ _ _) =
      let law = find-put t.next_id id x t.sockets in (omega arith, ground (arith, law))
  Change-IsClosed {t} id v (l, e) (closed k y f) =
      let law = find-remove k id t.sockets in (l, ground (arith, law))
  Change-IsClosed {t} id v (l, e) (retimed k n h m f _ _) =
      let law = find-put k id (listener h n) t.sockets in (l, ground (arith, law))

module _ {W H : Type 0} (os : Os W H) (utf8 : String → List ℕ) where
  -- Any sequence of operations, with numbers that other runtimes take between them, keeps a valid
  -- table valid: at most 1,024 sockets, each under a number below the counter, and the counter in 64
  -- bits.
  pub run_calls-IsValid :
      (calls : List Call) (s : State W H)
      → IsValid (table s)
      → IsValid (table (run_calls os utf8 calls s))
  unfolding run_calls
  run_calls-IsValid [] s v = v
  run_calls-IsValid (c ∷ cs) s v =
      run_calls-IsValid cs (run_call os utf8 c s).1 (Change-IsValid v (run_call-Change os utf8 c s))

  run_calls-IsClosed :
      (id : ℕ) (calls : List Call) (s : State W H)
      → IsValid (table s)
      → IsClosed id (table s)
      → IsClosed id (table (run_calls os utf8 calls s))
  unfolding run_calls
  run_calls-IsClosed id [] s v h = h
  run_calls-IsClosed id (c ∷ cs) s v h =
      run_calls-IsClosed id cs (run_call os utf8 c s).1
        (Change-IsValid v (run_call-Change os utf8 c s))
        (Change-IsClosed id v h (run_call-Change os utf8 c s))

  close-IsClosed :
      (id : ℕ) (s : State W H)
      → IsValid (table s)
      → (close os (Value.connection id) s).0 ≡ ok tt
      → IsValid (table (close os (Value.connection id) s).1)
        × IsClosed id (table (close os (Value.connection id) s).1)
  unfolding close
  close-IsClosed id s v h = elim (Option-cases (find id s.runtime.sockets)) [
    | inl e ↦ absurd (let g = rw e at h in cc)
    | inr (x, e) ↦ rw e (
      Change-IsValid v (closed id x e),
      (v.given id x e, let law = find-remove id id s.runtime.sockets in ground (arith, law)),
    )
  ]

  -- A closed handle stays closed: where the table is valid, after a `close` that returned and any later
  -- operations, with numbers that other runtimes take between them, `send`, `receive` and `close` on
  -- the handle fail at once and leave the whole state as it is.
  pub close-run_calls :
      (id : ℕ) (s : State W H) (calls : List Call)
      → IsValid (table s)
      → (close os (Value.connection id) s).0 ≡ ok tt
      → let later = run_calls os utf8 calls (close os (Value.connection id) s).1 in
        let closed : String =
          "connection is closed or belongs to another runtime; create connections inside parallel workers" in
        ((payload : Value) (to : Option String)
          → send os utf8 (Value.connection id) payload to later ≡ (err closed, later))
        × ((rounds : ℕ) → receive os rounds (Value.connection id) later ≡ (err closed, later))
        × (close os (Value.connection id) later
            ≡ (err "connection is closed or belongs to another runtime", later))
  unfolding send receive close socket
  close-run_calls id s calls v h =
      let (valid, gone) = close-IsClosed id s v h in
      let (l, e) = run_calls-IsClosed id calls (close os (Value.connection id) s).1 valid gone in
      (λ payload to. rw (e, socket), λ rounds. rw (e, socket), rw e)
