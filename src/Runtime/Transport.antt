-- ===== src/Runtime/Transport.antt =====
-- The sockets of a runtime: src/runtime/transport.rs. The operating system is a parameter, whose
-- error texts stand for the errors that the code formats. The state is that of one runtime and the
-- counter NEXT_ID, which all runtimes of the process share: an operation looks at the counter once,
-- where it inserts a socket, so what the others take stands before or after it (`Calls`).
pub mod Sockets
pub mod Operations
pub mod Calls
pub mod Effects
pub mod Opening
pub mod Changes
pub mod Closed
use Prim.Native.String.{◌++◌}
use net_lang.Prelude.{
  ℕ, zero, suc, ◌+◌, ◌-◌, ◌^◌, String, Bool, true, false, Option, none, some, List, [], ◌∷◌, length,
  leb, ltb, if◌then◌else◌,
}
use net_lang.Runtime.Value.{Value}
use net_lang.Runtime.Host.{Reply}
use net_lang.Runtime.Transport.Sockets.{Socket, TransportRuntime, find, put}

-- One try of a call that may be interrupted or have nothing yet.
pub data Attempt (A : Type 0) : Type 0 where
  got : A → Attempt A
  interrupted : Attempt A
  would_block : String → Attempt A
  failed : String → Attempt A

-- Calls on sockets of type `H`; a timeout is in milliseconds.
pub record Os (W H : Type 0) : Type 0 where
  pub bind_tcp : String → W → Reply H × W
  pub bind_udp : String → W → Reply H × W
  pub set_nonblocking : H → Bool → W → Reply (Unit {0}) × W
  pub set_read_timeout : H → ℕ → W → Reply (Unit {0}) × W
  pub set_write_timeout : H → ℕ → W → Reply (Unit {0}) × W
  pub local_addr : H → W → Reply String × W
  -- Milliseconds on a clock.
  pub now : W → ℕ × W
  pub sleep : ℕ → W → W
  pub try_accept : H → W → Attempt (H × String) × W
  pub resolve : String → W → Reply (List String) × W
  pub is_ipv4 : String → Bool
  pub connect_tcp : String → ℕ → W → Reply H × W
  pub connect_udp : H → String → W → Reply (Unit {0}) × W
  pub write_all : H → List ℕ → W → Reply (Unit {0}) × W
  pub send : H → List ℕ → W → Reply ℕ × W
  pub send_to : H → List ℕ → String → W → Reply ℕ × W
  pub try_read : H → W → Attempt (List ℕ) × W
  pub recv : H → W → Reply (List ℕ) × W
  pub recv_from : H → W → Reply (List ℕ × String) × W

pub record State (W H : Type 0) : Type 0 where
  pub runtime : TransportRuntime H
  pub next_id : ℕ
  pub world : W

-- `out_of_fuel` is the model's own: the rounds of a loop have run out.
pub data Outcome (A : Type 0) : Type 0 where
  ok : A → Outcome A
  err : String → Outcome A
  out_of_fuel : Outcome A

abbrev pub T : Type 0 → Type 0 → Type 0 → Type 0
T W H A = State W H → Outcome A × State W H

abbrev pub with_prefix : {A : Type 0} → String → Reply A → Outcome A
with_prefix message (Reply.ok a) = ok a
with_prefix message (Reply.err e) = err (message ++ e)

module _ {W H : Type 0} where
  abbrev pub pure : {A : Type 0} → A → T W H A
  pure a s = (ok a, s)

  abbrev pub fail : {A : Type 0} → String → T W H A
  fail message s = (err message, s)

  abbrev pub exhausted : {A : Type 0} → T W H A
  exhausted s = (out_of_fuel, s)

  abbrev pub go_on : {A B : Type 0} → Outcome A × State W H → (A → T W H B) → Outcome B × State W H
  go_on (ok a, s) f = f a s
  go_on (err e, s) f = (err e, s)
  go_on (out_of_fuel, s) f = (out_of_fuel, s)

  infixl 5 ◌>>=◌ ◌>>◌
  abbrev pub ◌>>=◌ : {A B : Type 0} → T W H A → (A → T W H B) → T W H B
  ◌>>=◌ m f s = go_on (m s) f

  abbrev pub ◌>>◌ : {A B : Type 0} → T W H A → T W H B → T W H B
  m >> k = m >>= λ _. k

  -- A call of the system, whose error gets the text before it.
  unfoldable pub call : {A : Type 0} → String → (W → Reply A × W) → T W H A
  call message f s =
      let (reply, world) = f s.world in (with_prefix message reply, record s { world = world })

  -- A call of the system that has no error of its own.
  unfoldable pub observe : {A : Type 0} → (W → A × W) → T W H A
  observe f s = let (a, world) = f s.world in (ok a, record s { world = world })

  unfoldable pub ensure_capacity : T W H (Unit {0})
  ensure_capacity s =
      if leb 1024 (length s.runtime.sockets)
      then (err "runtime connection limit (1024) reached", s)
      else (ok tt, s)

  -- `NEXT_ID.fetch_update` with `n.checked_add(1)` on a `u64`.
  unfoldable pub insert : Socket H → T W H Value
  insert socket s =
      let id = s.next_id in
      if ltb (suc id) (2 ^ 64)
      then (
        ok (Value.connection id),
        record s {
          runtime = record { sockets = put id socket s.runtime.sockets };
          next_id = suc id;
        },
      )
      else (err "connection IDs exhausted", s)

  abbrev pub found : Option (Socket H) → T W H (Socket H)
  found (some socket) = pure socket
  found none =
      fail
        "connection is closed or belongs to another runtime; create connections inside parallel workers"

  unfoldable pub socket : Value → T W H (Socket H)
  socket (Value.connection id) s = found (find id s.runtime.sockets) s
  socket _ s = fail "socket operation requires a connection or listener handle" s
