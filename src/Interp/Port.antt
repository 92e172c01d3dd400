-- ===== src/Interp/Port.antt =====
-- The runtime that an interpreter holds: the host it was given, or a worker's buffer around a fork
-- of a host (`WorkerRuntime` of src/interpreter/parallel.rs). A fork of either is a plain host, so
-- buffers do not nest.
pub mod Buffer
use net_lang.Prelude.{
  ℕ, ◌+◌, String, List, [], ◌∷◌, ◌++◌, leb, length, if◌then◌else◌, none, some, Option,
}
use net_lang.Source.{usize_max}
use net_lang.Runtime.Host.{Platform, Runtime, Reply, ok, err}

pub data Port (H : Type 0) : Type 0 where
  direct : H → Port H
  -- The host, the output so far, its bytes, and their limit.
  worker : H → List String → ℕ → ℕ → Port H

-- `usize::checked_add`.
abbrev pub checked_add : ℕ → ℕ → Option ℕ
checked_add a b = if leb (a + b) usize_max then some (a + b) else none

module _ {H : Type 0} where
  abbrev pub host_of : Port H → H
  host_of (direct h) = h
  host_of (worker h _ _ _) = h

  abbrev pub with_host : Port H → H → Port H
  with_host (direct _) h = direct h
  with_host (worker _ output bytes limit) h = worker h output bytes limit

  abbrev pub on_host : {A : Type 0} → (H → Reply A × H) → Port H → Reply A × Port H
  on_host operation p = let (r, h) = operation (host_of p) in (r, with_host p h)

  -- A worker keeps a line, and counts its bytes and the newline.
  unfoldable pub buffer_print : String → ℕ → H → List String → ℕ → ℕ → Reply (Unit {0}) × Port H
  buffer_print text size h output bytes limit =
      let refused : Reply (Unit {0}) × Port H =
        (err "parallel output buffer limit exceeded", worker h output bytes limit) in
      let counted : Option ℕ = elim (checked_add size 1) [
        | some n ↦ checked_add bytes n
        | none ↦ none
      ] in
      elim counted [
        | some n ↦ if leb n limit then (ok tt, worker h (output ++ text ∷ []) n limit) else refused
        | none ↦ refused
      ]

  module _ (platform : Platform H) where
    unfoldable pub port_print : String → Port H → Reply (Unit {0}) × Port H
    unfolding buffer_print
    port_print text (direct h) = on_host (platform.runtime.print text) (direct h)
    port_print text (worker h output bytes limit) =
        buffer_print text (length (platform.texts.utf8 text)) h output bytes limit

    unfoldable pub port_fork : Port H → Reply H × Port H
    port_fork = on_host platform.fork

    unfoldable pub port_runtime : Runtime (Port H)
    unfolding port_print
    port_runtime = record {
      listen_tcp = λ address. on_host (platform.runtime.listen_tcp address);
      accept = λ listener. on_host (platform.runtime.accept listener);
      local_address = λ value. on_host (platform.runtime.local_address value);
      set_timeout = λ value ms. on_host (platform.runtime.set_timeout value ms);
      bind_udp = λ address. on_host (platform.runtime.bind_udp address);
      print = port_print;
      close = λ value. on_host (platform.runtime.close value);
      connect = λ transport address protocol.
          on_host (platform.runtime.connect transport address protocol);
      send = λ value payload to. on_host (platform.runtime.send value payload to);
      receive = λ value. on_host (platform.runtime.receive value);
      request = λ method url config. on_host (platform.runtime.request method url config);
    }
