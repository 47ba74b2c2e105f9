-- ===== src/Server/Steps.antt =====
-- transport/tcp/server.go: what a server does in one go, between the calls that wait.
use mathlib.Core.List.{Perm}
use distributed_event_bus.Prelude.{
  ℕ, Bool, ◌-◌, ◌^◌, ◌<◌, ◌≡◌, true, List, Text, some, length, set, get_elem?, contains, nat_key,
}
use distributed_event_bus.Protocol.Frame.{Frame}
use distributed_event_bus.Broker.State.{Broker, Config, new}
use distributed_event_bus.Broker.Subscription.{receive}
use distributed_event_bus.Broker.Publish.{Choices, Wakeup, close}
use distributed_event_bus.Broker.Invariant.Defs.{IsRange}
use distributed_event_bus.Server.State.{Connection, Server, new_server, accept, remove_connection}
use distributed_event_bus.Server.Requests.{handle_frame, await_ack, forget_ack, take_ack}
use distributed_event_bus.Server.Lifecycle.{abort, graceful_close, close_server, begin_graceful}

-- The connection `i` and the broker have changed.
abbrev pub update : ℕ → Connection × Broker → Server → Server
update i (c, b) s = record s { broker = b; connections = set s.connections i c }

-- A `range` visits every entry once.
abbrev pub IsOrder : (List ℕ → List ℕ) → Type 0
IsOrder visit = (xs : List ℕ) → Perm (visit xs) xs

-- The connection `i` is `c`, and its `serve` has not returned.
pub record Serves (s : Server) (i : ℕ) (c : Connection) : Type 0 where
  pub found : get_elem? s.connections i ≡ some c
  pub listed : contains i s.conns ≡ true

-- One step, with the state that it leaves: a client connects, a frame of a client is handled, also one that
-- was read before its connection was closed, a client goes, a delivery goes on, or the server or its
-- broker is closed. Fewer than 2 ^ 64 - 1 subscriptions are ever made.
pub data Step (s : Server) : Server → Type 0 where
  accepts : Step s (accept s)
  reads :
      (network_text : ℕ → Text) (choices : Choices) (frame : Frame) (i : ℕ) (c : Connection)
      → IsRange choices
      → length s.broker.heap < 2 ^ 64 - 1
      → Serves s i c
      → Step s (update i (handle_frame network_text choices s.draining frame c s.broker).0 s)
  awaits :
      (id : Text) (i : ℕ) (c : Connection)
      → get_elem? s.connections i ≡ some c
      → Step s (update i (await_ack id c, s.broker) s)
  forgets :
      (id : Text) (i : ℕ) (c : Connection)
      → get_elem? s.connections i ≡ some c
      → Step s (update i (forget_ack id c, s.broker) s)
  takes :
      (channel i : ℕ) (c : Connection)
      → get_elem? s.connections i ≡ some c
      → Step s (update i ((take_ack channel c).0, s.broker) s)
  receives : (r : ℕ) → Step s (record s { broker = (receive r s.broker).0 })
  hangs_up :
      (visit : List ℕ → List ℕ) (i : ℕ) (c : Connection)
      → IsOrder visit
      → Serves s i c
      → Step s (remove_connection i (update i (abort visit s.draining c s.broker) s))
  closes :
      (visit visit_conns : List ℕ → List ℕ)
      → IsOrder visit
      → IsOrder visit_conns
      → Step s (close_server visit visit_conns s)
  begins_graceful : (visit_conns : List ℕ → List ℕ) → Step s (begin_graceful visit_conns s)
  closes_gracefully :
      (visit : List ℕ → List ℕ) (world : ℕ → List Wakeup) (finishes : Bool) (redirect : Text)
      (i : ℕ) (c : Connection)
      → IsOrder visit
      → s.draining ≡ true
      → get_elem? s.connections i ≡ some c
      → Step s (update i (graceful_close visit world finishes redirect c s.broker).0 s)
  closes_broker :
      (choices : Choices) → IsRange choices → Step s (record s { broker = close choices s.broker })

-- The states that a server gets to.
pub data Reach (config : Config) : Server → Type 0 where
  starts : Reach config (new_server (new config))
  goes_on : {s s' : Server} → Reach config s → Step s s' → Reach config s'
