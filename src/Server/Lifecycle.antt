-- ===== src/Server/Lifecycle.antt =====
-- transport/tcp/server.go: how connections and the server end, with `close`, `closeTransport`, `abort` and
-- `gracefulClose` of a connection, `Close` and `GracefulShutdown` of the server.
use distributed_event_bus.Prelude.{
  ℕ, Bool, true, ◌||◌, List, [], ◌∷◌, Text, none, some, ok, err, get_elem?, set, if◌then◌else◌, Map,
}
use distributed_event_bus.Protocol.Frame.{Frame, type_shutdown}
use distributed_event_bus.Broker.State.{Broker, begin_shutdown}
use distributed_event_bus.Broker.Subscription.{close_subscription}
use distributed_event_bus.Broker.Publish.{
  Wakeup, DrainResult, drained, drain_failed, still_draining, drain,
}
use distributed_event_bus.Messages.Codec.{encode_shutdown}
use distributed_event_bus.Server.State.{Connection, Server}

-- The values of `subs`, in the order of the map.
abbrev pub subscriptions : Map Text ℕ → List ℕ
subscriptions [] = []
subscriptions ((topic, sub) ∷ subs) = sub ∷ subscriptions subs

-- `Close` of one subscription after another.
unfoldable pub close_subscriptions : List ℕ → Broker → Broker
close_subscriptions [] b = b
close_subscriptions (sub ∷ subs) b = close_subscriptions subs (close_subscription sub b)

-- `close`. The first argument is the order of the `range` over `subs`.
unfoldable pub close_connection : (List ℕ → List ℕ) → Connection → Broker → Connection × Broker
unfolding close_subscriptions
close_connection visit c b = if c.closed then (c, b) else (
  record c { closed = true; subs = []; net_closed = true },
  close_subscriptions (visit (subscriptions c.subs)) b,
)

-- `closeTransport`
unfoldable pub close_transport : Connection → Connection
close_transport c = record c { closed = true; net_closed = true }

-- `abort`, with `draining` of the server.
unfoldable pub abort : (List ℕ → List ℕ) → Bool → Connection → Broker → Connection × Broker
unfolding close_connection
abort visit server_draining c b =
    if c.draining || server_draining then (c, b) else close_connection visit c b

-- `Drain` of one subscription after another, each with what happens while it waits: whether all were
-- drained, an error ended the loop, or it still waits at one.
unfoldable pub drain_all : (ℕ → List Wakeup) → List ℕ → Broker → Broker × DrainResult
drain_all world [] b = (b, drained)
drain_all world (sub ∷ subs) b =
    let (b', result) = drain sub (world sub) b in
    let rest = drain_all world subs b' in
    elim result [
      | drained ↦ rest
      | drain_failed e ↦ (b', drain_failed e)
      | still_draining ↦ (b', still_draining)
    ]

-- How `gracefulClose` ends: it has given frames to `send`, or it still waits.
pub data Ending : Type 0 where
  ends : List Frame → Ending
  still_waits : Ending

-- The SHUTDOWN frame, if the redirect can be encoded.
unfoldable pub shutdown_notice : Text → List Frame
shutdown_notice redirect = elim (encode_shutdown (record { redirect = redirect })) [
  | err _ ↦ []
  | ok payload ↦ record { kind = type_shutdown; payload = payload } ∷ []
]

-- `gracefulClose`. `finishes` says whether `deliveryWG.Wait()` and the `send` behind it return, which both
-- wait for a client that does not read, and which no context ends.
unfoldable pub graceful_close :
    (List ℕ → List ℕ)
    → (ℕ → List Wakeup)
    → Bool
    → Text
    → Connection
    → Broker
    → (Connection × Broker) × Ending
unfolding drain_all close_connection close_transport shutdown_notice
graceful_close visit world finishes redirect c b =
    let c' = record c { draining = true } in
    let (b', result) = drain_all world (visit (subscriptions c.subs)) b in
    if c.closed then ((c, b), ends []) else elim result [
      | drained ↦
          if finishes
          then ((close_transport c', b'), ends (shutdown_notice redirect))
          else ((c', b'), still_waits)
      | drain_failed _ ↦ (close_connection visit c' b', ends [])
      | still_draining ↦ ((c', b'), still_waits)
    ]

-- `close` of one connection after another.
unfoldable pub close_connections : (List ℕ → List ℕ) → List ℕ → Server → Server
unfolding close_connection
close_connections visit [] s = s
close_connections visit (i ∷ is) s = elim (get_elem? s.connections i) [
  | none ↦ close_connections visit is s
  | some c ↦
      let (c', b') = close_connection visit c s.broker in
      close_connections visit is (record s { broker = b'; connections = set s.connections i c' })
]

-- `Server.Close`, up to the wait for the connections' goroutines. The second argument is the order of
-- the `range` over `conns`.
unfoldable pub close_server : (List ℕ → List ℕ) → (List ℕ → List ℕ) → Server → Server
unfolding close_connections
close_server visit visit_conns s =
    if s.closed
    then s
    else close_connections visit (visit_conns s.conns)
        (record s { closed = true; listener_closed = true })

-- `if !conn.closed { conn.draining = true }` for one connection after another.
unfoldable pub mark_draining : List ℕ → List Connection → List Connection
mark_draining [] connections = connections
mark_draining (i ∷ is) connections = elim (get_elem? connections i) [
  | none ↦ mark_draining is connections
  | some c ↦
      mark_draining is
        (set connections i (record c { draining = if c.closed then c.draining else true }))
]

-- The start of `GracefulShutdown`, up to what the goroutines do that close the connections.
unfoldable pub begin_graceful : (List ℕ → List ℕ) → Server → Server
unfolding mark_draining
begin_graceful visit_conns s = if s.closed then s else record s {
  closed = true;
  draining = true;
  listener_closed = true;
  broker = begin_shutdown s.broker;
  connections = mark_draining (visit_conns s.conns) s.connections;
}

-- `gracefulClose` of one connection after another, with how each ends.
unfoldable pub close_gracefully :
    (List ℕ → List ℕ)
    → (ℕ → List Wakeup)
    → (ℕ → Bool)
    → Text
    → List ℕ
    → Server
    → Server × List Ending
unfolding graceful_close
close_gracefully visit world finishes redirect [] s = (s, [])
close_gracefully visit world finishes redirect (i ∷ is) s = elim (get_elem? s.connections i) [
  | none ↦ close_gracefully visit world finishes redirect is s
  | some c ↦
      let (after, ending) = graceful_close visit world (finishes i) redirect c s.broker in
      let (s', endings) =
        close_gracefully visit world finishes redirect is
          (record s { broker = after.1; connections = set s.connections i after.0 }) in
      (s', ending ∷ endings)
]

-- `GracefulShutdown`, with its goroutines one after another, up to its wait for them.
unfoldable pub graceful_shutdown :
    (List ℕ → List ℕ)
    → (List ℕ → List ℕ)
    → (ℕ → List Wakeup)
    → (ℕ → Bool)
    → Text
    → Server
    → Server × List Ending
unfolding begin_graceful close_gracefully
graceful_shutdown visit visit_conns world finishes redirect s =
    if s.closed
    then (s, [])
    else close_gracefully visit world finishes redirect (visit_conns s.conns)
        (begin_graceful visit_conns s)
