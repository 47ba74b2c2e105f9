-- ===== src/Server/State.antt =====
-- transport/tcp/server.go: the server and its connections, with `NewServer`, `State`, `Serve` and
-- `removeConnection`. A `*connection` is an index into `connections`.
use distributed_event_bus.Prelude.{
  ℕ, Bool, true, false, ◌||◌, List, [], ◌∷◌, ◌++◌, Text, Option, length, if◌then◌else◌, Map, add,
  remove, nat_key,
}
use distributed_event_bus.Broker.State.{Broker}

-- `pending_ack` leads from the ID of an event to a channel of `deliver`, which is an index into
-- `channels`. A channel has room for one status. `net_closed` says whether `net` is closed.
pub record Connection : Type 0 where
  pub subs : Map Text ℕ
  pub closed : Bool
  pub draining : Bool
  pub pending_ack : Map Text ℕ
  pub channels : List (Option ℕ)
  pub net_closed : Bool

-- `newConnection`
unfoldable pub new_connection : Connection
new_connection = record {
  subs = [];
  closed = false;
  draining = false;
  pending_ack = [];
  channels = [];
  net_closed = false;
}

-- `conns` is the set of the connections that are served.
pub record Server : Type 0 where
  pub broker : Broker
  pub listener_closed : Bool
  pub closed : Bool
  pub draining : Bool
  pub conns : List ℕ
  pub connections : List Connection

-- `NewServer`
unfoldable pub new_server : Broker → Server
new_server b = record {
  broker = b;
  listener_closed = false;
  closed = false;
  draining = false;
  conns = [];
  connections = [];
}

-- `State`, the snapshot.
pub record Snapshot : Type 0 where
  pub closed : Bool
  pub draining : Bool
  pub active_connections : ℕ

-- `Server.State`
unfoldable pub server_state : Server → Snapshot
server_state s = record {
  closed = s.closed;
  draining = s.draining;
  active_connections = length s.conns;
}

-- The loop of `Serve` where `Accept` returns a connection.
unfoldable pub accept : Server → Server
unfolding new_connection
accept s =
    let c = length s.connections in
    if s.closed
    then record s {
      connections = s.connections ++ (record new_connection { net_closed = true } ∷ []);
    }
    else record s { conns = add c s.conns; connections = s.connections ++ (new_connection ∷ []) }

-- The loop of `Serve` where `Accept` fails: whether `Serve` returns no error. The argument is
-- `errors.Is(err, net.ErrClosed)`.
unfoldable pub accept_fails : Bool → Server → Bool
accept_fails is_closed s = s.closed || is_closed

-- `removeConnection`
unfoldable pub remove_connection : ℕ → Server → Server
remove_connection c s = record s { conns = remove c s.conns }

-- `isDraining`, with `draining` of the server.
unfoldable pub is_draining : Bool → Connection → Bool
is_draining server_draining c = c.draining || server_draining
