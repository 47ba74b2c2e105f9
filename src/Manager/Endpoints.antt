-- ===== src/Manager/Endpoints.antt =====
-- transport/tcp/connection_manager.go: `prefer` and `connect`.
use distributed_event_bus.Prelude.{
  ℕ, Bool, true, false, List, [], ◌∷◌, Text, Option, none, some, if◌then◌else◌, text_eq,
}
use distributed_event_bus.Broker.Event.{Event}

-- `ConnectionManager`, without the ID that it gives to its clients. A client is a number. `events` and
-- `shutdowns` hold what is in the channels, the oldest first, and `done` says whether that channel is
-- closed.
pub record Manager : Type 0 where
  pub endpoints : List Text
  pub current : Option ℕ
  pub topics : List Text
  pub events : List Event
  pub shutdowns : List Text
  pub done : Bool

-- The capacities of `events` and `shutdowns`.
abbrev pub events_capacity : ℕ
events_capacity = 64

abbrev pub shutdowns_capacity : ℕ
shutdowns_capacity = 1

-- The manager that `NewConnectionManager` makes.
unfoldable pub new_manager : List Text → Manager
new_manager endpoints = record {
  endpoints = endpoints;
  current = none;
  topics = [];
  events = [];
  shutdowns = [];
  done = false;
}

-- The loop of `prefer` over the endpoints.
unfoldable pub others : Text → List Text → List Text
others endpoint [] = []
others endpoint (candidate ∷ candidates) =
    if text_eq candidate endpoint
    then others endpoint candidates
    else candidate ∷ others endpoint candidates

-- `prefer`
unfoldable pub prefer : Text → Manager → Manager
unfolding others
prefer endpoint m = record m { endpoints = endpoint ∷ others endpoint m.endpoints }

-- What the network does in one call of `connect`: the client that `Dial` of an endpoint returns, if it
-- does, whether a client's `Subscribe` to a topic succeeds, and the order of the `range` over topics.
pub record Network : Type 0 where
  pub dials : Text → Option ℕ
  pub subscribes : ℕ → Text → Bool
  pub visit : List Text → List Text

-- The loop over the topics: whether no `Subscribe` failed.
unfoldable pub subscribe_all : Network → ℕ → List Text → Bool
subscribe_all n client [] = true
subscribe_all n client (topic ∷ topics) =
    let more = subscribe_all n client topics in if n.subscribes client topic then more else false

-- The loop over the endpoints: the manager, and whether a broker was found.
unfoldable pub connect_to : Network → List Text → Manager → Manager × Bool
unfolding subscribe_all
connect_to n [] m = (m, false)
connect_to n (endpoint ∷ endpoints) m = elim (n.dials endpoint) [
  | none ↦ connect_to n endpoints m
  | some client ↦
      let failed = connect_to n endpoints (record m { current = none }) in
      if subscribe_all n client (n.visit m.topics)
      then (record m { current = some client }, true)
      else failed
]

-- `connect`
unfoldable pub connect : Network → Manager → Manager × Bool
unfolding connect_to
connect n m = connect_to n m.endpoints m
