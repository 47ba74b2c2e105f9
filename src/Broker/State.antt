-- ===== src/Broker/State.antt =====
-- broker/broker.go: configuration, the broker's fields, `New`, `State` and `BeginShutdown`.
-- A `*Subscription` is an index into `heap`, where each subscription stands once it is created, so
-- that what holds a pointer after the subscription has left `topics` still reaches the same object.
use distributed_event_bus.Prelude.{
  ℕ, ◌+◌, Bool, true, false, List, [], ◌∷◌, Text, none, some, length, ltb, get_elem?, if◌then◌else◌,
  Map, lookup, text_key,
}
use distributed_event_bus.Broker.Event.{Event}

-- `Block` and `Drop`.
pub data BackpressurePolicy : Type 0 where
  block drop : BackpressurePolicy

-- A Go `int`: `negsuc n` is -(n + 1).
pub data ℤ : Type 0 where
  pos : ℕ → ℤ
  negsuc : ℕ → ℤ

-- What a caller asks for.
pub record Config : Type 0 where
  pub queue_size : ℤ
  pub cache_size : ℤ
  pub deduplication_size : ℤ
  pub backpressure : BackpressurePolicy

-- The broker's own `config`, which `New` has made non-negative.
pub record Limits : Type 0 where
  pub queue_size : ℕ
  pub cache_size : ℕ
  pub deduplication_size : ℕ
  pub backpressure : BackpressurePolicy

-- `if x < low { x = low }`, for a `low` that is not negative.
unfoldable pub at_least : ℕ → ℤ → ℕ
at_least low (pos n) = if ltb n low then low else n
at_least low (negsuc n) = low

-- `events` holds what is in the channel, the oldest first. `once_done` is the state of `once`,
-- `done_closed` and `events_closed` say whether the two channels are closed.
pub record Subscription : Type 0 where
  pub topic : Text
  pub id : ℕ
  pub capacity : ℕ
  pub events : List Event
  pub once_done : Bool
  pub closed : Bool
  pub done_closed : Bool
  pub events_closed : Bool

pub record Broker : Type 0 where
  pub closed : Bool
  pub draining : Bool
  pub config : Limits
  pub sequence : ℕ
  pub topics : Map Text (Map ℕ ℕ)
  pub cache : Map Text (List Event)
  pub dedup : Map Text (List Text)
  pub heap : List Subscription

-- `New`
unfoldable pub new : Config → Broker
unfolding at_least
new c = record {
  closed = false;
  draining = false;
  config = record {
    queue_size = at_least 1 c.queue_size;
    cache_size = at_least 0 c.cache_size;
    deduplication_size = at_least 0 c.deduplication_size;
    backpressure = c.backpressure;
  };
  sequence = 0;
  topics = [];
  cache = [];
  dedup = [];
  heap = [];
}

-- `State`, the snapshot.
pub record Snapshot : Type 0 where
  pub closed : Bool
  pub draining : Bool
  pub topics : ℕ
  pub subscriptions : ℕ
  pub pending_events : ℕ
  pub cached_events : ℕ

-- `len(subscription.events)`
unfoldable pub pending_at : List Subscription → ℕ → ℕ
pending_at heap r = elim (get_elem? heap r) [ none ↦ 0 | some s ↦ length s.events ]

unfoldable pub pending_in : List Subscription → Map ℕ ℕ → ℕ
unfolding pending_at
pending_in heap [] = 0
pending_in heap ((id, r) ∷ subs) = pending_at heap r + pending_in heap subs

unfoldable pub subscriptions_in : Map Text (Map ℕ ℕ) → ℕ
subscriptions_in [] = 0
subscriptions_in ((topic, subs) ∷ rest) = length subs + subscriptions_in rest

unfoldable pub pending_events : List Subscription → Map Text (Map ℕ ℕ) → ℕ
unfolding pending_in
pending_events heap [] = 0
pending_events heap ((topic, subs) ∷ rest) = pending_in heap subs + pending_events heap rest

unfoldable pub cached_events : Map Text (List Event) → ℕ
cached_events [] = 0
cached_events ((topic, events) ∷ rest) = length events + cached_events rest

-- `Broker.State`
unfoldable pub state : Broker → Snapshot
unfolding subscriptions_in pending_events cached_events
state b = record {
  closed = b.closed;
  draining = b.draining;
  topics = length b.topics;
  subscriptions = subscriptions_in b.topics;
  pending_events = pending_events b.heap b.topics;
  cached_events = cached_events b.cache;
}

-- `BeginShutdown`
unfoldable pub begin_shutdown : Broker → Broker
begin_shutdown b = record b { draining = true }

-- The errors of the package and of a context.
pub data ContextError : Type 0 where
  canceled deadline_exceeded : ContextError

pub data Error : Type 0 where
  closed draining queue_full subscription_closed : Error
  context_done : ContextError → Error

-- `m[k]` for a map whose zero value is the empty map, list or set.
abbrev pub at : {V : Type 0} → Text → Map Text (List V) → List V
at k m = elim (lookup k m) [ none ↦ [] | some v ↦ v ]
