-- ===== src/Tests/Samples.antt =====
-- A small broker and what is sent to it.
use mathlib.Core.List.Perm
use distributed_event_bus.Prelude.{ℕ, Option, some, true, false, List, [], ◌∷◌, Text, none}
use distributed_event_bus.Broker.Event.{Event}
use distributed_event_bus.Broker.State.{
  Broker, Subscription, BackpressurePolicy, Config, pos, negsuc, new,
}
use distributed_event_bus.Broker.Subscription.{subscribe}
use distributed_event_bus.Broker.Publish.{Choices, publish_with_result}
use distributed_event_bus.Broker.Invariant.Defs.{IsRange}
use distributed_event_bus.Protocol.Frame.{Frame}
use distributed_event_bus.Manager.Endpoints.{Manager, Network}

-- "jobs" and "news"
abbrev pub jobs : Text
jobs = 106 ∷ 111 ∷ 98 ∷ 115 ∷ []

abbrev pub news : Text
news = 110 ∷ 101 ∷ 119 ∷ 115 ∷ []

abbrev pub event : ℕ → Event
event n = record { id = n ∷ []; idempotency_key = []; topic = jobs; key = []; payload = n ∷ n ∷ [] }

-- Maps are visited as they stand, and a ready context goes unseen while a queue has room.
abbrev pub plain : Choices
plain = record { visit = λ xs. xs; victims = λ xs. xs; take_context = λ r. false }

pub plain-IsRange : IsRange plain
plain-IsRange = record { visits = λ xs. Perm.refl xs; sees = λ xs. Perm.refl xs }

-- A queue of two, two cached events for each topic, and two keys.
abbrev pub small : Config
small = record {
  queue_size = pos 2;
  cache_size = pos 2;
  deduplication_size = pos 2;
  backpressure = BackpressurePolicy.block;
}

-- One that corrects what it is given, and drops.
abbrev pub dropping : Config
dropping = record {
  queue_size = negsuc 3;
  cache_size = negsuc 0;
  deduplication_size = pos 0;
  backpressure = BackpressurePolicy.drop;
}

abbrev pub started : Broker
started = new small

-- One subscription to `jobs`.
abbrev pub subscribed : Broker
subscribed = (subscribe jobs started).0

abbrev pub subscription : List Event → Subscription
subscription events = record {
  topic = jobs;
  id = 1;
  capacity = 2;
  events = events;
  once_done = false;
  closed = false;
  done_closed = false;
  events_closed = false;
}

abbrev pub after_publish : ℕ → Broker → Broker
after_publish n b = (publish_with_result plain none (event n) b).0

-- A frame and its writer, which takes one byte at a time.
abbrev pub ping : Frame
ping = record { kind = 7; payload = [] }

abbrev pub greeting : Frame
greeting = record { kind = 1; payload = 0 ∷ 1 ∷ 104 ∷ [] }

-- The payload of `event 1`.
abbrev pub event_payload : List ℕ
event_payload =
    0 ∷ 1 ∷ 1 ∷ 0 ∷ 0 ∷ 0 ∷ 4 ∷ 106 ∷ 111 ∷ 98 ∷ 115 ∷ 0 ∷ 0 ∷ 0 ∷ 0 ∷ 0 ∷ 2 ∷ 1 ∷ 1 ∷ []

-- Nobody listens at the first endpoint; the client at the second is 7.
abbrev pub network : Network
network = record {
  dials = λ endpoint. if_second endpoint;
  subscribes = λ client topic. true;
  visit = λ topics. topics;
}
  where
    if_second : Text → Option ℕ
    if_second [] = none
    if_second (x ∷ xs) = some 7

abbrev pub manager : Manager
manager = record {
  endpoints = [] ∷ news ∷ [];
  current = none;
  topics = jobs ∷ [];
  events = [];
  shutdowns = [];
  done = false;
}
