-- ===== src/Broker/Invariant/Defs.antt =====
-- The parts of the invariant.
use mathlib.Core.List.{Perm}
use distributed_event_bus.Prelude.{
  ℕ, suc, ◌≤◌, ◌<◌, ◌≡◌, Bool, true, false, List, [], ◌∷◌, Text, some, length, get_elem?, All, Map,
  keys, contains, Distinct, nat_key, text_key,
}
use distributed_event_bus.Broker.Event.{Event}
use distributed_event_bus.Broker.State.{Broker, Subscription, at}
use distributed_event_bus.Broker.Publish.{Choices, refs}

-- A queue holds no more than its capacity, and its four flags agree.
pub record IsQueue (size : ℕ) (s : Subscription) : Type 0 where
  pub sized : s.capacity ≡ size
  pub bounded : length s.events ≤ s.capacity
  pub once_agrees : s.once_done ≡ s.closed
  pub done_agrees : s.done_closed ≡ s.closed
  pub events_agree : s.events_closed ≡ s.closed

-- What a subscription is, apart from its queue.
pub record Standing : Type 0 where
  pub topic : Text
  pub id : ℕ
  pub closed : Bool

abbrev pub standing : Subscription → Standing
standing s = record { topic = s.topic; id = s.id; closed = s.closed }

abbrev pub standings : List Subscription → List Standing
standings [] = []
standings (s ∷ ss) = standing s ∷ standings ss

-- An entry of a topic leads to an open subscription of that topic, which has that ID. IDs count the
-- subscriptions from 1.
pub record IsEntry (ss : List Standing) (topic : Text) (entry : ℕ × ℕ) : Type 0 where
  pub found : get_elem? ss entry.1 ≡ some (record { topic = topic; id = entry.0; closed = false })
  pub numbered : entry.0 ≡ suc entry.1

-- A topic has subscribers, each once.
pub record IsTopic (ss : List Standing) (entry : Text × Map ℕ ℕ) : Type 0 where
  pub entries : All (IsEntry ss entry.0) entry.1
  pub each_once : Distinct (refs entry.1)
  pub inhabited : 0 < length entry.1

pub record IsCached (size : ℕ) (entry : Text × List Event) : Type 0 where
  pub some_cached : 0 < length entry.1
  pub cached_le : length entry.1 ≤ size

pub record IsRemembered (size : ℕ) (entry : Text × List Text) : Type 0 where
  pub remembered_le : length entry.1 ≤ size
  pub keys_once : Distinct entry.1

abbrev pub NumberedFrom : ℕ → List Standing → Type 0
NumberedFrom n [] = Unit {0}
NumberedFrom n (s ∷ ss) = (s.id ≡ suc n) × NumberedFrom (suc n) ss

-- How the topics and the subscriptions fit together: topics lead to open subscriptions only, and to
-- all of them.
pub record IsLayout (ss : List Standing) (topics : Map Text (Map ℕ ℕ)) (sequence : ℕ) : Type 0 where
  pub routes : All (IsTopic ss) topics
  pub topics_once : Distinct (keys topics)
  pub ids : NumberedFrom 0 ss
  pub sequence_counts : sequence ≡ length ss
  pub complete :
      (r : ℕ) (topic : Text) (id : ℕ)
      → get_elem? ss r ≡ some (record { topic = topic; id = id; closed = false })
      → contains r (refs (at topic topics)) ≡ true

pub record IsSound (b : Broker) : Type 0 where
  pub queues : All (IsQueue b.config.queue_size) b.heap
  pub layout : IsLayout (standings b.heap) b.topics b.sequence
  pub cache_bounded : All (IsCached b.config.cache_size) b.cache
  pub memory_bounded : All (IsRemembered b.config.deduplication_size) b.dedup

-- A `range` visits every entry of its map, each once.
pub record IsRange (c : Choices) : Type 0 where
  pub visits : (xs : List ℕ) → Perm (c.visit xs) xs
  pub sees : (xs : List Text) → Perm (c.victims xs) xs
