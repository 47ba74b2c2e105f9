-- ===== src/Broker/Memory.antt =====
-- broker/broker.go: the cache of undelivered events and the memory of accepted keys.
use distributed_event_bus.Prelude.{
  ℕ, Bool, false, ◌||◌, List, [], ◌∷◌, ◌++◌, Text, length, leb, ◌==◌, tail, if◌then◌else◌, insert,
  contains, add, remove, text_key,
}
use distributed_event_bus.Broker.Event.{Event}
use distributed_event_bus.Broker.State.{Broker, at}

-- `seen`
unfoldable pub seen : Broker → Text → Text → Bool
seen b topic id =
    if length id == 0 || b.config.deduplication_size == 0
    then false
    else contains id (at topic b.dedup)

-- `for oldest := range set { delete(set, oldest); break }`: Go visits a map in an order of its own
-- choosing, which `order` stands for.
unfoldable pub evict : (List Text → List Text) → List Text → List Text
evict order ids = elim (order ids) [ [] ↦ ids | oldest ∷ _ ↦ remove oldest ids ]

-- `remember`
unfoldable pub remember : (List Text → List Text) → Text → Text → Broker → Broker
unfolding evict
remember order topic id b =
    let ids = at topic b.dedup in
    let kept = if leb b.config.deduplication_size (length ids) then evict order ids else ids in
    if length id == 0 || b.config.deduplication_size == 0
    then b
    else record b { dedup = insert topic (add id kept) b.dedup }

-- The slice that `cacheEvent` stores. `copy(cached, cached[1:])` and the cut drop the oldest event.
unfoldable pub cache_append : ℕ → List Event → Event → List Event
cache_append size cached event =
    (if leb size (length cached) then tail cached else cached) ++ (event ∷ [])

-- `cacheEvent`
unfoldable pub cache_event : Event → Broker → Broker
unfolding cache_append
cache_event event b = if b.config.cache_size == 0 then b else record b {
  cache =
      insert event.topic (cache_append b.config.cache_size (at event.topic b.cache) event) b.cache;
}
