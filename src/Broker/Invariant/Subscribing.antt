-- ===== src/Broker/Invariant/Subscribing.antt =====
-- `Subscribe` with its replay of cached events keeps the invariant.
use distributed_event_bus.Prelude.{
  ℕ, suc, ◌+◌, ◌-◌, ◌%◌, ◌^◌, ◌≤◌, ◌<◌, ◌≡◌, refl, false, ◌||◌, List, [], ◌∷◌, ◌++◌, Text, some,
  length, take, drop, ltb, get_elem?, insert, nat_key, text_key, arith, if◌then◌else◌, ◌==◌,
  Bool-cases, inl, inr, All-insert, All-delete, All-append, All-set, All-get_elem?, length-take,
  length-drop,
}
use distributed_event_bus.Broker.Event.{Event}
use distributed_event_bus.Broker.State.{Broker, Subscription, at}
use distributed_event_bus.Broker.Subscription.{new_subscription, replay, subscribe}
use distributed_event_bus.Broker.Invariant.Defs.{IsQueue, standings, IsCached, IsSound}
use distributed_event_bus.Broker.Invariant.Memory.{length-at_cache}
use distributed_event_bus.Broker.Invariant.Standings.{
  standings-set_same, standings-append, length-standings,
}
use distributed_event_bus.Broker.Invariant.Layout.{IsLayout-subscribe}
use distributed_event_bus.Broker.Invariant.Standings.{get_elem?-append_end}

-- The replay fills the queue of a subscription that has none yet, up to its capacity.
replay-IsSound :
    (topic : Text) (r : ℕ) (s : Subscription) (b : Broker)
    → IsSound b
    → get_elem? b.heap r ≡ some s
    → s.events ≡ []
    → IsSound (replay topic r s b)
unfolding replay
replay-IsSound topic r s b sound g empty = elim (Bool-cases (length cached == 0)) [
  | inl none_cached ↦ rw none_cached sound
  | inr some_cached ↦ rw some_cached (record {
    queues = All-set (IsQueue b.config.queue_size) b.heap r s' sound.queues filled;
    layout = rw (standings-set_same b.heap r s s' g refl) sound.layout;
    cache_bounded = elim (Bool-cases (count == length cached)) [
      | inl all ↦
          rw all (All-delete (IsCached b.config.cache_size) topic b.cache sound.cache_bounded)
      | inr part ↦ rw part (
          All-insert (IsCached b.config.cache_size) topic (drop count cached) b.cache
            sound.cache_bounded (left_over part))
    ];
    memory_bounded = sound.memory_bounded;
  })
]
  where
    cached : List Event
    cached = at topic b.cache

    count : ℕ
    count = if ltb s.capacity (length cached) then s.capacity else length cached

    count_bounds : (count ≤ s.capacity) × (count ≤ length cached)
    count_bounds = ground arith

    s' : Subscription
    s' = record s { events = s.events ++ take count cached }

    q : IsQueue b.config.queue_size s
    q = All-get_elem? (IsQueue b.config.queue_size) b.heap r s sound.queues g

    filled : IsQueue b.config.queue_size s'
    filled = record {
      sized = q.sized;
      bounded = rw empty (omega (arith, count_bounds, length-take count cached));
      once_agrees = q.once_agrees;
      done_agrees = q.done_agrees;
      events_agree = q.events_agree;
    }

    left_over :
        (count == length cached) ≡ false → IsCached b.config.cache_size (topic, drop count cached)
    left_over part = record {
      some_cached = ground (arith, count_bounds, length-drop count cached);
      cached_le = omega (
        arith,
        length-drop count cached,
        length-at_cache b.config.cache_size topic b.cache sound.cache_bounded,
      );
    }

-- A new subscription is entered, and gets what is cached. The IDs must not run out: there are fewer
-- than 2 ^ 64 - 1 subscriptions so far.
pub subscribe-IsSound :
    (topic : Text) (b : Broker)
    → length b.heap < 2 ^ 64 - 1
    → IsSound b
    → IsSound (subscribe topic b).0
unfolding subscribe
subscribe-IsSound topic b few sound = elim (Bool-cases (b.closed || b.draining)) [
  | inl shut ↦ rw shut sound
  | inr open' ↦ rw open' (
      replay-IsSound topic (length b.heap) s registered entered (get_elem?-append_end b.heap s)
        refl)
]
  where
    s : Subscription
    s = new_subscription topic ((b.sequence + 1) % 2 ^ 64) b.config.queue_size

    registered : Broker
    registered = record b {
      sequence = (b.sequence + 1) % 2 ^ 64;
      topics =
          insert topic (insert ((b.sequence + 1) % 2 ^ 64) (length b.heap) (at topic b.topics))
            b.topics;
      heap = b.heap ++ (s ∷ []);
    }

    next : (b.sequence + 1) % 2 ^ 64 ≡ suc (length (standings b.heap))
    next = omega (arith, sound.layout.sequence_counts, length-standings b.heap)

    entered : IsSound registered
    entered = record {
      queues = All-append (IsQueue b.config.queue_size) b.heap (s ∷ []) sound.queues (
        record {
          sized = refl;
          bounded = omega arith;
          once_agrees = refl;
          done_agrees = refl;
          events_agree = refl;
        },
        tt,
      );
      layout =
          rw (standings-append b.heap s, next, ← length-standings b.heap)
            (IsLayout-subscribe (standings b.heap) b.topics b.sequence topic sound.layout);
      cache_bounded = sound.cache_bounded;
      memory_bounded = sound.memory_bounded;
    }
