-- ===== src/Broker/Outage.antt =====
-- What a topic keeps while nobody subscribes to it, and hands to the next subscriber.
use mathlib.Core.List.Perm
use distributed_event_bus.Prelude.{
  ℕ, ◌+◌, ◌%◌, ◌^◌, ◌≤◌, ◌<◌, ◌≡◌, refl, sym, ap, ◌∙◌, subst, List, [], ◌∷◌, ◌++◌, Text, Option,
  none, some, length, take, drop, get_elem?, arith, keep_last, keep_last-append, keep_last_all,
  take_all, drop_all, beq_refl, append-nil, append_assoc, ok, text_key,
}
use distributed_event_bus.Broker.Event.{Event, event_key}
use distributed_event_bus.Broker.State.{Broker, Limits, ContextError, at}
use distributed_event_bus.Broker.Memory.{cache_event, cache_append}
use distributed_event_bus.Broker.MemoryLaws.{at-insert_self, cache_append-keep_last}
use distributed_event_bus.Broker.Subscription.{new_subscription, subscribe}
use distributed_event_bus.Broker.Publish.{
  Choices, Reply, replies, published, publish_with_result, refs,
}
use distributed_event_bus.Broker.PublishCases.{
  Outcome, rejects_closed, rejects_draining, is_duplicate, caches, delivers, stops, blocks, IsOpen,
  publish_with_result-Outcome,
}
use distributed_event_bus.Broker.PublishLaws.{
  Keeps, remember-Keeps, cache_event-Keeps, remember_only,
}
use distributed_event_bus.Broker.SubscribeLaws.{subscribe_replays}
use distributed_event_bus.Broker.Invariant.Defs.{IsSound, IsRange}
use distributed_event_bus.Broker.Invariant.Memory.{length-at_cache}
use distributed_event_bus.Broker.Invariant.Calls.{publish-IsSound}

-- A run of calls that publish events of one topic, each without an error, the last one outermost.
pub data Publishes (topic : Text) (b : Broker) : List Event → Broker → Type 0 where
  none_published : Publishes topic b [] b
  one_more :
      {b1 b2 : Broker} {events : List Event} (e : Event) (c : Choices)
      (context : Option ContextError)
      → Publishes topic b events b1
      → IsRange c
      → e.topic ≡ topic
      → publish_with_result c context e b1 ≡ (b2, replies published none)
      → Publishes topic b (events ++ (e ∷ [])) b2

cache_event-at :
    (e : Event) (b : Broker)
    → IsSound b
    → 0 < b.config.cache_size
    → at e.topic (cache_event e b).cache
      ≡ keep_last b.config.cache_size (at e.topic b.cache ++ (e ∷ []))
unfolding cache_event
cache_event-at e b sound k = ground (
  arith,
  at-insert_self e.topic (cache_append b.config.cache_size (at e.topic b.cache) e) b.cache,
  cache_append-keep_last b.config.cache_size (at e.topic b.cache) e k
      (length-at_cache b.config.cache_size e.topic b.cache sound.cache_bounded),
)

-- What a call makes of a topic without subscribers.
record Caches (topic : Text) (e : Event) (b b' : Broker) : Type 0 where
  pub cached :
      0 < b.config.cache_size
      → at topic b'.cache ≡ keep_last b.config.cache_size (at topic b.cache ++ (e ∷ []))
  pub keeps : Keeps b b'
  pub was_open : IsOpen b

cached_one :
    (c : Choices) (context : Option ContextError) (e : Event) (b b' : Broker) (reply : Reply)
    → IsRange c
    → IsSound b
    → at e.topic b.topics ≡ []
    → Outcome c context e b b' reply
    → reply ≡ replies published none
    → Caches e.topic e b b'
cached_one c context e b b' reply range sound nobody (rejects_closed _ _ q) t = absurd (cc)
cached_one c context e b b' reply range sound nobody (rejects_draining _ _ _ q) t = absurd (cc)
cached_one c context e b b' reply range sound nobody (is_duplicate _ _ _ q) t = absurd (cc)
cached_one c context e b b' reply range sound nobody (stops _ _ _ _ _ _ q) t = absurd (cc)
cached_one c context e b b' reply range sound nobody (blocks _ _ _ _ _ _ _ q) t = absurd (cc)
cached_one c context e b b' reply range sound nobody (delivers _ _ n _ _ _ _) t =
    absurd (n (ap (λ x. c.visit (refs x)) nobody ∙ Perm.eq-nil (range.visits [])))
cached_one c context e b b' reply range sound nobody (caches o _ _ p _) t =
    let b1 = cache_event e b in
    let k1 = remember-Keeps c.victims e.topic (event_key e) b1 in
    let k2 = cache_event-Keeps e b in
    rw p (record {
      cached = λ pos.
          ap (λ (x : Broker). at e.topic x.cache) (remember_only c.victims e.topic (event_key e) b1)
          ∙ cache_event-at e b sound pos;
      keeps = record {
        closed = k1.closed ∙ k2.closed;
        draining = k1.draining ∙ k2.draining;
        config = k1.config ∙ k2.config;
        sequence = k1.sequence ∙ k2.sequence;
        topics = k1.topics ∙ k2.topics;
      };
      was_open = o;
    })

-- What a run makes of it.
record Cached (topic : Text) (events : List Event) (b b' : Broker) : Type 0 where
  pub cached :
      0 < b.config.cache_size
      → at topic b'.cache ≡ keep_last b.config.cache_size (at topic b.cache ++ events)
  pub keeps : Keeps b b'
  pub sound : IsSound b'

run-Cached :
    {topic : Text} {b b' : Broker} {events : List Event}
    → Publishes topic b events b'
    → IsSound b
    → at topic b.topics ≡ []
    → Cached topic events b b'
run-Cached {topic} {b} none_published sound nobody = record {
  cached = λ pos. sym (
      ap (keep_last b.config.cache_size) (append-nil (at topic b.cache))
      ∙ keep_last_all b.config.cache_size (at topic b.cache)
          (length-at_cache b.config.cache_size topic b.cache sound.cache_bounded));
  keeps = record { closed = refl; draining = refl; config = refl; sequence = refl; topics = refl };
  sound = sound;
}
run-Cached {topic} {b} (one_more {b1 = b1} {b2 = b2} {events = events} e c context run range same h)
      sound nobody =
    let so_far = run-Cached run sound nobody in
    let k = so_far.keeps in
    let one : Caches topic e b1 b2 =
      subst (λ x. Caches x e b1 b2) same
        (cached_one c context e b1 b2 _ range so_far.sound
          (ap (λ x. at x b1.topics) same ∙ ap (at topic) k.topics ∙ nobody)
          (subst (λ (x : Broker × Reply). Outcome c context e b1 x.0 x.1) h
            (publish_with_result-Outcome c context e b1))
          refl) in
    let k' = one.keeps in
    let n = b.config.cache_size in
    record {
      cached = λ pos.
          subst
            (λ (x : Limits).
              at topic b2.cache ≡ keep_last x.cache_size (at topic b1.cache ++ (e ∷ [])))
            k.config (one.cached (rw k.config pos))
          ∙ ap (λ xs. keep_last n (xs ++ (e ∷ []))) (so_far.cached pos)
          ∙ keep_last-append n (at topic b.cache ++ events) e
          ∙ ap (keep_last n) (append_assoc (at topic b.cache) events (e ∷ []));
      keeps = record {
        closed = k'.closed ∙ k.closed;
        draining = k'.draining ∙ k.draining;
        config = k'.config ∙ k.config;
        sequence = k'.sequence ∙ k.sequence;
        topics = k'.topics ∙ k.topics;
      };
      sound =
          subst (λ (x : Broker × Reply). IsSound x.0) h
            (publish-IsSound c context e b1 range so_far.sound);
    }

-- While a topic of a sound broker that caches has no subscribers, events that are published to it,
-- each without an error, are kept in the order of the calls, the newest `CacheSize` of them and of
-- what was cached before.
pub outage_caches :
    {topic : Text} {b b' : Broker} {events : List Event}
    → Publishes topic b events b'
    → IsSound b
    → at topic b.topics ≡ []
    → 0 < b.config.cache_size
    → at topic b'.cache ≡ keep_last b.config.cache_size (at topic b.cache ++ events)
outage_caches run sound nobody pos = (run-Cached run sound nobody).cached pos

-- A topic that has neither subscribers nor cached events, on a broker that is sound, open and
-- caches, loses nothing of a run of events, each published without an error, that fits into the
-- cache and into a queue: the next subscription starts with all of them, in the order of the calls,
-- and the cache of the topic is empty again.
pub outage_replays :
    {topic : Text} {b b' : Broker} {events : List Event}
    → Publishes topic b events b'
    → IsSound b
    → IsOpen b
    → at topic b.topics ≡ []
    → at topic b.cache ≡ []
    → 0 < b.config.cache_size
    → length events ≤ b.config.cache_size
    → length events ≤ b.config.queue_size
    → let b'' = (subscribe topic b').0 in
      ((subscribe topic b').1 ≡ ok (length b'.heap))
      × (get_elem? b''.heap (length b'.heap)
          ≡ some (record (new_subscription topic ((b.sequence + 1) % 2 ^ 64) b.config.queue_size) {
            events = events;
          }))
      × (at topic b''.cache ≡ [])
outage_replays {topic} {b} {b'} {events} run sound o nobody empty pos fits fits' =
    let all = run-Cached run sound nobody in
    let k = all.keeps in
    let cached : at topic b'.cache ≡ events =
      all.cached pos
      ∙ ap (λ xs. keep_last b.config.cache_size (xs ++ events)) empty
      ∙ keep_last_all b.config.cache_size events fits in
    let size = b.config.queue_size in
    let (reply, queue, cache) =
      subscribe_replays topic topic b' (k.closed ∙ o.0) (k.draining ∙ o.1) in
    let fill = λ (id n : ℕ) (xs : List Event).
      some (record (new_subscription topic ((id + 1) % 2 ^ 64) n) { events = xs }) in
    (
      reply,
      queue
          ∙ ap
              (λ (x : Limits).
                fill b'.sequence x.queue_size (take x.queue_size (at topic b'.cache)))
              k.config
          ∙ ap (λ id. fill id size (take size (at topic b'.cache))) k.sequence
          ∙ ap (fill b.sequence size) (ap (take size) cached ∙ take_all size events fits'),
      cache
          ∙ rw (beq_refl topic) (
              ap (λ (x : Limits). drop x.queue_size (at topic b'.cache)) k.config
              ∙ ap (drop size) cached
              ∙ drop_all size events fits'),
    )
