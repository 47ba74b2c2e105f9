-- ===== src/Broker/PublishLaws.antt =====
-- What a caller of `PublishWithResult` may rely on: deduplication, and what a failed call leaves.
use distributed_event_bus.Prelude.{
  ◌<◌, ◌≡◌, ◌≢◌, ap, ◌∙◌, subst, true, List, Option, none, length, text_key, Text, arith,
}
use distributed_event_bus.Broker.Event.{Event, event_key}
use distributed_event_bus.Broker.State.{Broker, ContextError}
use distributed_event_bus.Broker.Memory.{seen, remember, cache_event}
use distributed_event_bus.Broker.MemoryLaws.{seen-remember}
use distributed_event_bus.Broker.Publish.{
  Choices, published, duplicate, Reply, replies, publish_with_result,
}
use distributed_event_bus.Broker.PublishCases.{
  IsOpen, Outcome, rejects_closed, rejects_draining, is_duplicate, caches, delivers, stops, blocks,
  publish_with_result-Outcome,
}

-- What `remember` leaves alone.
pub record Keeps (b b' : Broker) : Type 0 where
  pub closed : b'.closed ≡ b.closed
  pub draining : b'.draining ≡ b.draining
  pub config : b'.config ≡ b.config
  pub sequence : b'.sequence ≡ b.sequence
  pub topics : b'.topics ≡ b.topics

pub remember-Keeps :
    (order : List Text → List Text) (topic id : Text) (b : Broker)
    → Keeps b (remember order topic id b)
unfolding remember
remember-Keeps order topic id b = ground arith

pub cache_event-Keeps : (e : Event) (b : Broker) → Keeps b (cache_event e b)
unfolding cache_event
cache_event-Keeps e b = ground arith

pub remember_only :
    (order : List Text → List Text) (topic id : Text) (b : Broker)
    → remember order topic id b ≡ record b { dedup = (remember order topic id b).dedup }
unfolding remember
remember_only order topic id b = ground arith

pub cache_event_only :
    (e : Event) (b : Broker) → cache_event e b ≡ record b { cache = (cache_event e b).cache }
unfolding cache_event
cache_event_only e b = ground arith

-- A call that has published an event leaves an open broker behind that knows the event's key.
accepted-is_known :
    (c : Choices) (context : Option ContextError) (e : Event) (b b' : Broker) (reply : Reply)
    → Outcome c context e b b' reply
    → reply ≡ replies published none
    → 0 < length (event_key e)
    → 0 < b.config.deduplication_size
    → IsOpen b' × (seen b' e.topic (event_key e) ≡ true)
accepted-is_known c context e b b' reply (rejects_closed _ _ q) r h k = absurd (cc)
accepted-is_known c context e b b' reply (rejects_draining _ _ _ q) r h k = absurd (cc)
accepted-is_known c context e b b' reply (is_duplicate _ _ _ q) r h k = absurd (cc)
accepted-is_known c context e b b' reply (stops _ _ _ _ _ _ q) r h k = absurd (cc)
accepted-is_known c context e b b' reply (blocks _ _ _ _ _ _ _ q) r h k = absurd (cc)
accepted-is_known c context e b b' reply (caches o _ _ p q) r h k =
    let kept = remember-Keeps c.victims e.topic (event_key e) (cache_event e b) in
    let kept' = cache_event-Keeps e b in
    rw p (
      (kept.closed ∙ kept'.closed ∙ o.0, kept.draining ∙ kept'.draining ∙ o.1),
      seen-remember c.victims e.topic (event_key e) (cache_event e b) h (rw kept'.config k),
    )
accepted-is_known c context e b b' reply (delivers o _ _ heap _ p q) r h k =
    let b1 : Broker = record b { heap = heap } in
    let kept = remember-Keeps c.victims e.topic (event_key e) b1 in
    rw p (
      (kept.closed ∙ o.0, kept.draining ∙ o.1),
      seen-remember c.victims e.topic (event_key e) b1 h k,
    )

known_again :
    (c : Choices) (context : Option ContextError) (e : Event) (b : Broker) (topic key : Text)
    → IsOpen b
    → e.topic ≡ topic
    → event_key e ≡ key
    → seen b topic key ≡ true
    → 0 < length key
    → publish_with_result c context e b ≡ (b, replies duplicate none)
unfolding publish_with_result
known_again c context e b topic key o t q s h = ground arith

-- Once a call has published an event whose key is not empty, on a broker that deduplicates, any event
-- of the same topic and key that is published next is a duplicate: the reply says so, there is no
-- error, and the broker does not change.
pub publish_twice :
    (c c' : Choices) (context context' : Option ContextError) (e e' : Event) (b b' : Broker)
    → publish_with_result c context e b ≡ (b', replies published none)
    → e'.topic ≡ e.topic
    → event_key e' ≡ event_key e
    → 0 < length (event_key e)
    → 0 < b.config.deduplication_size
    → publish_with_result c' context' e' b' ≡ (b', replies duplicate none)
publish_twice c c' context context' e e' b b' p t q h k =
    let out = publish_with_result-Outcome c context e b in
    let (o, known) =
      accepted-is_known c context e b _ _ out (ap (λ (x : Broker × Reply). x.1) p) h k in
    let same : (publish_with_result c context e b).0 ≡ b' = ap (λ (x : Broker × Reply). x.0) p in
    known_again c' context' e' b' e.topic (event_key e) (subst IsOpen same o) t q
      (subst (λ x. seen x e.topic (event_key e) ≡ true) same known) h

failed-Keeps :
    (c : Choices) (context : Option ContextError) (e : Event) (b b' : Broker) (reply : Reply)
    → Outcome c context e b b' reply
    → reply ≢ replies published none
    → Keeps b b' × (b'.dedup ≡ b.dedup) × (b'.cache ≡ b.cache)
failed-Keeps c context e b b' reply (rejects_closed _ p _) n = ground arith
failed-Keeps c context e b b' reply (rejects_draining _ _ p _) n = ground arith
failed-Keeps c context e b b' reply (is_duplicate _ _ p _) n = ground arith
failed-Keeps c context e b b' reply (caches _ _ _ _ q) n = absurd (n q)
failed-Keeps c context e b b' reply (delivers _ _ _ _ _ _ q) n = absurd (n q)
failed-Keeps c context e b b' reply (stops _ _ _ _ _ p _) n = ground arith
failed-Keeps c context e b b' reply (blocks _ _ _ _ _ _ p _) n = ground arith

-- A call that has not published, because it returns an error or a duplicate or because it waits, has
-- left no trace but in queues: the keys, the cache, the topics, the flags and the limits are as before.
pub publish_failed :
    (c : Choices) (context : Option ContextError) (e : Event) (b : Broker)
    → (publish_with_result c context e b).1 ≢ replies published none
    → let b' = (publish_with_result c context e b).0 in
      Keeps b b' × (b'.dedup ≡ b.dedup) × (b'.cache ≡ b.cache)
publish_failed c context e b =
    failed-Keeps c context e b _ _ (publish_with_result-Outcome c context e b)
