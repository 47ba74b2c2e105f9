-- ===== src/Broker/Invariant/Calls.antt =====
-- Every operation of the broker keeps the invariant.
use distributed_event_bus.Prelude.{
  ℕ, ◌<◌, ◌≡◌, refl, sym, ap, ◌∙◌, subst, Bool, true, false, List, [], ◌∷◌, Text, Option, none,
  some, length, set, get_elem?, All, nat_key, text_key, arith, All-set, All-get_elem?,
  length-append,
}
use distributed_event_bus.Broker.Event.{Event, event_key}
use distributed_event_bus.Broker.State.{
  Broker, Subscription, BackpressurePolicy, ContextError, Config, new, at, begin_shutdown,
}
use distributed_event_bus.Broker.Memory.{remember, cache_event}
use distributed_event_bus.Broker.Subscription.{
  close_queue, push, close_subscription, receive, receive_from,
}
use distributed_event_bus.Broker.Publish.{
  Choices, FanOut, fan_out, Reply, publish_with_result, refs,
}
use distributed_event_bus.Broker.PublishCases.{
  Outcome, rejects_closed, rejects_draining, is_duplicate, caches, delivers, stops, blocks,
  publish_with_result-Outcome,
}
use distributed_event_bus.Broker.PublishLaws.{
  remember-Keeps, cache_event-Keeps, remember_only, cache_event_only,
}
use distributed_event_bus.Broker.FanOutLaws.{fan_out-Round, halts, goes_on}
use distributed_event_bus.Broker.Invariant.Defs.{
  IsQueue, standing, standings, IsCached, IsRemembered, IsLayout, IsSound, IsRange,
}
use distributed_event_bus.Broker.Invariant.Memory.{remember-bounded, cache_event-bounded}
use distributed_event_bus.Broker.Invariant.Standings.{
  get_elem?-standings, standings-set, standings-set_same,
}
use distributed_event_bus.Broker.Invariant.Layout.{IsLayout-unregister}

-- `New` starts with the invariant, whatever the configuration.
pub new-IsSound : (c : Config) → IsSound (new c)
unfolding new
new-IsSound c = record {
  queues = tt;
  layout = record {
    routes = tt;
    topics_once = tt;
    ids = tt;
    sequence_counts = refl;
    complete = λ r topic id h. absurd (cc);
  };
  cache_bounded = tt;
  memory_bounded = tt;
}

-- A change of queues that keeps the standings.
pub with_heap-IsSound :
    (b : Broker) (heap : List Subscription)
    → IsSound b
    → All (IsQueue b.config.queue_size) heap
    → standings heap ≡ standings b.heap
    → IsSound (record b { heap = heap })
with_heap-IsSound b heap s q e = record {
  queues = q;
  layout = subst (λ ss. IsLayout ss b.topics b.sequence) (sym e) s.layout;
  cache_bounded = s.cache_bounded;
  memory_bounded = s.memory_bounded;
}

push-IsQueue :
    (size : ℕ) (e : Event) (s : Subscription)
    → length s.events < s.capacity
    → IsQueue size s
    → IsQueue size (push e s)
push-IsQueue size e s room q = record {
  sized = q.sized;
  bounded = omega (arith, length-append s.events (e ∷ []));
  once_agrees = q.once_agrees;
  done_agrees = q.done_agrees;
  events_agree = q.events_agree;
}

-- The fan-out keeps every queue within its capacity, and no standing changes.
pub fan_out-queues :
    (c : Choices) (context : Option ContextError) (policy : BackpressurePolicy) (e : Event)
    (rs : List ℕ) (size : ℕ) (heap : List Subscription)
    → All (IsQueue size) heap
    → All (IsQueue size) (fan_out c context policy e rs heap).0
      × (standings (fan_out c context policy e rs heap).0 ≡ standings heap)
fan_out-queues c context policy e [] size heap q = unfold fan_out in (q, refl)
fan_out-queues c context policy e (r ∷ rs) size heap q =
    elim (fan_out-Round c context policy e r rs heap) [
      | halts out _ h ↦ rw h (q, refl)
      | goes_on s g room _ h ↦
          let q' =
            All-set (IsQueue size) heap r (push e s) q
              (push-IsQueue size e s room (All-get_elem? (IsQueue size) heap r s q g)) in
          let (k, l) = fan_out-queues c context policy e rs size (set heap r (push e s)) q' in
          rw h (k, l ∙ standings-set_same heap r s (push e s) g refl)
    ]

pub remember-IsSound :
    (c : Choices) (topic id : Text) (b : Broker)
    → IsRange c
    → IsSound b
    → IsSound (remember c.victims topic id b)
remember-IsSound c topic id b range s =
    let keeps = remember-Keeps c.victims topic id b in
    subst IsSound (sym (remember_only c.victims topic id b)) (record {
      queues = s.queues;
      layout = s.layout;
      cache_bounded = s.cache_bounded;
      memory_bounded =
          subst (λ n. All (IsRemembered n.deduplication_size) (remember c.victims topic id b).dedup)
            keeps.config (remember-bounded c.victims topic id b range.sees s.memory_bounded);
    })

cache_event-IsSound : (e : Event) (b : Broker) → IsSound b → IsSound (cache_event e b)
cache_event-IsSound e b s = subst IsSound (sym (cache_event_only e b)) (record {
  queues = s.queues;
  layout = s.layout;
  cache_bounded =
      subst (λ n. All (IsCached n.cache_size) (cache_event e b).cache)
        (cache_event-Keeps e b).config (cache_event-bounded e b s.cache_bounded);
  memory_bounded = s.memory_bounded;
})

-- `PublishWithResult` keeps the invariant on every branch, errors and waits included.
pub publish-IsSound :
    (c : Choices) (context : Option ContextError) (e : Event) (b : Broker)
    → IsRange c
    → IsSound b
    → IsSound (publish_with_result c context e b).0
publish-IsSound c context e b range s =
    ends (publish_with_result c context e b).0 (publish_with_result c context e b).1
      (publish_with_result-Outcome c context e b)
  where
    sent :
        (heap : List Subscription) (out : FanOut)
        → fan_out c context b.config.backpressure e (c.visit (refs (at e.topic b.topics))) b.heap
          ≡ (heap, out)
        → IsSound (record b { heap = heap })
    sent heap out h =
        let (q, l) =
          fan_out-queues c context b.config.backpressure e (c.visit (refs (at e.topic b.topics)))
            b.config.queue_size b.heap s.queues in
        let same = ap (λ (x : List Subscription × FanOut). x.0) h in
        with_heap-IsSound b heap s (subst (All (IsQueue b.config.queue_size)) same q)
          (ap standings (sym same) ∙ l)

    ends : (b' : Broker) (reply : Reply) → Outcome c context e b b' reply → IsSound b'
    ends b' reply (rejects_closed _ p _) = subst IsSound (sym p) s
    ends b' reply (rejects_draining _ _ p _) = subst IsSound (sym p) s
    ends b' reply (is_duplicate _ _ p _) = subst IsSound (sym p) s
    ends b' reply (caches _ _ _ p _) = subst IsSound (sym p) (
        remember-IsSound c e.topic (event_key e) (cache_event e b) range
          (cache_event-IsSound e b s))
    ends b' reply (delivers _ _ _ heap h p _) =
        subst IsSound (sym p) (
          remember-IsSound c e.topic (event_key e) (record b { heap = heap }) range (sent heap _ h))
    ends b' reply (stops _ _ heap _ h p _) = subst IsSound (sym p) (sent heap _ h)
    ends b' reply (blocks _ _ heap _ _ h p _) = subst IsSound (sym p) (sent heap _ h)

receive_from-IsQueue :
    (size : ℕ) (s : Subscription)
    → IsQueue size s
    → IsQueue size (receive_from s).0 × (standing (receive_from s).0 ≡ standing s)
unfolding receive_from
receive_from-IsQueue size s q = ground arith

-- So does a reader that takes the next event.
pub receive-IsSound : (r : ℕ) (b : Broker) → IsSound b → IsSound (receive r b).0
unfolding receive
receive-IsSound r b s = found (get_elem? b.heap r) refl
  where
    found : (o : Option Subscription) → get_elem? b.heap r ≡ o → IsSound (receive r b).0
    found none g = rw (g, receive) s
    found (some t) g =
        let (q, l) =
          receive_from-IsQueue b.config.queue_size t
            (All-get_elem? (IsQueue b.config.queue_size) b.heap r t s.queues g) in
        rw (g, receive)
          (with_heap-IsSound b (set b.heap r (receive_from t).0) s
            (All-set (IsQueue b.config.queue_size) b.heap r (receive_from t).0 s.queues q)
            (standings-set_same b.heap r t (receive_from t).0 g l))

pub begin_shutdown-IsSound : (b : Broker) → IsSound b → IsSound (begin_shutdown b)
unfolding begin_shutdown
begin_shutdown-IsSound b s = record {
  queues = s.queues;
  layout = s.layout;
  cache_bounded = s.cache_bounded;
  memory_bounded = s.memory_bounded;
}

pub close_queue-IsQueue :
    (drain : Bool) (size : ℕ) (s : Subscription)
    → IsQueue size s
    → IsQueue size (close_queue drain s)
      × ((close_queue drain s).closed ≡ true)
      × ((close_queue drain s).id ≡ s.id)
unfolding close_queue
close_queue-IsQueue true size s q = ground arith
close_queue-IsQueue false size s q = ground arith

-- `Subscription.Close`
pub close_subscription-IsSound : (r : ℕ) (b : Broker) → IsSound b → IsSound (close_subscription r b)
unfolding close_subscription
close_subscription-IsSound r b s = found (get_elem? b.heap r) refl
  where
    found : (o : Option Subscription) → get_elem? b.heap r ≡ o → IsSound (close_subscription r b)
    found none g = rw (g, close_subscription) s
    found (some t) g =
        let (q, c, i) =
          close_queue-IsQueue true b.config.queue_size t
            (All-get_elem? (IsQueue b.config.queue_size) b.heap r t s.queues g) in
        rw (g, close_subscription)
          (record {
            queues = All-set (IsQueue b.config.queue_size) b.heap r (close_queue true t) s.queues q;
            layout = rw (standings-set b.heap r (close_queue true t)) (
                IsLayout-unregister (standings b.heap) b.topics b.sequence r (standing t)
                  (standing (close_queue true t)) s.layout (get_elem?-standings b.heap r t g) i c);
            cache_bounded = s.cache_bounded;
            memory_bounded = s.memory_bounded;
          })
