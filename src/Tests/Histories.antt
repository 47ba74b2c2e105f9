-- ===== src/Tests/Histories.antt =====
-- The theorems on histories applied to short ones.
use distributed_event_bus.Prelude.{
  ◌≡◌, refl, List, [], ◌∷◌, none, some, arith, get_elem?, ok, lookup, insert, contains, add,
  text_eq, keep_last,
}
use distributed_event_bus.Broker.Event.{Event, event_key}
use distributed_event_bus.Broker.State.{Broker, new, at}
use distributed_event_bus.Broker.Memory.{seen, remember, cache_event}
use distributed_event_bus.Broker.Subscription.{enqueue, subscribe, new_subscription, receive}
use distributed_event_bus.Broker.Publish.{publish_with_result}
use distributed_event_bus.Broker.Order.{Calls, publishes, reads, no_calls, and_then, Becomes}
use distributed_event_bus.Broker.OrderLaws.{reads_in_order}
use distributed_event_bus.Broker.Outage.{
  Publishes, none_published, one_more, outage_caches, outage_replays,
}
use distributed_event_bus.Broker.Reach.{starts, goes_on, subscribes, Reach-IsSound}
use distributed_event_bus.Broker.Invariant.Defs.{IsSound}
use distributed_event_bus.Tests.Samples.{
  jobs, event, plain, plain-IsRange, small, started, subscribed, subscription, after_publish,
}

subscribed-IsSound : IsSound subscribed
unfolding new
subscribed-IsSound = Reach-IsSound {config = small} (goes_on starts (subscribes jobs (omega arith)))

started-IsSound : IsSound started
started-IsSound = Reach-IsSound {config = small} starts

-- Two events are published and one is read.
abbrev read_once : Broker
read_once = (receive 0 (after_publish 2 (after_publish 1 subscribed))).0

two_and_one : Calls 0 jobs subscribed (event 1 ∷ event 2 ∷ []) (event 1 ∷ []) read_once
unfolding new subscribe publish_with_result lookup insert contains text_eq event_key seen enqueue
    remember add receive
two_and_one =
    and_then
      (and_then (and_then no_calls (publishes plain none (event 1) plain-IsRange))
        (publishes plain none (event 2) plain-IsRange))
      reads

reads_in_order_example :
    Becomes read_once.heap 0 (subscription []) (event 1 ∷ event 2 ∷ []) (event 1 ∷ [])
    × IsSound read_once
unfolding new subscribe lookup
reads_in_order_example = reads_in_order (subscription []) two_and_one subscribed-IsSound refl refl

abbrev two : List Event
two = event 1 ∷ event 2 ∷ []

two_published : Publishes jobs started two (after_publish 2 (after_publish 1 started))
unfolding new publish_with_result lookup insert contains text_eq event_key seen remember add
    cache_event
two_published =
    one_more (event 2) plain none
      (one_more (event 1) plain none none_published plain-IsRange refl refl) plain-IsRange refl refl

outage_caches_example : at jobs (after_publish 2 (after_publish 1 started)).cache ≡ keep_last 2 two
unfolding new lookup
outage_caches_example = outage_caches two_published started-IsSound refl (omega arith)

outage_replays_example :
    let b = after_publish 2 (after_publish 1 started) in
    ((subscribe jobs b).1 ≡ ok 0)
    × (get_elem? (subscribe jobs b).0.heap 0 ≡ some (subscription two))
    × (at jobs (subscribe jobs b).0.cache ≡ [])
unfolding new publish_with_result lookup insert contains text_eq event_key seen remember add
    cache_event new_subscription
outage_replays_example =
    outage_replays two_published started-IsSound (refl, refl) refl refl (omega arith) (omega arith)
      (omega arith)
