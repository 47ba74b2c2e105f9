-- ===== src/Tests/Broker.antt =====
-- The broker's theorems applied to the small broker.
use mathlib.Core.Option.{some-injective, none-ne-some}
use distributed_event_bus.Prelude.{
  zero, suc, subst, ◌<◌, ℕ, ◌≤◌, ◌≡◌, ◌≢◌, refl, true, false, [], ◌∷◌, none, some, arith, length,
  get_elem?, ok, ◌*◌, lookup, insert, contains, add, text_eq,
}
use distributed_event_bus.Broker.Event.{event_key}
use distributed_event_bus.Broker.State.{
  Broker, Subscription, BackpressurePolicy, Error, canceled, at, new, state,
}
use distributed_event_bus.Broker.Memory.{seen, remember, cache_event}
use distributed_event_bus.Broker.Subscription.{enqueue, close_queue, subscribe, new_subscription}
use distributed_event_bus.Broker.Publish.{
  all_refs, Reply, replies, published, duplicate, publish_with_result, close, drain, drained,
  drain_failed, ticks, context_ends,
}
use distributed_event_bus.Broker.PublishLaws.{publish_twice, publish_failed, Keeps}
use distributed_event_bus.Broker.Delivery.{publish_reaches}
use distributed_event_bus.Broker.Success.{publish_succeeds}
use distributed_event_bus.Broker.Waiting.{publish_waits, IsStuck}
use distributed_event_bus.Broker.SubscribeLaws.{subscribe_replays}
use distributed_event_bus.Broker.Drain.{drain_finishes, drain_fails}
use distributed_event_bus.Broker.SnapshotLaws.{state_bounded, waiting_at, all_cached}
use distributed_event_bus.Broker.Reach.{
  Reach, starts, goes_on, subscribes, publishes, Reach-IsSound,
}
use distributed_event_bus.Broker.Invariant.Defs.{IsSound}
use distributed_event_bus.Broker.Invariant.Closing.{close_closes}
use distributed_event_bus.Tests.Samples.{
  jobs, news, event, plain, plain-IsRange, small, started, subscribed, subscription, after_publish,
}

subscribed-Reach : Reach small subscribed
unfolding new
subscribed-Reach = goes_on starts (subscribes jobs (omega arith))

one_published-Reach : Reach small (after_publish 1 subscribed)
one_published-Reach = goes_on subscribed-Reach (publishes plain none (event 1) plain-IsRange)

full-Reach : Reach small (after_publish 2 (after_publish 1 subscribed))
full-Reach = goes_on one_published-Reach (publishes plain none (event 2) plain-IsRange)

Reach-IsSound_example : IsSound (after_publish 1 subscribed)
Reach-IsSound_example = Reach-IsSound one_published-Reach

publish_reaches_example :
    get_elem? (after_publish 1 subscribed).heap 0 ≡ some (subscription (event 1 ∷ []))
unfolding new subscribe publish_with_result lookup insert contains text_eq event_key seen enqueue
publish_reaches_example =
    publish_reaches plain none (event 1) subscribed (after_publish 1 subscribed) plain-IsRange
      (Reach-IsSound subscribed-Reach) refl 0 (subscription []) refl

publish_twice_example :
    publish_with_result plain (some canceled) (event 1) (after_publish 1 subscribed)
    ≡ (after_publish 1 subscribed, replies duplicate none)
unfolding new subscribe publish_with_result lookup insert contains text_eq event_key seen enqueue
publish_twice_example =
    publish_twice plain plain none (some canceled) (event 1) (event 1) subscribed
      (after_publish 1 subscribed) refl refl refl (omega arith) (omega arith)

-- The queue is full: with a canceled context the third event is refused.
abbrev full : Broker
full = after_publish 2 (after_publish 1 subscribed)

errors_differ :
    (r : Reply) (e : Error) → r ≡ replies published (some e) → r ≢ replies published none
errors_differ r e p = λ q. cc

publish_failed_example :
    let b' = (publish_with_result plain (some canceled) (event 3) full).0 in
    Keeps full b' × (b'.dedup ≡ full.dedup) × (b'.cache ≡ full.cache)
unfolding new subscribe publish_with_result lookup insert contains text_eq event_key seen enqueue
    remember add
publish_failed_example =
    publish_failed plain (some canceled) (event 3) full
      (errors_differ _ (Error.context_done canceled) refl)

publish_waits_example :
    (r : ℕ) × (s : Subscription) × (get_elem? (after_publish 3 full).heap r ≡ some s)
    × (s.topic ≡ jobs)
    × IsStuck none BackpressurePolicy.block s
unfolding new subscribe publish_with_result lookup insert contains text_eq event_key seen enqueue
    remember add
publish_waits_example =
    publish_waits plain none (event 3) full (after_publish 3 full) plain-IsRange
      (Reach-IsSound full-Reach) refl

-- Two events wait in the cache for a subscriber of `jobs`, and none for one of `news`.
abbrev cached : Broker
cached = after_publish 2 (after_publish 1 started)

subscribe_replays_example :
    let b' = (subscribe jobs cached).0 in
    ((subscribe jobs cached).1 ≡ ok 0)
    × (get_elem? b'.heap 0 ≡ some (subscription (event 1 ∷ event 2 ∷ [])))
    × (at news b'.cache ≡ [])
unfolding new subscribe publish_with_result lookup insert contains text_eq event_key seen enqueue
    remember add cache_event new_subscription
subscribe_replays_example = subscribe_replays jobs news cached refl refl

drain_finishes_example :
    ((drain 0 (ticks 1 ∷ ticks 0 ∷ ticks 5 ∷ []) full).1 ≡ drained)
    × (get_elem? (drain 0 (ticks 1 ∷ ticks 0 ∷ ticks 5 ∷ []) full).0.heap 0
        ≡ some (close_queue true (subscription [])))
unfolding new subscribe publish_with_result lookup insert contains text_eq event_key seen enqueue
    remember add
drain_finishes_example =
    drain_finishes 0 (1 ∷ 0 ∷ 5 ∷ []) full (subscription (event 1 ∷ event 2 ∷ [])) refl
      (omega arith)

drain_fails_example :
    ((drain 0 (ticks 1 ∷ context_ends canceled ∷ []) full).1 ≡ drain_failed canceled)
    × (get_elem? (drain 0 (ticks 1 ∷ context_ends canceled ∷ []) full).0.heap 0
        ≡ some (subscription (event 2 ∷ [])))
unfolding new subscribe publish_with_result lookup insert contains text_eq event_key seen enqueue
    remember add
drain_fails_example =
    drain_fails 0 (1 ∷ []) canceled full (subscription (event 1 ∷ event 2 ∷ [])) refl (omega arith)

close_closes_example :
    get_elem? (close plain full).heap 0
    ≡ some (record (subscription []) {
      once_done = true;
      closed = true;
      done_closed = true;
      events_closed = true;
    })
unfolding new subscribe publish_with_result lookup insert contains text_eq event_key seen enqueue
    remember add
close_closes_example =
    close_closes plain full 0 (subscription (event 1 ∷ event 2 ∷ [])) plain-IsRange
      (Reach-IsSound full-Reach) refl refl

state_bounded_example :
    ((state full).topics ≡ length full.topics)
    × ((state full).subscriptions ≡ length (all_refs full.topics))
    × ((state full).pending_events ≡ length (waiting_at full.heap (all_refs full.topics)))
    × ((state full).cached_events ≡ length (all_cached full.cache))
    × ((state full).topics ≤ (state full).subscriptions)
    × ((state full).pending_events ≤ (state full).subscriptions * full.config.queue_size)
    × ((state full).cached_events ≤ length full.cache * full.config.cache_size)
state_bounded_example = state_bounded full (Reach-IsSound full-Reach)

-- The one subscription has one free place.
has_place :
    (r : ℕ) (s : Subscription)
    → get_elem? (after_publish 1 subscribed).heap r ≡ some s
    → s.closed ≡ false
    → s.topic ≡ jobs
    → length s.events < s.capacity
unfolding new subscribe publish_with_result lookup insert contains text_eq event_key seen enqueue
    remember add
has_place zero s g c t =
    let same : subscription (event 1 ∷ []) ≡ s = some-injective _ _ g in
    subst (λ (x : Subscription). length x.events < x.capacity) same (omega arith)
has_place (suc r) s g c t = absurd (none-ne-some _ g)

publish_succeeds_example :
    (publish_with_result plain none (event 2) (after_publish 1 subscribed)).1
    ≡ replies published none
unfolding new subscribe publish_with_result lookup insert contains text_eq event_key seen enqueue
    remember add
publish_succeeds_example =
    publish_succeeds plain (event 2) (after_publish 1 subscribed) plain-IsRange
      (Reach-IsSound one_published-Reach) (refl, refl) refl has_place
