-- ===== src/Broker/SnapshotLaws.antt =====
-- The numbers of `Broker.State`.
use distributed_event_bus.Prelude.{
  ℕ, suc, ◌+◌, ◌*◌, ◌≤◌, ◌≡◌, refl, sym, ap, ◌++◌, none, some, length-append, true, false, List, [],
  ◌∷◌, Text, length, get_elem?, All, All-get_elem?, Map, arith, Option-cases, inl, inr,
}
use distributed_event_bus.Broker.Event.{Event}
use distributed_event_bus.Broker.State.{
  Broker, Subscription, state, pending_at, pending_in, pending_events, subscriptions_in,
  cached_events,
}
use distributed_event_bus.Broker.Publish.{Choices, close, refs, all_refs}
use distributed_event_bus.Broker.Invariant.Defs.{IsQueue, IsTopic, IsCached, IsSound, standings}
use distributed_event_bus.Broker.Invariant.Closing.{closed_form}

one_times : (n m : ℕ) → suc n * m ≡ m + n * m
one_times n m = ground arith

sum_times : (n k m : ℕ) → (n + k) * m ≡ n * m + k * m
sum_times n k m = ground arith

pending_at_le :
    (size r : ℕ) (heap : List Subscription) → All (IsQueue size) heap → pending_at heap r ≤ size
unfolding pending_at
pending_at_le size r heap h = elim (Option-cases (get_elem? heap r)) [
  | inl e ↦ rw (e, pending_at) (omega arith)
  | inr (s, e) ↦
      let q = All-get_elem? (IsQueue size) heap r s h e in
      rw (e, pending_at) (rw (sym q.sized) q.bounded)
]

pending_in_le :
    (size : ℕ) (heap : List Subscription) (subs : Map ℕ ℕ)
    → All (IsQueue size) heap
    → pending_in heap subs ≤ length subs * size
unfolding pending_in
pending_in_le size heap [] h = omega arith
pending_in_le size heap ((id, r) ∷ subs) h = omega (
  arith,
  one_times (length subs) size,
  pending_at_le size r heap h,
  pending_in_le size heap subs h,
)

pending_events_le :
    (size : ℕ) (heap : List Subscription) (topics : Map Text (Map ℕ ℕ))
    → All (IsQueue size) heap
    → pending_events heap topics ≤ subscriptions_in topics * size
unfolding pending_events subscriptions_in
pending_events_le size heap [] h = omega arith
pending_events_le size heap ((topic, subs) ∷ rest) h = omega (
  arith,
  sum_times (length subs) (subscriptions_in rest) size,
  pending_in_le size heap subs h,
  pending_events_le size heap rest h,
)

cached_events_le :
    (size : ℕ) (cache : Map Text (List Event))
    → All (IsCached size) cache
    → cached_events cache ≤ length cache * size
unfolding cached_events
cached_events_le size [] h = omega arith
cached_events_le size ((topic, es) ∷ rest) h =
    omega (arith, one_times (length rest) size, h.0.cached_le, cached_events_le size rest h.1)

topics_le :
    (b : Broker) (topics : Map Text (Map ℕ ℕ))
    → All (IsTopic (standings b.heap)) topics
    → length topics ≤ subscriptions_in topics
unfolding subscriptions_in
topics_le b [] h = omega arith
topics_le b ((topic, subs) ∷ rest) h = omega (arith, h.0.inhabited, topics_le b rest h.1)

-- The events in the queues of some subscriptions, one queue behind the other.
abbrev pub waiting_at : List Subscription → List ℕ → List Event
waiting_at heap [] = []
waiting_at heap (r ∷ rs) =
    elim (get_elem? heap r) [ none ↦ [] | some s ↦ s.events ] ++ waiting_at heap rs

-- The events of all cached lists.
abbrev pub all_cached : Map Text (List Event) → List Event
all_cached [] = []
all_cached ((topic, events) ∷ rest) = events ++ all_cached rest

subscriptions_in-refs :
    (topics : Map Text (Map ℕ ℕ)) → subscriptions_in topics ≡ length (all_refs topics)
unfolding subscriptions_in
subscriptions_in-refs [] = refl
subscriptions_in-refs ((topic, subs) ∷ rest) =
    omega (
      arith,
      length-refs subs,
      length-append (refs subs) (all_refs rest),
      subscriptions_in-refs rest,
    )
  where
    length-refs : (subs : Map ℕ ℕ) → length (refs subs) ≡ length subs
    length-refs [] = refl
    length-refs ((id, r) ∷ subs) = ap suc (length-refs subs)

waiting_at-append :
    (heap : List Subscription) (rs qs : List ℕ)
    → length (waiting_at heap (rs ++ qs))
      ≡ length (waiting_at heap rs) + length (waiting_at heap qs)
waiting_at-append heap [] qs = omega arith
waiting_at-append heap (r ∷ rs) qs = omega (
  arith,
  length-append (elim (get_elem? heap r) [ none ↦ [] | some s ↦ s.events ])
      (waiting_at heap (rs ++ qs)),
  length-append (elim (get_elem? heap r) [ none ↦ [] | some s ↦ s.events ]) (waiting_at heap rs),
  waiting_at-append heap rs qs,
)

pending_at-queue :
    (heap : List Subscription) (r : ℕ)
    → pending_at heap r ≡ length (elim (get_elem? heap r) [ none ↦ [] | some s ↦ s.events ])
unfolding pending_at
pending_at-queue heap r = ground arith

pending_in-waiting :
    (heap : List Subscription) (subs : Map ℕ ℕ)
    → pending_in heap subs ≡ length (waiting_at heap (refs subs))
unfolding pending_in
pending_in-waiting heap [] = refl
pending_in-waiting heap ((id, r) ∷ subs) = omega (
  arith,
  pending_at-queue heap r,
  pending_in-waiting heap subs,
  length-append (elim (get_elem? heap r) [ none ↦ [] | some s ↦ s.events ])
      (waiting_at heap (refs subs)),
)

pending_events-waiting :
    (heap : List Subscription) (topics : Map Text (Map ℕ ℕ))
    → pending_events heap topics ≡ length (waiting_at heap (all_refs topics))
unfolding pending_events
pending_events-waiting heap [] = refl
pending_events-waiting heap ((topic, subs) ∷ rest) = omega (
  arith,
  pending_in-waiting heap subs,
  pending_events-waiting heap rest,
  waiting_at-append heap (refs subs) (all_refs rest),
)

cached_events-all_cached :
    (cache : Map Text (List Event)) → cached_events cache ≡ length (all_cached cache)
unfolding cached_events
cached_events-all_cached [] = refl
cached_events-all_cached ((topic, es) ∷ rest) =
    omega (arith, length-append es (all_cached rest), cached_events-all_cached rest)

-- What `State` reports of a sound broker: as many topics and subscriptions as there are, as many pending
-- events as wait in the queues of those subscriptions and as many cached events as the cache holds; and
-- no more topics than subscriptions, and no more events than the queues and the cached lists have room
-- for.
pub state_bounded :
    (b : Broker)
    → IsSound b
    → ((state b).topics ≡ length b.topics)
      × ((state b).subscriptions ≡ length (all_refs b.topics))
      × ((state b).pending_events ≡ length (waiting_at b.heap (all_refs b.topics)))
      × ((state b).cached_events ≡ length (all_cached b.cache))
      × ((state b).topics ≤ (state b).subscriptions)
      × ((state b).pending_events ≤ (state b).subscriptions * b.config.queue_size)
      × ((state b).cached_events ≤ length b.cache * b.config.cache_size)
unfolding state
state_bounded b sound = (
  refl,
  subscriptions_in-refs b.topics,
  pending_events-waiting b.heap b.topics,
  cached_events-all_cached b.cache,
  topics_le b b.topics sound.layout.routes,
  pending_events_le b.config.queue_size b.heap b.topics sound.queues,
  cached_events_le b.config.cache_size b.cache sound.cache_bounded,
)

-- `Close` on an open broker leaves no topic, no subscription and no pending event to report, and
-- reports the broker as closed; what was cached is still reported, and whether it was draining.
close_reports :
    (c : Choices) (b : Broker)
    → b.closed ≡ false
    → state (close c b)
      ≡ record (state b) { closed = true; topics = 0; subscriptions = 0; pending_events = 0 }
unfolding state subscriptions_in pending_events
close_reports c b live = rw (closed_form c b live) refl
