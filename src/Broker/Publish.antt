-- ===== src/Broker/Publish.antt =====
-- broker/broker.go: `PublishWithResult`, `Close` and `Drain`.
use distributed_event_bus.Prelude.{
  ℕ, zero, suc, Bool, true, false, not, ◌&&◌, List, [], ◌∷◌, ◌++◌, Text, Option, none, some, length,
  ◌==◌, set, get_elem?, if◌then◌else◌, Map, text_key, nat_key,
}
use distributed_event_bus.Broker.Event.{Event, event_key}
use distributed_event_bus.Broker.State.{
  Broker, Subscription, BackpressurePolicy, Error, ContextError, context_done, at,
}
use distributed_event_bus.Broker.State
use distributed_event_bus.Broker.Memory.{seen, remember, cache_event}
use distributed_event_bus.Broker.Subscription.{
  queued, refused, waits, enqueue, close_queue, close_subscription, receive,
}

-- `PublishResult`
pub data PublishResult : Type 0 where
  published duplicate : PublishResult

-- The references in a map of subscriptions.
abbrev pub refs : Map ℕ ℕ → List ℕ
refs [] = []
refs ((id, r) ∷ subs) = r ∷ refs subs

-- What Go leaves open in a call: the order in which each `range` visits its map, and, for each
-- subscription, which ready case the last `select` of `enqueue` takes.
pub record Choices : Type 0 where
  pub visit : List ℕ → List ℕ
  pub victims : List Text → List Text
  pub take_context : ℕ → Bool

-- What `PublishWithResult` finds under its first lock: it returns, or it has copied the subscribers.
pub data Admission : Type 0 where
  returns : PublishResult → Option Error → Broker → Admission
  fans_out : List ℕ → Admission

unfoldable pub admit : Choices → Event → Broker → Admission
admit c event b =
    if b.closed
    then returns published (some Error.closed) b
    else if b.draining
    then returns published (some Error.draining) b
    else if not (length (event_key event) == 0) && seen b event.topic (event_key event)
    then returns duplicate none b
    else elim (c.visit (refs (at event.topic b.topics))) [
      | [] ↦
          returns published none
            (remember c.victims event.topic (event_key event) (cache_event event b))
      | r ∷ rs ↦ fans_out (r ∷ rs)
    ]

-- How the loop over the subscribers ends: every queue has the event, one refused it, or the
-- goroutine waits at one. `faults` is a nil dereference, for a reference that is not in the heap.
pub data FanOut : Type 0 where
  all_queued : FanOut
  stopped : Error → FanOut
  waiting : FanOut
  faults : FanOut

unfoldable pub fan_out :
    Choices
    → Option ContextError
    → BackpressurePolicy
    → Event
    → List ℕ
    → List Subscription
    → List Subscription × FanOut
fan_out c context policy event [] heap = (heap, all_queued)
fan_out c context policy event (r ∷ rs) heap = elim (get_elem? heap r) [
  | none ↦ (heap, faults)
  | some s ↦ elim (enqueue (c.take_context r) context policy event s) [
    | queued s' ↦ fan_out c context policy event rs (set heap r s')
    | refused e ↦ (heap, stopped e)
    | waits ↦ (heap, waiting)
  ]
]

-- How a call ends: it returns, or it waits for room in a queue.
pub data Reply : Type 0 where
  replies : PublishResult → Option Error → Reply
  blocked : Reply

-- `PublishWithResult`, run with nothing in between.
unfoldable pub publish_with_result : Choices → Option ContextError → Event → Broker → Broker × Reply
unfolding admit fan_out
publish_with_result c context event b = elim (admit c event b) [
  | returns result failure b' ↦ (b', replies result failure)
  | fans_out subscribers ↦
      let (heap, outcome) = fan_out c context b.config.backpressure event subscribers b.heap in
      let b' = record b { heap = heap } in
      elim outcome [
        | all_queued ↦ (remember c.victims event.topic (event_key event) b', replies published none)
        | stopped e ↦ (b', replies published (some e))
        | waiting ↦ (b', blocked)
        | faults ↦ (b', blocked)
      ]
]

-- `Publish`
unfoldable pub publish :
    Choices → Option ContextError → Event → Broker → Broker × Option (Option Error)
publish c context event b =
    let (b', reply) = publish_with_result c context event b in
    (b', elim reply [ replies _ failure ↦ some failure | blocked ↦ none ])

-- `Close` on one subscription after another.
unfoldable pub close_all : List ℕ → List Subscription → List Subscription
close_all [] heap = heap
close_all (r ∷ rs) heap = elim (get_elem? heap r) [
  | none ↦ close_all rs heap
  | some s ↦ close_all rs (set heap r (close_queue false s))
]

abbrev pub all_refs : Map Text (Map ℕ ℕ) → List ℕ
all_refs [] = []
all_refs ((topic, subs) ∷ rest) = refs subs ++ all_refs rest

-- `Broker.Close`
unfoldable pub close : Choices → Broker → Broker
unfolding close_all
close c b = if b.closed then b else record b {
  closed = true;
  topics = [];
  heap = close_all (c.visit (all_refs b.topics)) b.heap;
}

-- What happens while `Drain` waits for its ticker: the reader takes some events and the ticker fires,
-- or the context ends.
pub data Wakeup : Type 0 where
  ticks : ℕ → Wakeup
  context_ends : ContextError → Wakeup

pub data DrainResult : Type 0 where
  drained : DrainResult
  drain_failed : ContextError → DrainResult
  still_draining : DrainResult

-- The reader takes `n` events.
unfoldable pub receive_many : ℕ → ℕ → Broker → Broker
receive_many zero r b = b
receive_many (suc n) r b = receive_many n r (receive r b).0

-- `Drain` through a sequence of wake-ups; the list ends where nothing has woken it yet.
unfoldable pub drain : ℕ → List Wakeup → Broker → Broker × DrainResult
unfolding receive_many
drain r [] b =
    if State.pending_at b.heap r == 0
    then (close_subscription r b, drained)
    else (b, still_draining)
drain r (ticks n ∷ ws) b =
    let later = drain r ws (receive_many n r b) in
    if State.pending_at b.heap r == 0 then (close_subscription r b, drained) else later
drain r (context_ends e ∷ ws) b =
    if State.pending_at b.heap r == 0
    then (close_subscription r b, drained)
    else (b, drain_failed e)
