-- ===== src/Broker/Interleaving.antt =====
-- broker/broker.go: publishes that run at the same time. `PublishWithResult` holds the broker's lock while
-- it tests the key and copies the subscribers, again while it stores the key, and in between the lock of
-- one subscription after another; other calls may run wherever it holds none.
use distributed_event_bus.Prelude.{ℕ, ◌≡◌, List, [], ◌∷◌, Option, none, some, set, get_elem?}
use distributed_event_bus.Broker.Event.{Event, event_key}
use distributed_event_bus.Broker.State.{Broker, Subscription, Error, ContextError}
use distributed_event_bus.Broker.Memory.{remember}
use distributed_event_bus.Broker.Subscription.{enqueue, queued, refused}
use distributed_event_bus.Broker.Publish.{
  Choices, PublishResult, published, Admission, returns, fans_out, admit,
}
use distributed_event_bus.Broker.Invariant.Defs.{IsRange}
use distributed_event_bus.Broker.Reach

-- Where a call stands: before its first lock, in the loop with the subscribers that are left, or at its
-- end.
pub data Place : Type 0 where
  enters : Place
  in_loop : List ℕ → Place
  ended : PublishResult → Option Error → Place

pub record Call : Type 0 where
  pub event : Event
  pub place : Place

pub record System : Type 0 where
  pub broker : Broker
  pub calls : List Call

abbrev pub move : ℕ → Event → Place → Broker → System → System
move i event place b s = record {
  broker = b;
  calls = set s.calls i (record { event = event; place = place });
}

-- The part under the first lock.
unfoldable pub admitted : ℕ → Event → Admission → System → System
admitted i event (returns result failure b') s = move i event (ended result failure) b' s
admitted i event (fans_out subscribers) s = move i event (in_loop subscribers) s.broker s

-- The part under the second lock.
unfoldable pub remembered : Choices → ℕ → Event → System → System
remembered c i event s =
    move i event (ended published none) (remember c.victims event.topic (event_key event) s.broker)
      s

-- The call `i` is at a place.
pub record Stands (s : System) (i : ℕ) (event : Event) (place : Place) : Type 0 where
  pub at : get_elem? s.calls i ≡ some (record { event = event; place = place })

-- One part of one call. A call that waits for room makes no step.
pub data Step (s : System) : System → Type 0 where
  admits :
      (c : Choices) (i : ℕ) (event : Event)
      → IsRange c
      → Stands s i event enters
      → Step s (admitted i event (admit c event s.broker) s)
  enqueues :
      (c : Choices) (context : Option ContextError) (i : ℕ) (event : Event) (r : ℕ) (rs : List ℕ)
      (sub sub' : Subscription)
      → Stands s i event (in_loop (r ∷ rs))
      → get_elem? s.broker.heap r ≡ some sub
      → enqueue (c.take_context r) context s.broker.config.backpressure event sub ≡ queued sub'
      → Step s (move i event (in_loop rs) (record s.broker { heap = set s.broker.heap r sub' }) s)
  stops :
      (c : Choices) (context : Option ContextError) (i : ℕ) (event : Event) (r : ℕ) (rs : List ℕ)
      (sub : Subscription) (e : Error)
      → Stands s i event (in_loop (r ∷ rs))
      → get_elem? s.broker.heap r ≡ some sub
      → enqueue (c.take_context r) context s.broker.config.backpressure event sub ≡ refused e
      → Step s (move i event (ended published (some e)) s.broker s)
  remembers :
      (c : Choices) (i : ℕ) (event : Event)
      → IsRange c
      → Stands s i event (in_loop [])
      → Step s (remembered c i event s)
  meanwhile : {b' : Broker} → Reach.Step s.broker b' → Step s (record s { broker = b' })

pub data Steps : System → System → Type 0 where
  no_steps : {s : System} → Steps s s
  and_then : {s s' s'' : System} → Steps s s' → Step s' s'' → Steps s s''
