-- ===== src/Broker/Reach.antt =====
-- Histories of a broker: its calls in any order, from `New` on.
use distributed_event_bus.Prelude.{
  ℕ, zero, suc, ◌==◌, Bool-cases, inl, inr, ◌-◌, ◌^◌, ◌<◌, List, [], ◌∷◌, Text, Option, length,
}
use distributed_event_bus.Broker.Event.{Event}
use distributed_event_bus.Broker.State.{
  Broker, Subscription, Config, ContextError, new, begin_shutdown, at, state, Snapshot, ℤ, pos,
  BackpressurePolicy,
}
use distributed_event_bus.Broker.State
use distributed_event_bus.Broker.Subscription.{subscribe, close_subscription, receive}
use distributed_event_bus.Broker.Publish.{
  Choices, publish_with_result, close, Wakeup, ticks, context_ends, drain, receive_many,
}
use distributed_event_bus.Broker.Invariant.Defs.{IsSound, IsRange}
use distributed_event_bus.Broker.Invariant.Calls.{
  new-IsSound, publish-IsSound, receive-IsSound, begin_shutdown-IsSound, close_subscription-IsSound,
}
use distributed_event_bus.Broker.Invariant.Subscribing.{subscribe-IsSound}
use distributed_event_bus.Broker.Invariant.Closing.{close-IsSound}

-- One call, with the state that it leaves. Fewer than 2 ^ 64 - 1 subscriptions are ever made.
pub data Step (b : Broker) : Broker → Type 0 where
  subscribes : (topic : Text) → length b.heap < 2 ^ 64 - 1 → Step b (subscribe topic b).0
  publishes :
      (c : Choices) (context : Option ContextError) (e : Event)
      → IsRange c
      → Step b (publish_with_result c context e b).0
  receives : (r : ℕ) → Step b (receive r b).0
  closes_subscription : (r : ℕ) → Step b (close_subscription r b)
  drains : (r : ℕ) (ws : List Wakeup) → Step b (drain r ws b).0
  begins_shutdown : Step b (begin_shutdown b)
  closes : (c : Choices) → IsRange c → Step b (close c b)

pub data Reach (config : Config) : Broker → Type 0 where
  starts : Reach config (new config)
  goes_on : {b b' : Broker} → Reach config b → Step b b' → Reach config b'

pub receive_many-IsSound : (n r : ℕ) (b : Broker) → IsSound b → IsSound (receive_many n r b)
unfolding receive_many
receive_many-IsSound zero r b s = s
receive_many-IsSound (suc n) r b s =
    receive_many-IsSound n r (receive r b).0 (receive-IsSound r b s)

pub drain-IsSound : (r : ℕ) (ws : List Wakeup) (b : Broker) → IsSound b → IsSound (drain r ws b).0
unfolding drain
drain-IsSound r [] b s = elim (Bool-cases (State.pending_at b.heap r == 0)) [
  | inl empty ↦ rw empty (close_subscription-IsSound r b s)
  | inr more ↦ rw more s
]
drain-IsSound r (ticks n ∷ ws) b s = elim (Bool-cases (State.pending_at b.heap r == 0)) [
  | inl empty ↦ rw empty (close_subscription-IsSound r b s)
  | inr more ↦ rw more (drain-IsSound r ws (receive_many n r b) (receive_many-IsSound n r b s))
]
drain-IsSound r (context_ends e ∷ ws) b s = elim (Bool-cases (State.pending_at b.heap r == 0)) [
  | inl empty ↦ rw empty (close_subscription-IsSound r b s)
  | inr more ↦ rw more s
]

pub Step-IsSound : {b b' : Broker} → Step b b' → IsSound b → IsSound b'
Step-IsSound {b} (subscribes topic few) s = subscribe-IsSound topic b few s
Step-IsSound {b} (publishes c context e range) s = publish-IsSound c context e b range s
Step-IsSound {b} (receives r) s = receive-IsSound r b s
Step-IsSound {b} (closes_subscription r) s = close_subscription-IsSound r b s
Step-IsSound {b} (drains r ws) s = drain-IsSound r ws b s
Step-IsSound {b} begins_shutdown s = begin_shutdown-IsSound b s
Step-IsSound {b} (closes c range) s = close-IsSound c b range s

-- After any history of calls that makes fewer than 2 ^ 64 - 1 subscriptions, whichever order Go
-- visits its maps in, as long as it visits every entry once, and however a wait ends: every queue,
-- cached list and set of keys is within its limit, topics lead to open subscriptions only, each
-- once, and every open subscription is found under its topic.
pub Reach-IsSound : {config : Config} {b : Broker} → Reach config b → IsSound b
Reach-IsSound {config} starts = new-IsSound config
Reach-IsSound (goes_on r st) = Step-IsSound st (Reach-IsSound r)
