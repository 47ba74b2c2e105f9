-- ===== src/Broker/PublishCases.antt =====
-- The ways in which `PublishWithResult` ends, as a case analysis for the proofs about it.
use distributed_event_bus.Prelude.{
  ℕ, ◌≡◌, refl, Bool, true, false, not, ◌&&◌, List, [], ◌∷◌, Option, none, some, length, ◌==◌,
  text_key, arith, Bool-cases, ◌⊎◌, ◌≢◌, inl, inr,
}
use distributed_event_bus.Broker.Event.{Event, event_key}
use distributed_event_bus.Broker.State.{Broker, Subscription, Error, ContextError, at}
use distributed_event_bus.Broker.Memory.{seen, remember, cache_event}
use distributed_event_bus.Broker.Publish.{
  Choices, FanOut, all_queued, stopped, waiting, faults, fan_out, published, duplicate, Reply,
  replies, blocked, publish_with_result, refs,
}

-- Neither closed nor draining.
abbrev pub IsOpen : Broker → Type 0
IsOpen b = (b.closed ≡ false) × (b.draining ≡ false)

-- The broker knows the key of the event.
abbrev pub is_known : Broker → Event → Bool
is_known b e = not (length (event_key e) == 0) && seen b e.topic (event_key e)

-- The event's subscribers, as Go visits them.
abbrev pub visited : Choices → Event → Broker → List ℕ
visited c e b = c.visit (refs (at e.topic b.topics))

abbrev pub sends : Choices → Option ContextError → Event → Broker → List Subscription × FanOut
sends c context e b = fan_out c context b.config.backpressure e (visited c e b) b.heap

abbrev pub remembers : Choices → Event → Broker → Broker
remembers c e b = remember c.victims e.topic (event_key e) b

pub data Outcome (c : Choices) (context : Option ContextError) (e : Event) (b b' : Broker)
    (reply : Reply) : Type 0 where
  rejects_closed :
      b.closed ≡ true
      → b' ≡ b
      → reply ≡ replies published (some Error.closed)
      → Outcome c context e b b' reply
  rejects_draining :
      b.closed ≡ false
      → b.draining ≡ true
      → b' ≡ b
      → reply ≡ replies published (some Error.draining)
      → Outcome c context e b b' reply
  is_duplicate :
      IsOpen b
      → is_known b e ≡ true
      → b' ≡ b
      → reply ≡ replies duplicate none
      → Outcome c context e b b' reply
  caches :
      IsOpen b
      → is_known b e ≡ false
      → visited c e b ≡ []
      → b' ≡ remembers c e (cache_event e b)
      → reply ≡ replies published none
      → Outcome c context e b b' reply
  delivers :
      IsOpen b
      → is_known b e ≡ false
      → visited c e b ≢ []
      → (heap : List Subscription) → sends c context e b ≡ (heap, all_queued)
      → b' ≡ remembers c e (record b { heap = heap })
      → reply ≡ replies published none
      → Outcome c context e b b' reply
  stops :
      IsOpen b
      → is_known b e ≡ false
      → (heap : List Subscription) (err : Error) → sends c context e b ≡ (heap, stopped err)
      → b' ≡ record b { heap = heap }
      → reply ≡ replies published (some err)
      → Outcome c context e b b' reply
  blocks :
      IsOpen b
      → is_known b e ≡ false
      → (heap : List Subscription) (out : FanOut) → (out ≡ waiting) ⊎ (out ≡ faults)
      → sends c context e b ≡ (heap, out)
      → b' ≡ record b { heap = heap }
      → reply ≡ blocked
      → Outcome c context e b b' reply

module _ (c : Choices) (context : Option ContextError) (e : Event) (b : Broker) where
  Ends : Broker × Reply → Type 0
  Ends r = Outcome c context e b r.0 r.1

  after_sends :
      IsOpen b
      → is_known b e ≡ false
      → (r : ℕ) (rs : List ℕ) → visited c e b ≡ r ∷ rs
      → (res : List Subscription × FanOut) → sends c context e b ≡ res
      → Outcome c context e b
          (publish_with_result c context e b).0
          (publish_with_result c context e b).1
  unfolding publish_with_result
  after_sends o k r rs v (heap, all_queued) s =
      delivers o k (λ n. cc) heap s (ground arith) (ground arith)
  after_sends o k r rs v (heap, stopped err) s = stops o k heap err s (ground arith) (ground arith)
  after_sends o k r rs v (heap, waiting) s =
      blocks o k heap waiting (inl refl) s (ground arith) (ground arith)
  after_sends o k r rs v (heap, faults) s =
      blocks o k heap faults (inr refl) s (ground arith) (ground arith)

  after_lock :
      IsOpen b
      → is_known b e ≡ false
      → (rs : List ℕ) → visited c e b ≡ rs
      → Outcome c context e b
          (publish_with_result c context e b).0
          (publish_with_result c context e b).1
  unfolding publish_with_result
  after_lock o k [] v = caches o k v (ground arith) (ground arith)
  after_lock o k (r ∷ rs) v = after_sends o k r rs v (sends c context e b) refl

  pub publish_with_result-Outcome :
      Outcome c context e b
        (publish_with_result c context e b).0
        (publish_with_result c context e b).1
  unfolding publish_with_result
  publish_with_result-Outcome = elim (Bool-cases b.closed) [
    | inl x ↦ rejects_closed x (ground arith) (ground arith)
    | inr x ↦ elim (Bool-cases b.draining) [
      | inl y ↦ rejects_draining x y (ground arith) (ground arith)
      | inr y ↦ elim (Bool-cases (is_known b e)) [
        | inl z ↦ is_duplicate (x, y) z (ground arith) (ground arith)
        | inr z ↦ after_lock (x, y) z (visited c e b) refl
      ]
    ]
  ]
