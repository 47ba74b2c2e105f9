-- ===== src/Broker/Openness.antt =====
-- Which subscriptions are open after an operation of the broker.
use mathlib.Core.Option.{some-injective}
use distributed_event_bus.Prelude.{
  ℕ, suc, ◌+◌, ◌%◌, ◌^◌, ◌≡◌, ◌≢◌, refl, sym, ap, ◌∙◌, subst, ◌⊎◌, inl, inr, true, false, List, [],
  ◌∷◌, ◌++◌, zero, ltb, take, Text, Option, some, ok, err, length, set, get_elem?, nat_eq,
  nat_eq_iff, nat_key, text_key, arith, All-get_elem?, Bool-cases, Option-cases, get_elem?-set_self,
  get_elem?-set_ne, if◌then◌else◌,
}
use distributed_event_bus.Broker.Event.{Event, event_key}
use distributed_event_bus.Broker.State.{Broker, Subscription, ContextError, Error, at}
use distributed_event_bus.Broker.Memory.{cache_event}
use distributed_event_bus.Broker.Subscription.{
  close_queue, close_subscription, new_subscription, receive, receive_from, replay, subscribe,
}
use distributed_event_bus.Broker.Publish.{Choices, FanOut, Reply, publish_with_result}
use distributed_event_bus.Broker.PublishCases.{
  Outcome, rejects_closed, rejects_draining, is_duplicate, caches, delivers, stops, blocks, sends,
  visited, remembers, publish_with_result-Outcome,
}
use distributed_event_bus.Broker.PublishLaws.{remember_only, cache_event_only}
use distributed_event_bus.Broker.SubscribeLaws.{subscribe_refused, subscribe_form}
use distributed_event_bus.Broker.OrderLaws.{
  receive_form, receive_missing, close_subscription-heap, close_subscription_missing,
}
use distributed_event_bus.Broker.Invariant.Defs.{IsQueue, Standing, standing, standings, IsSound}
use distributed_event_bus.Broker.Invariant.Calls.{fan_out-queues, close_queue-IsQueue}
use distributed_event_bus.Broker.Invariant.Standings.{
  get_elem?-standings, standings-set, standings-set_same, standings-append, standings-get_elem?,
  get_elem?-lt, length-standings, get_elem?-append_end,
}

-- There is an open subscription to the topic at `r`.
pub record IsOpenAt (heap : List Subscription) (r : ℕ) (topic : Text) : Type 0 where
  pub open_id : ℕ
  pub stands :
      get_elem? (standings heap) r ≡ some (record { topic = topic; id = open_id; closed = false })

pub publish-standings :
    (c : Choices) (context : Option ContextError) (e : Event) (b : Broker)
    → IsSound b
    → standings (publish_with_result c context e b).0.heap ≡ standings b.heap
publish-standings c context e b sound =
    ends (publish_with_result c context e b).0 (publish_with_result c context e b).1
      (publish_with_result-Outcome c context e b)
  where
    sent :
        (heap : List Subscription) (out : FanOut)
        → sends c context e b ≡ (heap, out)
        → standings heap ≡ standings b.heap
    sent heap out h =
        ap (λ (x : List Subscription × FanOut). standings x.0) (sym h)
        ∙ (fan_out-queues c context b.config.backpressure e (visited c e b) b.config.queue_size
            b.heap sound.queues).1

    kept : (b1 : Broker) → standings (remembers c e b1).heap ≡ standings b1.heap
    kept b1 =
        ap (λ (x : Broker). standings x.heap) (remember_only c.victims e.topic (event_key e) b1)

    ends :
        (b' : Broker) (reply : Reply)
        → Outcome c context e b b' reply
        → standings b'.heap ≡ standings b.heap
    ends b' reply (rejects_closed _ p _) = rw p refl
    ends b' reply (rejects_draining _ _ p _) = rw p refl
    ends b' reply (is_duplicate _ _ p _) = rw p refl
    ends b' reply (caches _ _ _ p _) =
        rw p (kept (cache_event e b) ∙ ap (λ (x : Broker). standings x.heap) (cache_event_only e b))
    ends b' reply (delivers _ _ _ heap h p _) =
        rw p (kept (record b { heap = heap }) ∙ sent heap _ h)
    ends b' reply (stops _ _ heap _ h p _) = rw p (sent heap _ h)
    ends b' reply (blocks _ _ heap _ _ h p _) = rw p (sent heap _ h)

receive_from-standing : (s : Subscription) → standing (receive_from s).0 ≡ standing s
unfolding receive_from
receive_from-standing s = ground arith

pub receive-standings : (r : ℕ) (b : Broker) → standings (receive r b).0.heap ≡ standings b.heap
receive-standings r b = elim (Option-cases (get_elem? b.heap r)) [
  | inl e ↦ rw (receive_missing r b e) refl
  | inr (s, e) ↦
      rw (receive_form r b s e)
        (standings-set_same b.heap r s (receive_from s).0 e (receive_from-standing s))
]

-- Something open after a closed entry was written stood there before, elsewhere.
set-opens :
    (ss : List Standing) (q r : ℕ) (shut x m : Standing)
    → get_elem? ss q ≡ some x
    → shut.closed ≡ true
    → m.closed ≡ false
    → get_elem? (set ss q shut) r ≡ some m
    → (get_elem? ss r ≡ some m) × (q ≢ r)
set-opens ss q r shut x m h c open' g = elim (Bool-cases (nat_eq q r)) [
  | inl same ↦
      let e : q ≡ r = (nat_eq_iff q r).0 same in
      let g' : get_elem? (set ss q shut) q ≡ some m =
        subst (λ n. get_elem? (set ss q shut) n ≡ some m) (sym e) g in
      let here =
        some-injective _ _ (sym (get_elem?-set_self ss q shut (get_elem?-lt ss q x h)) ∙ g') in
      absurd (cc (c, open', here))
  | inr other ↦
      let n : q ≢ r = λ e. cc (other, (nat_eq_iff q r).1 e) in
      (sym (get_elem?-set_ne ss q r shut n) ∙ g, n)
]

-- What is open after a subscription is closed was open before, and is another one.
pub close_subscription-opens :
    (q r : ℕ) (topic : Text) (b : Broker)
    → IsSound b
    → IsOpenAt (close_subscription q b).heap r topic
    → IsOpenAt b.heap r topic × (q ≢ r)
close_subscription-opens q r topic b sound o = elim (Option-cases (get_elem? b.heap q)) [
  | inl e ↦
      let o' =
        subst (λ (x : Broker). IsOpenAt x.heap r topic) (close_subscription_missing q b e) o in
      let (x, g, _) = standings-get_elem? b.heap r _ o'.stands in (o', λ same. cc (e, g, same))
  | inr (s, e) ↦
      let shut = close_queue true s in
      let (_, c, _) =
        close_queue-IsQueue true b.config.queue_size s
          (All-get_elem? (IsQueue b.config.queue_size) b.heap q s sound.queues e) in
      let after : standings (close_subscription q b).heap
          ≡ set (standings b.heap) q (standing shut) =
        ap standings (close_subscription-heap q b s e) ∙ standings-set b.heap q shut in
      let (g, n) =
        set-opens (standings b.heap) q r (standing shut) (standing s) _
          (get_elem?-standings b.heap q s e) c refl
          (ap (λ (x : List Standing). get_elem? x r) (sym after) ∙ o.stands) in
      (record { open_id = o.open_id; stands = g }, n)
]

replay-standings :
    (topic : Text) (q : ℕ) (s : Subscription) (b : Broker)
    → get_elem? b.heap q ≡ some s
    → standings (replay topic q s b).heap ≡ standings b.heap
unfolding replay
replay-standings topic q s b g =
    let cached = at topic b.cache in
    let count = if ltb s.capacity (length cached) then s.capacity else length cached in
    ground (
      arith,
      standings-set_same b.heap q s (record s { events = s.events ++ take count cached }) g refl,
    )

pub last-or_before {ℓ} :
    {A : Type ℓ} (xs : List A) (a m : A) (r : ℕ)
    → get_elem? (xs ++ (a ∷ [])) r ≡ some m
    → ((r ≡ length xs) × (m ≡ a)) ⊎ (get_elem? xs r ≡ some m)
last-or_before [] a m zero g = inl (refl, sym (some-injective _ _ g))
last-or_before [] a m (suc r) g = absurd (cc)
last-or_before (x ∷ xs) a m zero g = inr g
last-or_before (x ∷ xs) a m (suc r) g = elim (last-or_before xs a m r g) [
  | inl (e, f) ↦ inl (ap suc e, f)
  | inr h ↦ inr h
]

-- `Subscribe` fails and changes nothing, or enters one open subscription to the topic behind the others.
pub data Subscribes (t : Text) (b : Broker) : Type 0 where
  subscribe_fails : subscribe t b ≡ (b, err Error.closed) → Subscribes t b
  enters :
      (b' : Broker) (id : ℕ)
      → subscribe t b ≡ (b', ok (length b.heap))
      → standings b'.heap ≡ standings b.heap ++ (record { topic = t; id = id; closed = false } ∷ [])
      → b.closed ≡ false
      → b.draining ≡ false
      → Subscribes t b

pub subscribe-Subscribes : (t : Text) (b : Broker) → Subscribes t b
unfolding new_subscription
subscribe-Subscribes t b = elim (Bool-cases b.closed) [
  | inl shut ↦ subscribe_fails (subscribe_refused t b (inl shut))
  | inr live ↦ elim (Bool-cases b.draining) [
    | inl shut ↦ subscribe_fails (subscribe_refused t b (inr shut))
    | inr open' ↦
        let s = new_subscription t ((b.sequence + 1) % 2 ^ 64) b.config.queue_size in
        enters _ ((b.sequence + 1) % 2 ^ 64) (subscribe_form t b live open')
          (replay-standings t (length b.heap) s _ (get_elem?-append_end b.heap s)
            ∙ standings-append b.heap s)
          live open'
  ]
]

-- What is open afterwards is the new subscription or was open before.
pub enters-opens :
    (t : Text) (id r : ℕ) (topic : Text) (b b' : Broker)
    → standings b'.heap ≡ standings b.heap ++ (record { topic = t; id = id; closed = false } ∷ [])
    → IsOpenAt b'.heap r topic
    → ((r ≡ length b.heap) × (topic ≡ t)) ⊎ IsOpenAt b.heap r topic
enters-opens t id r topic b b' h o =
    elim (last-or_before (standings b.heap) (record { topic = t; id = id; closed = false }) _ r
      (ap (λ (x : List Standing). get_elem? x r) (sym h) ∙ o.stands)) [
        | inl (e, f) ↦ inl (e ∙ length-standings b.heap, ap (λ (x : Standing). x.topic) f)
        | inr g ↦ inr (record { open_id = o.open_id; stands = g })
      ]
