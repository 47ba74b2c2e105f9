-- ===== src/Broker/Order.antt =====
-- What one subscriber reads, over a history of calls.
use mathlib.Core.List.{Sublistᴰ}
use mathlib.Core.List.Sublistᴰ
use distributed_event_bus.Prelude.{
  ℕ, ◌-◌, ◌^◌, ◌<◌, ◌≡◌, ◌≢◌, refl, sym, ap, ◌∙◌, subst, true, List, [], ◌∷◌, ◌++◌, Text, Option,
  some, length, set, get_elem?, contains, Distinct, nat_key, nat_eq, nat_eq_iff, text_key, text_eq,
  text_eq_iff, arith, if◌then◌else◌, Bool-cases, ◌⊎◌, inl, inr, Distinct-Perm, contains-Perm,
  get_elem?-set_self, get_elem?-set_ne, append-nil,
}
use distributed_event_bus.Broker.Event.{Event, event_key}
use distributed_event_bus.Broker.State.{
  Broker, Subscription, BackpressurePolicy, ContextError, at, begin_shutdown,
}
use distributed_event_bus.Broker.Subscription.{
  push, subscribe, close_subscription, Received, received, ended, nothing, receive,
}
use distributed_event_bus.Broker.Publish.{
  Choices, FanOut, fan_out, Reply, replies, blocked, published, duplicate, publish_with_result,
  close, refs,
}
use distributed_event_bus.Broker.Memory.{cache_event}
use distributed_event_bus.Broker.PublishCases.{
  Outcome, rejects_closed, rejects_draining, is_duplicate, caches, delivers, stops, blocks, sends,
}
use distributed_event_bus.Broker.PublishLaws.{remember_only, cache_event_only}
use distributed_event_bus.Broker.FanOutLaws.{fan_out-Round, halts, goes_on, fan_out_other}
use distributed_event_bus.Broker.Delivery.{listed-standing}
use distributed_event_bus.Broker.Invariant.Defs.{standing, standings, IsSound, IsRange}
use distributed_event_bus.Broker.Invariant.Standings.{get_elem?-standings, get_elem?-lt}
use distributed_event_bus.Broker.Invariant.Topics.{Subscribers-at}

-- The event of a call, if it is of the topic and the reply does not call it a duplicate.
abbrev pub offered : Text → Event → Reply → List Event
offered topic e (replies duplicate _) = []
offered topic e (replies published _) = if text_eq topic e.topic then e ∷ [] else []
offered topic e blocked = if text_eq topic e.topic then e ∷ [] else []

-- What a read takes.
abbrev pub taken : Received → List Event
taken (received e) = e ∷ []
taken ended = []
taken nothing = []

-- One call, seen by the reader of the subscription `r` of a topic: the events that it offers to the
-- topic, and those that the reader takes. `Drain` only looks at the queue while the reader takes
-- events, and then calls `Subscription.Close`, so that its parts are calls of this kind.
pub data Call (r : ℕ) (topic : Text) (b : Broker) : List Event → List Event → Broker → Type 0 where
  publishes :
      (c : Choices) (context : Option ContextError) (e : Event)
      → IsRange c
      → Call r topic b
          (offered topic e (publish_with_result c context e b).1)
          []
          (publish_with_result c context e b).0
  reads : Call r topic b [] (taken (receive r b).1) (receive r b).0
  another_reads : (q : ℕ) → q ≢ r → Call r topic b [] [] (receive q b).0
  subscribes : (t : Text) → length b.heap < 2 ^ 64 - 1 → Call r topic b [] [] (subscribe t b).0
  closes_subscription : (q : ℕ) → Call r topic b [] [] (close_subscription q b)
  begins_shutdown : Call r topic b [] [] (begin_shutdown b)
  closes : (c : Choices) → IsRange c → Call r topic b [] [] (close c b)

-- A history of calls, the last one outermost.
pub data Calls (r : ℕ) (topic : Text) (b : Broker) : List Event → List Event → Broker → Type 0 where
  no_calls : Calls r topic b [] [] b
  and_then :
      {b1 b2 : Broker} {offers offer reads read : List Event}
      → Calls r topic b offers reads b1
      → Call r topic b1 offer read b2
      → Calls r topic b (offers ++ offer) (reads ++ read) b2

-- What one call makes of a subscription.
pub record Becomes (heap' : List Subscription) (r : ℕ) (s : Subscription) (offer read : List Event)
    : Type 0 where
  pub after : Subscription
  pub found : get_elem? heap' r ≡ some after
  pub same_topic : after.topic ≡ s.topic
  pub in_order : Sublistᴰ (read ++ after.events) (s.events ++ offer)

pub unchanged :
    (heap' : List Subscription) (r : ℕ) (s : Subscription) (offer : List Event)
    → get_elem? heap' r ≡ some s
    → Becomes heap' r s offer []
unchanged heap' r s offer g = record {
  after = s;
  found = g;
  same_topic = refl;
  in_order =
      subst (λ xs. Sublistᴰ xs (s.events ++ offer)) (append-nil s.events)
        (Sublistᴰ.append (Sublistᴰ.refl s.events) (Sublistᴰ.nil-sublist offer));
}

-- The fan-out puts the event into a queue at most once.
fan_out-some :
    (c : Choices) (context : Option ContextError) (policy : BackpressurePolicy) (e : Event)
    (rs : List ℕ) (heap : List Subscription) (r : ℕ) (s : Subscription)
    → Distinct rs
    → get_elem? heap r ≡ some s
    → (get_elem? (fan_out c context policy e rs heap).0 r ≡ some s)
      ⊎ ((contains r rs ≡ true)
          × (get_elem? (fan_out c context policy e rs heap).0 r ≡ some (push e s)))
unfolding contains
fan_out-some c context policy e [] heap r s d g = unfold fan_out in (inl g)
fan_out-some c context policy e (x ∷ rs) heap r s d g =
    elim (fan_out-Round c context policy e x rs heap) [
      | halts out n q ↦ rw q (inl g)
      | goes_on t t_at _ _ q ↦ elim (Bool-cases (nat_eq x r)) [
        | inl same ↦
            let e1 : x ≡ r = (nat_eq_iff x r).0 same in
            let here =
              fan_out_other c context policy e rs (set heap x (push e t)) x d.0
              ∙ get_elem?-set_self heap x (push e t) (get_elem?-lt heap x t t_at) in
            inr (ground arith, rw q (cc))
        | inr other ↦
            rw q
              (elim (fan_out-some c context policy e rs (set heap x (push e t)) r s d.1
                (get_elem?-set_ne heap x r (push e t) (ground (arith, nat_eq_iff x r)) ∙ g)) [
                  | inl k ↦ inl k
                  | inr (m, k) ↦ inr (ground arith, k)
                ])
      ]
    ]

pub called :
    (c : Choices) (context : Option ContextError) (e : Event) (b b' : Broker) (reply : Reply)
    → IsRange c
    → IsSound b
    → Outcome c context e b b' reply
    → (r : ℕ) (s : Subscription) → get_elem? b.heap r ≡ some s
    → Becomes b'.heap r s (offered s.topic e reply) []
called c context e b b' reply range sound out r s g = ends b' reply out
  where
    sent :
        (heap : List Subscription) (to : FanOut)
        → sends c context e b ≡ (heap, to)
        → Becomes heap r s (if text_eq s.topic e.topic then e ∷ [] else []) []
    sent heap to h =
        let subs = at e.topic b.topics in
        let mine = Subscribers-at (standings b.heap) e.topic b.topics sound.layout.routes in
        let once =
          Distinct-Perm (c.visit (refs subs)) (refs subs) (range.visits (refs subs)) mine.1 in
        let same = ap (λ (x : List Subscription × FanOut). x.0) h in
        elim (fan_out-some c context b.config.backpressure e (c.visit (refs subs)) b.heap r s once
          g) [
            | inl k ↦ unchanged heap r s _ (subst (λ x. get_elem? x r ≡ some s) same k)
            | inr (there, k) ↦
                let (_, topic) =
                  listed-standing (standings b.heap) e.topic subs r (standing s) mine.0
                    (get_elem?-standings b.heap r s g)
                    (sym (
                        contains-Perm r (c.visit (refs subs)) (refs subs)
                          (range.visits (refs subs)))
                      ∙ there) in
                record {
                  after = push e s;
                  found = subst (λ x. get_elem? x r ≡ some (push e s)) same k;
                  same_topic = refl;
                  in_order =
                      rw ((text_eq_iff s.topic e.topic).1 topic)
                        (Sublistᴰ.refl (s.events ++ (e ∷ [])));
                }
          ]

    ends :
        (b' : Broker) (reply : Reply)
        → Outcome c context e b b' reply
        → Becomes b'.heap r s (offered s.topic e reply) []
    ends b' reply (rejects_closed _ p _) = unchanged b'.heap r s _ (rw p g)
    ends b' reply (rejects_draining _ _ p _) = unchanged b'.heap r s _ (rw p g)
    ends b' reply (is_duplicate _ _ p _) = unchanged b'.heap r s _ (rw p g)
    ends b' reply (caches _ _ _ p _) = unchanged b'.heap r s _ (
        rw
          (p, remember_only c.victims e.topic (event_key e) (cache_event e b), cache_event_only e b)
          g)
    ends b' reply (delivers _ _ _ heap h p q) =
        rw (p, q, remember_only c.victims e.topic (event_key e) (record b { heap = heap }))
          (sent heap _ h)
    ends b' reply (stops _ _ heap _ h p q) = rw (p, q) (sent heap _ h)
    ends b' reply (blocks _ _ heap _ _ h p q) = rw (p, q) (sent heap _ h)
