-- ===== src/Broker/Delivery.antt =====
-- Whom `PublishWithResult` reaches, in terms of the subscriptions themselves.
use mathlib.Core.Option.{some-injective}
use distributed_event_bus.Prelude.{
  ℕ, ◌≡◌, refl, sym, ap, ◌∙◌, subst, Bool, true, false, not, ◌&&◌, List, [], ◌∷◌, Text, Option,
  none, some, get_elem?, All, Map, contains, nat_key, nat_eq, nat_eq_iff, text_key, text_eq,
  text_eq_iff, arith, if◌then◌else◌, Bool-cases, inl, inr, contains-Perm, Distinct-Perm,
}
use distributed_event_bus.Broker.Event.{Event, event_key}
use distributed_event_bus.Broker.State.{Broker, Subscription, ContextError, at}
use distributed_event_bus.Broker.Memory.{cache_event}
use distributed_event_bus.Broker.Subscription.{push}
use distributed_event_bus.Broker.Publish.{
  Choices, Reply, replies, published, publish_with_result, refs,
}
use distributed_event_bus.Broker.PublishCases.{
  Outcome, rejects_closed, rejects_draining, is_duplicate, caches, delivers, stops, blocks,
  publish_with_result-Outcome,
}
use distributed_event_bus.Broker.PublishLaws.{remember_only, cache_event_only}
use distributed_event_bus.Broker.FanOutLaws.{fan_out_all}
use distributed_event_bus.Broker.Invariant.Defs.{
  Standing, standing, standings, IsEntry, IsSound, IsRange,
}
use distributed_event_bus.Broker.Invariant.Standings.{get_elem?-standings}
use distributed_event_bus.Broker.Invariant.Topics.{Subscribers-at}

-- An entry that is listed is the standing that it leads to.
pub listed-standing :
    (ss : List Standing) (topic : Text) (subs : Map ℕ ℕ) (r : ℕ) (st : Standing)
    → All (IsEntry ss topic) subs
    → get_elem? ss r ≡ some st
    → contains r (refs subs) ≡ true
    → (st.closed ≡ false) × (st.topic ≡ topic)
unfolding contains
listed-standing ss topic [] r st h g c = absurd (cc)
listed-standing ss topic ((id, q) ∷ subs) r st h g c = elim (Bool-cases (nat_eq q r)) [
  | inl same ↦
      let e : st ≡ record { topic = topic; id = id; closed = false } =
        some-injective _ _
          (sym g ∙ ap (get_elem? ss) (sym ((nat_eq_iff q r).0 same)) ∙ h.0.found) in
      (ap (λ (x : Standing). x.closed) e, ap (λ (x : Standing). x.topic) e)
  | inr other ↦ listed-standing ss topic subs r st h.1 g (ground arith)
]

-- The topic's entries are the open subscriptions of the topic.
pub is_listed :
    (b : Broker) (topic : Text) (r : ℕ) (s : Subscription)
    → IsSound b
    → get_elem? b.heap r ≡ some s
    → contains r (refs (at topic b.topics)) ≡ (not s.closed && text_eq s.topic topic)
is_listed b topic r s sound g = elim (Bool-cases (contains r (refs (at topic b.topics)))) [
  | inl listed ↦
      let (open', same) =
        listed-standing (standings b.heap) topic (at topic b.topics) r (standing s)
          (Subscribers-at (standings b.heap) topic b.topics sound.layout.routes).0
          (get_elem?-standings b.heap r s g) listed in
      ground (arith, text_eq_iff s.topic topic)
  | inr missing ↦ rw missing (unlisted missing s.closed (text_eq s.topic topic) refl refl)
]
  where
    unlisted :
        contains r (refs (at topic b.topics)) ≡ false
        → (x y : Bool) → s.closed ≡ x
        → text_eq s.topic topic ≡ y
        → false ≡ (not x && y)
    unlisted m true y e f = ground arith
    unlisted m false false e f = refl
    unlisted m false true e f =
        let found : contains r (refs (at s.topic b.topics)) ≡ true =
          sound.layout.complete r s.topic s.id (get_elem?-standings b.heap r s g ∙ rw e) in
        absurd (cc (m, found, (text_eq_iff s.topic topic).0 f))

reached :
    (c : Choices) (context : Option ContextError) (e : Event) (b b' : Broker) (reply : Reply)
    → IsRange c
    → IsSound b
    → Outcome c context e b b' reply
    → reply ≡ replies published none
    → (r : ℕ) (s : Subscription) → get_elem? b.heap r ≡ some s
    → get_elem? b'.heap r ≡ some (if not s.closed && text_eq s.topic e.topic then push e s else s)
reached c context e b b' reply range sound (rejects_closed _ _ q) t r s g = absurd (cc)
reached c context e b b' reply range sound (rejects_draining _ _ _ q) t r s g = absurd (cc)
reached c context e b b' reply range sound (is_duplicate _ _ _ q) t r s g = absurd (cc)
reached c context e b b' reply range sound (stops _ _ _ _ _ _ q) t r s g = absurd (cc)
reached c context e b b' reply range sound (blocks _ _ _ _ _ _ _ q) t r s g = absurd (cc)
reached c context e b b' reply range sound (caches _ _ v p q) t r s g =
    let subs = refs (at e.topic b.topics) in
    let unlisted : contains r subs ≡ false =
      sym (contains-Perm r (c.visit subs) subs (range.visits subs))
      ∙ rw v (unfold contains in refl) in
    let same : b'.heap ≡ b.heap =
      ap (λ (x : Broker). x.heap) p
      ∙ ap (λ (x : Broker). x.heap)
          (remember_only c.victims e.topic (event_key e) (cache_event e b))
      ∙ ap (λ (x : Broker). x.heap) (cache_event_only e b) in
    rw (same, sym (is_listed b e.topic r s sound g), unlisted) g
reached c context e b b' reply range sound (delivers _ _ _ heap sent p q) t r s g =
    let subs = refs (at e.topic b.topics) in
    let once =
      Distinct-Perm (c.visit subs) subs (range.visits subs)
        (Subscribers-at (standings b.heap) e.topic b.topics sound.layout.routes).1 in
    let same : b'.heap ≡ heap =
      ap (λ (x : Broker). x.heap) p
      ∙ ap (λ (x : Broker). x.heap)
          (remember_only c.victims e.topic (event_key e) (record b { heap = heap })) in
    rw
      (
        same,
        sym (is_listed b e.topic r s sound g),
        sym (contains-Perm r (c.visit subs) subs (range.visits subs)),
      )
      (fan_out_all c context b.config.backpressure e (c.visit subs) b.heap heap once sent r s g)

-- On a sound broker, a call that publishes an event without an error, in whatever order Go visits
-- the subscribers, has put it, once, at the end of the queue of every open subscription of its
-- topic, and has changed no other subscription.
pub publish_reaches :
    (c : Choices) (context : Option ContextError) (e : Event) (b b' : Broker)
    → IsRange c
    → IsSound b
    → publish_with_result c context e b ≡ (b', replies published none)
    → (r : ℕ) (s : Subscription) → get_elem? b.heap r ≡ some s
    → get_elem? b'.heap r ≡ some (if not s.closed && text_eq s.topic e.topic then push e s else s)
publish_reaches c context e b b' range sound h r s g =
    reached c context e b b' _ range sound
      (subst (λ (x : Broker × Reply). Outcome c context e b x.0 x.1) h
        (publish_with_result-Outcome c context e b))
      refl r s g
