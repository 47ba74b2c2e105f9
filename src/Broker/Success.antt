-- ===== src/Broker/Success.antt =====
-- When a call of `PublishWithResult` is sure to publish.
use distributed_event_bus.Prelude.{
  ℕ, ◌<◌, ◌≡◌, refl, sym, ap, ◌∙◌, Bool, true, false, List, [], ◌∷◌, Text, none, some, length, set,
  get_elem?, All, All-get_elem?, Map, contains, nat_key, nat_eq, nat_eq_iff, text_key, arith,
  Bool-cases, inl, inr, contains-Perm, Distinct, Distinct-Perm, get_elem?-set_ne,
}
use distributed_event_bus.Broker.Event.{Event}
use distributed_event_bus.Broker.State.{Broker, Subscription, BackpressurePolicy, at}
use distributed_event_bus.Broker.Subscription.{queued, push, enqueue}
use distributed_event_bus.Broker.Publish.{
  Choices, FanOut, all_queued, fan_out, Reply, replies, publish_with_result, refs, published,
}
use distributed_event_bus.Broker.PublishCases.{
  Outcome, rejects_closed, rejects_draining, is_duplicate, caches, delivers, stops, blocks, IsOpen,
  is_known, sends, publish_with_result-Outcome,
}
use distributed_event_bus.Broker.Invariant.Defs.{
  IsQueue, Standing, standings, IsEntry, IsSound, IsRange,
}
use distributed_event_bus.Broker.Invariant.Standings.{standings-get_elem?}
use distributed_event_bus.Broker.Invariant.Topics.{Subscribers-at}

-- An open queue with room.
abbrev pub HasRoom : List Subscription → ℕ → Type 0
HasRoom heap r =
    (s : Subscription) × (get_elem? heap r ≡ some s)
    × (s.closed ≡ false)
    × (s.done_closed ≡ false)
    × (length s.events < s.capacity)

enqueue_room :
    (t : Bool) (policy : BackpressurePolicy) (e : Event) (s : Subscription)
    → s.closed ≡ false
    → s.done_closed ≡ false
    → length s.events < s.capacity
    → enqueue t none policy e s ≡ queued (push e s)
unfolding enqueue
enqueue_room t BackpressurePolicy.block e s c d h = ground arith
enqueue_room t BackpressurePolicy.drop e s c d h = ground arith

fan_out_more :
    (c : Choices) (policy : BackpressurePolicy) (e : Event) (r : ℕ) (rs : List ℕ)
    (heap : List Subscription) (s : Subscription)
    → get_elem? heap r ≡ some s
    → enqueue (c.take_context r) none policy e s ≡ queued (push e s)
    → fan_out c none policy e (r ∷ rs) heap ≡ fan_out c none policy e rs (set heap r (push e s))
unfolding fan_out
fan_out_more c policy e r rs heap s g q = rw (g, fan_out) (rw (q, fan_out))

fan_out_room :
    (c : Choices) (policy : BackpressurePolicy) (e : Event) (rs : List ℕ) (heap : List Subscription)
    → Distinct rs
    → ((r : ℕ) → contains r rs ≡ true → HasRoom heap r)
    → (fan_out c none policy e rs heap).1 ≡ all_queued
unfolding contains
fan_out_room c policy e [] heap d h = unfold fan_out in refl
fan_out_room c policy e (r ∷ rs) heap d h =
    let (s, g, open', done, room) = h r (ground (arith, nat_eq_iff r r)) in
    rw
      (fan_out_more c policy e r rs heap s g
        (enqueue_room (c.take_context r) policy e s open' done room))
      (fan_out_room c policy e rs (set heap r (push e s)) d.1 λ q listed.
        let (t, g', open2, done2, room2) = h q (ground arith) in
        (
          t,
          get_elem?-set_ne heap r q (push e s) (λ x. cc (d.0, listed, ap (λ y. contains y rs) x))
              ∙ g',
          open2,
          done2,
          room2,
        ))

listed-entry :
    (ss : List Standing) (topic : Text) (subs : Map ℕ ℕ) (r : ℕ)
    → All (IsEntry ss topic) subs
    → contains r (refs subs) ≡ true
    → (id : ℕ) × (get_elem? ss r ≡ some (record { topic = topic; id = id; closed = false }))
unfolding contains
listed-entry ss topic [] r h c = absurd (cc)
listed-entry ss topic ((id, q) ∷ subs) r h c = elim (Bool-cases (nat_eq q r)) [
  | inl same ↦ (id, ap (get_elem? ss) (sym ((nat_eq_iff q r).0 same)) ∙ h.0.found)
  | inr other ↦ listed-entry ss topic subs r h.1 (ground arith)
]

-- On a sound and open broker, an event whose key is not known is published without an error, if every
-- open subscription of its topic has room in its queue and the context is not done.
pub publish_succeeds :
    (c : Choices) (e : Event) (b : Broker)
    → IsRange c
    → IsSound b
    → IsOpen b
    → is_known b e ≡ false
    → ((r : ℕ) (s : Subscription)
        → get_elem? b.heap r ≡ some s
        → s.closed ≡ false
        → s.topic ≡ e.topic
        → length s.events < s.capacity)
    → (publish_with_result c none e b).1 ≡ replies published none
publish_succeeds c e b range sound o fresh room = ends _ _ (publish_with_result-Outcome c none e b)
  where
    all : (sends c none e b).1 ≡ all_queued
    all =
        let subs = at e.topic b.topics in
        let mine = Subscribers-at (standings b.heap) e.topic b.topics sound.layout.routes in
        fan_out_room c b.config.backpressure e (c.visit (refs subs)) b.heap
          (Distinct-Perm (c.visit (refs subs)) (refs subs) (range.visits (refs subs)) mine.1)
          λ r listed.
            let (id, found) = listed-entry (standings b.heap) e.topic subs r mine.0 (
              sym (contains-Perm r (c.visit (refs subs)) (refs subs) (range.visits (refs subs)))
              ∙ listed) in
            let (s, g, same) = standings-get_elem? b.heap r _ found in
            let open' : s.closed ≡ false = ap (λ (x : Standing). x.closed) same in
            let q = All-get_elem? (IsQueue b.config.queue_size) b.heap r s sound.queues g in
            (
              s,
              g,
              open',
              q.done_agrees ∙ open',
              room r s g open' (ap (λ (x : Standing). x.topic) same),
            )

    ends :
        (b' : Broker) (reply : Reply) → Outcome c none e b b' reply → reply ≡ replies published none
    ends b' reply (rejects_closed k _ _) = absurd (cc)
    ends b' reply (rejects_draining _ k _ _) = absurd (cc)
    ends b' reply (is_duplicate _ k _ _) = absurd (cc)
    ends b' reply (caches _ _ _ _ q) = q
    ends b' reply (delivers _ _ _ _ _ _ q) = q
    ends b' reply (stops _ _ heap err s _ _) =
        absurd (cc (all, ap (λ (x : List Subscription × FanOut). x.1) s))
    ends b' reply (blocks _ _ heap out (inl w) s _ _) =
        absurd (cc (all, ap (λ (x : List Subscription × FanOut). x.1) s, w))
    ends b' reply (blocks _ _ heap out (inr w) s _ _) =
        absurd (cc (all, ap (λ (x : List Subscription × FanOut). x.1) s, w))
