-- ===== src/Broker/Waiting.antt =====
-- When a call of `PublishWithResult` waits.
use distributed_event_bus.Prelude.{
  ℕ, zero, suc, ◌≤◌, ◌<◌, ◌≡◌, ◌≢◌, refl, sym, ap, ◌∙◌, subst, Bool, true, false, List, [], ◌∷◌,
  Text, Option, none, some, length, set, get_elem?, All, Map, contains, nat_key, nat_eq_iff,
  text_key, arith, Option-cases, ◌⊎◌, inl, inr, contains-Perm, length-set,
}
use distributed_event_bus.Broker.Event.{Event}
use distributed_event_bus.Broker.State.{Broker, Subscription, BackpressurePolicy, ContextError, at}
use distributed_event_bus.Broker.Subscription.{Attempt, queued, refused, waits, enqueue}
use distributed_event_bus.Broker.Publish.{
  Choices, FanOut, all_queued, stopped, waiting, faults, fan_out, Reply, blocked,
  publish_with_result, refs,
}
use distributed_event_bus.Broker.PublishCases.{
  Outcome, rejects_closed, rejects_draining, is_duplicate, caches, delivers, stops, blocks,
  publish_with_result-Outcome,
}
use distributed_event_bus.Broker.Invariant.Defs.{
  Standing, standing, standings, IsEntry, IsSound, IsRange,
}
use distributed_event_bus.Broker.Invariant.Standings.{
  get_elem?-standings, get_elem?-lt, length-standings,
}
use distributed_event_bus.Broker.Invariant.Topics.{Subscribers-at}
use distributed_event_bus.Broker.Invariant.Calls.{fan_out-queues}
use distributed_event_bus.Broker.Delivery.{listed-standing}

-- The queue for which the goroutine waits is open and full, and nothing would end the wait.
pub record IsStuck (context : Option ContextError) (policy : BackpressurePolicy) (s : Subscription)
    : Type 0 where
  pub blocks : policy ≡ BackpressurePolicy.block
  pub unending : context ≡ none
  pub open' : s.closed ≡ false
  pub full : s.capacity ≤ length s.events

enqueue_waits :
    (t : Bool) (context : Option ContextError) (policy : BackpressurePolicy) (e : Event)
    (s : Subscription)
    → enqueue t context policy e s ≡ waits
    → IsStuck context policy s
unfolding enqueue
enqueue_waits t none BackpressurePolicy.block e s h = ground arith
enqueue_waits t (some x) BackpressurePolicy.block e s h = absurd (ground arith)
enqueue_waits t context BackpressurePolicy.drop e s h = absurd (ground arith)

index_some {ℓ} : {A : Type ℓ} (xs : List A) (i : ℕ) → i < length xs → get_elem? xs i ≢ none
index_some [] i h = λ e. omega arith
index_some (x ∷ xs) zero h = λ e. cc
index_some (x ∷ xs) (suc i) h = index_some xs i (omega arith)

abbrev pub Stuck : Option ContextError → BackpressurePolicy → List ℕ → List Subscription → Type 0
Stuck context policy rs heap =
    (r : ℕ) × (s : Subscription) × (contains r rs ≡ true)
    × (get_elem? heap r ≡ some s)
    × IsStuck context policy s

module _ (c : Choices) (context : Option ContextError) (policy : BackpressurePolicy)
    (e : Event) where
  round :
      (r : ℕ) (rs : List ℕ) (heap : List Subscription) (s : Subscription) (a : Attempt)
      → get_elem? heap r ≡ some s
      → enqueue (c.take_context r) context policy e s ≡ a
      → fan_out c context policy e (r ∷ rs) heap ≡ elim a [
        | queued s' ↦ fan_out c context policy e rs (set heap r s')
        | refused err ↦ (heap, stopped err)
        | waits ↦ (heap, waiting)
      ]
  unfolding fan_out
  round r rs heap s a g q = rw (g, fan_out) (rw (q, fan_out) refl)

  fan_out_waits :
      (rs : List ℕ) (heap heap' : List Subscription) (out : FanOut)
      → ((r : ℕ) → contains r rs ≡ true → r < length heap)
      → fan_out c context policy e rs heap ≡ (heap', out)
      → (out ≡ waiting) ⊎ (out ≡ faults)
      → Stuck context policy rs heap'
  unfolding contains
  fan_out_waits [] heap heap' out k h w =
      let done : out ≡ all_queued =
        sym (ap (λ (x : List Subscription × FanOut). x.1) h) ∙ (unfold fan_out in refl) in
      absurd (elim w [ inl x ↦ cc (x, done) | inr x ↦ cc (x, done) ])
  fan_out_waits (r ∷ rs) heap heap' out k h w = elim (Option-cases (get_elem? heap r)) [
    | inl missing ↦ absurd (index_some heap r (k r (ground (arith, nat_eq_iff r r))) missing)
    | inr (s, g) ↦
        tried s g (λ s' n k' h'. fan_out_waits rs (set heap r s') heap' out k' h' w)
          (enqueue (c.take_context r) context policy e s) refl
  ]
    where
      tried :
          (s : Subscription)
          → get_elem? heap r ≡ some s
          → ((s' : Subscription)
              → enqueue (c.take_context r) context policy e s ≡ queued s'
              → ((x : ℕ) → contains x rs ≡ true → x < length (set heap r s'))
              → fan_out c context policy e rs (set heap r s') ≡ (heap', out)
              → Stuck context policy rs heap')
          → (a : Attempt) → enqueue (c.take_context r) context policy e s ≡ a
          → Stuck context policy (r ∷ rs) heap'
      tried s g ih (queued s') q =
          let (r', s1, there, found, stuck) =
            ih s' q (λ x y. rw (length-set heap r s') (k x (ground arith)))
              (sym (round r rs heap s (queued s') g q) ∙ h) in
          (r', s1, ground arith, found, stuck)
      tried s g ih (refused err) q =
          let done =
            ap (λ (x : List Subscription × FanOut). x.1)
              (sym (round r rs heap s (refused err) g q) ∙ h) in
          absurd (elim w [ inl x ↦ cc (x, done) | inr x ↦ cc (x, done) ])
      tried s g ih waits q =
          let same =
            ap (λ (x : List Subscription × FanOut). x.0) (sym (round r rs heap s waits g q) ∙ h) in
          (
            r,
            s,
            ground (arith, nat_eq_iff r r),
            subst (λ x. get_elem? x r ≡ some s) same g,
            enqueue_waits (c.take_context r) context policy e s q,
          )

listed-lt :
    (ss : List Standing) (topic : Text) (subs : Map ℕ ℕ) (r : ℕ)
    → All (IsEntry ss topic) subs
    → contains r (refs subs) ≡ true
    → r < length ss
unfolding contains
listed-lt ss topic [] r h c = absurd (cc)
listed-lt ss topic ((id, q) ∷ subs) r h c =
    ground (arith, nat_eq_iff q r, get_elem?-lt ss q _ h.0.found, listed-lt ss topic subs r h.1)

waited :
    (c : Choices) (context : Option ContextError) (e : Event) (b b' : Broker) (reply : Reply)
    → IsRange c
    → IsSound b
    → Outcome c context e b b' reply
    → reply ≡ blocked
    → (r : ℕ) × (s : Subscription) × (get_elem? b'.heap r ≡ some s)
      × (s.topic ≡ e.topic)
      × IsStuck context b.config.backpressure s
waited c context e b b' reply range sound (rejects_closed _ _ q) t = absurd (cc)
waited c context e b b' reply range sound (rejects_draining _ _ _ q) t = absurd (cc)
waited c context e b b' reply range sound (is_duplicate _ _ _ q) t = absurd (cc)
waited c context e b b' reply range sound (caches _ _ _ _ q) t = absurd (cc)
waited c context e b b' reply range sound (delivers _ _ _ _ _ _ q) t = absurd (cc)
waited c context e b b' reply range sound (stops _ _ _ _ _ _ q) t = absurd (cc)
waited c context e b b' reply range sound (blocks _ _ heap out w sent p q) t =
    let subs = at e.topic b.topics in
    let entries = (Subscribers-at (standings b.heap) e.topic b.topics sound.layout.routes).0 in
    let listed = λ (x : ℕ) (y : contains x (c.visit (refs subs)) ≡ true).
      sym (contains-Perm x (c.visit (refs subs)) (refs subs) (range.visits (refs subs))) ∙ y in
    let (r, s, there, found, stuck) =
      fan_out_waits c context b.config.backpressure e (c.visit (refs subs)) b.heap heap out
        (λ x y.
          rw (sym (length-standings b.heap))
            (listed-lt (standings b.heap) e.topic subs x entries (listed x y)))
        sent w in
    let keeps : standings heap ≡ standings b.heap =
      ap (λ (x : List Subscription × FanOut). standings x.0) (sym sent)
      ∙ (fan_out-queues c context b.config.backpressure e (c.visit (refs subs)) b.config.queue_size
          b.heap sound.queues).1 in
    (
      r,
      s,
      rw p found,
      (listed-standing (standings b.heap) e.topic subs r (standing s) entries
          (subst (λ ss. get_elem? ss r ≡ some (standing s)) keeps
            (get_elem?-standings heap r s found))
          (listed r there)).1,
      stuck,
    )

-- A call on a sound broker waits only where the policy is `Block`, the context is not done, and an
-- open subscription of the event's topic has a full queue. In particular it never meets a
-- subscription that is not there.
pub publish_waits :
    (c : Choices) (context : Option ContextError) (e : Event) (b b' : Broker)
    → IsRange c
    → IsSound b
    → publish_with_result c context e b ≡ (b', blocked)
    → (r : ℕ) × (s : Subscription) × (get_elem? b'.heap r ≡ some s)
      × (s.topic ≡ e.topic)
      × IsStuck context b.config.backpressure s
publish_waits c context e b b' range sound h =
    waited c context e b b' blocked range sound
      (subst (λ (x : Broker × Reply). Outcome c context e b x.0 x.1) h
        (publish_with_result-Outcome c context e b))
      refl
