-- ===== src/Broker/FanOutLaws.antt =====
-- The fan-out loop of `PublishWithResult`: every subscriber of the topic, each once, and nobody else.
use distributed_event_bus.Prelude.{
  ℕ, ◌<◌, ◌≡◌, ◌≢◌, refl, sym, ap, ◌∙◌, Bool, false, List, [], ◌∷◌, Option, none, some, length,
  arith, inl, inr, if◌then◌else◌, set, get_elem?, get_elem?-set_self, get_elem?-set_ne, contains,
  nat_key, nat_eq, nat_eq_iff, Distinct, zero, suc, Bool-cases,
}
use distributed_event_bus.Broker.Event.{Event}
use distributed_event_bus.Broker.State.{Subscription, BackpressurePolicy, ContextError}
use distributed_event_bus.Broker.Subscription.{Attempt, queued, refused, waits, push, enqueue}
use distributed_event_bus.Broker.Publish.{
  Choices, FanOut, all_queued, stopped, waiting, faults, fan_out,
}

-- A queued event goes to the end of an open queue that has room, and nothing else changes.
pub enqueue_queued :
    (t : Bool) (context : Option ContextError) (policy : BackpressurePolicy) (e : Event)
    (s s' : Subscription)
    → enqueue t context policy e s ≡ queued s'
    → (s' ≡ push e s) × (length s.events < s.capacity) × (s.closed ≡ false)
unfolding enqueue
enqueue_queued t none BackpressurePolicy.block e s s' h = ground arith
enqueue_queued t (some x) BackpressurePolicy.block e s s' h = ground arith
enqueue_queued t context BackpressurePolicy.drop e s s' h = ground arith

-- One round of the loop: it ends there with the heap as it was, or it goes on behind one more event.
pub data Round (c : Choices) (context : Option ContextError) (policy : BackpressurePolicy)
    (e : Event) (r : ℕ) (rs : List ℕ) (heap : List Subscription) : Type 0 where
  halts :
      (out : FanOut)
      → out ≢ all_queued
      → fan_out c context policy e (r ∷ rs) heap ≡ (heap, out)
      → Round c context policy e r rs heap
  goes_on :
      (s : Subscription)
      → get_elem? heap r ≡ some s
      → length s.events < s.capacity
      → s.closed ≡ false
      → fan_out c context policy e (r ∷ rs) heap
        ≡ fan_out c context policy e rs (set heap r (push e s))
      → Round c context policy e r rs heap

module _ (c : Choices) (context : Option ContextError) (policy : BackpressurePolicy) (e : Event)
    (r : ℕ) (rs : List ℕ) (heap : List Subscription) where
  attempted :
      (s : Subscription) (a : Attempt)
      → get_elem? heap r ≡ some s
      → enqueue (c.take_context r) context policy e s ≡ a
      → Round c context policy e r rs heap
  unfolding fan_out
  attempted s (queued s') g q =
      let (p, room, live) = enqueue_queued (c.take_context r) context policy e s s' q in
      goes_on s g room live (rw (g, fan_out) (rw (q, fan_out) (rw p)))
  attempted s (refused err) g q = halts (stopped err) (λ x. cc) (rw (g, fan_out) (rw (q, fan_out)))
  attempted s waits g q = halts waiting (λ x. cc) (rw (g, fan_out) (rw (q, fan_out)))

  found : (o : Option Subscription) → get_elem? heap r ≡ o → Round c context policy e r rs heap
  unfolding fan_out
  found none g = halts faults (λ x. cc) (rw (g, fan_out))
  found (some s) g = attempted s (enqueue (c.take_context r) context policy e s) g refl

  pub fan_out-Round : Round c context policy e r rs heap
  fan_out-Round = found (get_elem? heap r) refl

-- A reference is left alone by the loop over others.
pub fan_out_other :
    (c : Choices) (context : Option ContextError) (policy : BackpressurePolicy) (e : Event)
    (rs : List ℕ) (heap : List Subscription) (r : ℕ)
    → contains r rs ≡ false
    → get_elem? (fan_out c context policy e rs heap).0 r ≡ get_elem? heap r
unfolding contains
fan_out_other c context policy e [] heap r n = unfold fan_out in refl
fan_out_other c context policy e (x ∷ rs) heap r n =
    elim (fan_out-Round c context policy e x rs heap) [
      | halts out _ q ↦ rw q
      | goes_on s g _ _ q ↦ rw q (
          fan_out_other c context policy e rs (set heap x (push e s)) r (ground arith)
          ∙ get_elem?-set_ne heap x r (push e s) (ground (arith, nat_eq_iff x r)))
    ]

some_index : {A : Type 0} (xs : List A) (i : ℕ) (a : A) → get_elem? xs i ≡ some a → i < length xs
some_index [] i a h = absurd (cc)
some_index (x ∷ xs) zero a h = omega arith
some_index (x ∷ xs) (suc i) a h = omega (arith, some_index xs i a h)

-- The heap after the fan-out, entry by entry.
pub fan_out_all :
    (c : Choices) (context : Option ContextError) (policy : BackpressurePolicy) (e : Event)
    (rs : List ℕ) (heap heap' : List Subscription)
    → Distinct rs
    → fan_out c context policy e rs heap ≡ (heap', all_queued)
    → (r : ℕ) (s : Subscription) → get_elem? heap r ≡ some s
    → get_elem? heap' r ≡ some (if contains r rs then push e s else s)
unfolding contains
fan_out_all c context policy e [] heap heap' d h r s g = unfold fan_out in (ground arith)
fan_out_all c context policy e (x ∷ rs) heap heap' d h r s g =
    elim (fan_out-Round c context policy e x rs heap) [
      | halts out n q ↦ absurd (n (ap (λ (t : List Subscription × FanOut). t.1) (sym q ∙ h)))
      | goes_on t t_at _ _ q ↦ elim (Bool-cases (nat_eq x r)) [
        | inl same ↦
            let e1 : x ≡ r = (nat_eq_iff x r).0 same in
            let here : get_elem? heap' x ≡ some (push e t) =
              ap (λ (p : List Subscription × FanOut). get_elem? p.0 x) (sym (sym q ∙ h))
              ∙ fan_out_other c context policy e rs (set heap x (push e t)) x d.0
              ∙ get_elem?-set_self heap x (push e t) (some_index heap x t t_at) in
            rw same (cc)
        | inr other ↦ rw other (
            fan_out_all c context policy e rs (set heap x (push e t)) heap' d.1 (sym q ∙ h) r s
              (get_elem?-set_ne heap x r (push e t) (ground (arith, nat_eq_iff x r)) ∙ g))
      ]
    ]
