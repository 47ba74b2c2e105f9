-- ===== src/Server/Drains.antt =====
-- What is open in the broker after subscriptions are drained.
use distributed_event_bus.Prelude.{
  ℕ, zero, suc, ◌≡◌, ◌≢◌, ◌⊎◌, refl, ◌∙◌, inl, inr, false, List, [], ◌∷◌, Text, contains, nat_key,
  text_key, arith, ◌==◌, Bool-cases,
}
use distributed_event_bus.Broker.State.{Broker, ContextError}
use distributed_event_bus.Broker.State
use distributed_event_bus.Broker.Subscription.{close_subscription, receive}
use distributed_event_bus.Broker.Publish.{
  Wakeup, ticks, context_ends, DrainResult, drained, drain_failed, still_draining, drain,
  receive_many,
}
use distributed_event_bus.Broker.Drain.{drain_now, drain_later, drain_waits, drain_gives_up}
use distributed_event_bus.Broker.Openness.{IsOpenAt, close_subscription-opens, receive-standings}
use distributed_event_bus.Broker.Invariant.Defs.{IsSound, standings}
use distributed_event_bus.Broker.Reach.{drain-IsSound, receive_many-IsSound}
use distributed_event_bus.Server.Lifecycle.{drain_all}
use distributed_event_bus.Server.Closings.{standings-opens, neither}

receive_many-standings :
    (n r : ℕ) (b : Broker) → standings (receive_many n r b).heap ≡ standings b.heap
unfolding receive_many
receive_many-standings zero r b = refl
receive_many-standings (suc n) r b =
    receive_many-standings n r (receive r b).0 ∙ receive-standings r b

-- Nothing is newly open, and a subscription that was drained is not.
Drains : ℕ → ℕ → Text → Broker → Broker × DrainResult → Type 0
Drains q r topic b (b', result) =
    IsOpenAt b'.heap r topic → IsOpenAt b.heap r topic × (result ≡ drained → q ≢ r)

drained-Drains :
    (q r : ℕ) (topic : Text) (b : Broker)
    → IsSound b
    → Drains q r topic b (close_subscription q b, drained)
unfolding Drains
drained-Drains q r topic b s o =
    let (before, n) = close_subscription-opens q r topic b s o in (before, λ _. n)

later-Drains :
    (n q r : ℕ) (topic : Text) (b : Broker) (x : Broker × DrainResult)
    → Drains q r topic (receive_many n q b) x
    → Drains q r topic b x
unfolding Drains
later-Drains n q r topic b x d o =
    let (before, k) = d o in
    (standings-opens b (receive_many n q b) r topic (receive_many-standings n q b) before, k)

drain-Drains :
    (q : ℕ) (ws : List Wakeup) (r : ℕ) (topic : Text) (b : Broker)
    → IsSound b
    → Drains q r topic b (drain q ws b)
drain-Drains q [] r topic b s = elim (Bool-cases (State.pending_at b.heap q == 0)) [
  | inl z ↦ rw (drain_now q [] b (ground arith)) (drained-Drains q r topic b s)
  | inr n ↦ rw (drain_waits q b (ground arith)) (unfold Drains in λ o. (o, λ e. cc))
]
drain-Drains q (ticks n ∷ ws) r topic b s = elim (Bool-cases (State.pending_at b.heap q == 0)) [
  | inl z ↦ rw (drain_now q (ticks n ∷ ws) b (ground arith)) (drained-Drains q r topic b s)
  | inr m ↦ rw (drain_later q n ws b (ground arith)) (
      later-Drains n q r topic b (drain q ws (receive_many n q b))
        (drain-Drains q ws r topic (receive_many n q b) (receive_many-IsSound n q b s)))
]
drain-Drains q (context_ends x ∷ ws) r topic b s =
    elim (Bool-cases (State.pending_at b.heap q == 0)) [
      | inl z ↦
          rw (drain_now q (context_ends x ∷ ws) b (ground arith)) (drained-Drains q r topic b s)
      | inr n ↦ rw (drain_gives_up q x ws b (ground arith)) (unfold Drains in λ o. (o, λ e. cc))
    ]

-- The same of the loop.
DrainsAll : List ℕ → ℕ → Text → Broker → Broker × DrainResult → Type 0
DrainsAll qs r topic b (b', result) =
    IsOpenAt b'.heap r topic → IsOpenAt b.heap r topic × (result ≡ drained → contains r qs ≡ false)

-- One round of it.
pub drain_all-ends :
    (world : ℕ → List Wakeup) (q : ℕ) (qs : List ℕ) (b : Broker)
    → (drain q (world q) b).1 ≢ drained
    → drain_all world (q ∷ qs) b ≡ drain q (world q) b
unfolding drain_all
drain_all-ends world q qs b n = ended (drain q (world q) b) n
  where
    ended :
        (x : Broker × DrainResult)
        → x.1 ≢ drained
        → elim x.1 [
          | drained ↦ drain_all world qs x.0
          | drain_failed e ↦ (x.0, drain_failed e)
          | still_draining ↦ (x.0, still_draining)
        ]
          ≡ x
    ended (b', drained) n = absurd (n refl)
    ended (b', drain_failed e) n = refl
    ended (b', still_draining) n = refl

pub drain_all-goes_on :
    (world : ℕ → List Wakeup) (q : ℕ) (qs : List ℕ) (b : Broker)
    → (drain q (world q) b).1 ≡ drained
    → drain_all world (q ∷ qs) b ≡ drain_all world qs (drain q (world q) b).0
unfolding drain_all
drain_all-goes_on world q qs b e = rw (e, drain_all) refl

pub drain_result-cases : (x : DrainResult) → (x ≡ drained) ⊎ (x ≢ drained)
drain_result-cases drained = inl refl
drain_result-cases (drain_failed e) = inr (λ q. cc)
drain_result-cases still_draining = inr (λ q. cc)

pub drain_all-IsSound :
    (world : ℕ → List Wakeup) (qs : List ℕ) (b : Broker)
    → IsSound b
    → IsSound (drain_all world qs b).0
drain_all-IsSound world [] b s = unfold drain_all in s
drain_all-IsSound world (q ∷ qs) b s = elim (drain_result-cases (drain q (world q) b).1) [
  | inl e ↦
      rw (drain_all-goes_on world q qs b e)
        (drain_all-IsSound world qs (drain q (world q) b).0 (drain-IsSound q (world q) b s))
  | inr n ↦ rw (drain_all-ends world q qs b n) (drain-IsSound q (world q) b s)
]

drain_all-DrainsAll :
    (world : ℕ → List Wakeup) (qs : List ℕ) (r : ℕ) (topic : Text) (b : Broker)
    → IsSound b
    → DrainsAll qs r topic b (drain_all world qs b)
unfolding DrainsAll Drains
drain_all-DrainsAll world [] r topic b s = unfold drain_all contains in λ o. (o, λ _. refl)
drain_all-DrainsAll world (q ∷ qs) r topic b s =
    let first = drain-Drains q (world q) r topic b s in
    elim (drain_result-cases (drain q (world q) b).1) [
      | inl e ↦ rw (drain_all-goes_on world q qs b e) (λ o.
          let (o1, rest) =
            drain_all-DrainsAll world qs r topic (drain q (world q) b).0
              (drain-IsSound q (world q) b s) o in
          let (o2, n) = first o1 in (o2, λ d. neither q r qs (n e) (rest d)))
      | inr n ↦ rw (drain_all-ends world q qs b n) (λ o. ((first o).0, λ d. absurd (n d)))
    ]

pub drain_all-opens :
    (world : ℕ → List Wakeup) (qs : List ℕ) (r : ℕ) (topic : Text) (b : Broker)
    → IsSound b
    → IsOpenAt (drain_all world qs b).0.heap r topic
    → IsOpenAt b.heap r topic × ((drain_all world qs b).1 ≡ drained → contains r qs ≡ false)
drain_all-opens world qs r topic b s o =
    unfold DrainsAll in drain_all-DrainsAll world qs r topic b s o
