-- ===== src/Server/Drained.antt =====
-- A subscription that `Drain` has drained is closed, and nothing waits in its queue.
use mathlib.Core.Option.{some-injective}
use distributed_event_bus.Prelude.{
  ℕ, zero, suc, ◌≡◌, refl, sym, ap, ◌∙◌, subst, inl, inr, true, List, [], ◌∷◌, some, length,
  get_elem?, set, All-get_elem?, contains, nat_key, nat_eq, nat_eq_iff, arith, ◌==◌, Bool-cases,
  Option-cases, get_elem?-set_self, get_elem?-set_ne,
}
use distributed_event_bus.Broker.State.{Broker, Subscription, ContextError}
use distributed_event_bus.Broker.State
use distributed_event_bus.Broker.Subscription.{
  close_queue, close_subscription, receive, receive_from,
}
use distributed_event_bus.Broker.Publish.{
  Wakeup, ticks, context_ends, DrainResult, drained, drain, receive_many,
}
use distributed_event_bus.Broker.Drain.{
  drain_now, drain_later, drain_waits, drain_gives_up, pending-some,
}
use distributed_event_bus.Broker.OrderLaws.{
  receive_form, receive_missing, close_subscription-heap, close_subscription_missing,
}
use distributed_event_bus.Broker.Reach.{drain-IsSound, receive_many-IsSound}
use distributed_event_bus.Broker.Invariant.Defs.{IsQueue, IsSound}
use distributed_event_bus.Broker.Invariant.Standings.{get_elem?-lt}
use distributed_event_bus.Server.Lifecycle.{drain_all}
use distributed_event_bus.Server.Drains.{drain_all-ends, drain_all-goes_on, drain_result-cases}

abbrev pub IsDone : Subscription → Type 0
IsDone s = (s.events ≡ []) × (s.closed ≡ true)

-- The subscription at `r` is closed and empty.
abbrev pub DoneAt : List Subscription → ℕ → Type 0
DoneAt heap r = (s : Subscription) → get_elem? heap r ≡ some s → IsDone s

set-DoneAt :
    (heap : List Subscription) (q r : ℕ) (s s' : Subscription)
    → get_elem? heap q ≡ some s
    → (IsDone s → IsDone s')
    → DoneAt heap r
    → DoneAt (set heap q s') r
set-DoneAt heap q r s s' g keeps h x found = elim (Bool-cases (nat_eq q r)) [
  | inl same ↦
      let e : q ≡ r = (nat_eq_iff q r).0 same in
      let e' : s' ≡ x = some-injective _ _ (
        sym (get_elem?-set_self heap q s' (get_elem?-lt heap q s g))
        ∙ ap (get_elem? (set heap q s')) e
        ∙ found) in
      subst IsDone e' (keeps (h s (ap (get_elem? heap) (sym e) ∙ g)))
  | inr other ↦
      h x (sym (get_elem?-set_ne heap q r s' (λ e. cc (other, (nat_eq_iff q r).1 e))) ∙ found)
]

receive_from-IsDone : (s : Subscription) → IsDone s → IsDone (receive_from s).0
unfolding receive_from
receive_from-IsDone s h = rw (h.0) (refl, h.1)

receive-DoneAt : (q r : ℕ) (b : Broker) → DoneAt b.heap r → DoneAt (receive q b).0.heap r
receive-DoneAt q r b h = elim (Option-cases (get_elem? b.heap q)) [
  | inl e ↦ rw (receive_missing q b e) h
  | inr (s, e) ↦
      rw (receive_form q b s e)
        (set-DoneAt b.heap q r s (receive_from s).0 e (receive_from-IsDone s) h)
]

receive_many-DoneAt :
    (n q r : ℕ) (b : Broker) → DoneAt b.heap r → DoneAt (receive_many n q b).heap r
unfolding receive_many
receive_many-DoneAt zero q r b h = h
receive_many-DoneAt (suc n) q r b h =
    receive_many-DoneAt n q r (receive q b).0 (receive-DoneAt q r b h)

close_queue-IsDone : (s : Subscription) → IsDone s → IsDone (close_queue true s)
unfolding close_queue
close_queue-IsDone s h = ground arith

close_subscription-DoneAt :
    (q r : ℕ) (b : Broker) → DoneAt b.heap r → DoneAt (close_subscription q b).heap r
close_subscription-DoneAt q r b h = elim (Option-cases (get_elem? b.heap q)) [
  | inl e ↦ rw (close_subscription_missing q b e) h
  | inr (s, e) ↦
      rw (close_subscription-heap q b s e)
        (set-DoneAt b.heap q r s (close_queue true s) e (close_queue-IsDone s) h)
]

-- A drain leaves what is done.
drain-stays :
    (q : ℕ) (ws : List Wakeup) (r : ℕ) (b : Broker)
    → DoneAt b.heap r
    → DoneAt (drain q ws b).0.heap r
drain-stays q [] r b h = elim (Bool-cases (State.pending_at b.heap q == 0)) [
  | inl z ↦ rw (drain_now q [] b (ground arith)) (close_subscription-DoneAt q r b h)
  | inr n ↦ rw (drain_waits q b (ground arith)) h
]
drain-stays q (ticks n ∷ ws) r b h = elim (Bool-cases (State.pending_at b.heap q == 0)) [
  | inl z ↦ rw (drain_now q (ticks n ∷ ws) b (ground arith)) (close_subscription-DoneAt q r b h)
  | inr m ↦
      rw (drain_later q n ws b (ground arith))
        (drain-stays q ws r (receive_many n q b) (receive_many-DoneAt n q r b h))
]
drain-stays q (context_ends x ∷ ws) r b h = elim (Bool-cases (State.pending_at b.heap q == 0)) [
  | inl z ↦
      rw (drain_now q (context_ends x ∷ ws) b (ground arith)) (close_subscription-DoneAt q r b h)
  | inr n ↦ rw (drain_gives_up q x ws b (ground arith)) h
]

empty_events {ℓ} : {A : Type ℓ} (xs : List A) → length xs ≡ 0 → xs ≡ []
empty_events [] h = refl
empty_events (x ∷ xs) h = absurd (omega arith)

close_queue-shuts :
    (s : Subscription) (size : ℕ) → IsQueue size s → s.events ≡ [] → IsDone (close_queue true s)
unfolding close_queue
close_queue-shuts s size h e = ground (arith, h.once_agrees)

now-DoneAt :
    (q : ℕ) (b : Broker)
    → IsSound b
    → State.pending_at b.heap q ≡ 0
    → DoneAt (close_subscription q b).heap q
now-DoneAt q b sound z x found = elim (Option-cases (get_elem? b.heap q)) [
  | inl e ↦
      absurd
        (cc (e, ap (λ (y : Broker). get_elem? y.heap q) (close_subscription_missing q b e), found))
  | inr (s, e) ↦
      let same : close_queue true s ≡ x = some-injective _ _ (
        sym (get_elem?-set_self b.heap q (close_queue true s) (get_elem?-lt b.heap q s e))
        ∙ ap (λ (y : List Subscription). get_elem? y q) (sym (close_subscription-heap q b s e))
        ∙ found) in
      subst IsDone same (
        close_queue-shuts s b.config.queue_size
          (All-get_elem? (IsQueue b.config.queue_size) b.heap q s sound.queues e)
          (empty_events s.events (sym (pending-some q b.heap s e) ∙ z)))
]

-- What `Drain` has drained is done.
Finishes : ℕ → Broker × DrainResult → Type 0
Finishes q (b', result) = result ≡ drained → DoneAt b'.heap q

drain-Finishes : (q : ℕ) (ws : List Wakeup) (b : Broker) → IsSound b → Finishes q (drain q ws b)
unfolding Finishes
drain-Finishes q [] b s = elim (Bool-cases (State.pending_at b.heap q == 0)) [
  | inl z ↦ rw (drain_now q [] b (ground arith)) (λ _. now-DoneAt q b s (ground arith))
  | inr n ↦ rw (drain_waits q b (ground arith)) (λ e. absurd (cc))
]
drain-Finishes q (ticks n ∷ ws) b s = elim (Bool-cases (State.pending_at b.heap q == 0)) [
  | inl z ↦ rw (drain_now q (ticks n ∷ ws) b (ground arith)) (λ _. now-DoneAt q b s (ground arith))
  | inr m ↦
      rw (drain_later q n ws b (ground arith))
        (drain-Finishes q ws (receive_many n q b) (receive_many-IsSound n q b s))
]
drain-Finishes q (context_ends x ∷ ws) b s = elim (Bool-cases (State.pending_at b.heap q == 0)) [
  | inl z ↦
      rw (drain_now q (context_ends x ∷ ws) b (ground arith)) (λ _. now-DoneAt q b s (ground arith))
  | inr n ↦ rw (drain_gives_up q x ws b (ground arith)) (λ e. absurd (cc))
]

pub drain_all-stays :
    (world : ℕ → List Wakeup) (qs : List ℕ) (r : ℕ) (b : Broker)
    → DoneAt b.heap r
    → DoneAt (drain_all world qs b).0.heap r
drain_all-stays world [] r b h = unfold drain_all in h
drain_all-stays world (q ∷ qs) r b h = elim (drain_result-cases (drain q (world q) b).1) [
  | inl e ↦
      rw (drain_all-goes_on world q qs b e)
        (drain_all-stays world qs r (drain q (world q) b).0 (drain-stays q (world q) r b h))
  | inr n ↦ rw (drain_all-ends world q qs b n) (drain-stays q (world q) r b h)
]

-- The loop over the subscriptions of a connection.
pub drain_all-done :
    (world : ℕ → List Wakeup) (qs : List ℕ) (r : ℕ) (b : Broker)
    → IsSound b
    → (drain_all world qs b).1 ≡ drained
    → contains r qs ≡ true
    → DoneAt (drain_all world qs b).0.heap r
unfolding contains
drain_all-done world [] r b s d h = absurd (cc)
drain_all-done world (q ∷ qs) r b s d h = elim (drain_result-cases (drain q (world q) b).1) [
  | inr n ↦
      absurd (n (ap (λ (x : Broker × DrainResult). x.1) (sym (drain_all-ends world q qs b n)) ∙ d))
  | inl e ↦
      let d' =
        ap (λ (x : Broker × DrainResult). x.1) (sym (drain_all-goes_on world q qs b e)) ∙ d in
      rw (drain_all-goes_on world q qs b e) (elim (Bool-cases (nat_eq q r)) [
        | inl same ↦
            let first : DoneAt (drain q (world q) b).0.heap q =
              unfold Finishes in drain-Finishes q (world q) b s e in
            drain_all-stays world qs r (drain q (world q) b).0
              (subst (DoneAt (drain q (world q) b).0.heap) ((nat_eq_iff q r).0 same) first)
        | inr other ↦
            drain_all-done world qs r (drain q (world q) b).0 (drain-IsSound q (world q) b s) d'
              (ground arith)
      ])
]
