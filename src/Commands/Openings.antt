-- ===== src/Commands/Openings.antt =====
-- What leaves a broker as closed as it was.
use distributed_event_bus.Prelude.{
  ℕ, Bool, zero, suc, ◌≡◌, ◌≢◌, ◌⊎◌, refl, ap, ◌∙◌, inl, inr, List, [], ◌∷◌, Text, get_elem?, arith,
  nat_eq, nat_eq_iff, Bool-cases, Option-cases,
}
use distributed_event_bus.Broker.State.{Broker, begin_shutdown}
use distributed_event_bus.Broker.State
use distributed_event_bus.Broker.Subscription.{receive, close_subscription}
use distributed_event_bus.Broker.Publish.{Wakeup, ticks, context_ends, drain, receive_many}
use distributed_event_bus.Broker.Drain.{drain_now, drain_later, drain_waits, drain_gives_up}
use distributed_event_bus.Broker.OrderLaws.{receive_form, receive_missing}
use distributed_event_bus.Server.State.{Connection}
use distributed_event_bus.Server.Lifecycle.{
  subscriptions, close_subscriptions, drain_all, graceful_close,
}
use distributed_event_bus.Server.Drains.{drain_all-ends, drain_all-goes_on, drain_result-cases}
use distributed_event_bus.Server.Closings.{close_connection_form, close_subscriptions-more}
use distributed_event_bus.Server.Graceful.{
  was_closed, all_drained, unfinished, gives_up, waits_on, graceful_close-Graceful, drains_of,
  as_draining,
}

-- Whether something waits in the queue at `r`.
pub pending-cases :
    (r : ℕ) (b : Broker) → (State.pending_at b.heap r ≡ 0) ⊎ (State.pending_at b.heap r ≢ 0)
pending-cases r b = elim (Bool-cases (nat_eq (State.pending_at b.heap r) 0)) [
  | inl e ↦ inl ((nat_eq_iff (State.pending_at b.heap r) 0).0 e)
  | inr n ↦ inr (λ q. cc (n, (nat_eq_iff (State.pending_at b.heap r) 0).1 q))
]

receive-closed : (r : ℕ) (b : Broker) → (receive r b).0.closed ≡ b.closed
receive-closed r b = elim (Option-cases (get_elem? b.heap r)) [
  | inl e ↦ rw (receive_missing r b e) refl
  | inr (s, e) ↦ rw (receive_form r b s e) refl
]

receive_many-closed : (n r : ℕ) (b : Broker) → (receive_many n r b).closed ≡ b.closed
unfolding receive_many
receive_many-closed zero r b = refl
receive_many-closed (suc n) r b = receive_many-closed n r (receive r b).0 ∙ receive-closed r b

close_subscription-closed : (r : ℕ) (b : Broker) → (close_subscription r b).closed ≡ b.closed
unfolding close_subscription
close_subscription-closed r b = ground arith

close_subscriptions-closed :
    (qs : List ℕ) (b : Broker) → (close_subscriptions qs b).closed ≡ b.closed
close_subscriptions-closed [] b = unfold close_subscriptions in refl
close_subscriptions-closed (q ∷ qs) b =
    ap (λ (x : Broker). x.closed) (close_subscriptions-more q qs b)
    ∙ close_subscriptions-closed qs (close_subscription q b)
    ∙ close_subscription-closed q b

drain_now-closed :
    (r : ℕ) (ws : List Wakeup) (b : Broker)
    → State.pending_at b.heap r ≡ 0
    → (drain r ws b).0.closed ≡ b.closed
drain_now-closed r ws b e = rw (drain_now r ws b e) (close_subscription-closed r b)

drain-closed : (r : ℕ) (ws : List Wakeup) (b : Broker) → (drain r ws b).0.closed ≡ b.closed
drain-closed r [] b = elim (pending-cases r b) [
  | inl e ↦ drain_now-closed r [] b e
  | inr n ↦ rw (drain_waits r b n) refl
]
drain-closed r (ticks k ∷ ws) b = elim (pending-cases r b) [
  | inl e ↦ drain_now-closed r (ticks k ∷ ws) b e
  | inr n ↦
      rw (drain_later r k ws b n)
        (drain-closed r ws (receive_many k r b) ∙ receive_many-closed k r b)
]
drain-closed r (context_ends x ∷ ws) b = elim (pending-cases r b) [
  | inl e ↦ drain_now-closed r (context_ends x ∷ ws) b e
  | inr n ↦ rw (drain_gives_up r x ws b n) refl
]

drain_all-closed :
    (world : ℕ → List Wakeup) (qs : List ℕ) (b : Broker)
    → (drain_all world qs b).0.closed ≡ b.closed
drain_all-closed world [] b = unfold drain_all in refl
drain_all-closed world (q ∷ qs) b = elim (drain_result-cases (drain q (world q) b).1) [
  | inl e ↦
      rw (drain_all-goes_on world q qs b e)
        (drain_all-closed world qs (drain q (world q) b).0 ∙ drain-closed q (world q) b)
  | inr n ↦ rw (drain_all-ends world q qs b n) (drain-closed q (world q) b)
]

pub graceful_close-closed :
    (visit : List ℕ → List ℕ) (world : ℕ → List Wakeup) (finishes : Bool) (redirect : Text)
    (c : Connection) (b : Broker)
    → (graceful_close visit world finishes redirect c b).0.1.closed ≡ b.closed
graceful_close-closed visit world finishes redirect c b =
    let qs = visit (subscriptions c.subs) in
    let same = drain_all-closed world qs b in
    elim (graceful_close-Graceful visit world finishes redirect c b) [
      | was_closed _ e ↦ rw e refl
      | all_drained _ _ _ e ↦ rw e same
      | unfinished _ _ _ e ↦ rw e same
      | gives_up live _ _ e ↦
          rw (e, close_connection_form visit (as_draining c) (drains_of visit world c b).0 live)
            (close_subscriptions-closed qs (drains_of visit world c b).0 ∙ same)
      | waits_on _ _ e ↦ rw e same
    ]
