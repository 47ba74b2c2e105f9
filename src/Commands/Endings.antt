-- ===== src/Commands/Endings.antt =====
-- A graceful shutdown ends, if the context ends and what each connection still sends gets through.
use distributed_event_bus.Prelude.{
  ℕ, ◌≡◌, ◌≢◌, refl, ◌∙◌, inl, inr, Bool, true, false, List, [], ◌∷◌, Text, none, some, get_elem?,
  Option-cases,
}
use distributed_event_bus.Broker.State.{Broker}
use distributed_event_bus.Broker.Publish.{
  Wakeup, ticks, context_ends, still_draining, drain, receive_many,
}
use distributed_event_bus.Broker.Drain.{drain_now, drain_later, drain_gives_up}
use distributed_event_bus.Server.State.{Connection, Server}
use distributed_event_bus.Server.Lifecycle.{
  subscriptions, drain_all, graceful_close, close_gracefully, Ending,
}
use distributed_event_bus.Server.Steps.{IsOrder, update}
use distributed_event_bus.Server.Drains.{drain_all-ends, drain_all-goes_on, drain_result-cases}
use distributed_event_bus.Server.Graceful.{
  was_closed, all_drained, unfinished, gives_up, waits_on, graceful_close-Graceful,
}
use distributed_event_bus.Server.Ownership.{IsOwned}
use distributed_event_bus.Server.OwnershipMoves.{graceful_close-IsOwned}
use distributed_event_bus.Commands.EventBus.{any_waits}
use distributed_event_bus.Commands.Openings.{pending-cases, graceful_close-closed}

-- The context ends at some point.
abbrev pub times_out : List Wakeup → Bool
times_out [] = false
times_out (ticks _ ∷ ws) = times_out ws
times_out (context_ends _ ∷ ws) = true

drain-ends :
    (r : ℕ) (ws : List Wakeup) (b : Broker)
    → times_out ws ≡ true
    → (drain r ws b).1 ≢ still_draining
drain-ends r [] b late = absurd (cc)
drain-ends r (ticks k ∷ ws) b late = elim (pending-cases r b) [
  | inl e ↦ rw (drain_now r (ticks k ∷ ws) b e) (λ q. cc)
  | inr n ↦ rw (drain_later r k ws b n) (drain-ends r ws (receive_many k r b) late)
]
drain-ends r (context_ends x ∷ ws) b late = elim (pending-cases r b) [
  | inl e ↦ rw (drain_now r (context_ends x ∷ ws) b e) (λ q. cc)
  | inr n ↦ rw (drain_gives_up r x ws b n) (λ q. cc)
]

drain_all-finishes :
    (world : ℕ → List Wakeup) (qs : List ℕ) (b : Broker)
    → ((r : ℕ) → times_out (world r) ≡ true)
    → (drain_all world qs b).1 ≢ still_draining
drain_all-finishes world [] b late = unfold drain_all in (λ q. cc)
drain_all-finishes world (q ∷ qs) b late = elim (drain_result-cases (drain q (world q) b).1) [
  | inl e ↦
      rw (drain_all-goes_on world q qs b e)
        (drain_all-finishes world qs (drain q (world q) b).0 late)
  | inr n ↦ rw (drain_all-ends world q qs b n) (drain-ends q (world q) b (late q))
]

graceful_close-ends :
    (visit : List ℕ → List ℕ) (world : ℕ → List Wakeup) (finishes : Bool) (redirect : Text)
    (c : Connection) (b : Broker) (endings : List Ending)
    → finishes ≡ true
    → ((r : ℕ) → times_out (world r) ≡ true)
    → any_waits ((graceful_close visit world finishes redirect c b).1 ∷ endings) ≡ any_waits endings
unfolding any_waits
graceful_close-ends visit world finishes redirect c b endings done late =
    elim (graceful_close-Graceful visit world finishes redirect c b) [
      | was_closed _ e ↦ rw e refl
      | all_drained _ _ _ e ↦ rw e refl
      | unfinished _ _ f _ ↦ absurd (cc (done, f))
      | gives_up _ _ _ e ↦ rw e refl
      | waits_on _ d _ ↦ absurd (drain_all-finishes world (visit (subscriptions c.subs)) b late d)
    ]

-- What holds once the connections have been closed.
pub record Closed (s : Server) (after : Server × List Ending) : Type 0 where
  pub owned : IsOwned after.0
  pub same_closed : after.0.broker.closed ≡ s.broker.closed
  pub ended : any_waits after.1 ≡ false

close_gracefully-none :
    (visit : List ℕ → List ℕ) (world : ℕ → List Wakeup) (finishes : ℕ → Bool) (redirect : Text)
    (i : ℕ) (is : List ℕ) (s : Server)
    → get_elem? s.connections i ≡ none
    → close_gracefully visit world finishes redirect (i ∷ is) s
      ≡ close_gracefully visit world finishes redirect is s
unfolding close_gracefully
close_gracefully-none visit world finishes redirect i is s e = rw (e, close_gracefully)

close_gracefully-some :
    (visit : List ℕ → List ℕ) (world : ℕ → List Wakeup) (finishes : ℕ → Bool) (redirect : Text)
    (i : ℕ) (is : List ℕ) (s : Server) (c : Connection)
    → get_elem? s.connections i ≡ some c
    → let after = graceful_close visit world (finishes i) redirect c s.broker in
      let later = close_gracefully visit world finishes redirect is (update i after.0 s) in
      close_gracefully visit world finishes redirect (i ∷ is) s ≡ (later.0, after.1 ∷ later.1)
unfolding close_gracefully
close_gracefully-some visit world finishes redirect i is s c e = rw (e, close_gracefully) refl

pub close_gracefully-Closed :
    (visit : List ℕ → List ℕ) (world : ℕ → List Wakeup) (finishes : ℕ → Bool) (redirect : Text)
    (is : List ℕ) (s : Server)
    → IsOrder visit
    → ((i : ℕ) → finishes i ≡ true)
    → ((r : ℕ) → times_out (world r) ≡ true)
    → s.draining ≡ true
    → IsOwned s
    → Closed s (close_gracefully visit world finishes redirect is s)
close_gracefully-Closed visit world finishes redirect [] s order done late draining owned =
    unfold close_gracefully any_waits in record { owned = owned; same_closed = refl; ended = refl }
close_gracefully-Closed visit world finishes redirect (i ∷ is) s order done late draining owned =
    elim (Option-cases (get_elem? s.connections i)) [
      | inl e ↦ rw (close_gracefully-none visit world finishes redirect i is s e) (
          close_gracefully-Closed visit world finishes redirect is s order done late draining owned)
      | inr (c, e) ↦
          let after = graceful_close visit world (finishes i) redirect c s.broker in
          let k =
            close_gracefully-Closed visit world finishes redirect is (update i after.0 s) order done
              late draining
              (graceful_close-IsOwned visit world (finishes i) redirect s i c order draining owned
                e) in
          rw (close_gracefully-some visit world finishes redirect i is s c e) (record {
            owned = k.owned;
            same_closed =
                k.same_closed ∙ graceful_close-closed visit world (finishes i) redirect c s.broker;
            ended =
                graceful_close-ends visit world (finishes i) redirect c s.broker _ (done i) late
                ∙ k.ended;
          })
    ]
