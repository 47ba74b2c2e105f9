-- ===== src/Server/OwnershipSteps.antt =====
-- Every step of the server leaves each open subscription with an owner.
use distributed_event_bus.Prelude.{
  ℕ, ◌-◌, ◌^◌, ◌<◌, ◌≡◌, ◌≢◌, refl, sym, ap, ◌∙◌, subst, ◌⊎◌, inl, inr, true, false, List, Text,
  some, length, get_elem?, Map, lookup, insert, delete, contains, nat_key, text_key, text_eq_iff,
  beq_refl, arith, Bool-cases, lookup-insert, lookup-delete,
}
use distributed_event_bus.Protocol.Frame.{Frame}
use distributed_event_bus.Broker.State.{Broker}
use distributed_event_bus.Broker.Publish.{Choices}
use distributed_event_bus.Broker.Openness.{IsOpenAt, enters-opens}
use distributed_event_bus.Broker.Invariant.Defs.{IsSound, IsRange}
use distributed_event_bus.Broker.Invariant.Subscribing.{subscribe-IsSound}
use distributed_event_bus.Server.State.{Connection, Server}
use distributed_event_bus.Server.Requests.{close_old, handle_frame}
use distributed_event_bus.Server.Lifecycle.{subscriptions, close_connection}
use distributed_event_bus.Server.Steps.{update, IsOrder, Serves}
use distributed_event_bus.Server.Changes.{
  Changes, quiet, subscribed, unsubscribed, handle_frame-Changes,
}
use distributed_event_bus.Server.Closings.{
  standings-opens, close_old-IsSound, close_old-opens, close_subscriptions-IsSound,
  close_subscriptions-opens, visited-subscriptions, close_connection_done, close_connection_form,
}
use distributed_event_bus.Server.Ownership.{Holds, IsOwned, update-IsOwned}

-- A change of a connection that keeps its subscriptions, in a broker where nothing opens.
pub same_subs-IsOwned :
    (s : Server) (i : ℕ) (c c' : Connection) (b' : Broker)
    → IsOwned s
    → get_elem? s.connections i ≡ some c
    → IsSound b'
    → c'.subs ≡ c.subs
    → c'.closed ≡ c.closed
    → (c'.draining ≡ true → s.draining ≡ true)
    → ((r : ℕ) (topic : Text) → IsOpenAt b'.heap r topic → IsOpenAt s.broker.heap r topic)
    → IsOwned (update i (c', b') s)
same_subs-IsOwned s i c c' b' owned g sound subs closed drains before =
    update-IsOwned s i c c' b' owned g sound drains (λ r topic o.
      inr
        (before r topic o, λ h. (record { entered = ap (lookup topic) subs ∙ h.entered }, closed)))

-- An entry of another topic stays.
insert_elsewhere :
    (t topic : Text) (v r : ℕ) (m : Map Text ℕ)
    → lookup topic m ≡ some r
    → lookup t m ≢ some r
    → lookup topic (insert t v m) ≡ some r
insert_elsewhere t topic v r m h n = ground (arith, lookup-insert t topic v m, text_eq_iff t topic)

delete_elsewhere :
    (t topic : Text) (r : ℕ) (m : Map Text ℕ)
    → lookup topic m ≡ some r
    → lookup t m ≢ some r
    → lookup topic (delete t m) ≡ some r
delete_elsewhere t topic r m h n = ground (arith, lookup-delete t topic m, text_eq_iff t topic)

Changes-IsOwned :
    (s : Server) (i : ℕ) (c c' : Connection) (b' : Broker)
    → length s.broker.heap < 2 ^ 64 - 1
    → IsOwned s
    → Serves s i c
    → (s.closed ≡ false → c.closed ≡ false)
    → Changes c s.broker c' b'
    → IsOwned (update i (c', b') s)
Changes-IsOwned s i c c' b' few owned at live (quiet subs closed drains same sound) =
    same_subs-IsOwned s i c c' b' owned at.found sound subs closed
      (λ d. owned.drains i c at.found (sym drains ∙ d))
      (λ r topic o. standings-opens s.broker b' r topic same o)
Changes-IsOwned s i c c' b' few owned at live (subscribed t id b1 e grown p q) =
    rw (p, q)
      (update-IsOwned s i c _ _ owned at.found (close_old-IsSound (lookup t c.subs) b1 sound1)
        (λ d. owned.drains i c at.found d) kept)
  where
    sound1 : IsSound b1
    sound1 = subst IsSound (ap (λ x. x.0) e) (subscribe-IsSound t s.broker few owned.sound)

    kept :
        (r : ℕ) (topic : Text)
        → IsOpenAt (close_old (lookup t c.subs) b1).heap r topic
        → (Holds (record c { subs = insert t (length s.broker.heap) c.subs }) topic r
            × (contains i s.conns ≡ true)
            × (s.closed ≡ false → c.closed ≡ false))
          ⊎ (IsOpenAt s.broker.heap r topic
              × (Holds c topic r
                  → Holds (record c { subs = insert t (length s.broker.heap) c.subs }) topic r
                    × (c.closed ≡ c.closed)))
    kept r topic o =
        let (o1, n) = close_old-opens (lookup t c.subs) r topic b1 sound1 o in
        elim (enters-opens t id r topic s.broker b1 grown o1) [
          | inl (new, same) ↦ inl (
            record {
              entered =
                  rw (lookup-insert t topic (length s.broker.heap) c.subs, same, beq_refl t, new)
                    refl;
            },
            at.listed,
            live,
          )
          | inr before ↦ inr (
            before,
            λ h. (
              record {
                entered = insert_elsewhere t topic (length s.broker.heap) r c.subs h.entered n;
              },
              refl,
            ),
          )
        ]
Changes-IsOwned s i c c' b' few owned at live (unsubscribed t p q) =
    rw (p, q)
      (update-IsOwned s i c _ _ owned at.found
        (close_old-IsSound (lookup t c.subs) s.broker owned.sound)
        (λ d. owned.drains i c at.found d)
        (λ r topic o.
          let (before, n) = close_old-opens (lookup t c.subs) r topic s.broker owned.sound o in
          inr (
            before,
            λ h. (record { entered = delete_elsewhere t topic r c.subs h.entered n }, refl),
          )))

pub handle_frame-IsOwned :
    (network_text : ℕ → Text) (choices : Choices) (frame : Frame) (s : Server) (i : ℕ)
    (c : Connection)
    → IsRange choices
    → length s.broker.heap < 2 ^ 64 - 1
    → IsOwned s
    → Serves s i c
    → (s.closed ≡ false → c.closed ≡ false)
    → IsOwned (update i (handle_frame network_text choices s.draining frame c s.broker).0 s)
handle_frame-IsOwned network_text choices frame s i c range few owned at live =
    Changes-IsOwned s i c _ _ few owned at live
      (handle_frame-Changes c s.broker owned.sound network_text choices s.draining frame range)

-- A connection that is closed gives up all that it holds. The broker may have changed before, as long as
-- nothing has opened.
pub close_connection-IsOwned :
    (visit : List ℕ → List ℕ) (s : Server) (i : ℕ) (c c' : Connection) (b1 : Broker)
    → IsOrder visit
    → IsOwned s
    → get_elem? s.connections i ≡ some c
    → IsSound b1
    → c'.subs ≡ c.subs
    → c'.closed ≡ c.closed
    → (c'.draining ≡ true → s.draining ≡ true)
    → ((r : ℕ) (topic : Text) → IsOpenAt b1.heap r topic → IsOpenAt s.broker.heap r topic)
    → IsOwned (update i (close_connection visit c' b1) s)
close_connection-IsOwned visit s i c c' b1 order owned g sound subs closed drains before =
    elim (Bool-cases c'.closed) [
      | inl done ↦
          rw (close_connection_done visit c' b1 done)
            (same_subs-IsOwned s i c c' b1 owned g sound subs closed drains before)
      | inr live ↦ rw (close_connection_form visit c' b1 live) (
          update-IsOwned s i c _ _ owned g
            (close_subscriptions-IsSound (visit (subscriptions c'.subs)) b1 sound) drains
            (λ r topic o.
              let (o1, n) =
                close_subscriptions-opens (visit (subscriptions c'.subs)) r topic b1 sound o in
              inr (
                before r topic o1,
                λ h. absurd (
                    cc (
                      n,
                      visited-subscriptions visit topic r c'.subs order
                          (ap (lookup topic) subs ∙ h.entered),
                    )),
              )))
    ]
