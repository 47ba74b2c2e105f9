-- ===== src/Server/Branches.antt =====
-- The handlers of a connection, branch by branch.
use distributed_event_bus.Prelude.{
  ℕ, ◌≡◌, ◌≢◌, refl, Bool, true, false, List, [], ◌∷◌, Text, none, some, ok, err, length, ◌==◌,
  lookup, insert, text_key, arith, inl, inr, Bool-cases,
}
use distributed_event_bus.Wire.Bytes.{WireError}
use distributed_event_bus.Protocol.Frame.{
  Frame, type_subscribe, type_publish, type_ack, type_ping, type_pong, type_unsubscribe,
}
use distributed_event_bus.Broker.State.{Broker, Error}
use distributed_event_bus.Broker.Subscription
use distributed_event_bus.Broker.Publish.{Choices}
use distributed_event_bus.Messages.Codec.{TopicMessage, decode_topic}
use distributed_event_bus.Server.Failures.{invalid_subscribe, of_broker, unsupported}
use distributed_event_bus.Server.State.{Connection, is_draining}
use distributed_event_bus.Server.Requests.{
  close_old, subscribe, unsubscribe, acknowledge, Reaction, reacts, report, handle_publication,
  handle_frame,
}

module _ (c : Connection) (b : Broker) where
  -- `subscribe`, branch by branch.
  pub subscribe_bad :
      (draining : Bool) (payload : List ℕ) (e : WireError)
      → decode_topic payload ≡ err e
      → subscribe draining payload c b ≡ ((c, b), some invalid_subscribe)
  unfolding subscribe
  subscribe_bad draining payload e h = rw (h, subscribe)

  pub subscribe_empty :
      (draining : Bool) (payload : List ℕ) (m : TopicMessage)
      → decode_topic payload ≡ ok m
      → length m.topic ≡ 0
      → subscribe draining payload c b ≡ ((c, b), some invalid_subscribe)
  unfolding subscribe
  subscribe_empty draining payload m h z = rw (h, subscribe) (ground arith)

  pub subscribe_draining :
      (draining : Bool) (payload : List ℕ) (m : TopicMessage)
      → decode_topic payload ≡ ok m
      → length m.topic ≢ 0
      → is_draining draining c ≡ true
      → subscribe draining payload c b ≡ ((c, b), some (of_broker Error.draining))
  unfolding subscribe
  subscribe_draining draining payload m h z d = rw (h, subscribe) (ground arith)

  pub subscribe_refuses :
      (draining : Bool) (payload : List ℕ) (m : TopicMessage) (b1 : Broker) (e : Error)
      → decode_topic payload ≡ ok m
      → length m.topic ≢ 0
      → is_draining draining c ≡ false
      → Subscription.subscribe m.topic b ≡ (b1, err e)
      → subscribe draining payload c b ≡ ((c, b1), some (of_broker e))
  unfolding subscribe
  subscribe_refuses draining payload m b1 e h z d s = rw (h, subscribe) (ground arith)

  pub subscribe_succeeds :
      (draining : Bool) (payload : List ℕ) (m : TopicMessage) (b1 : Broker) (r : ℕ)
      → decode_topic payload ≡ ok m
      → length m.topic ≢ 0
      → is_draining draining c ≡ false
      → Subscription.subscribe m.topic b ≡ (b1, ok r)
      → subscribe draining payload c b ≡ (
        (record c { subs = insert m.topic r c.subs }, close_old (lookup m.topic c.subs) b1),
        none,
      )
  unfolding subscribe
  subscribe_succeeds draining payload m b1 r h z d s = rw (h, subscribe) (ground arith)

-- What `serve` does with a frame, by its type.
pub data Dispatch (network_text : ℕ → Text) (choices : Choices) (draining : Bool) (frame : Frame)
    (c : Connection) (b : Broker) (after : (Connection × Broker) × Reaction) : Type 0 where
  to_subscribe :
      frame.kind ≡ type_subscribe
      → after ≡ (
        (subscribe draining frame.payload c b).0,
        report network_text (subscribe draining frame.payload c b).1,
      )
      → Dispatch network_text choices draining frame c b after
  to_publish :
      frame.kind ≡ type_publish
      → after ≡ (
        (c, (handle_publication network_text choices draining frame.payload c b).0),
        (handle_publication network_text choices draining frame.payload c b).1,
      )
      → Dispatch network_text choices draining frame c b after
  to_acknowledge :
      frame.kind ≡ type_ack
      → after ≡ (
        ((acknowledge frame.payload c).0, b),
        report network_text (acknowledge frame.payload c).1,
      )
      → Dispatch network_text choices draining frame c b after
  to_ping :
      frame.kind ≡ type_ping
      → after ≡ ((c, b), reacts (record { kind = type_pong; payload = [] } ∷ []))
      → Dispatch network_text choices draining frame c b after
  to_unsubscribe :
      frame.kind ≡ type_unsubscribe
      → after ≡ (unsubscribe frame.payload c b, reacts [])
      → Dispatch network_text choices draining frame c b after
  to_nothing :
      after ≡ ((c, b), report network_text (some (unsupported frame.kind)))
      → Dispatch network_text choices draining frame c b after

pub handle_frame-Dispatch :
    (network_text : ℕ → Text) (choices : Choices) (draining : Bool) (frame : Frame) (c : Connection)
    (b : Broker)
    → Dispatch network_text choices draining frame c b
        (handle_frame network_text choices draining frame c b)
unfolding handle_frame
handle_frame-Dispatch network_text choices draining frame c b =
    elim (Bool-cases (frame.kind == type_subscribe)) [
      | inl q ↦ to_subscribe (ground arith) (rw q refl)
      | inr q1 ↦ rw q1 (elim (Bool-cases (frame.kind == type_publish)) [
        | inl q ↦ to_publish (ground arith) (rw q refl)
        | inr q2 ↦ rw q2 (elim (Bool-cases (frame.kind == type_ack)) [
          | inl q ↦ to_acknowledge (ground arith) (rw q refl)
          | inr q3 ↦ rw q3 (elim (Bool-cases (frame.kind == type_ping)) [
            | inl q ↦ to_ping (ground arith) (rw q refl)
            | inr q4 ↦ rw q4 (elim (Bool-cases (frame.kind == type_unsubscribe)) [
              | inl q ↦ to_unsubscribe (ground arith) (rw q refl)
              | inr q5 ↦ rw q5 (to_nothing refl)
            ])
          ])
        ])
      ])
    ]
