-- ===== src/Server/Changes.antt =====
-- What a frame changes in its connection and in the broker.
use distributed_event_bus.Prelude.{
  ℕ, ◌≡◌, ◌≢◌, refl, inl, inr, Bool, false, List, [], ◌∷◌, ◌++◌, Text, none, Result-cases, ok,
  length, ◌==◌, lookup, insert, delete, text_key, arith, if◌then◌else◌, Bool-cases,
}
use distributed_event_bus.Protocol.Frame.{Frame}
use distributed_event_bus.Broker.State.{Broker, Error}
use distributed_event_bus.Broker.Subscription
use distributed_event_bus.Broker.Publish.{Choices}
use distributed_event_bus.Broker.Openness.{
  subscribe_fails, enters, subscribe-Subscribes, publish-standings,
}
use distributed_event_bus.Broker.Invariant.Defs.{IsSound, IsRange, standings}
use distributed_event_bus.Broker.Invariant.Calls.{publish-IsSound}
use distributed_event_bus.Messages.Codec.{decode_topic, decode_publish, event_of}
use distributed_event_bus.Server.Branches.{
  subscribe_bad, subscribe_empty, subscribe_draining, subscribe_refuses, subscribe_succeeds,
  to_subscribe, to_publish, to_acknowledge, to_ping, to_unsubscribe, to_nothing,
  handle_frame-Dispatch,
}
use distributed_event_bus.Server.Publishing.{handle_publish}
use distributed_event_bus.Server.State.{Connection, is_draining}
use distributed_event_bus.Server.Requests.{
  close_old, subscribe, unsubscribe, acknowledge, handle_publication, handle_frame,
}

-- What is open does not change, or a subscription takes the place of an older one to its topic, or the
-- subscription to a topic goes.
pub data Changes (c : Connection) (b : Broker) (c' : Connection) (b' : Broker) : Type 0 where
  quiet :
      c'.subs ≡ c.subs
      → c'.closed ≡ c.closed
      → c'.draining ≡ c.draining
      → standings b'.heap ≡ standings b.heap
      → IsSound b'
      → Changes c b c' b'
  subscribed :
      (topic : Text) (id : ℕ) (b1 : Broker)
      → Subscription.subscribe topic b ≡ (b1, ok (length b.heap))
      → standings b1.heap
        ≡ standings b.heap ++ (record { topic = topic; id = id; closed = false } ∷ [])
      → c' ≡ record c { subs = insert topic (length b.heap) c.subs }
      → b' ≡ close_old (lookup topic c.subs) b1
      → Changes c b c' b'
  unsubscribed :
      (topic : Text)
      → c' ≡ record c { subs = delete topic c.subs }
      → b' ≡ close_old (lookup topic c.subs) b
      → Changes c b c' b'

module _ (c : Connection) (b : Broker) (sound : IsSound b) where
  unchanged : Changes c b c b
  unchanged = quiet refl refl refl refl sound

  unsubscribe-Changes :
      (payload : List ℕ) → Changes c b (unsubscribe payload c b).0 (unsubscribe payload c b).1
  unsubscribe-Changes payload = elim (Result-cases (decode_topic payload)) [
    | inl (m, e) ↦
        unsubscribed m.topic (unfold unsubscribe in rw (e, unsubscribe) refl)
          (unfold unsubscribe in rw (e, unsubscribe) refl)
    | inr (x, e) ↦ unfold unsubscribe in rw (e, unsubscribe) unchanged
  ]

  subscribe-Changes :
      (draining : Bool) (payload : List ℕ)
      → Changes c b (subscribe draining payload c b).0.0 (subscribe draining payload c b).0.1
  subscribe-Changes draining payload = elim (Result-cases (decode_topic payload)) [
    | inr (x, e) ↦ rw (subscribe_bad c b draining payload x e) unchanged
    | inl (m, e) ↦ elim (Bool-cases (length m.topic == 0)) [
      | inl z ↦ rw (subscribe_empty c b draining payload m e (ground arith)) unchanged
      | inr n ↦
          let n' : length m.topic ≢ 0 = ground arith in
          elim (Bool-cases (is_draining draining c)) [
            | inl d ↦ rw (subscribe_draining c b draining payload m e n' d) unchanged
            | inr d ↦ elim (subscribe-Subscribes m.topic b) [
              | subscribe_fails f ↦
                  rw (subscribe_refuses c b draining payload m b Error.closed e n' d f) unchanged
              | enters b1 id f l _ _ ↦
                  rw (subscribe_succeeds c b draining payload m b1 (length b.heap) e n' d f)
                    (subscribed m.topic id b1 f l refl refl)
            ]
          ]
    ]
  ]

  acknowledge-Keeps :
      (payload : List ℕ)
      → ((acknowledge payload c).0.subs ≡ c.subs)
        × ((acknowledge payload c).0.closed ≡ c.closed)
        × ((acknowledge payload c).0.draining ≡ c.draining)
  unfolding acknowledge
  acknowledge-Keeps payload = ground arith

  handle_publish-Keeps :
      (choices : Choices) (payload : List ℕ)
      → IsRange choices
      → let b' = (handle_publish choices payload b).0 in
        IsSound b' × (standings b'.heap ≡ standings b.heap)
  unfolding handle_publish
  handle_publish-Keeps choices payload range = elim (Result-cases (decode_publish payload)) [
    | inr (x, e) ↦ rw (e, handle_publish) (sound, refl)
    | inl (m, e) ↦ elim (Bool-cases (length m.topic == 0)) [
      | inl z ↦ rw (e, handle_publish) (rw z (sound, refl))
      | inr n ↦
          rw (e, handle_publish)
            (rw n (
              publish-IsSound choices none (event_of m) b range sound,
              publish-standings choices none (event_of m) b sound,
            ))
    ]
  ]

  publication :
      (network_text : ℕ → Text) (choices : Choices) (draining : Bool) (payload : List ℕ)
      → (handle_publication network_text choices draining payload c b).0
        ≡ (if is_draining draining c then b else (handle_publish choices payload b).0)
  unfolding handle_publication
  publication network_text choices draining payload = ground arith

  handle_publication-Keeps :
      (network_text : ℕ → Text) (choices : Choices) (draining : Bool) (payload : List ℕ)
      → IsRange choices
      → let b' = (handle_publication network_text choices draining payload c b).0 in
        IsSound b' × (standings b'.heap ≡ standings b.heap)
  handle_publication-Keeps network_text choices draining payload range =
      rw (publication network_text choices draining payload)
        (elim (Bool-cases (is_draining draining c)) [
          | inl d ↦ rw d (sound, refl)
          | inr d ↦ rw d (handle_publish-Keeps choices payload range)
        ])

  -- Whatever frame it is.
  pub handle_frame-Changes :
      (network_text : ℕ → Text) (choices : Choices) (draining : Bool) (frame : Frame)
      → IsRange choices
      → let after = handle_frame network_text choices draining frame c b in
        Changes c b after.0.0 after.0.1
  handle_frame-Changes network_text choices draining frame range =
      elim (handle_frame-Dispatch network_text choices draining frame c b) [
        | to_subscribe _ e ↦ rw e (subscribe-Changes draining frame.payload)
        | to_publish _ e ↦
            let (k, l) =
              handle_publication-Keeps network_text choices draining frame.payload range in
            rw e (quiet refl refl refl l k)
        | to_acknowledge _ e ↦
            let (k, l, d) = acknowledge-Keeps frame.payload in rw e (quiet k l d refl sound)
        | to_ping _ e ↦ rw e unchanged
        | to_unsubscribe _ e ↦ rw e (unsubscribe-Changes frame.payload)
        | to_nothing e ↦ rw e unchanged
      ]
