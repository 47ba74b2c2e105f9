-- ===== src/Client/Histories.antt =====
-- Histories of a client: what its application and its connection do, in any order.
use distributed_event_bus.Prelude.{
  ℕ, ◌≡◌, ◌≢◌, refl, sym, ap, ◌∙◌, List, [], ◌∷◌, Text, Option, none, some, Result, ok, length,
  arith, Result-cases, inl, inr,
}
use distributed_event_bus.Wire.Bytes.{WireError}
use distributed_event_bus.Protocol.Frame.{Frame}
use distributed_event_bus.Broker.Event.{Event}
use distributed_event_bus.Messages.Codec.{encode_publish, message_of, encode_ack}
use distributed_event_bus.Client.Deliveries.{remember_delivery, remember_deliveries}
use distributed_event_bus.Client.State.{Client, ClientError, close}
use distributed_event_bus.Client.Calls.{
  acknowledge, acknowledge_sent, publish, publish_sent, register, unregister, Awaited, await,
  identify,
}
use distributed_event_bus.Client.ReadLoop.{World, take_frame, next_event}
use distributed_event_bus.Client.Suppression.{
  delivered, refuses, gives, acknowledge-Acknowledging, take_frame-deliveries,
}

-- One step, with the IDs that the application has acknowledged in it.
pub data Step (c : Client) : List Text → Client → Type 0 where
  reads : (world : World) (frame : Frame) → Step c [] (take_frame world frame c).0
  acknowledges :
      (failure : Option WireError) (id : Text)
      → (acknowledge failure id c).1.0 ≡ none
      → Step c (id ∷ []) (acknowledge failure id c).0
  acknowledges_not :
      (failure : Option WireError) (id : Text) (e : ClientError)
      → (acknowledge failure id c).1.0 ≡ some e
      → Step c [] (acknowledge failure id c).0
  publishes :
      (random : Result WireError (List ℕ)) (failure : Option WireError) (event : Event)
      → Step c [] (publish random failure event c).0
  awaits_reply :
      (awaited : Awaited) (id : Text) (channel : ℕ) → Step c [] (await awaited id channel c).0
  takes_event : Step c [] (next_event c).0
  closes : Step c [] (close c)

pub data Steps : Client → List Text → Client → Type 0 where
  no_steps : {c : Client} → Steps c [] c
  quietly : {c c1 c2 : Client} {ids : List Text} → Step c [] c1 → Steps c1 ids c2 → Steps c ids c2
  acknowledging :
      {c c1 c2 : Client} {id : Text} {ids : List Text}
      → Step c (id ∷ []) c1
      → Steps c1 ids c2
      → Steps c (id ∷ ids) c2

pub acknowledge_ok :
    (failure : Option WireError) (id : Text) (c : Client)
    → (acknowledge failure id c).1.0 ≡ none
    → ((payload : List ℕ) × (length id ≢ 0) × (encode_ack (delivered id) ≡ ok payload))
      × ((acknowledge failure id c).0 ≡ record c { deliveries = remember_delivery id c.deliveries })
unfolding acknowledge_sent
acknowledge_ok failure id c h = elim (acknowledge-Acknowledging failure id c) [
  | refuses x e ↦ absurd (cc (h, ap (λ x. x.1.0) e))
  | gives payload n q e ↦
      let sent = sym (ap (λ x. x.1.0) e) ∙ h in ((payload, n, q), ap (λ x. x.0) e ∙ rw sent refl)
]

acknowledge_fails :
    (failure : Option WireError) (id : Text) (c : Client) (x : ClientError)
    → (acknowledge failure id c).1.0 ≡ some x
    → (acknowledge failure id c).0 ≡ c
unfolding acknowledge_sent
acknowledge_fails failure id c x h = elim (acknowledge-Acknowledging failure id c) [
  | refuses y e ↦ ap (λ x. x.0) e
  | gives payload n q e ↦ let sent = sym (ap (λ x. x.1.0) e) ∙ h in ap (λ x. x.0) e ∙ rw sent refl
]

publish_sent-deliveries :
    (id : Text) (channel : ℕ) (c : Client) (failed : Option ClientError)
    → (publish_sent id channel c failed).0.deliveries ≡ c.deliveries
unfolding publish_sent unregister
publish_sent-deliveries id channel c none = refl
publish_sent-deliveries id channel c (some e) = refl

publish-deliveries :
    (random : Result WireError (List ℕ)) (failure : Option WireError) (event : Event) (c : Client)
    → (publish random failure event c).0.deliveries ≡ c.deliveries
unfolding publish register unregister
publish-deliveries random failure event c = elim (Result-cases (identify random event)) [
  | inl (event', i) ↦
      rw (i, publish)
        (elim (Result-cases (encode_publish (message_of event'))) [
          | inl (payload, e) ↦
              rw e (publish_sent-deliveries event'.id (length c.channels) (register event'.id c) _)
          | inr (x, e) ↦ rw e refl
        ])
  | inr (x, i) ↦ rw (i, publish) refl
]

await-deliveries :
    (awaited : Awaited) (id : Text) (channel : ℕ) (c : Client)
    → (await awaited id channel c).0.deliveries ≡ c.deliveries
unfolding await unregister
await-deliveries awaited id channel c = ground arith

next_event-deliveries : (c : Client) → (next_event c).0.deliveries ≡ c.deliveries
unfolding next_event
next_event-deliveries c = ground arith

Step-deliveries :
    {c c' : Client} {ids : List Text}
    → Step c ids c'
    → c'.deliveries ≡ remember_deliveries ids c.deliveries
unfolding remember_deliveries close
Step-deliveries {c} (reads world frame) = take_frame-deliveries world frame c
Step-deliveries {c} (acknowledges failure id h) =
    ap (λ (x : Client). x.deliveries) (acknowledge_ok failure id c h).1
Step-deliveries {c} (acknowledges_not failure id e h) =
    ap (λ (x : Client). x.deliveries) (acknowledge_fails failure id c e h)
Step-deliveries {c} (publishes random failure event) = publish-deliveries random failure event c
Step-deliveries {c} (awaits_reply awaited id channel) = await-deliveries awaited id channel c
Step-deliveries {c} takes_event = next_event-deliveries c
Step-deliveries {c} closes = refl

pub Steps-deliveries :
    {c c' : Client} {ids : List Text}
    → Steps c ids c'
    → c'.deliveries ≡ remember_deliveries ids c.deliveries
Steps-deliveries no_steps = unfold remember_deliveries in refl
Steps-deliveries (quietly {ids = ids} st rest) =
    Steps-deliveries rest
    ∙ ap (remember_deliveries ids) (Step-deliveries st ∙ (unfold remember_deliveries in refl))
Steps-deliveries (acknowledging {id = id} {ids = ids} st rest) =
    Steps-deliveries rest
    ∙ ap (remember_deliveries ids) (Step-deliveries st)
    ∙ (unfold remember_deliveries in refl)
