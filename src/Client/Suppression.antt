-- ===== src/Client/Suppression.antt =====
-- An event that the application has acknowledged is not given to it again.
use distributed_event_bus.Prelude.{
  ℕ, ◌<◌, ◌≤◌, ◌≡◌, ◌≢◌, refl, ap, ◌∙◌, true, false, List, [], ◌∷◌, Text, Option, none, some, ok,
  length, ◌==◌, arith, Bool-cases, Option-cases, Result-cases, inl, inr, text_key,
}
use distributed_event_bus.Wire.Bytes.{WireError}
use distributed_event_bus.Protocol.Frame.{
  Frame, type_event, type_ack, type_error, type_shutdown, max_payload_size,
}
use distributed_event_bus.Broker.Event.{Event}
use distributed_event_bus.Messages.Codec.{
  AckMessage, encode_ack, decode_ack, ack_delivered, decode_event, decode_shutdown,
}
use distributed_event_bus.Client.Deliveries.{was_delivered}
use distributed_event_bus.Client.DeliverySteps.{remember_known}
use distributed_event_bus.Client.State.{Client, ClientError, client_closed, send, refusal}
use distributed_event_bus.Client.Calls.{acknowledge, acknowledge_sent}
use distributed_event_bus.Client.ReadLoop.{
  World, Round, goes_on, take_event, take_ack, take_shutdown, take_frame,
}

-- The ACK of a delivery.
abbrev pub delivered : Text → AckMessage
delivered id = record { id = id; status = ack_delivered; error = [] }

-- How `Acknowledge` ends.
pub data Acknowledging (failure : Option WireError) (id : Text) (c : Client)
    (after : Client × (Option ClientError × List Frame)) : Type 0 where
  refuses : (e : ClientError) → after ≡ (c, (some e, [])) → Acknowledging failure id c after
  gives :
      (payload : List ℕ)
      → length id ≢ 0
      → encode_ack (delivered id) ≡ ok payload
      → after ≡ (
        acknowledge_sent id c (send failure (record { kind = type_ack; payload = payload }) c).0,
        send failure (record { kind = type_ack; payload = payload }) c,
      )
      → Acknowledging failure id c after

pub acknowledge-Acknowledging :
    (failure : Option WireError) (id : Text) (c : Client)
    → Acknowledging failure id c (acknowledge failure id c)
unfolding acknowledge
acknowledge-Acknowledging failure id c = elim (Bool-cases (length id == 0)) [
  | inl z ↦ rw z (refuses _ refl)
  | inr n ↦ rw n (elim (Result-cases (encode_ack (delivered id))) [
    | inl (payload, e) ↦ gives payload (ground arith) e (rw e refl)
    | inr (x, e) ↦ rw e (refuses _ refl)
  ])
]

-- What is written of a frame by a client whose connection works.
pub send_fits :
    (frame : Frame) (c : Client)
    → 0 < frame.kind
    → length frame.payload ≤ max_payload_size
    → c.done ≡ false
    → send none frame c ≡ (none, frame ∷ [])
unfolding send refusal
send_fits frame c typed fits live = ground arith

pub acknowledge_form :
    (id : Text) (c : Client) (payload : List ℕ)
    → length id ≢ 0
    → encode_ack (delivered id) ≡ ok payload
    → length payload ≤ max_payload_size
    → c.done ≡ false
    → acknowledge none id c
      ≡ (acknowledge_sent id c none, (none, record { kind = type_ack; payload = payload } ∷ []))
unfolding acknowledge
acknowledge_form id c payload n q fits live =
    let nonempty : (length id == 0) ≡ false = ground arith in
    rw nonempty (
      rw q (
        ap (λ (x : Option ClientError × List Frame). (acknowledge_sent id c x.0, x))
          (send_fits (record { kind = type_ack; payload = payload }) c (omega arith) fits live)))

pub acknowledge_over :
    (id : Text) (c : Client) (payload : List ℕ)
    → length id ≢ 0
    → encode_ack (delivered id) ≡ ok payload
    → c.done ≡ true
    → acknowledge none id c ≡ (c, (some client_closed, []))
unfolding acknowledge acknowledge_sent send
acknowledge_over id c payload n q over =
    let nonempty : (length id == 0) ≡ false = ground arith in rw nonempty (rw q (rw over refl))

-- An ACK of an event that is known already changes nothing.
pub acknowledge_known :
    (failure : Option WireError) (id : Text) (c : Client)
    → was_delivered id c.deliveries ≡ true
    → (acknowledge failure id c).0 ≡ c
unfolding acknowledge_sent was_delivered
acknowledge_known failure id c known = elim (acknowledge-Acknowledging failure id c) [
  | refuses x e ↦ rw e refl
  | gives payload n q e ↦
      rw e (elim (Option-cases (send failure (record { kind = type_ack; payload = payload }) c).0) [
        | inl s ↦
            rw s (ap (λ d. record c { deliveries = d }) (remember_known id c.deliveries known))
        | inr (x, s) ↦ rw s refl
      ])
]

pub take_event_known :
    (world : World) (event : Event) (c : Client)
    → was_delivered event.id c.deliveries ≡ true
    → take_event world event c ≡ (
      (acknowledge world.failure event.id c).0,
      goes_on (acknowledge world.failure event.id c).1.1,
    )
unfolding take_event
take_event_known world event c known = rw known refl

take_event-deliveries :
    (world : World) (event : Event) (c : Client)
    → (take_event world event c).0.deliveries ≡ c.deliveries
unfolding take_event
take_event-deliveries world event c = elim (Bool-cases (was_delivered event.id c.deliveries)) [
  | inl known ↦
      ap (λ (x : Client × Round). x.0.deliveries) (take_event_known world event c known)
      ∙ ap (λ (x : Client). x.deliveries) (acknowledge_known world.failure event.id c known)
  | inr fresh ↦ ground arith
]

take_ack-deliveries : (ack : AckMessage) (c : Client) → (take_ack ack c).0.deliveries ≡ c.deliveries
unfolding take_ack
take_ack-deliveries ack c = ground arith

take_shutdown-deliveries :
    (world : World) (redirect : Text) (c : Client)
    → (take_shutdown world redirect c).0.deliveries ≡ c.deliveries
unfolding take_shutdown
take_shutdown-deliveries world redirect c = ground arith

-- Reading a frame changes nothing of what is remembered.
pub take_frame-deliveries :
    (world : World) (frame : Frame) (c : Client)
    → (take_frame world frame c).0.deliveries ≡ c.deliveries
unfolding take_frame
take_frame-deliveries world frame c = elim (Bool-cases (frame.kind == type_event)) [
  | inl q ↦ rw q (elim (Result-cases (decode_event frame.payload)) [
    | inl (event, e) ↦ rw e (take_event-deliveries world event c)
    | inr (x, e) ↦ rw e refl
  ])
  | inr q1 ↦ rw q1 (elim (Bool-cases (frame.kind == type_ack)) [
    | inl q ↦ rw q (elim (Result-cases (decode_ack frame.payload)) [
      | inl (ack, e) ↦ rw e (take_ack-deliveries ack c)
      | inr (x, e) ↦ rw e refl
    ])
    | inr q2 ↦ rw q2 (elim (Bool-cases (frame.kind == type_error)) [
      | inl q ↦ rw q (ground arith)
      | inr q3 ↦ rw q3 (elim (Bool-cases (frame.kind == type_shutdown)) [
        | inl q ↦ rw q (elim (Result-cases (decode_shutdown frame.payload)) [
          | inl (m, e) ↦ rw e (take_shutdown-deliveries world m.redirect c)
          | inr (x, e) ↦ rw e refl
        ])
        | inr q4 ↦ rw q4 refl
      ])
    ])
  ])
]
