-- ===== src/Server/Delivery.antt =====
-- transport/tcp/server.go: `connection.deliver`, which sends an event until the client acknowledges it.
use distributed_event_bus.Prelude.{
  ℕ, zero, suc, ◌+◌, Bool, true, false, List, [], ◌∷◌, ok, err, ◌==◌, if◌then◌else◌,
}
use distributed_event_bus.Protocol.Frame.{Frame, type_event}
use distributed_event_bus.Broker.Event.{Event}
use distributed_event_bus.Messages.Codec.{encode_event, ack_delivered}

-- `deliveryMaxAttempts`
abbrev pub delivery_max_attempts : ℕ
delivery_max_attempts = 3

-- What becomes of one attempt: the connection fails, the client's status arrives, or the timer fires.
pub data Attempted : Type 0 where
  send_fails : Attempted
  answers : ℕ → Attempted
  times_out : Attempted

-- The loop of `deliver`, with the attempts that are left and the number of this one: whether the event
-- was acknowledged, and the frames that were sent.
unfoldable pub attempts : (ℕ → Attempted) → Frame → ℕ → ℕ → Bool × List Frame
attempts world frame zero attempt = (false, [])
attempts world frame (suc left) attempt =
    let (later, frames) = attempts world frame left (attempt + 1) in
    elim (world attempt) [
      | send_fails ↦ (false, [])
      | answers status ↦
          if status == ack_delivered then (true, frame ∷ []) else (later, frame ∷ frames)
      | times_out ↦ (later, frame ∷ frames)
    ]

-- `connection.deliver`
unfoldable pub deliver : (ℕ → Attempted) → Event → Bool × List Frame
unfolding attempts
deliver world event = elim (encode_event event) [
  | err _ ↦ (false, [])
  | ok payload ↦
      attempts world (record { kind = type_event; payload = payload }) delivery_max_attempts 1
]
