-- ===== src/Server/Publishing.antt =====
-- transport/tcp/server.go: `connection.publish`, from the payload of a PUBLISH frame to the
-- acknowledgement that is sent.
use distributed_event_bus.Prelude.{
  ℕ, List, [], ◌∷◌, Text, Option, none, some, ok, err, length, ◌==◌, if◌then◌else◌,
}
use distributed_event_bus.Wire.Bytes.{WireError}
use distributed_event_bus.Protocol.Frame.{Frame, type_ack}
use distributed_event_bus.Broker.State.{
  Broker, Error, canceled, deadline_exceeded, context_done, queue_full, subscription_closed,
}
use distributed_event_bus.Broker.Publish.{
  Choices, PublishResult, published, duplicate, Reply, replies, blocked, publish_with_result,
}
use distributed_event_bus.Messages.Codec.{
  AckMessage, decode_publish, encode_ack, event_of, ack_published, ack_duplicate, ack_rejected,
}

-- "broker is closed"
abbrev pub closed_text : Text
closed_text =
    98 ∷ 114 ∷ 111 ∷ 107 ∷ 101 ∷ 114 ∷ 32 ∷ 105 ∷ 115 ∷ 32 ∷ 99 ∷ 108 ∷ 111 ∷ 115 ∷ 101 ∷ 100 ∷ []

-- "broker is draining"
abbrev pub draining_text : Text
draining_text =
    98 ∷ 114 ∷ 111 ∷ 107 ∷ 101 ∷ 114 ∷ 32 ∷ 105 ∷ 115 ∷ 32 ∷ 100 ∷ 114 ∷ 97 ∷ 105 ∷ 110 ∷ 105 ∷ 110
    ∷ 103 ∷ []

-- "subscriber queue is full"
abbrev pub queue_full_text : Text
queue_full_text =
    115 ∷ 117 ∷ 98 ∷ 115 ∷ 99 ∷ 114 ∷ 105 ∷ 98 ∷ 101 ∷ 114 ∷ 32 ∷ 113 ∷ 117 ∷ 101 ∷ 117 ∷ 101 ∷ 32
    ∷ 105 ∷ 115 ∷ 32 ∷ 102 ∷ 117 ∷ 108 ∷ 108 ∷ []

-- "subscription is closed"
abbrev pub subscription_text : Text
subscription_text =
    115 ∷ 117 ∷ 98 ∷ 115 ∷ 99 ∷ 114 ∷ 105 ∷ 112 ∷ 116 ∷ 105 ∷ 111 ∷ 110 ∷ 32 ∷ 105 ∷ 115 ∷ 32 ∷ 99
    ∷ 108 ∷ 111 ∷ 115 ∷ 101 ∷ 100 ∷ []

-- "context canceled"
abbrev pub canceled_text : Text
canceled_text =
    99 ∷ 111 ∷ 110 ∷ 116 ∷ 101 ∷ 120 ∷ 116 ∷ 32 ∷ 99 ∷ 97 ∷ 110 ∷ 99 ∷ 101 ∷ 108 ∷ 101 ∷ 100 ∷ []

-- "context deadline exceeded"
abbrev pub deadline_text : Text
deadline_text =
    99 ∷ 111 ∷ 110 ∷ 116 ∷ 101 ∷ 120 ∷ 116 ∷ 32 ∷ 100 ∷ 101 ∷ 97 ∷ 100 ∷ 108 ∷ 105 ∷ 110 ∷ 101 ∷ 32
    ∷ 101 ∷ 120 ∷ 99 ∷ 101 ∷ 101 ∷ 100 ∷ 101 ∷ 100 ∷ []

-- `err.Error()`
unfoldable pub error_text : Error → Text
error_text Error.closed = closed_text
error_text Error.draining = draining_text
error_text queue_full = queue_full_text
error_text subscription_closed = subscription_text
error_text (context_done canceled) = canceled_text
error_text (context_done deadline_exceeded) = deadline_text

-- The acknowledgement of a publish: `status` is `ack.Status` after the two tests.
unfoldable pub ack_for : Text → PublishResult → Option Error → AckMessage
unfolding error_text
ack_for id result none = record {
  id = id;
  status = elim result [ published ↦ ack_published | duplicate ↦ ack_duplicate ];
  error = [];
}
ack_for id result (some e) = record { id = id; status = ack_rejected; error = error_text e }

-- How the handler ends: it sends a frame, it returns an error, or it waits in the broker.
pub data Handled : Type 0 where
  sends : Frame → Handled
  invalid_publish : Handled
  not_encoded : WireError → Handled
  waits : Handled

unfoldable pub answer : Text → Reply → Handled
unfolding ack_for
answer id (replies result failure) = elim (encode_ack (ack_for id result failure)) [
  | ok payload ↦ sends (record { kind = type_ack; payload = payload })
  | err e ↦ not_encoded e
]
answer id blocked = waits

-- `connection.publish`. The context is `context.Background()`, which is never done.
unfoldable pub handle_publish : Choices → List ℕ → Broker → Broker × Handled
unfolding answer
handle_publish c payload b = elim (decode_publish payload) [
  | err _ ↦ (b, invalid_publish)
  | ok message ↦
      let (b', reply) = publish_with_result c none (event_of message) b in
      if length message.topic == 0 then (b, invalid_publish) else (b', answer message.id reply)
]
