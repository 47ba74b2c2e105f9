-- ===== src/Server/PublishingLaws.antt =====
-- The answer to a PUBLISH frame says what the broker did.
use distributed_event_bus.Prelude.{
  [], ℕ, ◌≤◌, ◌<◌, ◌≡◌, ap, ◌∙◌, List, Text, Option, none, some, ok, length, arith,
}
use distributed_event_bus.Wire.Bytes.{IsBytes}
use distributed_event_bus.Protocol.Frame.{type_ack}
use distributed_event_bus.Broker.State.{
  Broker, Error, canceled, deadline_exceeded, context_done, queue_full, subscription_closed,
}
use distributed_event_bus.Broker.Publish.{
  published, duplicate, Choices, PublishResult, Reply, replies, publish_with_result,
}
use distributed_event_bus.Messages.Fields.{max_string}
use distributed_event_bus.Messages.Codec.{
  AckMessage, ack_published, ack_duplicate, ack_rejected, PublishMessage, decode_publish,
  encode_publish, encode_ack, decode_ack, event_of,
}
use distributed_event_bus.Messages.PublishRoundTrip.{
  decode_publish-encode_publish, encode_publish-PublishLayout,
}
use distributed_event_bus.Messages.RoundTrip.{encode_ack_fits}
use distributed_event_bus.Server.Publishing.{error_text, ack_for, sends, answer, handle_publish}

pub error_text_short : (e : Error) → length (error_text e) ≤ max_string
unfolding error_text
error_text_short Error.closed = omega arith
error_text_short Error.draining = omega arith
error_text_short queue_full = omega arith
error_text_short subscription_closed = omega arith
error_text_short (context_done canceled) = omega arith
error_text_short (context_done deadline_exceeded) = omega arith

ack_fits :
    (id : Text) (result : PublishResult) (failure : Option Error)
    → length id ≤ max_string
    → (length (ack_for id result failure).id ≤ max_string)
      × (length (ack_for id result failure).error ≤ max_string)
unfolding ack_for
ack_fits id result none h = (h, omega arith)
ack_fits id result (some e) h = (h, error_text_short e)

answer_form :
    (id : Text) (result : PublishResult) (failure : Option Error) (payload : List ℕ)
    → encode_ack (ack_for id result failure) ≡ ok payload
    → answer id (replies result failure) ≡ sends (record { kind = type_ack; payload = payload })
unfolding answer
answer_form id result failure payload h = rw (h, answer)

handle_publish_form :
    (c : Choices) (m : PublishMessage) (payload : List ℕ) (b b' : Broker) (reply : Reply)
    → decode_publish payload ≡ ok m
    → 0 < length m.topic
    → publish_with_result c none (event_of m) b ≡ (b', reply)
    → handle_publish c payload b ≡ (b', answer m.id reply)
unfolding handle_publish
handle_publish_form c m payload b b' reply d h p = rw (d, handle_publish) (ground arith)

-- The acknowledgement that a reply of the broker calls for.
pub data Acks (id : Text) : PublishResult → Option Error → AckMessage → Type 0 where
  acks_published : Acks id published none (record { id = id; status = ack_published; error = [] })
  acks_duplicate : Acks id duplicate none (record { id = id; status = ack_duplicate; error = [] })
  acks_rejected :
      (result : PublishResult) (e : Error)
      → Acks id result (some e) (record { id = id; status = ack_rejected; error = error_text e })

ack_for-Acks :
    (id : Text) (result : PublishResult) (failure : Option Error)
    → Acks id result failure (ack_for id result failure)
unfolding ack_for
ack_for-Acks id published none = acks_published
ack_for-Acks id duplicate none = acks_duplicate
ack_for-Acks id result (some e) = acks_rejected result e

-- The bytes that a client encodes for a message with a topic reach the broker as the event of that
-- message. Where the broker replies, the handler sends an ACK frame, whose payload decodes to the
-- message's ID with the status published, duplicate or rejected and the error's text, as the broker
-- replied, and the broker is left as its publish left it.
pub handle_publish_answers :
    (c : Choices) (m : PublishMessage) (payload : List ℕ) (b b' : Broker) (result : PublishResult)
    (failure : Option Error)
    → IsBytes payload
    → encode_publish m ≡ ok payload
    → 0 < length m.topic
    → publish_with_result c none (event_of m) b ≡ (b', replies result failure)
    → (sent : List ℕ) × (ack : AckMessage) × (handle_publish c payload b
        ≡ (b', sends (record { kind = type_ack; payload = sent })))
      × (decode_ack sent ≡ ok ack)
      × Acks m.id result failure ack
handle_publish_answers c m payload b b' result failure bytes e h p =
    let l = encode_publish-PublishLayout m payload e in
    let (id_fits, error_fits) = ack_fits m.id result failure l.id_fits in
    let (sent, encoded, decoded) =
      encode_ack_fits (ack_for m.id result failure) id_fits error_fits in
    (
      sent,
      ack_for m.id result failure,
      handle_publish_form c m payload b b' (replies result failure)
            ((decode_publish-encode_publish m payload bytes).1 e) h p
          ∙ ap (λ x. (b', x)) (answer_form m.id result failure sent encoded),
      decoded,
      ack_for-Acks m.id result failure,
    )
