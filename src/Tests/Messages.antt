-- ===== src/Tests/Messages.antt =====
-- The theorems on messages applied to short ones.
use distributed_event_bus.Prelude.{ℕ, ◌≡◌, refl, List, [], ◌∷◌, ◌++◌, arith, ok, err}
use distributed_event_bus.Wire.Bytes.{invalid_payload, IsBytes, uint16, uint32, read_exact}
use distributed_event_bus.Broker.Event.{Event}
use distributed_event_bus.Messages.Fields.{read_string, read_bytes}
use distributed_event_bus.Messages.Codec.{
  PublishMessage, AckMessage, encode_publish, decode_publish, encode_event, decode_event,
  encode_ack, decode_ack, encode_connect, decode_connect, encode_error, decode_error,
  encode_shutdown, decode_shutdown, ack_delivered,
}
use distributed_event_bus.Messages.Steps.{RoundTrip}
use distributed_event_bus.Messages.RoundTrip.{decode_ack-encode_ack}
use distributed_event_bus.Messages.TextRoundTrip.{decode_text-encode_text}
use distributed_event_bus.Messages.PublishRoundTrip.{
  decode_publish-encode_publish, decode_event-encode_event,
}
use distributed_event_bus.Messages.Rejects.{decode_publish_exact}

-- "x" as a string on the wire.
abbrev text_x : List ℕ
text_x = 0 ∷ 1 ∷ 120 ∷ []

text_x-IsBytes : IsBytes text_x
text_x-IsBytes = (omega arith, (omega arith, (omega arith, tt)))

-- The message of the event "x" of the topic "x", with no keys and one byte.
abbrev event_x : Event
event_x = record {
  id = 120 ∷ [];
  idempotency_key = [];
  topic = 120 ∷ [];
  key = [];
  payload = 7 ∷ [];
}

abbrev message_x : PublishMessage
message_x = record {
  id = 120 ∷ [];
  idempotency_key = [];
  topic = 120 ∷ [];
  key = [];
  payload = 7 ∷ [];
}

abbrev bytes_x : List ℕ
bytes_x = 0 ∷ 1 ∷ 120 ∷ 0 ∷ 0 ∷ 0 ∷ 1 ∷ 120 ∷ 0 ∷ 0 ∷ 0 ∷ 0 ∷ 0 ∷ 1 ∷ 7 ∷ []

bytes_x-IsBytes : IsBytes bytes_x
bytes_x-IsBytes = (
  omega arith,
  (
    omega arith,
    (
      omega arith,
      (
        omega arith,
        (
          omega arith,
          (
            omega arith,
            (
              omega arith,
              (
                omega arith,
                (
                  omega arith,
                  (
                    omega arith,
                    (omega arith, (omega arith, (omega arith, (omega arith, (omega arith, tt))))),
                  ),
                ),
              ),
            ),
          ),
        ),
      ),
    ),
  ),
)

decode_text-encode_text_example :
    RoundTrip encode_connect decode_connect (record { client_id = 120 ∷ [] }) text_x
    × RoundTrip encode_error decode_error (record { error = 120 ∷ [] }) text_x
    × RoundTrip encode_shutdown decode_shutdown (record { redirect = 120 ∷ [] }) text_x
decode_text-encode_text_example = decode_text-encode_text (120 ∷ []) text_x text_x-IsBytes

decode_publish-encode_publish_example : RoundTrip encode_publish decode_publish message_x bytes_x
decode_publish-encode_publish_example =
    decode_publish-encode_publish message_x bytes_x bytes_x-IsBytes

decode_event-encode_event_example : RoundTrip encode_event decode_event event_x bytes_x
decode_event-encode_event_example = decode_event-encode_event event_x bytes_x bytes_x-IsBytes

abbrev ack_x : AckMessage
ack_x = record { id = 120 ∷ []; status = ack_delivered; error = [] }

ack_x-IsBytes : IsBytes (text_x ++ (4 ∷ 0 ∷ 0 ∷ []))
ack_x-IsBytes =
    (omega arith, (omega arith, (omega arith, (omega arith, (omega arith, (omega arith, tt))))))

decode_ack-encode_ack_example : RoundTrip encode_ack decode_ack ack_x (text_x ++ (4 ∷ 0 ∷ 0 ∷ []))
decode_ack-encode_ack_example =
    decode_ack-encode_ack ack_x (text_x ++ (4 ∷ 0 ∷ 0 ∷ [])) ack_x-IsBytes

-- The bytes decode, so that each round trip above has both sides.
decodes_message : decode_publish bytes_x ≡ ok message_x
unfolding decode_publish read_string read_bytes uint16 uint32 read_exact
decodes_message = refl

decode_publish_exact_example :
    (decode_publish (bytes_x ++ (9 ∷ [])) ≡ err invalid_payload)
    × (decode_publish (0 ∷ 1 ∷ []) ≡ err invalid_payload)
decode_publish_exact_example =
    decode_publish_exact message_x (0 ∷ 1 ∷ [])
      (0 ∷ 0 ∷ 0 ∷ 1 ∷ 120 ∷ 0 ∷ 0 ∷ 0 ∷ 0 ∷ 0 ∷ 1 ∷ 7 ∷ []) [] 120 9 bytes_x-IsBytes
      decodes_message

decodes_ack : decode_ack (text_x ++ (4 ∷ 0 ∷ 0 ∷ [])) ≡ ok ack_x
unfolding decode_ack read_string uint16 read_exact
decodes_ack = refl
