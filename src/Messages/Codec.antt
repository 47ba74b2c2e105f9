-- ===== src/Messages/Codec.antt =====
-- transport/tcp/messages.go: the messages with their encoders and decoders.
use distributed_event_bus.Prelude.{
  ℕ, List, [], ◌∷◌, ◌++◌, Result, ok, err, ◌>>=◌, or_else, Text, length, ◌==◌, if◌then◌else◌,
}
use distributed_event_bus.Wire.Bytes.{WireError, eof, invalid_payload}
use distributed_event_bus.Broker.Event.{Event}
use distributed_event_bus.Messages.Fields.{write_string, read_string, write_bytes, read_bytes}

pub record ConnectMessage : Type 0 where
  pub client_id : Text

pub record TopicMessage : Type 0 where
  pub topic : Text

pub record PublishMessage : Type 0 where
  pub id : Text
  pub idempotency_key : Text
  pub topic : Text
  pub key : Text
  pub payload : List ℕ

pub record ErrorMessage : Type 0 where
  pub error : Text

pub record ShutdownMessage : Type 0 where
  pub redirect : Text

pub record AckMessage : Type 0 where
  pub id : Text
  pub status : ℕ
  pub error : Text

-- The values of `ackMessage.Status`.
abbrev pub ack_published : ℕ
ack_published = 1

abbrev pub ack_duplicate : ℕ
ack_duplicate = 2

abbrev pub ack_rejected : ℕ
ack_rejected = 3

abbrev pub ack_delivered : ℕ
ack_delivered = 4

abbrev pub ack_redeliver : ℕ
ack_redeliver = 5

-- `if err != nil || reader.Len() != 0 { return errInvalidPayload }` behind the last field.
unfoldable pub finish : {A : Type 0} → A → List ℕ → Result WireError A
finish a rest = if length rest == 0 then ok a else err invalid_payload

unfoldable pub encode_connect : ConnectMessage → Result WireError (List ℕ)
encode_connect m = write_string [] m.client_id

unfoldable pub decode_connect : List ℕ → Result WireError ConnectMessage
unfolding finish
decode_connect payload = do
  (client_id, r) ← or_else (read_string payload) invalid_payload
  finish (record { client_id = client_id }) r

unfoldable pub encode_topic : TopicMessage → Result WireError (List ℕ)
encode_topic m = write_string [] m.topic

unfoldable pub decode_topic : List ℕ → Result WireError TopicMessage
unfolding finish
decode_topic payload = do
  (topic, r) ← or_else (read_string payload) invalid_payload
  finish (record { topic = topic }) r

unfoldable pub encode_publish : PublishMessage → Result WireError (List ℕ)
encode_publish m = do
  b1 ← write_string [] m.id
  b2 ← write_string b1 m.idempotency_key
  b3 ← write_string b2 m.topic
  b4 ← write_string b3 m.key
  write_bytes b4 m.payload

unfoldable pub decode_publish : List ℕ → Result WireError PublishMessage
unfolding finish
decode_publish payload = do
  (id, r1) ← or_else (read_string payload) invalid_payload
  (idempotency_key, r2) ← or_else (read_string r1) invalid_payload
  (topic, r3) ← or_else (read_string r2) invalid_payload
  (key, r4) ← or_else (read_string r3) invalid_payload
  (bytes, r5) ← or_else (read_bytes r4) invalid_payload
  finish
      (record {
        id = id;
        idempotency_key = idempotency_key;
        topic = topic;
        key = key;
        payload = bytes;
      })
      r5

-- The message that carries an event.
unfoldable pub message_of : Event → PublishMessage
message_of e = record {
  id = e.id;
  idempotency_key = e.idempotency_key;
  topic = e.topic;
  key = e.key;
  payload = e.payload;
}

-- The event that a message carries; the server's `publish` builds it in the same way.
unfoldable pub event_of : PublishMessage → Event
event_of m = record {
  id = m.id;
  idempotency_key = m.idempotency_key;
  topic = m.topic;
  key = m.key;
  payload = m.payload;
}

unfoldable pub encode_event : Event → Result WireError (List ℕ)
unfolding message_of
encode_event e = encode_publish (message_of e)

unfoldable pub decode_event : List ℕ → Result WireError Event
unfolding event_of
decode_event payload = do message ← decode_publish payload; ok (event_of message)

-- `buffer.WriteByte`
unfoldable pub encode_ack : AckMessage → Result WireError (List ℕ)
encode_ack m = do b1 ← write_string [] m.id; write_string (b1 ++ (m.status ∷ [])) m.error

-- `reader.ReadByte`
unfoldable pub read_byte : List ℕ → Result WireError (ℕ × List ℕ)
read_byte [] = err eof
read_byte (b ∷ bs) = ok (b, bs)

unfoldable pub decode_ack : List ℕ → Result WireError AckMessage
unfolding finish read_byte
decode_ack payload = do
  (id, r1) ← or_else (read_string payload) invalid_payload
  (status, r2) ← or_else (read_byte r1) invalid_payload
  (error, r3) ← or_else (read_string r2) invalid_payload
  finish (record { id = id; status = status; error = error }) r3

unfoldable pub encode_error : ErrorMessage → Result WireError (List ℕ)
unfolding encode_topic
encode_error m = encode_topic (record { topic = m.error })

unfoldable pub decode_error : List ℕ → Result WireError ErrorMessage
unfolding decode_topic
decode_error payload = do message ← decode_topic payload; ok (record { error = message.topic })

unfoldable pub encode_shutdown : ShutdownMessage → Result WireError (List ℕ)
unfolding encode_topic
encode_shutdown m = encode_topic (record { topic = m.redirect })

unfoldable pub decode_shutdown : List ℕ → Result WireError ShutdownMessage
unfolding decode_topic
decode_shutdown payload = do
  message ← decode_topic payload
  ok (record { redirect = message.topic })
