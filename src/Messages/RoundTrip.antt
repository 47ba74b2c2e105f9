-- ===== src/Messages/RoundTrip.antt =====
-- Each encoder and its decoder are inverse to one another: what is encoded decodes to the message,
-- and a payload that decodes is the encoding of its message.
use distributed_event_bus.Prelude.{
  refl, ℕ, ◌≤◌, ◌≡◌, sym, ◌∙◌, List, [], ◌∷◌, ◌++◌, ok, length, append_assoc, append-nil, subst, ap,
  arith, length-append,
}
use distributed_event_bus.Wire.Bytes.{invalid_payload, IsBytes, put_uint16}
use distributed_event_bus.Wire.BytesLaws.{length-put_uint16}
use distributed_event_bus.Protocol.Frame.{max_payload_size}
use distributed_event_bus.Messages.Fields.{max_string, write_string, read_string}
use distributed_event_bus.Messages.FieldLaws.{
  string_bytes, write_string_fits, read_string-string_bytes, read_string-Field,
}
use distributed_event_bus.Messages.Steps.{
  RoundTrip, finish_ok, read_byte_ok, step_ok, bind_ok, write_string_ok,
}
use distributed_event_bus.Messages.Codec.{
  TopicMessage, AckMessage, encode_topic, decode_topic, encode_ack, decode_ack, read_byte,
}

-- A topic on the wire.
record TopicLayout (m : TopicMessage) (payload : List ℕ) : Type 0 where
  layout : payload ≡ string_bytes m.topic
  topic_fits : length m.topic ≤ max_string

encode_topic-TopicLayout :
    (m : TopicMessage) (payload : List ℕ) → encode_topic m ≡ ok payload → TopicLayout m payload
unfolding encode_topic
encode_topic-TopicLayout m payload h =
    let (f, e) = write_string_ok [] m.topic payload h in record { layout = e; topic_fits = f }

TopicLayout-encode_topic :
    (m : TopicMessage) (payload : List ℕ) → TopicLayout m payload → encode_topic m ≡ ok payload
unfolding encode_topic
TopicLayout-encode_topic m payload l = rw l.layout (write_string_fits [] m.topic l.topic_fits)

TopicLayout-decode_topic :
    (m : TopicMessage) (payload : List ℕ) → TopicLayout m payload → decode_topic payload ≡ ok m
unfolding decode_topic
TopicLayout-decode_topic m payload l = rw (
  l.layout ∙ sym (append-nil (string_bytes m.topic)),
  read_string-string_bytes m.topic [] l.topic_fits,
)

decode_topic-TopicLayout :
    (m : TopicMessage) (payload : List ℕ)
    → IsBytes payload
    → decode_topic payload ≡ ok m
    → TopicLayout m payload
unfolding decode_topic
decode_topic-TopicLayout m payload b h =
    let ((topic, r), q, h1) = bind_ok (read_string payload) invalid_payload _ m h in
    let f = read_string-Field payload topic r b q in
    let (e, n) = finish_ok _ m r h1 in
    subst (λ x. TopicLayout x payload) e
      (record { layout = f.whole ∙ rw n (append-nil (string_bytes topic)); topic_fits = f.size })

-- SUBSCRIBE and UNSUBSCRIBE payloads: a list of bytes decodes to a topic exactly if it is what the
-- topic encodes to.
pub decode_topic-encode_topic :
    (m : TopicMessage) (payload : List ℕ)
    → IsBytes payload
    → RoundTrip encode_topic decode_topic m payload
decode_topic-encode_topic m payload b = (
  λ h. TopicLayout-encode_topic m payload (decode_topic-TopicLayout m payload b h),
  λ h. TopicLayout-decode_topic m payload (encode_topic-TopicLayout m payload h),
)

-- A topic that fits has an encoding, which decodes to it.
pub encode_topic_fits :
    (m : TopicMessage)
    → length m.topic ≤ max_string
    → (payload : List ℕ) × (encode_topic m ≡ ok payload) × (decode_topic payload ≡ ok m)
encode_topic_fits m h =
    let payload = string_bytes m.topic in
    let l : TopicLayout m payload = record { layout = refl; topic_fits = h } in
    (payload, TopicLayout-encode_topic m payload l, TopicLayout-decode_topic m payload l)

-- Whatever bytes they are, what a topic encodes to decodes to it.
pub encode_topic-decode_topic :
    (m : TopicMessage) (payload : List ℕ)
    → encode_topic m ≡ ok payload
    → decode_topic payload ≡ ok m
encode_topic-decode_topic m payload h =
    TopicLayout-decode_topic m payload (encode_topic-TopicLayout m payload h)

record AckLayout (m : AckMessage) (payload : List ℕ) : Type 0 where
  layout : payload ≡ string_bytes m.id ++ (m.status ∷ string_bytes m.error)
  id_fits : length m.id ≤ max_string
  error_fits : length m.error ≤ max_string

encode_ack-AckLayout :
    (m : AckMessage) (payload : List ℕ) → encode_ack m ≡ ok payload → AckLayout m payload
unfolding encode_ack
encode_ack-AckLayout m payload h =
    let (b1, q, h1) = step_ok (write_string [] m.id) _ payload h in
    let (f1, e1) = write_string_ok [] m.id b1 q in
    let (f2, e2) = write_string_ok _ m.error payload h1 in
    record {
      layout =
          e2 ∙ rw (e1, append_assoc (string_bytes m.id) (m.status ∷ []) (string_bytes m.error));
      id_fits = f1;
      error_fits = f2;
    }

AckLayout-encode_ack :
    (m : AckMessage) (payload : List ℕ) → AckLayout m payload → encode_ack m ≡ ok payload
unfolding encode_ack
AckLayout-encode_ack m payload l = rw (
  write_string_fits [] m.id l.id_fits,
  write_string_fits (string_bytes m.id ++ (m.status ∷ [])) m.error l.error_fits,
  l.layout,
  append_assoc (string_bytes m.id) (m.status ∷ []) (string_bytes m.error),
)

AckLayout-decode_ack :
    (m : AckMessage) (payload : List ℕ) → AckLayout m payload → decode_ack payload ≡ ok m
unfolding decode_ack
AckLayout-decode_ack m payload l = rw (
  l.layout,
  read_string-string_bytes m.id (m.status ∷ string_bytes m.error) l.id_fits,
  sym (append-nil (string_bytes m.error)),
  read_string-string_bytes m.error [] l.error_fits,
)

decode_ack-AckLayout :
    (m : AckMessage) (payload : List ℕ)
    → IsBytes payload
    → decode_ack payload ≡ ok m
    → AckLayout m payload
unfolding decode_ack
decode_ack-AckLayout m payload b h =
    let ((id, r1), q1, h1) = bind_ok (read_string payload) invalid_payload _ m h in
    let f1 = read_string-Field payload id r1 b q1 in
    let ((status, r2), q2, h2) = bind_ok (read_byte r1) invalid_payload _ m h1 in
    let (e2, b2) = read_byte_ok r1 status r2 f1.rest_bytes q2 in
    let ((error, r3), q3, h3) = bind_ok (read_string r2) invalid_payload _ m h2 in
    let f3 = read_string-Field r2 error r3 b2 q3 in
    let (e, n) = finish_ok _ m r3 h3 in
    subst (λ x. AckLayout x payload) e
      (record {
        layout = f1.whole ∙ rw (e2, f3.whole, n, append-nil (string_bytes error));
        id_fits = f1.size;
        error_fits = f3.size;
      })

-- The encoding of an acknowledgement fits in a frame.
pub encode_ack-small :
    (m : AckMessage) (payload : List ℕ)
    → encode_ack m ≡ ok payload
    → length payload ≤ max_payload_size
encode_ack-small m payload h =
    let l = encode_ack-AckLayout m payload h in
    omega (
      arith,
      ap (λ (xs : List ℕ). length xs) l.layout,
      length-append (string_bytes m.id) (m.status ∷ string_bytes m.error),
      length-append (put_uint16 (length m.id)) m.id,
      length-append (put_uint16 (length m.error)) m.error,
      length-put_uint16 (length m.id),
      length-put_uint16 (length m.error),
      l.id_fits,
      l.error_fits,
    )

-- ACK payloads: a list of bytes decodes to an acknowledgement exactly if it is what the
-- acknowledgement encodes to.
pub decode_ack-encode_ack :
    (m : AckMessage) (payload : List ℕ)
    → IsBytes payload
    → RoundTrip encode_ack decode_ack m payload
decode_ack-encode_ack m payload b = (
  λ h. AckLayout-encode_ack m payload (decode_ack-AckLayout m payload b h),
  λ h. AckLayout-decode_ack m payload (encode_ack-AckLayout m payload h),
)

-- An acknowledgement whose texts fit has an encoding, which decodes to it.
pub encode_ack_fits :
    (m : AckMessage)
    → length m.id ≤ max_string
    → length m.error ≤ max_string
    → (payload : List ℕ) × (encode_ack m ≡ ok payload) × (decode_ack payload ≡ ok m)
encode_ack_fits m h k =
    let payload = string_bytes m.id ++ (m.status ∷ string_bytes m.error) in
    let l : AckLayout m payload = record { layout = refl; id_fits = h; error_fits = k } in
    (payload, AckLayout-encode_ack m payload l, AckLayout-decode_ack m payload l)

pub encode_ack-decode_ack :
    (m : AckMessage) (payload : List ℕ) → encode_ack m ≡ ok payload → decode_ack payload ≡ ok m
encode_ack-decode_ack m payload h =
    AckLayout-decode_ack m payload (encode_ack-AckLayout m payload h)
