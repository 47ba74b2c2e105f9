-- ===== src/Messages/PublishRoundTrip.antt =====
-- The payload of PUBLISH and EVENT frames: encoder and decoder are inverse to one another.
use distributed_event_bus.Prelude.{
  ℕ, ◌≤◌, ◌≡◌, sym, ap, ◌∙◌, List, [], ◌++◌, ok, length, append_assoc, append-nil, subst,
}
use distributed_event_bus.Wire.Bytes.{invalid_payload, IsBytes}
use distributed_event_bus.Broker.Event.{Event}
use distributed_event_bus.Protocol.Frame.{max_payload_size}
use distributed_event_bus.Messages.Fields.{max_string, write_string, read_string, read_bytes}
use distributed_event_bus.Messages.FieldLaws.{
  string_bytes, blob_bytes, write_string_fits, write_bytes_fits, read_string-string_bytes,
  read_bytes-blob_bytes, read_string-Field, read_bytes-Field,
}
use distributed_event_bus.Messages.Steps.{
  RoundTrip, finish_ok, step_ok, bind_ok, write_string_ok, write_bytes_ok,
}
use distributed_event_bus.Messages.Codec.{
  PublishMessage, encode_publish, decode_publish, encode_event, decode_event, message_of, event_of,
}

-- A publish message on the wire: four strings, then the payload behind its size.
abbrev pub publish_bytes : PublishMessage → List ℕ
publish_bytes m =
    string_bytes m.id
    ++ (string_bytes m.idempotency_key
        ++ (string_bytes m.topic ++ (string_bytes m.key ++ blob_bytes m.payload)))

pub record PublishLayout (m : PublishMessage) (payload : List ℕ) : Type 0 where
  pub layout : payload ≡ publish_bytes m
  pub id_fits : length m.id ≤ max_string
  pub idempotency_key_fits : length m.idempotency_key ≤ max_string
  pub topic_fits : length m.topic ≤ max_string
  pub key_fits : length m.key ≤ max_string
  pub payload_fits : length m.payload ≤ max_payload_size

-- The order in which the encoder appends.
appended : (a b c d e : List ℕ) → (((a ++ b) ++ c) ++ d) ++ e ≡ a ++ (b ++ (c ++ (d ++ e)))
appended a b c d e = simp append_assoc

pub encode_publish-PublishLayout :
    (m : PublishMessage) (payload : List ℕ)
    → encode_publish m ≡ ok payload
    → PublishLayout m payload
unfolding encode_publish
encode_publish-PublishLayout m payload h =
    let (b1, q1, h1) = step_ok (write_string [] m.id) _ payload h in
    let (f1, e1) = write_string_ok [] m.id b1 q1 in
    let (b2, q2, h2) = step_ok (write_string b1 m.idempotency_key) _ payload h1 in
    let (f2, e2) = write_string_ok b1 m.idempotency_key b2 q2 in
    let (b3, q3, h3) = step_ok (write_string b2 m.topic) _ payload h2 in
    let (f3, e3) = write_string_ok b2 m.topic b3 q3 in
    let (b4, q4, h4) = step_ok (write_string b3 m.key) _ payload h3 in
    let (f4, e4) = write_string_ok b3 m.key b4 q4 in
    let (f5, e5) = write_bytes_ok b4 m.payload payload h4 in
    record {
      layout =
          e5
          ∙ rw (e4, e3, e2, e1)
              (appended (string_bytes m.id) (string_bytes m.idempotency_key) (string_bytes m.topic)
                (string_bytes m.key) (blob_bytes m.payload));
      id_fits = f1;
      idempotency_key_fits = f2;
      topic_fits = f3;
      key_fits = f4;
      payload_fits = f5;
    }

PublishLayout-encode_publish :
    (m : PublishMessage) (payload : List ℕ)
    → PublishLayout m payload
    → encode_publish m ≡ ok payload
unfolding encode_publish
PublishLayout-encode_publish m payload l =
    rw
      (
        write_string_fits [] m.id l.id_fits,
        write_string_fits (string_bytes m.id) m.idempotency_key l.idempotency_key_fits,
        write_string_fits _ m.topic l.topic_fits,
        write_string_fits _ m.key l.key_fits,
        write_bytes_fits _ m.payload l.payload_fits,
        l.layout,
      )
      (ap ok (
        appended (string_bytes m.id) (string_bytes m.idempotency_key) (string_bytes m.topic)
          (string_bytes m.key) (blob_bytes m.payload)))

PublishLayout-decode_publish :
    (m : PublishMessage) (payload : List ℕ)
    → PublishLayout m payload
    → decode_publish payload ≡ ok m
unfolding decode_publish
PublishLayout-decode_publish m payload l = rw (
  l.layout,
  read_string-string_bytes m.id _ l.id_fits,
  read_string-string_bytes m.idempotency_key _ l.idempotency_key_fits,
  read_string-string_bytes m.topic _ l.topic_fits,
  read_string-string_bytes m.key _ l.key_fits,
  sym (append-nil (blob_bytes m.payload)),
  read_bytes-blob_bytes m.payload [] l.payload_fits,
)

pub decode_publish-PublishLayout :
    (m : PublishMessage) (payload : List ℕ)
    → IsBytes payload
    → decode_publish payload ≡ ok m
    → PublishLayout m payload
unfolding decode_publish
decode_publish-PublishLayout m payload b h =
    let ((id, r1), q1, h1) = bind_ok (read_string payload) invalid_payload _ m h in
    let f1 = read_string-Field payload id r1 b q1 in
    let ((ikey, r2), q2, h2) = bind_ok (read_string r1) invalid_payload _ m h1 in
    let f2 = read_string-Field r1 ikey r2 f1.rest_bytes q2 in
    let ((topic, r3), q3, h3) = bind_ok (read_string r2) invalid_payload _ m h2 in
    let f3 = read_string-Field r2 topic r3 f2.rest_bytes q3 in
    let ((key, r4), q4, h4) = bind_ok (read_string r3) invalid_payload _ m h3 in
    let f4 = read_string-Field r3 key r4 f3.rest_bytes q4 in
    let ((bytes, r5), q5, h5) = bind_ok (read_bytes r4) invalid_payload _ m h4 in
    let f5 = read_bytes-Field r4 bytes r5 f4.rest_bytes q5 in
    let (e, n) = finish_ok _ m r5 h5 in
    subst (λ x. PublishLayout x payload) e
      (record {
        layout =
            f1.whole
            ∙ ap (◌++◌ (string_bytes id)) (
                f2.whole
                ∙ ap (◌++◌ (string_bytes ikey)) (
                    f3.whole
                    ∙ ap (◌++◌ (string_bytes topic)) (
                        f4.whole
                        ∙ ap (◌++◌ (string_bytes key))
                            (f5.whole ∙ rw n (append-nil (blob_bytes bytes))))));
        id_fits = f1.size;
        idempotency_key_fits = f2.size;
        topic_fits = f3.size;
        key_fits = f4.size;
        payload_fits = f5.size;
      })

-- PUBLISH payloads: a list of bytes decodes to a message exactly if it is what the message encodes
-- to.
pub decode_publish-encode_publish :
    (m : PublishMessage) (payload : List ℕ)
    → IsBytes payload
    → RoundTrip encode_publish decode_publish m payload
decode_publish-encode_publish m payload b = (
  λ h. PublishLayout-encode_publish m payload (decode_publish-PublishLayout m payload b h),
  λ h. PublishLayout-decode_publish m payload (encode_publish-PublishLayout m payload h),
)

-- EVENT payloads: a list of bytes decodes to an event exactly if it is what the event encodes to.
pub decode_event-encode_event :
    (e : Event) (payload : List ℕ) → IsBytes payload → RoundTrip encode_event decode_event e payload
unfolding decode_event encode_event
decode_event-encode_event e payload b = (back, forth)
  where
    back : decode_event payload ≡ ok e → encode_event e ≡ ok payload
    back h =
        let (m, q, r) = step_ok (decode_publish payload) _ e h in
        let same : message_of (event_of m) ≡ message_of e = ap message_of (cc) in
        subst (λ x. encode_publish x ≡ ok payload) same
          ((decode_publish-encode_publish m payload b).0 q)

    forth : encode_event e ≡ ok payload → decode_event payload ≡ ok e
    forth h = rw ((decode_publish-encode_publish (message_of e) payload b).1 h)
