-- ===== src/Messages/TextRoundTrip.antt =====
-- The messages that are one string: CONNECT, ERROR and SHUTDOWN.
use distributed_event_bus.Prelude.{
  ℕ, ◌≡◌, ◌≤◌, length, refl, ap, ◌∙◌, List, Result, ok, err, ◌>>=◌, Text, ◌↔◌, or_else, [], ◌∷◌,
  arith,
}
use distributed_event_bus.Wire.Bytes.{WireError, IsBytes, invalid_payload}
use distributed_event_bus.Messages.Fields.{read_string, max_string}
use distributed_event_bus.Messages.Steps.{RoundTrip, step_ok}
use distributed_event_bus.Messages.RoundTrip.{decode_topic-encode_topic, encode_topic_fits}
use distributed_event_bus.Messages.Codec.{
  ConnectMessage, TopicMessage, ErrorMessage, ShutdownMessage, encode_connect, decode_connect,
  encode_topic, decode_topic, encode_error, decode_error, encode_shutdown, decode_shutdown, finish,
}

after_topic :
    {A : Type 0} (wrap : Text → A) (text : Text) (payload : List ℕ)
    → ((s t : Text) → wrap s ≡ wrap t → s ≡ t)
    → IsBytes payload
    → ((decode_topic payload >>= λ m. ok (wrap m.topic)) ≡ ok (wrap text))
      ↔ (encode_topic (record { topic = text }) ≡ ok payload)
after_topic wrap text payload injective b = (back, forth)
  where
    back :
        (decode_topic payload >>= λ m. ok (wrap m.topic)) ≡ ok (wrap text)
        → encode_topic (record { topic = text }) ≡ ok payload
    back h =
        let (m, q, r) = step_ok (decode_topic payload) _ (wrap text) h in
        let same : m.topic ≡ text = injective m.topic text (cc) in
        (decode_topic-encode_topic (record { topic = text }) payload b).0
          (q ∙ ap (λ t. ok (record { topic = t })) same)

    forth :
        encode_topic (record { topic = text }) ≡ ok payload
        → (decode_topic payload >>= λ m. ok (wrap m.topic)) ≡ ok (wrap text)
    forth h = rw ((decode_topic-encode_topic (record { topic = text }) payload b).1 h)

connect_form :
    (payload : List ℕ)
    → decode_connect payload ≡ (decode_topic payload >>= λ m. ok (record { client_id = m.topic }))
unfolding decode_connect decode_topic finish
connect_form payload = read (read_string payload)
  where
    finished :
        (t rest : List ℕ)
        → finish {A = ConnectMessage} (record { client_id = t }) rest ≡ (
            finish {A = TopicMessage} (record { topic = t }) rest >>= λ m.
            ok (record { client_id = m.topic }))
    finished t [] = refl
    finished t (x ∷ xs) = ground arith

    read :
        (r : Result WireError (Text × List ℕ))
        → (or_else r invalid_payload >>= λ p.
            finish {A = ConnectMessage} (record { client_id = p.0 }) p.1)
          ≡ ((or_else r invalid_payload >>= λ p.
                finish {A = TopicMessage} (record { topic = p.0 }) p.1)
              >>= λ m. ok (record { client_id = m.topic }))
    read (ok (t, rest)) = finished t rest
    read (err e) = refl

-- CONNECT, ERROR and SHUTDOWN payloads: a list of bytes decodes to a message exactly if it is what
-- the message encodes to.
pub decode_text-encode_text :
    (text : Text) (payload : List ℕ)
    → IsBytes payload
    → RoundTrip encode_connect decode_connect (record { client_id = text }) payload
      × RoundTrip encode_error decode_error (record { error = text }) payload
      × RoundTrip encode_shutdown decode_shutdown (record { redirect = text }) payload
unfolding encode_connect encode_error encode_shutdown encode_topic decode_error decode_shutdown
decode_text-encode_text text payload b = (
  rw (connect_form payload) (
      after_topic (λ t. record { client_id = t }) text payload
        (λ s t h. ap (λ (m : ConnectMessage). m.client_id) h) b),
  after_topic (λ t. record { error = t }) text payload
      (λ s t h. ap (λ (m : ErrorMessage). m.error) h) b,
  after_topic (λ t. record { redirect = t }) text payload
      (λ s t h. ap (λ (m : ShutdownMessage). m.redirect) h) b,
)

-- A redirect that fits has an encoding, which decodes to it.
pub encode_shutdown_fits :
    (m : ShutdownMessage)
    → length m.redirect ≤ max_string
    → (payload : List ℕ) × (encode_shutdown m ≡ ok payload) × (decode_shutdown payload ≡ ok m)
unfolding encode_shutdown decode_shutdown
encode_shutdown_fits m h =
    let (payload, e, d) = encode_topic_fits (record { topic = m.redirect }) h in
    (payload, e, rw d refl)

-- So has the text of an error.
pub encode_error_fits :
    (m : ErrorMessage)
    → length m.error ≤ max_string
    → (payload : List ℕ) × (encode_error m ≡ ok payload) × (decode_error payload ≡ ok m)
unfolding encode_error decode_error
encode_error_fits m h =
    let (payload, e, d) = encode_topic_fits (record { topic = m.error }) h in
    (payload, e, rw d refl)
