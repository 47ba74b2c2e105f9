-- ===== src/Server/RefusalLaws.antt =====
-- A frame that is refused changes nothing, and its error is sent.
use distributed_event_bus.Prelude.{
  ℕ, ◌≡◌, ◌≢◌, refl, ap, ◌∙◌, Bool, true, false, List, [], ◌∷◌, Text, Option, some, ok, err, length,
  arith,
}
use distributed_event_bus.Wire.Bytes.{WireError}
use distributed_event_bus.Protocol.Frame.{
  Frame, type_subscribe, type_publish, type_ack, type_ping, type_unsubscribe, type_error,
}
use distributed_event_bus.Broker.State.{Broker, Error}
use distributed_event_bus.Broker.Publish.{Choices}
use distributed_event_bus.Broker.SubscribeLaws.{subscribe_refused}
use distributed_event_bus.Messages.Codec.{
  PublishMessage, decode_publish, decode_ack, encode_error, decode_error,
}
use distributed_event_bus.Messages.TextRoundTrip.{encode_error_fits}
use distributed_event_bus.Server.Failures.{
  Failure, invalid_subscribe, invalid_publish, of_broker, of_codec, unsupported, failure_text,
  send_error,
}
use distributed_event_bus.Server.Publishing.{Handled, error_text, handle_publish}
use distributed_event_bus.Server.Publishing
use distributed_event_bus.Server.State.{Connection, is_draining}
use distributed_event_bus.Server.Requests.{
  Reaction, reacts, report, subscribe, publication_reaction, handle_publication, acknowledge,
  handle_frame,
}
use distributed_event_bus.Server.Branches.{
  subscribe_bad, subscribe_empty, subscribe_draining, subscribe_refuses,
}
use distributed_event_bus.Server.Refusals.{
  Refusal, bad_topic, empty_topic, while_draining, by_broker, publish_while_draining, bad_publish,
  publish_without_topic, bad_ack, unknown_type, Refusal-short,
}

no_text : (t : Text) → length t ≡ 0 → t ≡ []
no_text [] h = refl
no_text (x ∷ xs) h = absurd (omega arith)

send_error_form :
    (network_text : ℕ → Text) (failure : Failure) (payload : List ℕ)
    → encode_error (record { error = failure_text network_text failure }) ≡ ok payload
    → report network_text (some failure)
      ≡ reacts (record { kind = type_error; payload = payload } ∷ [])
unfolding report send_error
send_error_form network_text failure payload h = rw (h, send_error) refl

module _ (network_text : ℕ → Text) (choices : Choices) (draining : Bool) (frame : Frame)
    (c : Connection) (b : Broker) where
  at_subscribe :
      frame.kind ≡ type_subscribe
      → handle_frame network_text choices draining frame c b ≡ (
        (subscribe draining frame.payload c b).0,
        report network_text (subscribe draining frame.payload c b).1,
      )
  unfolding handle_frame
  at_subscribe h = ground arith

  at_publish :
      frame.kind ≡ type_publish
      → handle_frame network_text choices draining frame c b ≡ (
        (c, (handle_publication network_text choices draining frame.payload c b).0),
        (handle_publication network_text choices draining frame.payload c b).1,
      )
  unfolding handle_frame
  at_publish h = ground arith

  at_ack :
      frame.kind ≡ type_ack
      → handle_frame network_text choices draining frame c b ≡ (
        ((acknowledge frame.payload c).0, b),
        report network_text (acknowledge frame.payload c).1,
      )
  unfolding handle_frame
  at_ack h = ground arith

  at_nothing :
      frame.kind ≢ type_subscribe
      → frame.kind ≢ type_publish
      → frame.kind ≢ type_ack
      → frame.kind ≢ type_ping
      → frame.kind ≢ type_unsubscribe
      → handle_frame network_text choices draining frame c b
        ≡ ((c, b), report network_text (some (unsupported frame.kind)))
  unfolding handle_frame
  at_nothing h1 h2 h3 h4 h5 = ground arith

  subscribe_reports :
      (failure : Failure)
      → frame.kind ≡ type_subscribe
      → subscribe draining frame.payload c b ≡ ((c, b), some failure)
      → handle_frame network_text choices draining frame c b
        ≡ ((c, b), report network_text (some failure))
  subscribe_reports failure k h =
      at_subscribe k
      ∙ ap (λ (x : (Connection × Broker) × Option Failure). (x.0, report network_text x.1)) h

  publish_reports :
      (failure : Failure)
      → frame.kind ≡ type_publish
      → handle_publication network_text choices draining frame.payload c b
        ≡ (b, report network_text (some failure))
      → handle_frame network_text choices draining frame c b
        ≡ ((c, b), report network_text (some failure))
  publish_reports failure k h = at_publish k ∙ ap (λ (x : Broker × Reaction). ((c, x.0), x.1)) h

  publication_draining :
      is_draining draining c ≡ true
      → handle_publication network_text choices draining frame.payload c b
        ≡ (b, report network_text (some (of_broker Error.draining)))
  unfolding handle_publication
  publication_draining d = rw d refl

  publication_invalid :
      is_draining draining c ≡ false
      → handle_publish choices frame.payload b ≡ (b, Publishing.invalid_publish)
      → handle_publication network_text choices draining frame.payload c b
        ≡ (b, report network_text (some invalid_publish))
  unfolding handle_publication publication_reaction
  publication_invalid d h =
      rw d (ap (λ (x : Broker × Handled). (x.0, publication_reaction network_text x.1)) h)

  publish_bad :
      (e : WireError)
      → decode_publish frame.payload ≡ err e
      → handle_publish choices frame.payload b ≡ (b, Publishing.invalid_publish)
  unfolding handle_publish
  publish_bad e h = rw (h, handle_publish) refl

  publish_empty :
      (m : PublishMessage)
      → decode_publish frame.payload ≡ ok m
      → m.topic ≡ []
      → handle_publish choices frame.payload b ≡ (b, Publishing.invalid_publish)
  unfolding handle_publish
  publish_empty m h z = rw (h, handle_publish) (rw z refl)

  acknowledge_bad :
      (e : WireError)
      → decode_ack frame.payload ≡ err e
      → acknowledge frame.payload c ≡ (c, some (of_codec e))
  unfolding acknowledge
  acknowledge_bad e h = rw (h, acknowledge) refl

  -- Every refusal leaves the state and reports its error.
  Refusal-reports :
      (failure : Failure)
      → Refusal draining frame c b failure
      → handle_frame network_text choices draining frame c b
        ≡ ((c, b), report network_text (some failure))
  Refusal-reports _ (bad_topic e k h) =
      subscribe_reports invalid_subscribe k (subscribe_bad c b draining frame.payload e h)
  Refusal-reports _ (empty_topic m k h z) =
      subscribe_reports invalid_subscribe k
        (subscribe_empty c b draining frame.payload m h (ap length z))
  Refusal-reports _ (while_draining m k h n d) =
      subscribe_reports (of_broker Error.draining) k
        (subscribe_draining c b draining frame.payload m h (λ z. n (no_text m.topic z)) d)
  Refusal-reports _ (by_broker m k h n d shut) = subscribe_reports (of_broker Error.closed) k (
      subscribe_refuses c b draining frame.payload m b Error.closed h (λ z. n (no_text m.topic z)) d
        (subscribe_refused m.topic b shut))
  Refusal-reports _ (publish_while_draining k d) =
      publish_reports (of_broker Error.draining) k (publication_draining d)
  Refusal-reports _ (bad_publish e k d h) =
      publish_reports invalid_publish k (publication_invalid d (publish_bad e h))
  Refusal-reports _ (publish_without_topic m k d h z) =
      publish_reports invalid_publish k (publication_invalid d (publish_empty m h z))
  Refusal-reports _ (bad_ack e k h) =
      at_ack k
      ∙ ap (λ (x : Connection × Option Failure). ((x.0, b), report network_text x.1))
          (acknowledge_bad e h)
  Refusal-reports _ (unknown_type h1 h2 h3 h4 h5 _) = at_nothing h1 h2 h3 h4 h5

-- A frame that a connection refuses changes neither the connection nor the broker. The client gets one
-- ERROR frame, whose payload decodes to the text of the error: for a SUBSCRIBE or PUBLISH payload that
-- is malformed or has no topic, while the connection or its server drains, if the broker is closed or
-- draining, for a malformed ACK, and for a type that the server does not serve.
pub handle_frame-refuses :
    (network_text : ℕ → Text) (choices : Choices) (draining : Bool) (frame : Frame) (c : Connection)
    (b : Broker) (failure : Failure)
    → Refusal draining frame c b failure
    → (payload : List ℕ) × (handle_frame network_text choices draining frame c b
        ≡ ((c, b), reacts (record { kind = type_error; payload = payload } ∷ [])))
      × (decode_error payload ≡ ok (record { error = failure_text network_text failure }))
handle_frame-refuses network_text choices draining frame c b failure r =
    let (payload, encoded, decoded) =
      encode_error_fits (record { error = failure_text network_text failure })
        (Refusal-short network_text draining frame c b failure r) in
    (
      payload,
      Refusal-reports network_text choices draining frame c b failure r
          ∙ ap (λ x. ((c, b), x)) (send_error_form network_text failure payload encoded),
      decoded,
    )
