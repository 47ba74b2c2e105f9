-- ===== src/Server/Refusals.antt =====
-- What a client is told when a connection refuses its frame.
use distributed_event_bus.Prelude.{
  ℕ, zero, suc, ◌+◌, ◌/◌, ◌%◌, ◌≤◌, ◌<◌, ◌≡◌, ◌≢◌, ◌⊎◌, Bool, true, false, List, [], ◌∷◌, Text,
  Result, ok, err, ◌>>=◌, or_else, length, arith, length-append,
}
use distributed_event_bus.Wire.Bytes.{WireError, invalid_payload}
use distributed_event_bus.Protocol.Frame.{
  Frame, type_subscribe, type_publish, type_ack, type_ping, type_unsubscribe,
}
use distributed_event_bus.Broker.State.{Broker, Error}
use distributed_event_bus.Messages.Fields.{max_string, read_string}
use distributed_event_bus.Messages.Codec.{
  TopicMessage, PublishMessage, decode_topic, decode_publish, decode_ack, finish, read_byte,
}
use distributed_event_bus.Server.Failures.{
  Failure, invalid_subscribe, invalid_publish, of_broker, of_codec, unsupported, unsupported_text,
  digits, wire_text, failure_text,
}
use distributed_event_bus.Server.PublishingLaws.{error_text_short}
use distributed_event_bus.Server.State.{Connection, is_draining}

-- Why a frame is refused.
pub data Refusal (draining : Bool) (frame : Frame) (c : Connection) (b : Broker)
    : Failure → Type 0 where
  bad_topic :
      (e : WireError)
      → frame.kind ≡ type_subscribe
      → decode_topic frame.payload ≡ err e
      → Refusal draining frame c b invalid_subscribe
  empty_topic :
      (m : TopicMessage)
      → frame.kind ≡ type_subscribe
      → decode_topic frame.payload ≡ ok m
      → m.topic ≡ []
      → Refusal draining frame c b invalid_subscribe
  while_draining :
      (m : TopicMessage)
      → frame.kind ≡ type_subscribe
      → decode_topic frame.payload ≡ ok m
      → m.topic ≢ []
      → is_draining draining c ≡ true
      → Refusal draining frame c b (of_broker Error.draining)
  by_broker :
      (m : TopicMessage)
      → frame.kind ≡ type_subscribe
      → decode_topic frame.payload ≡ ok m
      → m.topic ≢ []
      → is_draining draining c ≡ false
      → (b.closed ≡ true) ⊎ (b.draining ≡ true)
      → Refusal draining frame c b (of_broker Error.closed)
  publish_while_draining :
      frame.kind ≡ type_publish
      → is_draining draining c ≡ true
      → Refusal draining frame c b (of_broker Error.draining)
  bad_publish :
      (e : WireError)
      → frame.kind ≡ type_publish
      → is_draining draining c ≡ false
      → decode_publish frame.payload ≡ err e
      → Refusal draining frame c b invalid_publish
  publish_without_topic :
      (m : PublishMessage)
      → frame.kind ≡ type_publish
      → is_draining draining c ≡ false
      → decode_publish frame.payload ≡ ok m
      → m.topic ≡ []
      → Refusal draining frame c b invalid_publish
  bad_ack :
      (e : WireError)
      → frame.kind ≡ type_ack
      → decode_ack frame.payload ≡ err e
      → Refusal draining frame c b (of_codec e)
  unknown_type :
      frame.kind ≢ type_subscribe
      → frame.kind ≢ type_publish
      → frame.kind ≢ type_ack
      → frame.kind ≢ type_ping
      → frame.kind ≢ type_unsubscribe
      → frame.kind < 256
      → Refusal draining frame c b (unsupported frame.kind)

length-digits : (fuel n : ℕ) → length (digits fuel n) ≤ suc fuel
unfolding digits
length-digits zero n = omega arith
length-digits (suc fuel) n =
    ground (
      arith,
      length-append (digits fuel (n / 10)) ((48 + n % 10) ∷ []),
      length-digits fuel (n / 10),
    )

bind-err :
    {A B : Type 0} (r : Result WireError A) (f : A → Result WireError B) (e : WireError)
    → ((a : A) → f a ≡ err e → e ≡ invalid_payload)
    → (or_else r invalid_payload >>= f) ≡ err e
    → e ≡ invalid_payload
bind-err (ok a) f e h q = h a q
bind-err (err x) f e h q = cc

finish-err :
    {A : Type 0} (a : A) (rest : List ℕ) (e : WireError)
    → finish a rest ≡ err e
    → e ≡ invalid_payload
unfolding finish
finish-err a [] e h = absurd (cc)
finish-err a (x ∷ xs) e h = ground arith

-- `decodeAck` has one error.
decode_ack-err :
    (payload : List ℕ) (e : WireError) → decode_ack payload ≡ err e → e ≡ invalid_payload
unfolding decode_ack
decode_ack-err payload e h =
    bind-err (read_string payload) _ e
      (λ a1.
        bind-err (read_byte a1.1) _ e
          (λ a2. bind-err (read_string a2.1) _ e (λ a3. finish-err _ a3.1 e)))
      h

-- The text of every such error fits in a message.
pub Refusal-short :
    (network_text : ℕ → Text) (draining : Bool) (frame : Frame) (c : Connection) (b : Broker)
    (failure : Failure)
    → Refusal draining frame c b failure
    → length (failure_text network_text failure) ≤ max_string
unfolding failure_text
Refusal-short network_text draining frame c b _ (bad_topic _ _ _) = omega arith
Refusal-short network_text draining frame c b _ (empty_topic _ _ _ _) = omega arith
Refusal-short network_text draining frame c b _ (while_draining _ _ _ _ _) =
    error_text_short Error.draining
Refusal-short network_text draining frame c b _ (by_broker _ _ _ _ _ _) =
    error_text_short Error.closed
Refusal-short network_text draining frame c b _ (publish_while_draining _ _) =
    error_text_short Error.draining
Refusal-short network_text draining frame c b _ (bad_publish _ _ _ _) = omega arith
Refusal-short network_text draining frame c b _ (publish_without_topic _ _ _ _ _) = omega arith
Refusal-short network_text draining frame c b _ (bad_ack e _ h) =
    rw (decode_ack-err frame.payload e h) (unfold wire_text in omega arith)
Refusal-short network_text draining frame c b _ (unknown_type _ _ _ _ _ small) = omega (
  arith,
  length-append unsupported_text (digits frame.kind frame.kind),
  length-digits frame.kind frame.kind,
)
