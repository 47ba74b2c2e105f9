-- ===== src/Server/Requests.antt =====
-- transport/tcp/server.go: the frames of a client, with `subscribe`, `unsubscribe`, `acknowledge` and the
-- loop of `serve`. The first `Bool` is `draining` of the server.
use distributed_event_bus.Prelude.{
  ℕ, Bool, List, [], ◌∷◌, ◌++◌, Text, Option, none, some, ok, err, length, get_elem?, set, ◌==◌,
  if◌then◌else◌, lookup, insert, delete, text_key,
}
use distributed_event_bus.Protocol.Frame.{
  Frame, type_connect, type_subscribe, type_publish, type_ack, type_ping, type_pong,
  type_unsubscribe,
}
use distributed_event_bus.Broker.State.{Broker, Error}
use distributed_event_bus.Broker.Subscription
use distributed_event_bus.Broker.Subscription.{close_subscription}
use distributed_event_bus.Broker.Publish.{Choices}
use distributed_event_bus.Messages.Codec.{decode_connect, decode_topic, decode_ack}
use distributed_event_bus.Server.Failures.{
  Failure, not_connected, invalid_connect, invalid_subscribe, invalid_publish, of_broker, of_codec,
  unsupported, send_error,
}
use distributed_event_bus.Server.Publishing.{Handled, handle_publish, sends, not_encoded, waits}
use distributed_event_bus.Server.Publishing
use distributed_event_bus.Server.State.{Connection, is_draining}

-- `Close` of what the connection has for the topic.
unfoldable pub close_old : Option ℕ → Broker → Broker
close_old none b = b
close_old (some old) b = close_subscription old b

-- `subscribe`
unfoldable pub subscribe :
    Bool → List ℕ → Connection → Broker → (Connection × Broker) × Option Failure
unfolding close_old is_draining
subscribe server_draining payload c b = elim (decode_topic payload) [
  | err _ ↦ ((c, b), some invalid_subscribe)
  | ok message ↦
      if length message.topic == 0
      then ((c, b), some invalid_subscribe)
      else if is_draining server_draining c
      then ((c, b), some (of_broker Error.draining))
      else (let (b', result) = Subscription.subscribe message.topic b in
          elim result [
            | err e ↦ ((c, b'), some (of_broker e))
            | ok sub ↦ (
              (
                record c { subs = insert message.topic sub c.subs },
                close_old (lookup message.topic c.subs) b',
              ),
              none,
            )
          ])
]

-- `unsubscribe`
unfoldable pub unsubscribe : List ℕ → Connection → Broker → Connection × Broker
unfolding close_old
unsubscribe payload c b = elim (decode_topic payload) [
  | err _ ↦ (c, b)
  | ok message ↦
      (record c { subs = delete message.topic c.subs }, close_old (lookup message.topic c.subs) b)
]

-- `select { case acknowledged <- status: default: }`: a channel that is full keeps what it has.
unfoldable pub offer : ℕ → ℕ → List (Option ℕ) → List (Option ℕ)
offer channel status channels = elim (get_elem? channels channel) [
  | none ↦ channels
  | some none ↦ set channels channel (some status)
  | some (some _) ↦ channels
]

-- `acknowledge`
unfoldable pub acknowledge : List ℕ → Connection → Connection × Option Failure
unfolding offer
acknowledge payload c = elim (decode_ack payload) [
  | err e ↦ (c, some (of_codec e))
  | ok ack ↦ elim (lookup ack.id c.pending_ack) [
    | none ↦ (c, none)
    | some channel ↦ (record c { channels = offer channel ack.status c.channels }, none)
  ]
]

-- The start of `deliver`: a fresh channel for the event's ID.
unfoldable pub await_ack : Text → Connection → Connection
await_ack id c = record c {
  pending_ack = insert id (length c.channels) c.pending_ack;
  channels = c.channels ++ (none ∷ []);
}

-- What `deliver` defers.
unfoldable pub forget_ack : Text → Connection → Connection
forget_ack id c = record c { pending_ack = delete id c.pending_ack }

-- `status := <-acknowledged`, where there is one.
unfoldable pub take_ack : ℕ → Connection → Connection × Option ℕ
take_ack channel c = elim (get_elem? c.channels channel) [
  | none ↦ (c, none)
  | some none ↦ (c, none)
  | some (some status) ↦ (record c { channels = set c.channels channel none }, some status)
]

-- How a round of the loop of `serve` ends: with frames for `send`, or in a publish that waits.
pub data Reaction : Type 0 where
  reacts : List Frame → Reaction
  stuck : Reaction

module _ (network_text : ℕ → Text) where
  -- `if err := …; err != nil { _ = c.sendError(err) }`
  unfoldable pub report : Option Failure → Reaction
  unfolding send_error
  report none = reacts []
  report (some failure) = reacts (send_error network_text failure)

  -- What becomes of the end of `publish`.
  unfoldable pub publication_reaction : Handled → Reaction
  unfolding report
  publication_reaction (sends frame) = reacts (frame ∷ [])
  publication_reaction Publishing.invalid_publish = report (some invalid_publish)
  publication_reaction (not_encoded e) = report (some (of_codec e))
  publication_reaction waits = stuck

  -- The case of PUBLISH.
  unfoldable pub handle_publication :
      Choices → Bool → List ℕ → Connection → Broker → Broker × Reaction
  unfolding report publication_reaction is_draining
  handle_publication choices server_draining payload c b =
      if is_draining server_draining c
      then (b, report (some (of_broker Error.draining)))
      else (let (b', handled) = handle_publish choices payload b in
          (b', publication_reaction handled))

  -- One round of the loop of `serve`, for the frame that was read.
  unfoldable pub handle_frame :
      Choices → Bool → Frame → Connection → Broker → (Connection × Broker) × Reaction
  unfolding report handle_publication subscribe acknowledge unsubscribe
  handle_frame choices server_draining frame c b =
      if frame.kind == type_subscribe
      then (let (after, failure) = subscribe server_draining frame.payload c b in
          (after, report failure))
      else if frame.kind == type_publish
      then (let (b', reaction) = handle_publication choices server_draining frame.payload c b in
          ((c, b'), reaction))
      else if frame.kind == type_ack
      then (let (c', failure) = acknowledge frame.payload c in ((c', b), report failure))
      else if frame.kind == type_ping
      then ((c, b), reacts (record { kind = type_pong; payload = [] } ∷ []))
      else if frame.kind == type_unsubscribe
      then (unsubscribe frame.payload c b, reacts [])
      else ((c, b), report (some (unsupported frame.kind)))

-- The first frame: the error that ends `serve`, if it is not CONNECT.
unfoldable pub greet : Frame → Option Failure
greet frame =
    if frame.kind == type_connect
    then elim (decode_connect frame.payload) [ err e ↦ some (invalid_connect e) | ok _ ↦ none ]
    else some not_connected
