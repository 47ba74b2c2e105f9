-- ===== src/Client/Calls.antt =====
-- transport/tcp/client.go: the calls of the application, with the CONNECT frame of `Dial`. Each takes the
-- error of `WriteFrame`, if it fails, and returns the frames that it has written.
use distributed_event_bus.Prelude.{
  ℕ, List, [], ◌∷◌, ◌++◌, Text, Option, none, some, Result, ok, err, ◌>>=◌, length, ◌==◌, get_elem?,
  set, if◌then◌else◌, insert, delete, text_key,
}
use distributed_event_bus.Wire.Bytes.{WireError}
use distributed_event_bus.Protocol.Frame.{
  Frame, type_connect, type_subscribe, type_unsubscribe, type_ack, type_publish,
}
use distributed_event_bus.Broker.Event.{Event}
use distributed_event_bus.Broker.State.{ContextError}
use distributed_event_bus.Messages.Codec.{
  AckMessage, encode_connect, encode_topic, encode_ack, encode_publish, message_of, ack_duplicate,
  ack_rejected, ack_delivered,
}
use distributed_event_bus.Client.Deliveries.{remember_delivery}
use distributed_event_bus.Client.State.{
  Client, ClientError, client_closed, id_required, connect_failed, of_wire, rejected, of_context,
  send, new_client, new_message_id,
}

-- `Dial` on a connection that is open: the client, or the error.
unfoldable pub dial : Option WireError → Text → Result ClientError (Client × List Frame)
unfolding send new_client
dial failure client_id = elim (encode_connect (record { client_id = client_id })) [
  | err e ↦ err (of_wire e)
  | ok payload ↦
      let (failed, sent) =
        send failure (record { kind = type_connect; payload = payload }) new_client in
      elim failed [ some _ ↦ err connect_failed | none ↦ ok (new_client, sent) ]
]

-- `Subscribe`
unfoldable pub subscribe : Option WireError → Text → Client → Option ClientError × List Frame
unfolding send
subscribe failure topic c = elim (encode_topic (record { topic = topic })) [
  | err e ↦ (some (of_wire e), [])
  | ok payload ↦ send failure (record { kind = type_subscribe; payload = payload }) c
]

-- `Unsubscribe`
unfoldable pub unsubscribe : Option WireError → Text → Client → Option ClientError × List Frame
unfolding send
unsubscribe failure topic c = elim (encode_topic (record { topic = topic })) [
  | err e ↦ (some (of_wire e), [])
  | ok payload ↦ send failure (record { kind = type_unsubscribe; payload = payload }) c
]

-- The end of `Acknowledge`, behind its call of `send`.
unfoldable pub acknowledge_sent : Text → Client → Option ClientError → Client
acknowledge_sent event_id c (some e) = c
acknowledge_sent event_id c none = record c { deliveries = remember_delivery event_id c.deliveries }

-- `Acknowledge`
unfoldable pub acknowledge :
    Option WireError → Text → Client → Client × (Option ClientError × List Frame)
unfolding send acknowledge_sent
acknowledge failure event_id c =
    if length event_id == 0
    then (c, (some id_required, []))
    else elim (encode_ack (record { id = event_id; status = ack_delivered; error = [] })) [
      | err e ↦ (c, (some (of_wire e), []))
      | ok payload ↦
          let (failed, sent) = send failure (record { kind = type_ack; payload = payload }) c in
          (acknowledge_sent event_id c failed, (failed, sent))
    ]

-- The ID and the key that `PublishWithResult` gives to an event that has none.
unfoldable pub identify : Result WireError (List ℕ) → Event → Result ClientError Event
unfolding new_message_id
identify random event = do
  id ← if length event.id == 0 then new_message_id random else ok event.id
  ok (record event {
    id = id;
    idempotency_key = if length event.idempotency_key == 0 then id else event.idempotency_key;
  })

-- What it registers under the ID.
unfoldable pub register : Text → Client → Client
register id c = record c {
  pending = insert id (length c.channels) c.pending;
  channels = c.channels ++ (none ∷ []);
}

-- What it defers.
unfoldable pub unregister : Text → Client → Client
unregister id c = record c { pending = delete id c.pending }

-- `PublishWithResult` up to its last `select`: it waits for the acknowledgement of an ID at a channel, or
-- it has returned an error.
pub data Publishing : Type 0 where
  awaits : Text → ℕ → Publishing
  fails : ClientError → Publishing

-- The end of its call of `send`.
unfoldable pub publish_sent : Text → ℕ → Client → Option ClientError → Client × Publishing
unfolding unregister
publish_sent id channel c (some e) = (unregister id c, fails e)
publish_sent id channel c none = (c, awaits id channel)

unfoldable pub publish :
    Result WireError (List ℕ)
    → Option WireError
    → Event
    → Client
    → Client × (Publishing × List Frame)
unfolding identify register unregister send publish_sent
publish random failure event c = elim (identify random event) [
  | err e ↦ (c, (fails e, []))
  | ok event' ↦
      let c' = register event'.id c in
      elim (encode_publish (message_of event')) [
        | err e ↦ (unregister event'.id c', (fails (of_wire e), []))
        | ok payload ↦
            let (failed, sent) =
              send failure (record { kind = type_publish; payload = payload }) c' in
            let (c'', publishing) = publish_sent event'.id (length c.channels) c' failed in
            (c'', (publishing, sent))
      ]
]

-- `PublishStatus`
pub data PublishStatus : Type 0 where
  accepted duplicate : PublishStatus

-- What the publisher makes of an acknowledgement.
unfoldable pub status_of : AckMessage → Result ClientError PublishStatus
status_of ack =
    if ack.status == ack_rejected
    then err (rejected ack.error)
    else if ack.status == ack_duplicate
    then ok duplicate
    else ok accepted

-- How the last `select` of `PublishWithResult` ends: by its channel, its context, or the client's end.
pub data Awaited : Type 0 where
  acknowledged : Awaited
  context_ends : ContextError → Awaited
  client_ends : Awaited

-- The end of `PublishWithResult`. `none` is a wait, where the channel is empty or `done` is not closed.
unfoldable pub await :
    Awaited → Text → ℕ → Client → Client × Option (Result ClientError PublishStatus)
unfolding status_of unregister
await acknowledged id channel c = elim (get_elem? c.channels channel) [
  | none ↦ (c, none)
  | some none ↦ (c, none)
  | some (some ack) ↦
      (unregister id (record c { channels = set c.channels channel none }), some (status_of ack))
]
await (context_ends e) id channel c = (unregister id c, some (err (of_context e)))
await client_ends id channel c =
    if c.done then (unregister id c, some (err client_closed)) else (c, none)
