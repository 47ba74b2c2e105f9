-- ===== src/Client/ReadLoop.antt =====
-- transport/tcp/client.go: `readLoop`, which takes the frames of the server.
use distributed_event_bus.Prelude.{
  Bool, true, false, List, [], ◌∷◌, ◌++◌, Text, Option, none, some, ok, err, length, ltb, ◌==◌,
  get_elem?, set, if◌then◌else◌, lookup, text_key,
}
use distributed_event_bus.Wire.Bytes.{WireError}
use distributed_event_bus.Protocol.Frame.{Frame, type_event, type_ack, type_error, type_shutdown}
use distributed_event_bus.Broker.Event.{Event}
use distributed_event_bus.Messages.Codec.{
  AckMessage, decode_event, decode_ack, decode_error, decode_shutdown,
}
use distributed_event_bus.Client.Deliveries.{was_delivered}
use distributed_event_bus.Client.State.{Client, close, events_capacity, shutdowns_capacity}
use distributed_event_bus.Client.Calls.{acknowledge}

-- What Go and the network leave open in a round of the loop: the error of `WriteFrame`, and whether a
-- `select` takes `done`, where both cases are ready.
pub record World : Type 0 where
  pub failure : Option WireError
  pub take_done : Bool

-- How a round ends: the loop goes on, having written some frames, it returns, or it waits for room in a
-- channel.
pub data Round : Type 0 where
  goes_on : List Frame → Round
  returns : Round
  waits : Round

-- `select { case ch <- x: … case <-c.done: … }`: whether it sends, takes `done`, or waits. The first
-- argument says whether the channel has room.
pub data Choice : Type 0 where
  sends takes_done neither : Choice

unfoldable pub select_send : Bool → Bool → Bool → Choice
select_send take_done room done =
    if room
    then (if done then (if take_done then takes_done else sends) else sends)
    else if done
    then takes_done
    else neither

-- The case of EVENT.
unfoldable pub take_event : World → Event → Client → Client × Round
unfolding acknowledge select_send
take_event world event c =
    if was_delivered event.id c.deliveries
    then (let (c', (_, sent)) = acknowledge world.failure event.id c in (c', goes_on sent))
    else elim (select_send world.take_done (ltb (length c.events) events_capacity) c.done) [
      | sends ↦ (record c { events = c.events ++ (event ∷ []) }, goes_on [])
      | takes_done ↦ (c, returns)
      | neither ↦ (c, waits)
    ]

-- The case of ACK: `acknowledged <- ack` waits while the channel is full.
unfoldable pub take_ack : AckMessage → Client → Client × Round
take_ack ack c = elim (lookup ack.id c.pending) [
  | none ↦ (c, goes_on [])
  | some channel ↦ elim (get_elem? c.channels channel) [
    | none ↦ (c, waits)
    | some (some _) ↦ (c, waits)
    | some none ↦ (record c { channels = set c.channels channel (some ack) }, goes_on [])
  ]
]

-- The case of SHUTDOWN, which ends the loop.
unfoldable pub take_shutdown : World → Text → Client → Client × Round
unfolding select_send
take_shutdown world redirect c =
    elim (select_send world.take_done (ltb (length c.shutdowns) shutdowns_capacity) c.done) [
      | sends ↦ (record c { shutdowns = c.shutdowns ++ (redirect ∷ []) }, returns)
      | takes_done ↦ (c, returns)
      | neither ↦ (c, waits)
    ]

-- One round of the loop, for the frame that was read.
unfoldable pub take_frame : World → Frame → Client → Client × Round
unfolding take_event take_ack take_shutdown
take_frame world frame c =
    if frame.kind == type_event
    then elim (decode_event frame.payload) [
      | err _ ↦ (c, returns)
      | ok event ↦ take_event world event c
    ]
    else if frame.kind == type_ack
    then elim (decode_ack frame.payload) [ err _ ↦ (c, returns) | ok ack ↦ take_ack ack c ]
    else if frame.kind == type_error
    then elim (decode_error frame.payload) [ err _ ↦ (c, returns) | ok _ ↦ (c, returns) ]
    else if frame.kind == type_shutdown
    then elim (decode_shutdown frame.payload) [
      | err _ ↦ (c, returns)
      | ok message ↦ take_shutdown world message.redirect c
    ]
    else (c, goes_on [])

-- What `readLoop` defers: `Close`, and the ends of the channels.
unfoldable pub end_loop : Client → Client
unfolding close
end_loop c = record (close c) { shutdowns_closed = true; events_closed = true }

-- `readLoop` on the frames that can be read before an error, each with its round's choices: whether it
-- waits at one of them, and the frames that it has written.
unfoldable pub read_loop : List (World × Frame) → Client → Client × (Bool × List Frame)
unfolding take_frame end_loop
read_loop [] c = (end_loop c, (false, []))
read_loop ((world, frame) ∷ frames) c =
    let (c', round) = take_frame world frame c in
    let (c'', (stuck, sent)) = read_loop frames c' in
    elim round [
      | goes_on written ↦ (c'', (stuck, written ++ sent))
      | returns ↦ (end_loop c', (false, []))
      | waits ↦ (c', (true, []))
    ]

-- `<-c.Events()` in the application: the oldest event.
unfoldable pub next_event : Client → Client × Option Event
next_event c = elim c.events [
  | [] ↦ (c, none)
  | event ∷ events ↦ (record c { events = events }, some event)
]
