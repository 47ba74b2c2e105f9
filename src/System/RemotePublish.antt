-- ===== src/System/RemotePublish.antt =====
-- A publish through a connection has the result that the broker gives.
use distributed_event_bus.Prelude.{
  ℕ, ◌≡◌, ◌<◌, ◌≤◌, refl, ap, ◌∙◌, Bool, false, List, [], ◌∷◌, ◌++◌, Text, Option, none, some,
  Result, ok, err, arith, length, get_elem?, set, lookup, insert, text_key, if◌then◌else◌,
  lookup-insert, beq_refl, get_elem?-set_self,
}
use distributed_event_bus.Wire.Bytes.{WireError, IsBytes}
use distributed_event_bus.Protocol.Frame.{Frame, type_publish, type_ack, max_payload_size}
use distributed_event_bus.Broker.Event.{Event}
use distributed_event_bus.Broker.State.{Broker, Error}
use distributed_event_bus.Broker.Publish.{
  Choices, PublishResult, published, replies, publish_with_result,
}
use distributed_event_bus.Broker.Publish
use distributed_event_bus.Broker.Invariant.Standings.{get_elem?-append_end, get_elem?-lt}
use distributed_event_bus.Messages.Codec.{
  AckMessage, encode_publish, message_of, event_of, decode_ack,
}
use distributed_event_bus.Server.Publishing.{Handled, error_text, sends, handle_publish}
use distributed_event_bus.Server.PublishingLaws.{
  Acks, acks_published, acks_duplicate, acks_rejected, handle_publish_answers,
}
use distributed_event_bus.Server.State.{Connection, is_draining}
use distributed_event_bus.Server.Requests.{
  reacts, publication_reaction, handle_publication, handle_frame,
}
use distributed_event_bus.Client.State.{Client, ClientError, rejected}
use distributed_event_bus.Client.Calls.{
  publish_sent, PublishStatus, accepted, Publishing, awaits, identify, register, publish, Awaited,
  acknowledged, await, status_of, unregister,
}
use distributed_event_bus.Client.Calls
use distributed_event_bus.Client.Suppression.{send_fits}
use distributed_event_bus.Client.ReadLoop.{World, goes_on, take_frame, take_ack}

-- What a local caller learns from `PublishWithResult`, as the remote caller is told it.
abbrev pub local_status : PublishResult → Option Error → Result ClientError PublishStatus
local_status published none = ok accepted
local_status Publish.duplicate none = ok Calls.duplicate
local_status result (some e) = err (rejected (error_text e))

publish_form :
    (random : Result WireError (List ℕ)) (event event' : Event) (payload : List ℕ) (c : Client)
    → identify random event ≡ ok event'
    → encode_publish (message_of event') ≡ ok payload
    → length payload ≤ max_payload_size
    → c.done ≡ false
    → publish random none event c ≡ (
      register event'.id c,
      (
        awaits event'.id (length c.channels),
        record { kind = type_publish; payload = payload } ∷ [],
      ),
    )
unfolding publish publish_sent
publish_form random event event' payload c i e fits live =
    let frame : Frame = record { kind = type_publish; payload = payload } in
    rw (i, publish)
      (rw e (
        ap
          (λ (x : Option ClientError × List Frame).
            let (c', publishing) =
              publish_sent event'.id (length c.channels) (register event'.id c) x.0 in
            (c', (publishing, x.1)))
          (send_fits frame (register event'.id c) (omega arith) fits (unfold register in live))))

served_form :
    (network_text : ℕ → Text) (choices : Choices) (draining : Bool) (payload : List ℕ)
    (conn : Connection) (b b' : Broker) (ack : Frame)
    → is_draining draining conn ≡ false
    → handle_publish choices payload b ≡ (b', sends ack)
    → handle_frame network_text choices draining
        (record { kind = type_publish; payload = payload })
        conn
        b
      ≡ ((conn, b'), reacts (ack ∷ []))
unfolding handle_frame handle_publication publication_reaction
served_form network_text choices draining payload conn b b' ack open' h =
    rw open' (ap (λ (x : Broker × Handled). ((conn, x.0), publication_reaction network_text x.1)) h)

take_frame_ack :
    (world : World) (ack : AckMessage) (sent : List ℕ) (c : Client)
    → decode_ack sent ≡ ok ack
    → take_frame world (record { kind = type_ack; payload = sent }) c ≡ take_ack ack c
unfolding take_frame
take_frame_ack world ack sent c h = rw (h, take_frame) refl

take_ack_found :
    (ack : AckMessage) (channel : ℕ) (c : Client)
    → lookup ack.id c.pending ≡ some channel
    → get_elem? c.channels channel ≡ some none
    → take_ack ack c ≡ (record c { channels = set c.channels channel (some ack) }, goes_on [])
unfolding take_ack
take_ack_found ack channel c h g = rw (h, take_ack) (rw (g) refl)

await_answer :
    (id : Text) (channel : ℕ) (ack : AckMessage) (c : Client)
    → get_elem? c.channels channel ≡ some (some ack)
    → await acknowledged id channel c
      ≡ (unregister id (record c { channels = set c.channels channel none }), some (status_of ack))
unfolding await
await_answer id channel ack c h = rw (h, await) refl

status_of-Acks :
    (id : Text) (result : PublishResult) (failure : Option Error) (ack : AckMessage)
    → Acks id result failure ack
    → (status_of ack ≡ local_status result failure) × (ack.id ≡ id)
unfolding status_of
status_of-Acks id result failure ack acks_published = (refl, refl)
status_of-Acks id result failure ack acks_duplicate = (refl, refl)
status_of-Acks id result failure ack (acks_rejected published e) = (refl, refl)
status_of-Acks id result failure ack (acks_rejected Publish.duplicate e) = (refl, refl)

-- The registered channel gets the acknowledgement, and the publisher takes it.
registered :
    (world : World) (sent : List ℕ) (ack : AckMessage) (id : Text) (c : Client)
    → decode_ack sent ≡ ok ack
    → ack.id ≡ id
    → let c1 = (take_frame world (record { kind = type_ack; payload = sent }) (register id c)).0 in
      (await acknowledged id (length c.channels) c1).1 ≡ some (status_of ack)
registered world sent ack id c d e =
    let channels = c.channels ++ (none ∷ []) in
    let found : get_elem? (register id c).channels (length c.channels) ≡ some none =
      unfold register in get_elem?-append_end c.channels none in
    let pending : lookup ack.id (register id c).pending ≡ some (length c.channels) =
      unfold register in
      (ap (λ x. lookup x (insert id (length c.channels) c.pending)) e
        ∙ lookup-insert id id (length c.channels) c.pending
        ∙ ap (λ x. if x then some (length c.channels) else lookup id c.pending) (beq_refl id)) in
    rw
      (
        take_frame_ack world ack sent (register id c) d,
        take_ack_found ack (length c.channels) (register id c) pending found,
      )
      (ap (λ x. x.1)
        (await_answer id (length c.channels) ack _ (
          get_elem?-set_self (register id c).channels (length c.channels) (some ack)
            (get_elem?-lt (register id c).channels (length c.channels) none found))))

-- A publish through a connection is a publish at the broker. A client that is not closed gives the event
-- its ID and key, and writes a PUBLISH frame, if the event can be encoded in no more than 16 MiB and has a
-- topic, and the connection takes what is written. A connection of the server
-- that does not drain hands the event to the broker, which is left as its own `PublishWithResult` leaves
-- it, and answers with one frame. When the client has read that frame, its call returns the status or
-- the error's text of the broker's reply.
pub remote_publish-local_status :
    (network_text : ℕ → Text) (choices : Choices) (world : World) (draining : Bool)
    (random : Result WireError (List ℕ)) (event event' : Event) (payload : List ℕ) (c : Client)
    (conn : Connection) (b b' : Broker) (result : PublishResult) (failure : Option Error)
    → c.done ≡ false
    → is_draining draining conn ≡ false
    → identify random event ≡ ok event'
    → encode_publish (message_of event') ≡ ok payload
    → IsBytes payload
    → length payload ≤ max_payload_size
    → 0 < length event'.topic
    → publish_with_result choices none event' b ≡ (b', replies result failure)
    → let frame : Frame = record { kind = type_publish; payload = payload } in
      let c1 = (publish random none event c).0 in
      (ack : Frame) × ((publish random none event c).1
        ≡ (awaits event'.id (length c.channels), frame ∷ []))
      × (handle_frame network_text choices draining frame conn b ≡ ((conn, b'), reacts (ack ∷ [])))
      × ((await acknowledged event'.id (length c.channels) (take_frame world ack c1).0).1
          ≡ some (local_status result failure))
remote_publish-local_status network_text choices world draining random event event' payload c conn b
      b' result failure live open' i e bytes fits topic p =
    let (sent, ack, handled, decoded, acks) =
      handle_publish_answers choices (message_of event') payload b b' result failure bytes e
        (unfold message_of in topic) (unfold message_of event_of in p) in
    let (status, same) = status_of-Acks (message_of event').id result failure ack acks in
    let reply : Frame = record { kind = type_ack; payload = sent } in
    let form = publish_form random event event' payload c i e fits live in
    (
      reply,
      ap (λ x. x.1) form,
      served_form network_text choices draining payload conn b b' reply open' handled,
      ap
            (λ (x : Client × (Publishing × List Frame)).
              (await acknowledged event'.id (length c.channels) (take_frame world reply x.0).0).1)
            form
          ∙ registered world sent ack event'.id c decoded (unfold message_of in same)
          ∙ ap some status,
    )
