-- ===== src/Tests/System.antt =====
-- The theorems on clients and on publishes through a connection applied to small ones.
use distributed_event_bus.Prelude.{
  ℕ, ◌≡◌, refl, false, List, [], ◌∷◌, none, some, ok, arith, lookup, insert, contains, text_eq,
  text_key,
}
use distributed_event_bus.Wire.Bytes.{put_uint16, put_uint32}
use distributed_event_bus.Protocol.Frame.{Frame, type_publish}
use distributed_event_bus.Broker.Event.{Event, event_key}
use distributed_event_bus.Broker.State.{new}
use distributed_event_bus.Broker.Memory.{seen}
use distributed_event_bus.Broker.Subscription.{enqueue}
use distributed_event_bus.Broker.Subscription
use distributed_event_bus.Broker.Publish.{published, publish_with_result}
use distributed_event_bus.Messages.Fields.{write_string, write_bytes}
use distributed_event_bus.Messages.Codec.{encode_publish, message_of}
use distributed_event_bus.Server.State.{new_connection, is_draining}
use distributed_event_bus.Server.Requests.{handle_frame, reacts}
use distributed_event_bus.Client.State.{new_client}
use distributed_event_bus.Client.Calls.{publish, identify, awaits, await, acknowledged}
use distributed_event_bus.Client.ReadLoop.{World, take_frame}
use distributed_event_bus.System.RemotePublish.{local_status, remote_publish-local_status}
use distributed_event_bus.Tests.Samples.{jobs, event, plain, subscribed}

-- The event with the key that it is given, and its payload.
abbrev keyed : Event
keyed = record {
  id = 1 ∷ [];
  idempotency_key = 1 ∷ [];
  topic = jobs;
  key = [];
  payload = 1 ∷ 1 ∷ [];
}

abbrev keyed_payload : List ℕ
keyed_payload =
    0 ∷ 1 ∷ 1 ∷ 0 ∷ 1 ∷ 1 ∷ 0 ∷ 4 ∷ 106 ∷ 111 ∷ 98 ∷ 115 ∷ 0 ∷ 0 ∷ 0 ∷ 0 ∷ 0 ∷ 2 ∷ 1 ∷ 1 ∷ []

abbrev quiet_world : World
quiet_world = record { failure = none; take_done = false }

remote_publish-local_status_example :
    let frame : Frame = record { kind = type_publish; payload = keyed_payload } in
    let c1 = (publish (ok []) none (event 1) new_client).0 in
    (ack : Frame) × ((publish (ok []) none (event 1) new_client).1
      ≡ (awaits (1 ∷ []) 0, frame ∷ []))
    × (handle_frame (λ n. []) plain false frame new_connection subscribed ≡ (
      (new_connection, (publish_with_result plain none keyed subscribed).0),
      reacts (ack ∷ []),
    ))
    × ((await acknowledged (1 ∷ []) 0 (take_frame quiet_world ack c1).0).1
        ≡ some (local_status published none))
unfolding encode_publish write_string write_bytes put_uint16 put_uint32 message_of new
    Subscription.subscribe publish_with_result lookup insert contains text_eq event_key seen enqueue
    new_client new_connection identify is_draining
remote_publish-local_status_example =
    remote_publish-local_status (λ n. []) plain quiet_world false (ok []) (event 1) keyed
      keyed_payload new_client new_connection subscribed
      (publish_with_result plain none keyed subscribed).0 published none refl refl refl refl
      (
        omega arith,
        (
          omega arith,
          (
            omega arith,
            (
              omega arith,
              (
                omega arith,
                (
                  omega arith,
                  (
                    omega arith,
                    (
                      omega arith,
                      (
                        omega arith,
                        (
                          omega arith,
                          (
                            omega arith,
                            (
                              omega arith,
                              (
                                omega arith,
                                (
                                  omega arith,
                                  (
                                    omega arith,
                                    (
                                      omega arith,
                                      (
                                        omega arith,
                                        (omega arith, (omega arith, (omega arith, tt))),
                                      ),
                                    ),
                                  ),
                                ),
                              ),
                            ),
                          ),
                        ),
                      ),
                    ),
                  ),
                ),
              ),
            ),
          ),
        ),
      )
      (omega arith) (omega arith) refl
