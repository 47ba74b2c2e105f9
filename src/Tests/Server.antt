-- ===== src/Tests/Server.antt =====
-- The theorems on the server applied to a small one.
use mathlib.Core.List.Perm
use distributed_event_bus.Prelude.{
  ℕ, ◌≡◌, refl, true, false, List, [], ◌∷◌, Text, ok, arith, nat_eq_iff, contains, add,
}
use distributed_event_bus.Wire.Bytes.{read_exact, uint16}
use distributed_event_bus.Protocol.Frame.{Frame, type_subscribe, type_error}
use distributed_event_bus.Broker.State.{new}
use distributed_event_bus.Broker.Openness.{IsOpenAt}
use distributed_event_bus.Broker.Reach.{Reach-IsSound, subscribes}
use distributed_event_bus.Broker.Reach as History
use distributed_event_bus.Messages.Fields.{read_string}
use distributed_event_bus.Messages.Codec.{decode_connect, decode_error}
use distributed_event_bus.Server.State.{Connection, Server, new_connection, new_server, accept}
use distributed_event_bus.Server.Failures.{unsupported, failure_text}
use distributed_event_bus.Server.Serving.{serve}
use distributed_event_bus.Server.Requests.{greet, handle_frame, reacts}
use distributed_event_bus.Server.Lifecycle.{
  graceful_close, close_server, close_connections, close_connection,
}
use distributed_event_bus.Server.Steps.{
  update, Serves, accepts, reads, closes, starts, goes_on, Reach,
}
use distributed_event_bus.Server.Ownership.{IsOwned}
use distributed_event_bus.Server.Reach.{Reach-IsOwned, close_server-releases}
use distributed_event_bus.Broker.Publish.{ticks}
use distributed_event_bus.Server.GracefulLaws.{Farewell, graceful_close-Farewell}
use distributed_event_bus.Server.Refusals.{unknown_type}
use distributed_event_bus.Server.RefusalLaws.{handle_frame-refuses}
use distributed_event_bus.Tests.Samples.{
  ping, jobs, news, plain, plain-IsRange, small, started, subscribed,
}

abbrev no_network_text : ℕ → Text
no_network_text n = []

-- SUBSCRIBE to `jobs`.
abbrev to_jobs : Frame
to_jobs = record { kind = type_subscribe; payload = 0 ∷ 4 ∷ jobs }

-- One client has connected.
abbrev met : Server
met = accept (new_server started)

-- It has subscribed.
abbrev pub served : Server
served =
    update 0 (handle_frame no_network_text plain met.draining to_jobs new_connection met.broker).0
      met

first-Serves : Serves met 0 new_connection
unfolding accept new_server new_connection add contains
first-Serves = record { found = refl; listed = ground (arith, nat_eq_iff 0 0) }

pub served-Reach : Reach small served
served-Reach = goes_on (goes_on starts accepts) (
    reads no_network_text plain to_jobs 0 new_connection plain-IsRange
      (unfold accept new_server new in omega arith) first-Serves)

-- The server is closed before the client's SUBSCRIBE is handled.
abbrev shut : Server
shut = close_server (λ xs. xs) (λ xs. xs) met

abbrev cut_off : Connection
cut_off = record new_connection { closed = true; net_closed = true }

cut_off-Serves : Serves shut 0 cut_off
unfolding accept new_server new_connection add contains close_server close_connections
    close_connection
cut_off-Serves = record { found = refl; listed = ground (arith, nat_eq_iff 0 0) }

abbrev late : Server
late =
    update 0 (handle_frame no_network_text plain shut.draining to_jobs cut_off shut.broker).0 shut

late-Reach : Reach small late
unfolding accept new_server new close_server close_connections close_connection add contains
late-Reach =
    goes_on
      (goes_on (goes_on starts accepts)
        (closes (λ xs. xs) (λ xs. xs) (λ xs. Perm.refl xs) (λ xs. Perm.refl xs)))
      (reads no_network_text plain to_jobs 0 cut_off plain-IsRange (omega arith) cut_off-Serves)

Reach-IsOwned_example : IsOwned late
Reach-IsOwned_example = Reach-IsOwned late-Reach

close_server-releases_example :
    let s' = close_server (λ xs. xs) (λ xs. xs) served in
    ((r : ℕ) (topic : Text) → IsOpenAt s'.broker.heap r topic → ⊥) × (s'.broker.topics ≡ [])
unfolding accept new_server
close_server-releases_example =
    close_server-releases (λ xs. xs) (λ xs. xs) (λ xs. Perm.refl xs) (λ xs. Perm.refl xs)
      served-Reach refl refl

-- A connection that has the first subscription.
abbrev with_jobs : Connection
with_jobs = record {
  subs = (jobs, 0) ∷ [];
  closed = false;
  draining = false;
  pending_ack = [];
  channels = [];
  net_closed = false;
}

subscribed-Reach : History.Reach small subscribed
unfolding new
subscribed-Reach = History.goes_on History.starts (subscribes jobs (omega arith))

graceful_close-Farewell_example :
    Farewell news with_jobs
      (graceful_close (λ xs. xs) (λ r. ticks 1 ∷ []) true news with_jobs subscribed)
graceful_close-Farewell_example =
    graceful_close-Farewell (λ xs. xs) (λ r. ticks 1 ∷ []) true news with_jobs subscribed
      (λ xs. Perm.refl xs) (Reach-IsSound subscribed-Reach) refl (omega arith)

abbrev odd : Frame
odd = record { kind = 99; payload = [] }

handle_frame-refuses_example :
    (payload : List ℕ) × (handle_frame no_network_text plain false odd with_jobs subscribed
      ≡ ((with_jobs, subscribed), reacts (record { kind = type_error; payload = payload } ∷ [])))
    × (decode_error payload ≡ ok (record { error = failure_text no_network_text (unsupported 99) }))
handle_frame-refuses_example =
    handle_frame-refuses no_network_text plain false odd with_jobs subscribed (unsupported 99) (
      unknown_type (λ e. omega arith) (λ e. omega arith) (λ e. omega arith) (λ e. omega arith)
        (λ e. omega arith) (omega arith))

-- A client that subscribes without CONNECT is told so, and its connection ends; one that says CONNECT
-- first gets a PONG for its PING.
abbrev hello : Frame
hello = record { kind = 1; payload = 0 ∷ 1 ∷ 104 ∷ [] }

refuses_without_connect :
    (serve no_network_text plain false (λ xs. xs) (to_jobs ∷ []) new_connection started).0.0.closed
    ≡ true
unfolding serve greet new_connection
refuses_without_connect = refl

answers_ping :
    (serve no_network_text plain false (λ xs. xs) (hello ∷ ping ∷ []) new_connection started).1
    ≡ (false, record { kind = 8; payload = [] } ∷ [])
unfolding serve greet new_connection decode_connect read_string read_exact uint16
answers_ping = refl
