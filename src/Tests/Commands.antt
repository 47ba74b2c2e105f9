-- ===== src/Tests/Commands.antt =====
-- The theorems on the commands applied to a process whose server has a client, and to a producer.
use mathlib.Core.List.Perm
use distributed_event_bus.Prelude.{
  ℕ, Bool, ◌≢◌, some, ◌≡◌, ◌≢◌, ◌≤◌, ◌↔◌, refl, some, none, ok, length, true, false, List, [], ◌∷◌,
  Text, lookup,
}
use distributed_event_bus.Wire.Bytes.{read_exact, uint16}
use distributed_event_bus.Messages.Fields.{read_string}
use distributed_event_bus.Messages.Codec.{decode_topic}
use distributed_event_bus.Broker.State.{deadline_exceeded, new, pos}
use distributed_event_bus.Broker.Subscription.{subscribe}
use distributed_event_bus.Server.Requests.{handle_frame}
use distributed_event_bus.Broker.Publish.{ticks, context_ends}
use distributed_event_bus.Broker.Openness.{IsOpenAt}
use distributed_event_bus.Server.State.{accept, new_server}
use distributed_event_bus.Commands.EventBus.{
  Process, World, Request, trigger_shutdown, handle_all, main_end, main_stops, main_runs,
}
use distributed_event_bus.Commands.EventBusLaws.{trigger_shutdown-stops}
use distributed_event_bus.Commands.Producer.{Round, produce, finished, running}
use distributed_event_bus.Commands.Producer
use distributed_event_bus.Commands.ProducerLaws.{CountsFrom, produce-numbered}
use distributed_event_bus.Tests.Samples.{plain, plain-IsRange, jobs}
use distributed_event_bus.Tests.Server.{served, served-Reach}

abbrev bus : Process
bus = record {
  server = served;
  redirect = [];
  once_done = false;
  stop_read = false;
  admin_closed = false;
  shutdown_done = false;
}

-- One tick without a read, then the deadline.
abbrev slow_readers : World
slow_readers = record {
  visit = λ xs. xs;
  visit_conns = λ xs. xs;
  choices = plain;
  wakeups = λ r. ticks 0 ∷ context_ends deadline_exceeded ∷ [];
  finishes = λ i. true;
  admin_ends = true;
}

trigger_shutdown-stops_example :
    let p' = trigger_shutdown slow_readers jobs bus in
    ((r : ℕ) (topic : Text) → IsOpenAt p'.server.broker.heap r topic → ⊥)
    × (p'.server.broker.closed ≡ true)
    × (p'.server.broker.topics ≡ [])
    × (p'.admin_closed ≡ true)
    × (p'.shutdown_done ≡ true)
    × (main_end (some false) false false p' ≡ main_stops)
    × ((world' : World) (take_timer : Bool)
        → main_end (some false) true take_timer (trigger_shutdown world' jobs bus) ≢ main_runs)
    × ((world' : World) (later : List Request) → (handle_all world' later p').server ≡ p'.server)
unfolding accept new_server handle_frame decode_topic read_string read_exact uint16 subscribe new
    lookup
trigger_shutdown-stops_example =
    trigger_shutdown-stops slow_readers jobs bus (λ xs. Perm.refl xs) plain-IsRange (λ r. refl)
      (λ i. refl) refl served-Reach refl refl

-- Two events.
abbrev two : Producer.Flags
two = record { topic = jobs; key = []; payload = jobs; count = pos 2 }

-- The client of the manager publishes at once.
abbrev works : Round
works = record {
  random = ok (1 ∷ 2 ∷ []);
  world = λ attempt. record { current = some 0; result = none; closed = false };
}

produce-numbered_example :
    let out = produce two (works ∷ works ∷ []) in
    CountsFrom jobs 1 out.1
    × (length out.1 ≤ 2)
    × (out.0 ≡ finished ↔ length out.1 ≡ 2)
    × (2 ≤ 2 → out.0 ≢ running)
produce-numbered_example = produce-numbered two 1 (works ∷ works ∷ []) refl
