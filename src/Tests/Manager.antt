-- ===== src/Tests/Manager.antt =====
-- The theorems on connection managers, loggers and interleaved publishes applied to small ones.
use distributed_event_bus.Prelude.{
  ℕ, ◌<◌, ◌≡◌, ◌↔◌, ◌≤◌, refl, zero, suc, true, false, List, [], ◌∷◌, Text, none, some, ok, arith,
  get_elem?, lookup, insert, contains, text_eq, length, text_key, All,
}
use distributed_event_bus.Broker.Event.{Event, event_key}
use distributed_event_bus.Broker.State.{new}
use distributed_event_bus.Broker.Memory.{seen}
use distributed_event_bus.Broker.Subscription
use distributed_event_bus.Broker.Publish.{published, admit}
use distributed_event_bus.Broker.Invariant.Defs.{IsSound}
use distributed_event_bus.Broker.Reach
use distributed_event_bus.Broker.Interleaving.{
  System, Steps, no_steps, and_then, meanwhile, enters, ended,
}
use distributed_event_bus.Broker.InterleavingLaws.{
  Steps-append, interleaved-IsSound, both_published,
}
use distributed_event_bus.Client.Calls.{identify}
use distributed_event_bus.Manager.Endpoints.{Manager, Network, connect}
use distributed_event_bus.Manager.Calls.{Round, publish, publish_attempts}
use distributed_event_bus.Manager.PublishLaws.{Succeeds, publish-Succeeds}
use distributed_event_bus.Manager.Recovery.{Try, reconnect, first_delay}
use distributed_event_bus.Manager.RecoveryLaws.{backoff, reconnect-backoff}
use distributed_event_bus.Logging.Logger.{
  Severity, as_error, as_debug, as_warn, parse_level, lower, is_ascii, log_all,
}
use distributed_event_bus.Logging.Logger
use distributed_event_bus.Logging.Laws.{level_named, level_names, lines_at, log_all-parse_level}
use distributed_event_bus.Tests.Samples.{
  jobs, news, event, plain, plain-IsRange, small, subscribed, subscription, network, manager,
}

-- `manager` with a client.
abbrev online : Manager
online = record manager { current = some 3 }

-- Nothing can be dialled.
abbrev offline : Network
offline = record {
  dials = λ endpoint. none;
  subscribes = λ client topic. true;
  visit = λ topics. topics;
}

abbrev one_try : Try
one_try = record { closed_before = false; network = network; closed_after = false }

abbrev failing_try : Try
failing_try = record { closed_before = false; network = offline; closed_after = false }

reconnect-backoff_example : (400 ≡ backoff 2) × (first_delay ≤ 400) × (400 ≤ 6400)
unfolding reconnect connect
reconnect-backoff_example =
    reconnect-backoff (failing_try ∷ failing_try ∷ failing_try ∷ []) 2 400 manager refl

-- The first attempt finds no client, the second one succeeds.
abbrev second_works : ℕ → Round
second_works zero = record { current = none; result = none; closed = false }
second_works (suc n) = record { current = some 7; result = none; closed = false }

abbrev with_key : Event
with_key = record {
  id = 1 ∷ [];
  idempotency_key = 1 ∷ [];
  topic = jobs;
  key = [];
  payload = 1 ∷ 1 ∷ [];
}

publish-Succeeds_example :
    (((publish (ok []) second_works (event 1)).0 ≡ none)
      ↔ ((n : ℕ) × (n < publish_attempts) × Succeeds second_works 0 n))
    × (length (publish (ok []) second_works (event 1)).1 ≤ publish_attempts)
    × All (λ (g : ℕ × Event). g.1 ≡ with_key) (publish (ok []) second_works (event 1)).1
unfolding identify
publish-Succeeds_example = publish-Succeeds (ok []) second_works (event 1) with_key refl

-- "Warn"
abbrev warn_value : Text
warn_value = 87 ∷ 97 ∷ 114 ∷ 110 ∷ []

abbrev log_calls : List (Severity × Text)
log_calls = (as_debug, jobs) ∷ (as_error, news) ∷ []

log_all-parse_level_example :
    (parse_level (λ t. t) warn_value ≡ level_named (lower warn_value) level_names)
    × (parse_level (λ t. t) (lower warn_value) ≡ parse_level (λ t. t) warn_value)
    × (let level = (parse_level (λ t. t) warn_value).0 in
        log_all log_calls (some (Logger.new level))
        ≡ some (record { level = level; lines = lines_at level log_calls }))
unfolding is_ascii
log_all-parse_level_example = log_all-parse_level (λ t. t) warn_value log_calls refl

-- A subscription, and then two publishes whose parts are mixed.
interleaved-IsSound_example :
    (s : System) × (get_elem? s.broker.heap 0 ≡ some (subscription (event 1 ∷ event 1 ∷ [])))
    × IsSound s.broker
unfolding new Subscription.subscribe lookup insert contains text_eq event_key seen admit
interleaved-IsSound_example =
    let (s, steps, queue, _) =
      both_published plain (event 1) (event 1) subscribed 0 (subscription []) plain-IsRange refl
        refl refl refl refl (omega arith) in
    (
      s,
      queue,
      interleaved-IsSound small (
          Steps-append (and_then no_steps (meanwhile (Reach.subscribes jobs (omega arith)))) steps),
    )

both_published_example :
    (s : System) × Steps
      (record {
        broker = subscribed;
        calls =
            record { event = event 1; place = enters }
            ∷ record { event = event 1; place = enters }
            ∷ [];
      })
      s
    × (get_elem? s.broker.heap 0 ≡ some (subscription (event 1 ∷ event 1 ∷ [])))
    × (s.calls
        ≡ record { event = event 1; place = ended published none }
          ∷ record { event = event 1; place = ended published none }
          ∷ [])
unfolding new Subscription.subscribe lookup insert contains text_eq event_key seen admit
both_published_example =
    both_published plain (event 1) (event 1) subscribed 0 (subscription []) plain-IsRange refl refl
      refl refl refl (omega arith)
