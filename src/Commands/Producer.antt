-- ===== src/Commands/Producer.antt =====
-- cmd/producer/main.go: the loop that publishes numbered events. Flags are parsed by Go's package.
use distributed_event_bus.Prelude.{
  ℕ, zero, suc, ◌+◌, Bool, true, false, List, [], ◌∷◌, ◌++◌, Text, none, some, Result, ok, err, leb,
  length, ◌==◌, if◌then◌else◌,
}
use distributed_event_bus.Wire.Bytes.{WireError}
use distributed_event_bus.Broker.Event.{Event}
use distributed_event_bus.Broker.State.{ℤ, pos, negsuc}
use distributed_event_bus.Client.State.{new_message_id}
use distributed_event_bus.Server.Failures.{digits}
use distributed_event_bus.Manager.Calls as Manager

-- The flags that bear on the events.
pub record Flags : Type 0 where
  pub topic : Text
  pub key : Text
  pub payload : Text
  pub count : ℤ

-- `strings.Split(_, ",")`, with the bytes that have been read of a part.
unfoldable pub split_from : Text → Text → List Text
split_from part [] = part ∷ []
split_from part (b ∷ bs) =
    if b == 44 then part ∷ split_from [] bs else split_from (part ++ (b ∷ [])) bs

-- The endpoints, from `-address` and `-standby`.
unfoldable pub endpoints : Text → Text → List Text
unfolding split_from
endpoints address standby = address ∷ (if length standby == 0 then [] else split_from [] standby)

-- `fmt.Sprintf("%s #%d", payload, sequence)`
unfoldable pub numbered : Text → ℕ → Text
numbered payload sequence = payload ++ (32 ∷ 35 ∷ digits sequence sequence)

-- `*count == 0 || sequence <= *count`
unfoldable pub goes_on : ℤ → ℕ → Bool
goes_on (pos zero) sequence = true
goes_on (pos (suc n)) sequence = leb sequence (suc n)
goes_on (negsuc n) sequence = false

-- What a round finds: the random bytes, and what the attempts of `Publish` find.
pub record Round : Type 0 where
  pub random : Result WireError (List ℕ)
  pub world : ℕ → Manager.Round

-- The event of a round.
unfoldable pub event_of : Flags → ℕ → Text → Event
unfolding numbered
event_of flags sequence id = record {
  id = id;
  topic = flags.topic;
  key = flags.key;
  payload = numbered flags.payload sequence;
  idempotency_key = [];
}

-- How the loop ends: after its last event, in `log.Fatal`, or not yet.
pub data Exit : Type 0 where
  finished failed running : Exit

-- The loop from a sequence number on, with the events that were published.
unfoldable pub produce_from : Flags → List Round → ℕ → Exit × List Event
unfolding goes_on event_of
produce_from flags [] sequence =
    if goes_on flags.count sequence then (running, []) else (finished, [])
produce_from flags (round ∷ rounds) sequence =
    let (exit, events) = produce_from flags rounds (sequence + 1) in
    if goes_on flags.count sequence
    then elim (new_message_id round.random) [
      | err _ ↦ (failed, [])
      | ok id ↦
          let event = event_of flags sequence id in
          elim (Manager.publish round.random round.world event).0 [
            | some _ ↦ (failed, [])
            | none ↦ (exit, event ∷ events)
          ]
    ]
    else (finished, [])

-- The loop of `main`.
unfoldable pub produce : Flags → List Round → Exit × List Event
unfolding produce_from
produce flags rounds = produce_from flags rounds 1
