-- ===== src/Broker/Subscription.antt =====
-- broker/broker.go: one subscription's queue, and the broker's `Subscribe`.
use distributed_event_bus.Prelude.{
  ℕ, ◌+◌, ◌%◌, ◌^◌, Bool, true, false, ◌||◌, [], ◌∷◌, ◌++◌, Text, Option, none, some, Result, ok,
  err, length, take, drop, ltb, ◌==◌, set, get_elem?, if◌then◌else◌, Map, lookup, insert, delete,
  text_key, nat_key,
}
use distributed_event_bus.Broker.Event.{Event}
use distributed_event_bus.Broker.State.{
  Broker, Subscription, BackpressurePolicy, Error, ContextError, context_done, queue_full,
  subscription_closed, at,
}

-- `newSubscription`
unfoldable pub new_subscription : Text → ℕ → ℕ → Subscription
new_subscription topic id queue_size = record {
  topic = topic;
  id = id;
  capacity = queue_size;
  events = [];
  once_done = false;
  closed = false;
  done_closed = false;
  events_closed = false;
}

-- `close`: the first call closes both channels, and later ones do nothing. With `drain` the events
-- that are queued stay for the reader.
unfoldable pub close_queue : Bool → Subscription → Subscription
close_queue drain s = if s.once_done then s else record s {
  once_done = true;
  closed = true;
  done_closed = true;
  events = if drain then s.events else [];
  events_closed = true;
}

-- What a run of `enqueue` does: the event is queued, the call returns an error, or the goroutine
-- waits in the last `select`.
pub data Attempt : Type 0 where
  queued : Subscription → Attempt
  refused : Error → Attempt
  waits : Attempt

-- `s.events <- event`
abbrev pub push : Event → Subscription → Subscription
push event s = record s { events = s.events ++ (event ∷ []) }

-- The last `select` of `enqueue`. `context` is `none` while `ctx` is not done. Where `ctx` is done
-- and the queue has room, Go chooses, and `take_context` is its choice.
unfoldable pub select_block : Bool → Option ContextError → Event → Subscription → Attempt
select_block take_context none event s =
    if ltb (length s.events) s.capacity then queued (push event s) else waits
select_block take_context (some e) event s =
    if ltb (length s.events) s.capacity
    then (if take_context then refused (context_done e) else queued (push event s))
    else refused (context_done e)

-- `enqueue`, run with nothing in between: `done` is closed with `closed`, so that after the two tests
-- no `select` finds it closed.
unfoldable pub enqueue :
    Bool → Option ContextError → BackpressurePolicy → Event → Subscription → Attempt
unfolding select_block
enqueue take_context context policy event s =
    if s.closed
    then refused subscription_closed
    else if s.done_closed
    then refused subscription_closed
    else elim policy [
      | BackpressurePolicy.drop ↦
          if ltb (length s.events) s.capacity then queued (push event s) else refused queue_full
      | BackpressurePolicy.block ↦ select_block take_context context event s
    ]

-- The replay of `Subscribe`: the events that fit go to the new queue, which is empty.
unfoldable pub replay : Text → ℕ → Subscription → Broker → Broker
replay topic r s b =
    let cached = at topic b.cache in
    let count = if ltb s.capacity (length cached) then s.capacity else length cached in
    if length cached == 0 then b else record b {
      heap = set b.heap r (record s { events = s.events ++ take count cached });
      cache =
          if count == length cached
          then delete topic b.cache
          else insert topic (drop count cached) b.cache;
    }

-- `Subscribe`. The sequence is a `uint64`.
unfoldable pub subscribe : Text → Broker → Broker × Result Error ℕ
unfolding replay new_subscription
subscribe topic b =
    let sequence = (b.sequence + 1) % 2 ^ 64 in
    let s = new_subscription topic sequence b.config.queue_size in
    let r = length b.heap in
    let registered = record b {
      sequence = sequence;
      topics = insert topic (insert sequence r (at topic b.topics)) b.topics;
      heap = b.heap ++ (s ∷ []);
    } in
    if b.closed || b.draining then (b, err Error.closed) else (replay topic r s registered, ok r)

-- `Subscription.Close` on the entry that the subscription has in `topics`.
unfoldable pub unregister : Text → ℕ → Map Text (Map ℕ ℕ) → Map Text (Map ℕ ℕ)
unregister topic id topics = elim (lookup topic topics) [
  | none ↦ topics
  | some subs ↦
      let left = delete id subs in
      if length left == 0 then delete topic topics else insert topic left topics
]

-- `Subscription.Close`
unfoldable pub close_subscription : ℕ → Broker → Broker
unfolding unregister close_queue
close_subscription r b = elim (get_elem? b.heap r) [
  | none ↦ b
  | some s ↦ record b {
    topics = unregister s.topic s.id b.topics;
    heap = set b.heap r (close_queue true s);
  }
]

-- `<-s.Events()`: the oldest event, the end of the stream, or a wait.
pub data Received : Type 0 where
  received : Event → Received
  ended nothing : Received

unfoldable pub receive_from : Subscription → Subscription × Received
receive_from s = elim s.events [
  | [] ↦ (s, if s.events_closed then ended else nothing)
  | e ∷ rest ↦ (record s { events = rest }, received e)
]

unfoldable pub receive : ℕ → Broker → Broker × Received
unfolding receive_from
receive r b = elim (get_elem? b.heap r) [
  | none ↦ (b, nothing)
  | some s ↦ let (s', got) = receive_from s in (record b { heap = set b.heap r s' }, got)
]
