-- ===== src/Broker/OrderLaws.antt =====
-- A subscriber reads what is published, in that order.
use mathlib.Core.List.{Sublistᴰ}
use mathlib.Core.List.Sublistᴰ
use distributed_event_bus.Prelude.{
  ℕ, ◌≡◌, ◌≢◌, sym, ◌∙◌, subst, true, false, List, [], ◌++◌, Text, none, some, set, get_elem?,
  arith, Bool-cases, Option-cases, ◌⊎◌, inl, inr, get_elem?-set_self, get_elem?-set_ne, nat_eq,
  nat_eq_iff, nat_key, append-nil, append_assoc,
}
use distributed_event_bus.Broker.Event.{Event}
use distributed_event_bus.Broker.State.{Broker, Subscription, begin_shutdown}
use distributed_event_bus.Broker.Subscription.{
  close_queue, subscribe, close_subscription, nothing, receive, receive_from,
}
use distributed_event_bus.Broker.Publish.{Choices, close, publish_with_result}
use distributed_event_bus.Broker.PublishCases.{publish_with_result-Outcome}
use distributed_event_bus.Broker.SubscribeLaws.{subscribe_older}
use distributed_event_bus.Broker.Order.{
  Call, publishes, reads, another_reads, subscribes, closes_subscription, begins_shutdown, closes,
  Calls, no_calls, and_then, Becomes, unchanged, called, taken, offered,
}
use distributed_event_bus.Broker.Invariant.Defs.{IsSound, IsRange}
use distributed_event_bus.Broker.Invariant.Standings.{get_elem?-lt}
use distributed_event_bus.Broker.Invariant.Calls.{
  publish-IsSound, receive-IsSound, begin_shutdown-IsSound, close_subscription-IsSound,
}
use distributed_event_bus.Broker.Invariant.Subscribing.{subscribe-IsSound}
use distributed_event_bus.Broker.Invariant.Closing.{close-IsSound, close_queues, close_done}

pub receive_form :
    (r : ℕ) (b : Broker) (s : Subscription)
    → get_elem? b.heap r ≡ some s
    → receive r b ≡ (record b { heap = set b.heap r (receive_from s).0 }, (receive_from s).1)
unfolding receive
receive_form r b s g = rw (g, receive)

pub receive_missing : (r : ℕ) (b : Broker) → get_elem? b.heap r ≡ none → receive r b ≡ (b, nothing)
unfolding receive
receive_missing r b g = rw (g, receive)

pub close_subscription-heap :
    (r : ℕ) (b : Broker) (s : Subscription)
    → get_elem? b.heap r ≡ some s
    → (close_subscription r b).heap ≡ set b.heap r (close_queue true s)
unfolding close_subscription
close_subscription-heap r b s g = rw (g, close_subscription)

pub close_subscription_missing :
    (r : ℕ) (b : Broker) → get_elem? b.heap r ≡ none → close_subscription r b ≡ b
unfolding close_subscription
close_subscription_missing r b g = rw (g, close_subscription)

close_queue_keeps :
    (s : Subscription)
    → ((close_queue true s).events ≡ s.events) × ((close_queue true s).topic ≡ s.topic)
unfolding close_queue
close_queue_keeps s = ground arith

close_queue_drops :
    (s : Subscription)
    → (((close_queue false s).events ≡ s.events) ⊎ ((close_queue false s).events ≡ []))
      × ((close_queue false s).topic ≡ s.topic)
unfolding close_queue
close_queue_drops s = ground arith

receive_from-taken :
    (s : Subscription)
    → (taken (receive_from s).1 ++ (receive_from s).0.events ≡ s.events)
      × ((receive_from s).0.topic ≡ s.topic)
unfolding receive_from
receive_from-taken s = ground arith

module _ (r : ℕ) (b : Broker) (s : Subscription) (g : get_elem? b.heap r ≡ some s) where
  another_reads-Becomes : (q : ℕ) → q ≢ r → Becomes (receive q b).0.heap r s [] []
  another_reads-Becomes q n = elim (Option-cases (get_elem? b.heap q)) [
    | inl e ↦ rw (receive_missing q b e) (unchanged b.heap r s [] g)
    | inr (t, e) ↦
        rw (receive_form q b t e)
          (unchanged _ r s [] (get_elem?-set_ne b.heap q r (receive_from t).0 n ∙ g))
  ]

  reads-Becomes : Becomes (receive r b).0.heap r s [] (taken (receive r b).1)
  reads-Becomes =
      let (order, topic) = receive_from-taken s in
      rw (receive_form r b s g) (record {
        after = (receive_from s).0;
        found = get_elem?-set_self b.heap r (receive_from s).0 (get_elem?-lt b.heap r s g);
        same_topic = topic;
        in_order = rw (order, append-nil s.events) (Sublistᴰ.refl s.events);
      })

  subscribes-Becomes : (t : Text) → Becomes (subscribe t b).0.heap r s [] []
  subscribes-Becomes t = unchanged _ r s [] (subscribe_older t b r s g)

  closes_subscription-Becomes : (q : ℕ) → Becomes (close_subscription q b).heap r s [] []
  closes_subscription-Becomes q = elim (Option-cases (get_elem? b.heap q)) [
    | inl e ↦ rw (close_subscription_missing q b e) (unchanged b.heap r s [] g)
    | inr (t, e) ↦ elim (Bool-cases (nat_eq q r)) [
      | inl same ↦
          let e1 : q ≡ r = (nat_eq_iff q r).0 same in
          let (events, topic) = close_queue_keeps s in
          record {
            after = close_queue true s;
            found =
                subst (λ x. get_elem? (close_subscription x b).heap r ≡ some (close_queue true s))
                  (sym e1)
                  (rw (close_subscription-heap r b s g)
                    (get_elem?-set_self b.heap r (close_queue true s) (get_elem?-lt b.heap r s g)));
            same_topic = topic;
            in_order = rw (events, append-nil s.events) (Sublistᴰ.refl s.events);
          }
      | inr other ↦ rw (close_subscription-heap q b t e) (
          unchanged _ r s [] (
            get_elem?-set_ne b.heap q r (close_queue true t) (λ x. cc (other, (nat_eq_iff q r).1 x))
            ∙ g))
    ]
  ]

  closes-Becomes : (c : Choices) → IsRange c → IsSound b → Becomes (close c b).heap r s [] []
  closes-Becomes c range sound = elim (Bool-cases b.closed) [
    | inl k ↦ rw (close_done c b k) (unchanged b.heap r s [] g)
    | inr live ↦
        let (events, topic) = close_queue_drops s in
        record {
          after = close_queue false s;
          found = close_queues c b r s range sound live g;
          same_topic = topic;
          in_order = rw (append-nil s.events) (elim events [
            | inl k ↦ rw k (Sublistᴰ.refl s.events)
            | inr k ↦ rw k (Sublistᴰ.nil-sublist s.events)
          ]);
        }
  ]

joins :
    (queue taken_so_far read queue' queue'' offers offer : List Event)
    → Sublistᴰ (taken_so_far ++ queue') (queue ++ offers)
    → Sublistᴰ (read ++ queue'') (queue' ++ offer)
    → Sublistᴰ ((taken_so_far ++ read) ++ queue'') (queue ++ (offers ++ offer))
joins queue taken_so_far read queue' queue'' offers offer one two =
    let first : Sublistᴰ (taken_so_far ++ (read ++ queue'')) (taken_so_far ++ (queue' ++ offer)) =
      Sublistᴰ.append (Sublistᴰ.refl taken_so_far) two in
    let second : Sublistᴰ (taken_so_far ++ queue' ++ offer) (queue ++ offers ++ offer) =
      Sublistᴰ.append one (Sublistᴰ.refl offer) in
    rw (append_assoc taken_so_far read queue'', ← append_assoc queue offers offer)
      (Sublistᴰ.trans first (rw (← append_assoc taken_so_far queue' offer) second))

Call-Becomes :
    {r : ℕ} {topic : Text} {b b' : Broker} {offer read : List Event} (s : Subscription)
    → Call r topic b offer read b'
    → IsSound b
    → get_elem? b.heap r ≡ some s
    → s.topic ≡ topic
    → Becomes b'.heap r s offer read × IsSound b'
Call-Becomes {r} {topic} {b} s (publishes c context e range) sound g t = (
  subst
      (λ x.
        Becomes (publish_with_result c context e b).0.heap r s
          (offered x e (publish_with_result c context e b).1) [])
      t (called c context e b _ _ range sound (publish_with_result-Outcome c context e b) r s g),
  publish-IsSound c context e b range sound,
)
Call-Becomes {r} {topic} {b} s reads sound g t = (reads-Becomes r b s g, receive-IsSound r b sound)
Call-Becomes {r} {topic} {b} s (another_reads q n) sound g t =
    (another_reads-Becomes r b s g q n, receive-IsSound q b sound)
Call-Becomes {r} {topic} {b} s (subscribes u few) sound g t =
    (subscribes-Becomes r b s g u, subscribe-IsSound u b few sound)
Call-Becomes {r} {topic} {b} s (closes_subscription q) sound g t =
    (closes_subscription-Becomes r b s g q, close_subscription-IsSound q b sound)
Call-Becomes {r} {topic} {b} s begins_shutdown sound g t =
    (unchanged _ r s [] (unfold begin_shutdown in g), begin_shutdown-IsSound b sound)
Call-Becomes {r} {topic} {b} s (closes c range) sound g t =
    (closes-Becomes r b s g c range sound, close-IsSound c b range sound)

-- Over any history of calls on a sound broker, what the reader of a subscription has taken, followed
-- by what still waits in its queue, is a subsequence of what waited at the start followed by the
-- events that calls offered to its topic, those left out that the reply called duplicates, in the
-- order of the calls; and the broker is sound at the end.
pub reads_in_order :
    {r : ℕ} {topic : Text} {b b' : Broker} {offers reads' : List Event} (s : Subscription)
    → Calls r topic b offers reads' b'
    → IsSound b
    → get_elem? b.heap r ≡ some s
    → s.topic ≡ topic
    → Becomes b'.heap r s offers reads' × IsSound b'
reads_in_order {r} {b = b} s no_calls sound g t = (unchanged b.heap r s [] g, sound)
reads_in_order s
      (and_then {offers = offers} {offer = offer} {reads = taken_so_far} {read = read} calls call)
      sound g t =
    let (one, sound1) = reads_in_order s calls sound g t in
    let (two, sound2) = Call-Becomes one.after call sound1 one.found (one.same_topic ∙ t) in
    (
      record {
        after = two.after;
        found = two.found;
        same_topic = two.same_topic ∙ one.same_topic;
        in_order =
            joins s.events taken_so_far read one.after.events two.after.events offers offer
              one.in_order two.in_order;
      },
      sound2,
    )
