-- ===== src/Broker/InterleavingLaws.antt =====
-- What holds however publishes and other calls are interleaved, and what does not.
use distributed_event_bus.Prelude.{
  ℕ, ◌+◌, ◌≤◌, ◌<◌, ◌≡◌, refl, sym, ap, ◌∙◌, subst, Bool, false, List, [], ◌∷◌, ◌++◌, Option, none,
  some, length, set, get_elem?, All, arith, get_elem?-set_self, length-append, append_assoc,
  text_key,
}
use distributed_event_bus.Broker.Event.{Event, event_key}
use distributed_event_bus.Broker.State.{
  Broker, Subscription, Config, Error, ContextError, new, BackpressurePolicy,
}
use distributed_event_bus.Broker.Memory.{remember}
use distributed_event_bus.Broker.Subscription.{enqueue, queued, push}
use distributed_event_bus.Broker.Publish.{
  Choices, PublishResult, published, Admission, returns, fans_out, admit, fan_out,
  publish_with_result, FanOut, all_queued, replies, Reply,
}
use distributed_event_bus.Broker.Invariant.Defs.{IsQueue, IsSound, IsRange, standings}
use distributed_event_bus.Broker.Invariant.Calls.{
  new-IsSound, publish-IsSound, fan_out-queues, with_heap-IsSound, remember-IsSound,
}
use distributed_event_bus.Broker.PublishLaws.{remember_only}
use distributed_event_bus.Broker.Invariant.Standings.{get_elem?-lt}
use distributed_event_bus.Broker.Reach.{Step-IsSound}
use distributed_event_bus.Broker.Interleaving.{
  Place, enters, in_loop, ended, Call, System, move, admitted, remembered, Stands, Step, admits,
  enqueues, stops, remembers, meanwhile, Steps, no_steps, and_then,
}

publish_returns :
    (c : Choices) (context : Option ContextError) (event : Event) (b b' : Broker)
    (result : PublishResult) (failure : Option Error)
    → admit c event b ≡ returns result failure b'
    → publish_with_result c context event b ≡ (b', replies result failure)
unfolding publish_with_result
publish_returns c context event b b' result failure h = rw (h, publish_with_result) refl

admitted-IsSound :
    (c : Choices) (i : ℕ) (event : Event) (s : System) (a : Admission)
    → IsRange c
    → IsSound s.broker
    → admit c event s.broker ≡ a
    → IsSound (admitted i event a s).broker
unfolding admitted
admitted-IsSound c i event s (returns result failure b') range sound h =
    subst IsSound
      (ap (λ (x : Broker × Reply). x.0) (publish_returns c none event s.broker b' result failure h))
      (publish-IsSound c none event s.broker range sound)
admitted-IsSound c i event s (fans_out subscribers) range sound h = sound

fan_out_one :
    (c : Choices) (context : Option ContextError) (policy : BackpressurePolicy) (event : Event)
    (r : ℕ) (heap : List Subscription) (sub sub' : Subscription)
    → get_elem? heap r ≡ some sub
    → enqueue (c.take_context r) context policy event sub ≡ queued sub'
    → fan_out c context policy event (r ∷ []) heap ≡ (set heap r sub', all_queued)
unfolding fan_out
fan_out_one c context policy event r heap sub sub' g q = rw (g, fan_out) (rw (q, fan_out) refl)

Step-IsSound' : {s s' : System} → Step s s' → IsSound s.broker → IsSound s'.broker
Step-IsSound' {s} (admits c i event range at) sound =
    admitted-IsSound c i event s (admit c event s.broker) range sound refl
Step-IsSound' {s} (enqueues c context i event r rs sub sub' at g q) sound =
    let (queues, same) =
      fan_out-queues c context s.broker.config.backpressure event (r ∷ [])
        s.broker.config.queue_size s.broker.heap sound.queues in
    let one =
      fan_out_one c context s.broker.config.backpressure event r s.broker.heap sub sub' g q in
    let heap = ap (λ (x : List Subscription × FanOut). x.0) one in
    with_heap-IsSound s.broker (set s.broker.heap r sub') sound
      (subst (All (IsQueue s.broker.config.queue_size)) heap queues)
      (ap standings (sym heap) ∙ same)
Step-IsSound' (stops c context i event r rs sub e at g q) sound = sound
Step-IsSound' {s} (remembers c i event range at) sound =
    unfold remembered in remember-IsSound c event.topic (event_key event) s.broker range sound
Step-IsSound' (meanwhile st) sound = Step-IsSound st sound

Steps-IsSound : {s s' : System} → Steps s s' → IsSound s.broker → IsSound s'.broker
Steps-IsSound no_steps sound = sound
Steps-IsSound (and_then steps st) sound = Step-IsSound' st (Steps-IsSound steps sound)

pub Steps-append : {s s' s'' : System} → Steps s s' → Steps s' s'' → Steps s s''
Steps-append steps no_steps = steps
Steps-append steps (and_then more st) = and_then (Steps-append steps more) st

-- However many publishes run at the same time on a new broker, each in its parts, and whichever other
-- calls run between those parts, as long as fewer than 2 ^ 64 - 1 subscriptions are made: the broker is
-- sound. Its queues, cached lists and sets of keys are within their limits, and its topics lead to the
-- open subscriptions and to no others.
pub interleaved-IsSound :
    (config : Config) {calls : List Call} {s : System}
    → Steps (record { broker = new config; calls = calls }) s
    → IsSound s.broker
interleaved-IsSound config steps = Steps-IsSound steps (new-IsSound config)

enqueue_room :
    (take_context : Bool) (policy : BackpressurePolicy) (event : Event) (sub : Subscription)
    → sub.closed ≡ false
    → sub.done_closed ≡ false
    → length sub.events < sub.capacity
    → enqueue take_context none policy event sub ≡ queued (push event sub)
unfolding enqueue
enqueue_room take_context policy event sub live open' room = ground arith

admitted_in :
    (c : Choices) (i : ℕ) (event : Event) (subscribers : List ℕ) (s : System)
    → IsRange c
    → Stands s i event enters
    → admit c event s.broker ≡ fans_out subscribers
    → Step s (move i event (in_loop subscribers) s.broker s)
unfolding admitted
admitted_in c i event subscribers s range at h =
    subst (Step s) (ap (λ a. admitted i event a s) h) (admits c i event range at)

-- Two publishes that find the same open subscription, with room for two events in its queue, can run so
-- that both pass the test of the key before either has stored it, even with one key: then both return
-- published with no error, and both events are in the queue.
pub both_published :
    (c : Choices) (e e' : Event) (b : Broker) (r : ℕ) (sub : Subscription)
    → IsRange c
    → admit c e b ≡ fans_out (r ∷ [])
    → admit c e' b ≡ fans_out (r ∷ [])
    → get_elem? b.heap r ≡ some sub
    → sub.closed ≡ false
    → sub.done_closed ≡ false
    → length sub.events + 2 ≤ sub.capacity
    → (s : System) × Steps
        (record {
          broker = b;
          calls = record { event = e; place = enters } ∷ record { event = e'; place = enters } ∷ [];
        })
        s
      × (get_elem? s.broker.heap r ≡ some (record sub { events = sub.events ++ (e ∷ e' ∷ []) }))
      × (s.calls
          ≡ record { event = e; place = ended published none }
            ∷ record { event = e'; place = ended published none }
            ∷ [])
both_published c e e' b r sub range h h' g live open' room =
    let first = push e sub in
    let b1 : Broker = record b { heap = set b.heap r first } in
    let b2 : Broker = record b { heap = set b1.heap r (push e' first) } in
    let call : Event → Place → Call = λ x p. record { event = x; place = p } in
    let s0 : System = record { broker = b; calls = call e enters ∷ call e' enters ∷ [] } in
    let s1 : System = move 0 e (in_loop (r ∷ [])) b s0 in
    let s2 : System = move 1 e' (in_loop (r ∷ [])) b s1 in
    let s3 : System = move 0 e (in_loop []) b1 s2 in
    let s4 : System = move 1 e' (in_loop []) b2 s3 in
    let found : get_elem? b1.heap r ≡ some first =
      get_elem?-set_self b.heap r first (get_elem?-lt b.heap r sub g) in
    let steps : Steps s0 s4 =
      and_then
        (and_then
          (and_then
            (and_then no_steps (admitted_in c 0 e (r ∷ []) s0 range (record { at = refl }) h))
            (admitted_in c 1 e' (r ∷ []) s1 range (record { at = refl }) h'))
          (enqueues c none 0 e r [] sub first (record { at = refl }) g
            (enqueue_room (c.take_context r) b.config.backpressure e sub live open' (omega arith))))
        (enqueues c none 1 e' r [] first (push e' first) (record { at = refl }) found
          (enqueue_room (c.take_context r) b.config.backpressure e' first live open'
            (omega (arith, length-append sub.events (e ∷ []))))) in
    let s5 : System = remembered c 0 e s4 in
    let kept : (x : Event) (b0 : Broker)
        → (remember c.victims x.topic (event_key x) b0).heap ≡ b0.heap =
      λ x b0. ap (λ (y : Broker). y.heap) (remember_only c.victims x.topic (event_key x) b0) in
    (
      remembered c 1 e' s5,
      and_then (and_then steps (remembers c 0 e range (record { at = refl })))
          (remembers c 1 e' range (unfold remembered in record { at = refl })),
      unfold remembered in
          (ap (λ hs. get_elem? hs r)
              (kept e' (remember c.victims e.topic (event_key e) b2) ∙ kept e b2)
            ∙ get_elem?-set_self b1.heap r (push e' first) (get_elem?-lt b1.heap r first found)
            ∙ ap (λ xs. some (record sub { events = xs }))
                (append_assoc sub.events (e ∷ []) (e' ∷ []))),
      unfold remembered in refl,
    )
