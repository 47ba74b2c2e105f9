-- ===== src/Broker/SubscribeLaws.antt =====
-- What a new subscription starts with.
use distributed_event_bus.Prelude.{
  ℕ, ◌+◌, ◌%◌, ◌^◌, ◌≡◌, ◌≢◌, refl, ◌∙◌, true, false, List, [], ◌∷◌, ◌++◌, Text, some, ok, err,
  length, take, drop, ltb, get_elem?, Map, insert, delete, text_key, text_eq, text_eq_iff, nat_key,
  arith, if◌then◌else◌, Bool-cases, inl, inr, ◌⊎◌, lookup-delete, drop_all, take_all,
  get_elem?-set_self, get_elem?-set_ne,
}
use distributed_event_bus.Broker.State.{Broker, Subscription, Error, at}
use distributed_event_bus.Broker.MemoryLaws.{at-insert}
use distributed_event_bus.Broker.Subscription.{new_subscription, replay, subscribe}
use distributed_event_bus.Broker.Invariant.Standings.{
  get_elem?-append_end, get_elem?-append_left, get_elem?-lt,
}

length_zero {ℓ} : {A : Type ℓ} (xs : List A) → length xs ≡ 0 → xs ≡ []
length_zero [] h = refl
length_zero (x ∷ xs) h = absurd (omega arith)

at-delete :
    {V : Type 0} (k j : Text) (m : Map Text (List V))
    → at j (delete k m) ≡ (if text_eq k j then [] else at j m)
at-delete k j m = ground (arith, lookup-delete k j m)

-- What the replay does to the cache: the topic keeps what did not fit, other topics keep all.
replay-cache :
    (topic t : Text) (r : ℕ) (s : Subscription) (b : Broker)
    → at t (replay topic r s b).cache
      ≡ (if text_eq topic t then drop s.capacity (at topic b.cache) else at t b.cache)
unfolding replay
replay-cache topic t r s b =
    let cached = at topic b.cache in
    ground (
      arith,
      text_eq_iff topic t,
      drop_all s.capacity cached,
      drop_all (length cached) cached,
      at-delete topic t b.cache,
      at-insert topic t (drop s.capacity cached) b.cache,
      length_zero cached,
    )

-- What it puts into the queue.
replay-queue :
    (topic : Text) (r : ℕ) (s : Subscription) (b : Broker)
    → get_elem? b.heap r ≡ some s
    → s.events ≡ []
    → get_elem? (replay topic r s b).heap r
      ≡ some (record s { events = take s.capacity (at topic b.cache) })
unfolding replay
replay-queue topic r s b g empty =
    let cached = at topic b.cache in
    elim (Bool-cases (ltb s.capacity (length cached))) [
      | inl more ↦ ground (
        arith,
        get_elem?-set_self b.heap r (record s { events = s.events ++ take s.capacity cached }),
        get_elem?-lt b.heap r s g,
      )
      | inr fits ↦ ground (
        arith,
        get_elem?-set_self b.heap r (record s { events = s.events ++ take (length cached) cached }),
        get_elem?-lt b.heap r s g,
        take_all s.capacity cached,
        take_all (length cached) cached,
        length_zero cached,
      )
    ]

replay-older :
    (topic : Text) (r q : ℕ) (s : Subscription) (b : Broker)
    → r ≢ q
    → get_elem? (replay topic r s b).heap q ≡ get_elem? b.heap q
unfolding replay
replay-older topic r q s b n = ground (
  arith,
  get_elem?-set_ne b.heap r q
      (record s {
        events =
            s.events
            ++ take
                (if ltb s.capacity (length (at topic b.cache))
                  then s.capacity
                  else length (at topic b.cache))
                (at topic b.cache);
      })
      n,
)

pub subscribe_form :
    (topic : Text) (b : Broker)
    → b.closed ≡ false
    → b.draining ≡ false
    → let s = new_subscription topic ((b.sequence + 1) % 2 ^ 64) b.config.queue_size in
      subscribe topic b ≡ (
        replay topic (length b.heap) s (record b {
          sequence = (b.sequence + 1) % 2 ^ 64;
          topics =
              insert topic
                (insert ((b.sequence + 1) % 2 ^ 64) (length b.heap) (at topic b.topics))
                b.topics;
          heap = b.heap ++ (s ∷ []);
        }),
        ok (length b.heap),
      )
unfolding subscribe
subscribe_form topic b live open' = ground arith

pub subscribe_refused :
    (topic : Text) (b : Broker)
    → (b.closed ≡ true) ⊎ (b.draining ≡ true)
    → subscribe topic b ≡ (b, err Error.closed)
unfolding subscribe
subscribe_refused topic b h = ground arith

-- On an open broker `Subscribe` succeeds. The new subscription's queue holds the oldest cached events
-- of its topic, as many as fit, in their order; the cache of the topic keeps the others; and the cache
-- of another topic does not change.
pub subscribe_replays :
    (topic t : Text) (b : Broker)
    → b.closed ≡ false
    → b.draining ≡ false
    → let r = length b.heap in
      let size = b.config.queue_size in
      let b' = (subscribe topic b).0 in
      ((subscribe topic b).1 ≡ ok r)
      × (get_elem? b'.heap r
          ≡ some (record (new_subscription topic ((b.sequence + 1) % 2 ^ 64) size) {
            events = take size (at topic b.cache);
          }))
      × (at t b'.cache ≡ (if text_eq topic t then drop size (at topic b.cache) else at t b.cache))
unfolding new_subscription
subscribe_replays topic t b live open' =
    let s = new_subscription topic ((b.sequence + 1) % 2 ^ 64) b.config.queue_size in
    let b1 : Broker = record b {
      sequence = (b.sequence + 1) % 2 ^ 64;
      topics =
          insert topic (insert ((b.sequence + 1) % 2 ^ 64) (length b.heap) (at topic b.topics))
            b.topics;
      heap = b.heap ++ (s ∷ []);
    } in
    rw (subscribe_form topic b live open') (
      refl,
      replay-queue topic (length b.heap) s b1 (get_elem?-append_end b.heap s) refl,
      replay-cache topic t (length b.heap) s b1,
    )

-- `Subscribe` leaves every older subscription as it was, whether it succeeds or not.
pub subscribe_older :
    (topic : Text) (b : Broker) (q : ℕ) (older : Subscription)
    → get_elem? b.heap q ≡ some older
    → get_elem? (subscribe topic b).0.heap q ≡ some older
subscribe_older topic b q older g = elim (Bool-cases b.closed) [
  | inl shut ↦ rw (subscribe_refused topic b (inl shut)) g
  | inr live ↦ elim (Bool-cases b.draining) [
    | inl shut ↦ rw (subscribe_refused topic b (inr shut)) g
    | inr open' ↦
        let s = new_subscription topic ((b.sequence + 1) % 2 ^ 64) b.config.queue_size in
        rw (subscribe_form topic b live open') (
          replay-older topic (length b.heap) q s _
            (λ e. absurd (omega (arith, get_elem?-lt b.heap q older g)))
          ∙ get_elem?-append_left b.heap (s ∷ []) q older g)
  ]
]
