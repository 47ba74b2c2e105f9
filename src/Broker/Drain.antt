-- ===== src/Broker/Drain.antt =====
-- `Drain` and its reader.
use distributed_event_bus.Prelude.{
  ℕ, zero, suc, ◌+◌, ◌≤◌, ◌<◌, ◌≡◌, ◌≢◌, refl, ap, ◌∙◌, true, List, [], ◌∷◌, ◌++◌, some, length,
  drop, set, get_elem?, arith, ◌==◌, Bool-cases, inl, inr, get_elem?-set_self, length-drop,
  drop-drop,
}
use distributed_event_bus.Broker.Event.{Event}
use distributed_event_bus.Broker.State.{Broker, Subscription, ContextError}
use distributed_event_bus.Broker.State
use distributed_event_bus.Broker.Subscription.{
  close_queue, close_subscription, receive, receive_from,
}
use distributed_event_bus.Broker.Publish.{
  Wakeup, ticks, context_ends, drained, drain_failed, still_draining, drain, receive_many,
}
use distributed_event_bus.Broker.OrderLaws.{receive_form, close_subscription-heap}
use distributed_event_bus.Broker.Invariant.Standings.{get_elem?-lt}

-- The ticks of a list.
abbrev pub all_ticks : List ℕ → List Wakeup
all_ticks [] = []
all_ticks (n ∷ ns) = ticks n ∷ all_ticks ns

abbrev pub total : List ℕ → ℕ
total [] = 0
total (n ∷ ns) = n + total ns

receive_from-drop :
    (s : Subscription) (es : List Event)
    → s.events ≡ es
    → (receive_from s).0 ≡ record s { events = drop 1 es }
unfolding receive_from
receive_from-drop s [] q = rw q refl
receive_from-drop s (e ∷ rest) q = rw q refl

set-set {ℓ} : {A : Type ℓ} (xs : List A) (i : ℕ) (a b : A) → set (set xs i a) i b ≡ set xs i b
set-set [] i a b = refl
set-set (x ∷ xs) zero a b = refl
set-set (x ∷ xs) (suc i) a b = ap (◌∷◌ x) (set-set xs i a b)

drop_more {ℓ} : {A : Type ℓ} (n : ℕ) (xs : List A) → drop n (drop 1 xs) ≡ drop (suc n) xs
drop_more zero [] = refl
drop_more (suc n) [] = refl
drop_more n (x ∷ xs) = refl

receive_many-suc :
    (n r : ℕ) (b : Broker) → receive_many (suc n) r b ≡ receive_many n r (receive r b).0
unfolding receive_many
receive_many-suc n r b = refl

-- After `n` reads the queue is shorter by `n` events.
pub receive_many-heap :
    (n r : ℕ) (b : Broker) (s : Subscription)
    → get_elem? b.heap r ≡ some s
    → get_elem? (receive_many n r b).heap r ≡ some (record s { events = drop n s.events })
receive_many-heap zero r b s g = unfold receive_many in g
receive_many-heap (suc n) r b s g =
    let s1 : Subscription = record s { events = drop 1 s.events } in
    let here : get_elem? (receive r b).0.heap r ≡ some s1 =
      rw (receive_form r b s g, receive_from-drop s s.events refl)
        (get_elem?-set_self b.heap r s1 (get_elem?-lt b.heap r s g)) in
    rw (receive_many-suc n r b) (
      receive_many-heap n r (receive r b).0 s1 here
      ∙ ap (λ xs. some (record s { events = xs })) (drop_more n s.events))

pub pending-some :
    (r : ℕ) (heap : List Subscription) (s : Subscription)
    → get_elem? heap r ≡ some s
    → State.pending_at heap r ≡ length s.events
unfolding State.pending_at
pending-some r heap s g = rw (g, State.pending_at)

pub drain_now :
    (r : ℕ) (ws : List Wakeup) (b : Broker)
    → State.pending_at b.heap r ≡ 0
    → drain r ws b ≡ (close_subscription r b, drained)
unfolding drain
drain_now r [] b e = rw e
drain_now r (ticks n ∷ ws) b e = rw e
drain_now r (context_ends x ∷ ws) b e = rw e

pub drain_later :
    (r n : ℕ) (ws : List Wakeup) (b : Broker)
    → State.pending_at b.heap r ≢ 0
    → drain r (ticks n ∷ ws) b ≡ drain r ws (receive_many n r b)
unfolding drain
drain_later r n ws b e = ground arith

pub drain_waits :
    (r : ℕ) (b : Broker) → State.pending_at b.heap r ≢ 0 → drain r [] b ≡ (b, still_draining)
unfolding drain
drain_waits r b e = ground arith

pub drain_gives_up :
    (r : ℕ) (x : ContextError) (ws : List Wakeup) (b : Broker)
    → State.pending_at b.heap r ≢ 0
    → drain r (context_ends x ∷ ws) b ≡ (b, drain_failed x)
unfolding drain
drain_gives_up r x ws b e = ground arith

empty_close :
    (r : ℕ) (b : Broker) (s : Subscription)
    → get_elem? b.heap r ≡ some s
    → length s.events ≡ 0
    → get_elem? (close_subscription r b).heap r ≡ some (close_queue true (record s { events = [] }))
unfolding close_queue
empty_close r b s g e =
    rw
      (
        close_subscription-heap r b s g,
        get_elem?-set_self b.heap r (close_queue true s) (get_elem?-lt b.heap r s g),
      )
      (ap (λ xs. some (close_queue true (record s { events = xs }))) (none_left s.events e))
  where
    none_left : (xs : List Event) → length xs ≡ 0 → xs ≡ []
    none_left [] h = refl
    none_left (x ∷ xs) h = absurd (omega arith)

-- `Drain` of a subscription whose reader takes at least as many events as wait, in whatever portions
-- between the ticks, and with no other call in between, returns without an error, and leaves the
-- subscription closed with nothing in its queue.
pub drain_finishes :
    (r : ℕ) (ns : List ℕ) (b : Broker) (s : Subscription)
    → get_elem? b.heap r ≡ some s
    → length s.events ≤ total ns
    → ((drain r (all_ticks ns) b).1 ≡ drained)
      × (get_elem? (drain r (all_ticks ns) b).0.heap r
          ≡ some (close_queue true (record s { events = [] })))
drain_finishes r [] b s g h =
    let e : length s.events ≡ 0 = omega arith in
    rw (drain_now r [] b (pending-some r b.heap s g ∙ e)) (refl, empty_close r b s g e)
drain_finishes r (n ∷ ns) b s g h = elim (Bool-cases (length s.events == 0)) [
  | inl e ↦
      let e' : length s.events ≡ 0 = ground arith in
      rw (drain_now r (ticks n ∷ all_ticks ns) b (pending-some r b.heap s g ∙ e'))
        (refl, empty_close r b s g e')
  | inr e ↦ rw (drain_later r n (all_ticks ns) b (λ x. ground (arith, pending-some r b.heap s g))) (
      drain_finishes r ns (receive_many n r b) (record s { events = drop n s.events })
        (receive_many-heap n r b s g) (omega (arith, length-drop n s.events)))
]

-- `Drain` of a subscription whose reader has taken fewer events than waited when the context ends
-- returns the context's error. The subscription is as it was but for the events that were taken: in
-- particular it is not closed.
pub drain_fails :
    (r : ℕ) (ns : List ℕ) (x : ContextError) (b : Broker) (s : Subscription)
    → get_elem? b.heap r ≡ some s
    → total ns < length s.events
    → let ws = all_ticks ns ++ (context_ends x ∷ []) in
      ((drain r ws b).1 ≡ drain_failed x)
      × (get_elem? (drain r ws b).0.heap r ≡ some (record s { events = drop (total ns) s.events }))
drain_fails r [] x b s g h =
    rw (drain_gives_up r x [] b (λ e. omega (arith, pending-some r b.heap s g))) (refl, g)
drain_fails r (n ∷ ns) x b s g h =
    rw
      (drain_later r n (all_ticks ns ++ (context_ends x ∷ [])) b
        (λ e. omega (arith, pending-some r b.heap s g)))
      (let (p, q) =
          drain_fails r ns x (receive_many n r b) (record s { events = drop n s.events })
            (receive_many-heap n r b s g) (omega (arith, length-drop n s.events)) in
        (p, q ∙ ap (λ xs. some (record s { events = xs })) (drop-drop (total ns) n s.events)))
