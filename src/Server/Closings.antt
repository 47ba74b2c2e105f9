-- ===== src/Server/Closings.antt =====
-- What is open in the broker after subscriptions are closed or drained.
use mathlib.Core.Option.{some-injective}
use distributed_event_bus.Prelude.{
  ℕ, ◌≡◌, ◌≢◌, refl, sym, ap, ◌∙◌, subst, true, false, List, [], ◌∷◌, Text, Option, none, some,
  get_elem?, Map, lookup, contains, nat_key, nat_eq_iff, text_key, arith, contains-Perm,
}
use distributed_event_bus.Broker.State.{Broker}
use distributed_event_bus.Broker.Subscription.{close_subscription}
use distributed_event_bus.Broker.Openness.{IsOpenAt, close_subscription-opens}
use distributed_event_bus.Broker.Invariant.Defs.{IsSound, standings, Standing}
use distributed_event_bus.Broker.Invariant.Calls.{close_subscription-IsSound}
use distributed_event_bus.Server.State.{Connection}
use distributed_event_bus.Server.Requests.{close_old}
use distributed_event_bus.Server.Lifecycle.{subscriptions, close_subscriptions, close_connection}
use distributed_event_bus.Server.Steps.{IsOrder}

pub standings-opens :
    (b b' : Broker) (r : ℕ) (topic : Text)
    → standings b'.heap ≡ standings b.heap
    → IsOpenAt b'.heap r topic
    → IsOpenAt b.heap r topic
standings-opens b b' r topic e o = record {
  open_id = o.open_id;
  stands = ap (λ (x : List Standing). get_elem? x r) (sym e) ∙ o.stands;
}

pub close_old-IsSound : (o : Option ℕ) (b : Broker) → IsSound b → IsSound (close_old o b)
unfolding close_old
close_old-IsSound none b s = s
close_old-IsSound (some q) b s = close_subscription-IsSound q b s

pub close_old-opens :
    (o : Option ℕ) (r : ℕ) (topic : Text) (b : Broker)
    → IsSound b
    → IsOpenAt (close_old o b).heap r topic
    → IsOpenAt b.heap r topic × (o ≢ some r)
unfolding close_old
close_old-opens none r topic b s x = (x, λ e. cc)
close_old-opens (some q) r topic b s x =
    let (before, n) = close_subscription-opens q r topic b s x in
    (before, λ e. n (some-injective _ _ e))

pub close_subscriptions-more :
    (q : ℕ) (qs : List ℕ) (b : Broker)
    → close_subscriptions (q ∷ qs) b ≡ close_subscriptions qs (close_subscription q b)
unfolding close_subscriptions
close_subscriptions-more q qs b = refl

pub close_subscriptions-IsSound :
    (qs : List ℕ) (b : Broker) → IsSound b → IsSound (close_subscriptions qs b)
close_subscriptions-IsSound [] b s = unfold close_subscriptions in s
close_subscriptions-IsSound (q ∷ qs) b s =
    rw (close_subscriptions-more q qs b)
      (close_subscriptions-IsSound qs (close_subscription q b) (close_subscription-IsSound q b s))

pub neither : (q r : ℕ) (qs : List ℕ) → q ≢ r → contains r qs ≡ false → contains r (q ∷ qs) ≡ false
unfolding contains
neither q r qs n h = ground (arith, nat_eq_iff q r)

pub close_subscriptions-opens :
    (qs : List ℕ) (r : ℕ) (topic : Text) (b : Broker)
    → IsSound b
    → IsOpenAt (close_subscriptions qs b).heap r topic
    → IsOpenAt b.heap r topic × (contains r qs ≡ false)
close_subscriptions-opens [] r topic b s x = unfold close_subscriptions contains in (x, refl)
close_subscriptions-opens (q ∷ qs) r topic b s x =
    let (before, n) =
      close_subscriptions-opens qs r topic (close_subscription q b)
        (close_subscription-IsSound q b s)
        (subst (λ (y : Broker). IsOpenAt y.heap r topic) (close_subscriptions-more q qs b) x) in
    let (before', n') = close_subscription-opens q r topic b s before in
    (before', neither q r qs n' n)

-- A subscription of the connection is among those that it closes.
pub lookup-subscriptions :
    (topic : Text) (r : ℕ) (subs : Map Text ℕ)
    → lookup topic subs ≡ some r
    → contains r (subscriptions subs) ≡ true
unfolding lookup contains
lookup-subscriptions topic r [] h = absurd (cc)
lookup-subscriptions topic r ((t, q) ∷ subs) h =
    ground (arith, lookup-subscriptions topic r subs, nat_eq_iff q r)

pub visited-subscriptions :
    (visit : List ℕ → List ℕ) (topic : Text) (r : ℕ) (subs : Map Text ℕ)
    → IsOrder visit
    → lookup topic subs ≡ some r
    → contains r (visit (subscriptions subs)) ≡ true
visited-subscriptions visit topic r subs order h =
    contains-Perm r (visit (subscriptions subs)) (subscriptions subs) (order (subscriptions subs))
    ∙ lookup-subscriptions topic r subs h

pub close_connection_done :
    (visit : List ℕ → List ℕ) (c : Connection) (b : Broker)
    → c.closed ≡ true
    → close_connection visit c b ≡ (c, b)
unfolding close_connection
close_connection_done visit c b h = rw h refl

pub close_connection_form :
    (visit : List ℕ → List ℕ) (c : Connection) (b : Broker)
    → c.closed ≡ false
    → close_connection visit c b ≡ (
      record c { closed = true; subs = []; net_closed = true },
      close_subscriptions (visit (subscriptions c.subs)) b,
    )
unfolding close_connection
close_connection_form visit c b h = rw h refl
