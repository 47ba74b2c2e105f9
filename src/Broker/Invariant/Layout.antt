-- ===== src/Broker/Invariant/Layout.antt =====
-- The topics and the subscriptions go on fitting together when one subscription comes or goes.
use mathlib.Core.Option.{some-injective}
use native.Mathlib.Nat.{zero-add}
use distributed_event_bus.Prelude.{
  ℕ, zero, suc, ◌+◌, ◌≡◌, ◌≢◌, refl, sym, ap, ◌∙◌, subst, true, false, ◌||◌, List, [], ◌∷◌, ◌++◌,
  Text, Option, none, some, length, set, get_elem?, All, Map, lookup, insert, delete, contains,
  nat_key, nat_eq, nat_eq_iff, text_key, text_eq, text_eq_iff, arith, if◌then◌else◌, ◌==◌,
  Bool-cases, ◌⊎◌, inl, inr, Distinct-keys-insert, length-append, length-set, get_elem?-set_ne,
  get_elem?-set_self, contains-append, lookup-delete, lookup-insert,
}
use distributed_event_bus.Broker.State.{at}
use distributed_event_bus.Broker.MemoryLaws.{at-insert}
use distributed_event_bus.Broker.Subscription.{unregister}
use distributed_event_bus.Broker.Publish.{refs}
use distributed_event_bus.Broker.Invariant.Defs.{Standing, IsEntry, IsTopic, NumberedFrom, IsLayout}
use distributed_event_bus.Broker.Invariant.Standings.{get_elem?-append_end, get_elem?-lt}
use distributed_event_bus.Broker.Invariant.Topics.{
  Subscribers-at, routes-append, routes-insert, refs-insert_fresh,
}
use distributed_event_bus.Broker.Invariant.Unregister.{routes-unregister, Distinct-keys-unregister}

NumberedFrom-append :
    (n : ℕ) (ss : List Standing) (x : Standing)
    → NumberedFrom n ss
    → x.id ≡ suc (n + length ss)
    → NumberedFrom n (ss ++ (x ∷ []))
NumberedFrom-append n [] x h e = (omega arith, tt)
NumberedFrom-append n (s ∷ ss) x h e = (h.0, NumberedFrom-append (suc n) ss x h.1 (omega arith))

pub NumberedFrom-get :
    (n : ℕ) (ss : List Standing) (r : ℕ) (x : Standing)
    → NumberedFrom n ss
    → get_elem? ss r ≡ some x
    → x.id ≡ suc (n + r)
NumberedFrom-get n [] r x h e = absurd (cc)
NumberedFrom-get n (s ∷ ss) zero x h e = ground arith
NumberedFrom-get n (s ∷ ss) (suc r) x h e = omega (arith, NumberedFrom-get (suc n) ss r x h.1 e)

pub NumberedFrom-set :
    (n : ℕ) (ss : List Standing) (r : ℕ) (x y : Standing)
    → NumberedFrom n ss
    → get_elem? ss r ≡ some x
    → y.id ≡ x.id
    → NumberedFrom n (set ss r y)
NumberedFrom-set n [] r x y h e q = tt
NumberedFrom-set n (s ∷ ss) zero x y h e q = (ground arith, h.1)
NumberedFrom-set n (s ∷ ss) (suc r) x y h e q = (h.0, NumberedFrom-set (suc n) ss r x y h.1 e q)

get_elem?-append_one {ℓ} :
    {A : Type ℓ} (xs : List A) (x : A) (r : ℕ) (a : A)
    → get_elem? (xs ++ (x ∷ [])) r ≡ some a
    → (get_elem? xs r ≡ some a) ⊎ ((r ≡ length xs) × (x ≡ a))
get_elem?-append_one [] x zero a h = inr (refl, ground arith)
get_elem?-append_one [] x (suc r) a h = absurd (cc)
get_elem?-append_one (y ∷ ys) x zero a h = inl h
get_elem?-append_one (y ∷ ys) x (suc r) a h = elim (get_elem?-append_one ys x r a h) [
  | inl e ↦ inl e
  | inr (e, q) ↦ inr (ap suc e, q)
]

-- Where a reference is listed once the entry for `n` is in.
entered :
    (ss : List Standing) (topics : Map Text (Map ℕ ℕ)) (topic t : Text) (r : ℕ)
    → All (IsTopic ss) topics
    → let n = length ss in
      contains r (refs (at t (insert topic (insert (suc n) n (at topic topics)) topics))) ≡ (
        if text_eq topic t
        then contains r (refs (at topic topics)) || nat_eq n r
        else contains r (refs (at t topics)))
entered ss topics topic t r h = elim (Bool-cases (text_eq topic t)) [
  | inl same ↦
      rw
        (
          at-insert topic t (insert (suc (length ss)) (length ss) (at topic topics)) topics,
          same,
          (refs-insert_fresh ss topic (length ss) (at topic topics) (omega arith)
              (Subscribers-at ss topic topics h).0).0,
          contains-append r (refs (at topic topics)) (length ss ∷ []),
        )
        (unfold contains in ground arith)
  | inr other ↦
      rw (at-insert topic t (insert (suc (length ss)) (length ss) (at topic topics)) topics, other)
]

-- A new subscription of `topic`, which takes the next ID.
pub IsLayout-subscribe :
    (ss : List Standing) (topics : Map Text (Map ℕ ℕ)) (sequence : ℕ) (topic : Text)
    → IsLayout ss topics sequence
    → let n = length ss in
      IsLayout
        (ss ++ (record { topic = topic; id = suc n; closed = false } ∷ []))
        (insert topic (insert (suc n) n (at topic topics)) topics)
        (suc n)
IsLayout-subscribe ss topics sequence topic l = record {
  routes =
      routes-insert ss (ss ++ (x ∷ [])) topic n topics (omega arith) l.routes
        (routes-append ss x topics l.routes) (get_elem?-append_end ss x);
  topics_once = Distinct-keys-insert topic _ topics l.topics_once;
  ids = NumberedFrom-append 0 ss x l.ids (omega arith);
  sequence_counts = omega (arith, length-append ss (x ∷ []), l.sequence_counts);
  complete = listed;
}
  where
    n : ℕ
    n = length ss

    x : Standing
    x = record { topic = topic; id = suc n; closed = false }

    listed :
        (r : ℕ) (t : Text) (id : ℕ)
        → get_elem? (ss ++ (x ∷ [])) r ≡ some (record { topic = t; id = id; closed = false })
        → contains r (refs (at t (insert topic (insert (suc n) n (at topic topics)) topics))) ≡ true
    listed r t id h =
        rw (entered ss topics topic t r l.routes) (elim (get_elem?-append_one ss x r _ h) [
          | inl old ↦ elim (Bool-cases (text_eq topic t)) [
            | inl same ↦
                rw (same, (text_eq_iff topic t).0 same) (ground (arith, l.complete r t id old))
            | inr other ↦ rw other (l.complete r t id old)
          ]
          | inr (e, q) ↦ ground (arith, e, q, text_eq_iff topic t, nat_eq_iff n r)
        ])

contains-refs-delete_ne :
    (ss : List Standing) (topic : Text) (r q : ℕ) (subs : Map ℕ ℕ)
    → All (IsEntry ss topic) subs
    → q ≢ r
    → contains q (refs (delete (suc r) subs)) ≡ contains q (refs subs)
unfolding delete contains
contains-refs-delete_ne ss topic r q [] h n = refl
contains-refs-delete_ne ss topic r q ((id, x) ∷ subs) h n =
    let number : id ≡ suc x = h.0.numbered in
    ground (
      arith,
      number,
      nat_eq_iff id (suc r),
      nat_eq_iff x q,
      contains-refs-delete_ne ss topic r q subs h.1 n,
    )

length_zero {ℓ} : {A : Type ℓ} (xs : List A) → length xs ≡ 0 → xs ≡ []
length_zero [] h = refl
length_zero (x ∷ xs) h = absurd (omega arith)

pub at-unregister :
    (topic t : Text) (id : ℕ) (topics : Map Text (Map ℕ ℕ))
    → at t (unregister topic id topics)
      ≡ (if text_eq topic t then delete id (at topic topics) else at t topics)
unfolding unregister
at-unregister topic t id topics = found (lookup topic topics) refl
  where
    found :
        (o : Option (Map ℕ ℕ))
        → lookup topic topics ≡ o
        → at t (unregister topic id topics)
          ≡ (if text_eq topic t then delete id (at topic topics) else at t topics)
    found none e = rw (e, unregister) (unfold delete in ground (arith, e, text_eq_iff topic t))
    found (some subs) e = elim (Bool-cases (length (delete id subs) == 0)) [
      | inl empty ↦
          rw (e, unregister)
            (rw empty (ground (arith, lookup-delete topic t topics, length_zero (delete id subs))))
      | inr more ↦
          rw (e, unregister)
            (rw more (ground (arith, lookup-insert topic t (delete id subs) topics)))
    ]

-- Closing one subscription leaves every other listed.
listed-unregister :
    (ss : List Standing) (topics : Map Text (Map ℕ ℕ)) (topic t : Text) (r q : ℕ)
    → All (IsTopic ss) topics
    → q ≢ r
    → contains q (refs (at t topics)) ≡ true
    → contains q (refs (at t (unregister topic (suc r) topics))) ≡ true
listed-unregister ss topics topic t r q h n c =
    rw (at-unregister topic t (suc r) topics) (elim (Bool-cases (text_eq topic t)) [
      | inl same ↦
          rw (same, (text_eq_iff topic t).0 same)
            (contains-refs-delete_ne ss t r q (at t topics) (Subscribers-at ss t topics h).0 n ∙ c)
      | inr other ↦ rw other c
    ])

-- The subscription at `r` is closed, or was closed before.
pub IsLayout-unregister :
    (ss : List Standing) (topics : Map Text (Map ℕ ℕ)) (sequence r : ℕ) (x y : Standing)
    → IsLayout ss topics sequence
    → get_elem? ss r ≡ some x
    → y.id ≡ x.id
    → y.closed ≡ true
    → IsLayout (set ss r y) (unregister x.topic x.id topics) sequence
IsLayout-unregister ss topics sequence r x y l g i c =
    rw (NumberedFrom-get 0 ss r x l.ids g, zero-add)
      (record {
        routes =
            routes-unregister ss (set ss r y) r x.topic
              (λ st h. ap (λ (s : Standing). s.topic) (some-injective _ _ (sym h ∙ g)))
              (λ q n. get_elem?-set_ne ss r q y (λ h. n (sym h))) topics l.topics_once l.routes;
        topics_once = Distinct-keys-unregister x.topic (suc r) topics l.topics_once;
        ids = NumberedFrom-set 0 ss r x y l.ids g i;
        sequence_counts = l.sequence_counts ∙ sym (length-set ss r y);
        complete = λ q t id h.
            listed-unregister ss topics x.topic t r q l.routes (apart q t id h) (
              l.complete q t id
                (sym (get_elem?-set_ne ss r q y (λ e. apart q t id h (sym e))) ∙ h));
      })
  where
    apart :
        (q : ℕ) (t : Text) (id : ℕ)
        → get_elem? (set ss r y) q ≡ some (record { topic = t; id = id; closed = false })
        → q ≢ r
    apart q t id h e =
        let here : get_elem? (set ss r y) r ≡ some y =
          get_elem?-set_self ss r y (get_elem?-lt ss r x g) in
        let there : get_elem? (set ss r y) r
            ≡ some (record { topic = t; id = id; closed = false }) =
          subst
            (λ z. get_elem? (set ss r y) z ≡ some (record { topic = t; id = id; closed = false })) e
            h in
        cc (ap (λ (s : Standing). s.closed) (some-injective _ _ (sym here ∙ there)), c)
