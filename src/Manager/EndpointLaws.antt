-- ===== src/Manager/EndpointLaws.antt =====
-- Which endpoint a manager ends up with.
use distributed_event_bus.Prelude.{
  ℕ, ◌≡◌, refl, sym, ap, ◌∙◌, Bool, true, false, ◌||◌, List, [], ◌∷◌, Text, Option, none, some,
  if◌then◌else◌, text_key, text_eq, text_eq_iff, arith, contains, Distinct, Bool-cases,
  Option-cases, inl, inr, ◌⊎◌, All,
}
use distributed_event_bus.Manager.Endpoints.{
  Manager, others, prefer, Network, subscribe_all, connect_to, connect,
}

contains-others :
    (x endpoint : Text) (es : List Text)
    → contains x (others endpoint es) ≡ (if text_eq endpoint x then false else contains x es)
unfolding contains others
contains-others x endpoint [] = ground arith
contains-others x endpoint (e ∷ es) = ground (
  arith,
  contains-others x endpoint es,
  text_eq_iff endpoint x,
  text_eq_iff e endpoint,
  text_eq_iff e x,
)

Distinct-others : (endpoint : Text) (es : List Text) → Distinct es → Distinct (others endpoint es)
unfolding others
Distinct-others endpoint [] d = tt
Distinct-others endpoint (e ∷ es) d = elim (Bool-cases (text_eq e endpoint)) [
  | inl same ↦ rw same (Distinct-others endpoint es d.1)
  | inr other ↦ rw other (
    ground
        (arith, contains-others e endpoint es, d.0, text_eq_iff endpoint e, text_eq_iff e endpoint),
    Distinct-others endpoint es d.1,
  )
]

-- Every subscription of a client to one of the topics succeeds.
abbrev pub SubscribesTo : Network → ℕ → List Text → Type 0
SubscribesTo n client topics =
    (topic : Text) → contains topic topics ≡ true → n.subscribes client topic ≡ true

-- One of them fails.
pub record Misses (n : Network) (client : ℕ) (topics : List Text) : Type 0 where
  pub missed : Text
  pub wanted : contains missed topics ≡ true
  pub rejects : n.subscribes client missed ≡ false

subscribe_all-SubscribesTo :
    (n : Network) (client : ℕ) (topics : List Text)
    → subscribe_all n client topics ≡ true
    → SubscribesTo n client topics
unfolding subscribe_all contains
subscribe_all-SubscribesTo n client [] h topic q = absurd (cc)
subscribe_all-SubscribesTo n client (t ∷ topics) h topic q = elim (Bool-cases (text_eq t topic)) [
  | inl same ↦
      ap (n.subscribes client) (sym ((text_eq_iff t topic).0 same))
      ∙ (elim (Bool-cases (n.subscribes client t)) [
        | inl good ↦ good
        | inr bad ↦ absurd (ground arith)
      ])
  | inr other ↦ subscribe_all-SubscribesTo n client topics (ground arith) topic (ground arith)
]

pub SubscribesTo-subscribe_all :
    (n : Network) (client : ℕ) (topics : List Text)
    → SubscribesTo n client topics
    → subscribe_all n client topics ≡ true
unfolding subscribe_all contains
SubscribesTo-subscribe_all n client [] h = refl
SubscribesTo-subscribe_all n client (t ∷ topics) h =
    let more = SubscribesTo-subscribe_all n client topics (λ topic q. h topic (ground arith)) in
    let here = h t (ground (arith, text_eq_iff t t)) in rw here more

subscribe_all-Misses :
    (n : Network) (client : ℕ) (topics : List Text)
    → subscribe_all n client topics ≡ false
    → Misses n client topics
unfolding subscribe_all contains
subscribe_all-Misses n client [] h = absurd (cc)
subscribe_all-Misses n client (t ∷ topics) h = elim (Bool-cases (n.subscribes client t)) [
  | inl good ↦
      let k = subscribe_all-Misses n client topics (ground arith) in
      record { missed = k.missed; wanted = ground (arith, k.wanted); rejects = k.rejects }
  | inr bad ↦ record { missed = t; wanted = ground (arith, text_eq_iff t t); rejects = bad }
]

Misses-subscribe_all :
    (n : Network) (client : ℕ) (topics : List Text)
    → Misses n client topics
    → subscribe_all n client topics ≡ false
Misses-subscribe_all n client topics k = elim (Bool-cases (subscribe_all n client topics)) [
  | inl good ↦
      absurd (cc (subscribe_all-SubscribesTo n client topics good k.missed k.wanted, k.rejects))
  | inr bad ↦ bad
]

-- An endpoint that offers no working connection: it cannot be dialled, or a subscription fails on it.
abbrev pub Fails : Network → List Text → Text → Type 0
Fails n topics endpoint =
    (n.dials endpoint ≡ none)
    ⊎ ((client : ℕ) × (n.dials endpoint ≡ some client) × Misses n client (n.visit topics))

-- The first endpoint that works, with its client.
pub data Chosen (n : Network) (topics : List Text) : List Text → ℕ → Type 0 where
  this_one :
      {endpoint : Text} {es : List Text} {client : ℕ}
      → n.dials endpoint ≡ some client
      → SubscribesTo n client (n.visit topics)
      → Chosen n topics (endpoint ∷ es) client
  a_later_one :
      {endpoint : Text} {es : List Text} {client : ℕ}
      → Fails n topics endpoint
      → Chosen n topics es client
      → Chosen n topics (endpoint ∷ es) client

pub connect_to_works :
    (n : Network) (endpoint : Text) (es : List Text) (m : Manager) (client : ℕ)
    → n.dials endpoint ≡ some client
    → subscribe_all n client (n.visit m.topics) ≡ true
    → connect_to n (endpoint ∷ es) m ≡ (record m { current = some client }, true)
unfolding connect_to
connect_to_works n endpoint es m client d s = rw (d, connect_to) (rw s)

connect_to-Fails :
    (n : Network) (endpoint : Text) (es : List Text) (m : Manager)
    → Fails n m.topics endpoint
    → (c : Option ℕ) × (connect_to n (endpoint ∷ es) m ≡ connect_to n es (record m { current = c }))
unfolding connect_to
connect_to-Fails n endpoint es m (inl d) = (m.current, rw (d, connect_to))
connect_to-Fails n endpoint es m (inr (client, d, s)) =
    (none, rw (d, connect_to) (rw (Misses-subscribe_all n client (n.visit m.topics) s)))

-- How the loop ends.
abbrev pub Connects : Network → List Text → Manager → Manager × Bool → Type 0
Connects n es m r =
    ((client : ℕ) × Chosen n m.topics es client × (r ≡ (record m { current = some client }, true)))
    ⊎ (All (Fails n m.topics) es × (c : Option ℕ) × (r ≡ (record m { current = c }, false)))

connect_to-Connects :
    (n : Network) (es : List Text) (m : Manager) → Connects n es m (connect_to n es m)
connect_to-Connects n [] m = inr (tt, m.current, unfold connect_to in refl)
connect_to-Connects n (endpoint ∷ es) m = elim (Option-cases (n.dials endpoint)) [
  | inl d ↦ later (inl d) (λ c. connect_to-Connects n es (record m { current = c }))
  | inr (client, d) ↦ elim (Bool-cases (subscribe_all n client (n.visit m.topics))) [
    | inl s ↦ inl (
      client,
      this_one d (subscribe_all-SubscribesTo n client (n.visit m.topics) s),
      connect_to_works n endpoint es m client d s,
    )
    | inr s ↦
        later (inr (client, d, subscribe_all-Misses n client (n.visit m.topics) s))
          (λ c. connect_to-Connects n es (record m { current = c }))
  ]
]
  where
    later :
        Fails n m.topics endpoint
        → ((c : Option ℕ)
            → Connects n es (record m { current = c }) (connect_to n es (record m { current = c })))
        → Connects n (endpoint ∷ es) m (connect_to n (endpoint ∷ es) m)
    later f ih =
        let (c, q) = connect_to-Fails n endpoint es m f in
        elim (ih c) [
          | inl (client, chosen, e) ↦ inl (client, a_later_one f chosen, q ∙ e)
          | inr (all, c', e) ↦ inr ((f, all), c', q ∙ e)
        ]

-- `connect` finds the first endpoint, in the manager's order, that can be dialled and on which every
-- subscription succeeds, and makes its client the current one; or else every endpoint fails, and it
-- reports that no broker is available. It changes nothing but the current client.
pub connect-Connects : (n : Network) (m : Manager) → Connects n m.endpoints m (connect n m)
unfolding connect
connect-Connects n m = connect_to-Connects n m.endpoints m

-- `prefer` puts an endpoint first, known or not, in a manager that knows no endpoint twice: the
-- manager then knows that endpoint and those that it knew, and again none twice. Where that endpoint
-- can be dialled and every subscription on it succeeds, the next `connect` chooses it.
pub prefer_first :
    (n : Network) (m : Manager) (endpoint x : Text) (client : ℕ)
    → Distinct m.endpoints
    → n.dials endpoint ≡ some client
    → SubscribesTo n client (n.visit m.topics)
    → let m' = prefer endpoint m in
      (contains x m'.endpoints ≡ (text_eq endpoint x || contains x m.endpoints))
      × Distinct m'.endpoints
      × (connect n m' ≡ (record m' { current = some client }, true))
unfolding prefer connect contains
prefer_first n m endpoint x client d dialled s = (
  ground (arith, contains-others x endpoint m.endpoints),
  (
    ground (arith, contains-others endpoint endpoint m.endpoints, text_eq_iff endpoint endpoint),
    Distinct-others endpoint m.endpoints d,
  ),
  connect_to_works n endpoint (others endpoint m.endpoints)
      (record m { endpoints = endpoint ∷ others endpoint m.endpoints }) client dialled
      (SubscribesTo-subscribe_all n client (n.visit m.topics) s),
)
