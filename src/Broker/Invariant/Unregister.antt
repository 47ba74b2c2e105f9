-- ===== src/Broker/Invariant/Unregister.antt =====
-- `Subscription.Close` takes the subscription out of the map of topics, and no other.
use distributed_event_bus.Prelude.{
  ℕ, suc, ◌≡◌, ◌≢◌, refl, ap, ◌∙◌, subst, false, List, [], ◌∷◌, Text, Option, none, some, length,
  get_elem?, All, Map, keys, lookup, insert, delete, contains, Distinct, nat_key, nat_eq,
  nat_eq_iff, text_key, text_eq, text_eq_iff, arith, ◌==◌, Bool-cases, inl, inr, lookup-contains,
  Distinct-keys-insert, Distinct-keys-delete, All-lookup,
}
use distributed_event_bus.Broker.Subscription.{unregister}
use distributed_event_bus.Broker.Publish.{refs}
use distributed_event_bus.Broker.Invariant.Defs.{Standing, IsEntry, IsTopic}

-- Only the subscription at `r` may differ between `ss` and `ss'`.
module _ (ss ss' : List Standing) (r : ℕ) (topic : Text)
    (here : (st : Standing) → get_elem? ss r ≡ some st → st.topic ≡ topic)
    (elsewhere : (q : ℕ) → q ≢ r → get_elem? ss' q ≡ get_elem? ss q) where
  -- The entries of the topic but that of the subscription.
  entries-delete :
      (subs : Map ℕ ℕ) → All (IsEntry ss topic) subs → All (IsEntry ss' topic) (delete (suc r) subs)
  unfolding delete
  entries-delete [] h = tt
  entries-delete ((id, q) ∷ subs) h = elim (Bool-cases (nat_eq id (suc r))) [
    | inl same ↦ rw same (entries-delete subs h.1)
    | inr other ↦ rw other (
      record {
        found =
            elsewhere q (λ x. cc ((nat_eq_iff id (suc r)).1 (h.0.numbered ∙ ap suc x), other))
            ∙ h.0.found;
        numbered = h.0.numbered;
      },
      entries-delete subs h.1,
    )
  ]

  -- The entries of another topic.
  entries_other :
      (t : Text) (subs : Map ℕ ℕ) → t ≢ topic → All (IsEntry ss t) subs → All (IsEntry ss' t) subs
  entries_other t [] n h = tt
  entries_other t ((id, q) ∷ subs) n h = (
    record {
      found =
          elsewhere q (λ x. n (
            here _ (
              subst
                (λ (z : ℕ). get_elem? ss z ≡ some (record { topic = t; id = id; closed = false })) x
                h.0.found)))
          ∙ h.0.found;
      numbered = h.0.numbered;
    },
    entries_other t subs n h.1,
  )

  topic_other :
      (t : Text) (subs : Map ℕ ℕ) → t ≢ topic → IsTopic ss (t, subs) → IsTopic ss' (t, subs)
  topic_other t subs n h = record {
    entries = entries_other t subs n h.entries;
    each_once = h.each_once;
    inhabited = h.inhabited;
  }

  routes_absent :
      (topics : Map Text (Map ℕ ℕ))
      → contains topic (keys topics) ≡ false
      → All (IsTopic ss) topics
      → All (IsTopic ss') topics
  unfolding contains
  routes_absent [] n h = tt
  routes_absent ((t, subs) ∷ topics) n h = (
    topic_other t subs (λ x. ground (arith, text_eq_iff t topic, x)) h.0,
    routes_absent topics (ground arith) h.1,
  )

  routes_delete :
      (topics : Map Text (Map ℕ ℕ))
      → Distinct (keys topics)
      → All (IsTopic ss) topics
      → All (IsTopic ss') (delete topic topics)
  unfolding delete
  routes_delete [] d h = tt
  routes_delete ((t, subs) ∷ topics) d h = elim (Bool-cases (text_eq t topic)) [
    | inl same ↦ rw same (routes_delete topics d.1 h.1)
    | inr other ↦ rw other (
      topic_other t subs (λ x. cc (other, (text_eq_iff t topic).1 x)) h.0,
      routes_delete topics d.1 h.1,
    )
  ]

  routes_insert :
      (left : Map ℕ ℕ) (topics : Map Text (Map ℕ ℕ))
      → Distinct (keys topics)
      → All (IsTopic ss) topics
      → IsTopic ss' (topic, left)
      → All (IsTopic ss') (insert topic left topics)
  unfolding insert
  routes_insert left [] d h p = (p, tt)
  routes_insert left ((t, subs) ∷ topics) d h p = elim (Bool-cases (text_eq t topic)) [
    | inl same ↦ rw same (
      p,
      routes_absent topics
          (subst (λ x. contains x (keys topics) ≡ false) ((text_eq_iff t topic).0 same) d.0) h.1,
    )
    | inr other ↦ rw other (
      topic_other t subs (λ x. cc (other, (text_eq_iff t topic).1 x)) h.0,
      routes_insert left topics d.1 h.1 p,
    )
  ]

contains-refs-delete :
    (k q : ℕ) (subs : Map ℕ ℕ)
    → contains q (refs subs) ≡ false
    → contains q (refs (delete k subs)) ≡ false
unfolding delete contains
contains-refs-delete k q [] h = refl
contains-refs-delete k q ((id, x) ∷ subs) h = ground (arith, contains-refs-delete k q subs)

pub Distinct-refs-delete :
    (k : ℕ) (subs : Map ℕ ℕ) → Distinct (refs subs) → Distinct (refs (delete k subs))
unfolding delete
Distinct-refs-delete k [] d = tt
Distinct-refs-delete k ((id, q) ∷ subs) d = elim (Bool-cases (nat_eq id k)) [
  | inl same ↦ rw same (Distinct-refs-delete k subs d.1)
  | inr other ↦ rw other (contains-refs-delete k q subs d.0, Distinct-refs-delete k subs d.1)
]

-- After `unregister` the topics are in order for the standings in which only that subscription has
-- changed.
pub routes-unregister :
    (ss ss' : List Standing) (r : ℕ) (topic : Text)
    → ((st : Standing) → get_elem? ss r ≡ some st → st.topic ≡ topic)
    → ((q : ℕ) → q ≢ r → get_elem? ss' q ≡ get_elem? ss q)
    → (topics : Map Text (Map ℕ ℕ)) → Distinct (keys topics)
    → All (IsTopic ss) topics
    → All (IsTopic ss') (unregister topic (suc r) topics)
unfolding unregister
routes-unregister ss ss' r topic here elsewhere topics d h = found (lookup topic topics) refl
  where
    found :
        (o : Option (Map ℕ ℕ))
        → lookup topic topics ≡ o
        → All (IsTopic ss') (unregister topic (suc r) topics)
    found none q =
        rw (q, unregister)
          (routes_absent ss ss' r topic here elsewhere topics (lookup-contains topic topics q) h)
    found (some subs) q =
        let t = All-lookup (IsTopic ss) topic subs topics h q in
        elim (Bool-cases (length (delete (suc r) subs) == 0)) [
          | inl empty ↦
              rw (q, unregister) (rw empty (routes_delete ss ss' r topic here elsewhere topics d h))
          | inr more ↦
              rw (q, unregister)
                (rw more (
                  routes_insert ss ss' r topic here elsewhere (delete (suc r) subs) topics d h
                    (record {
                      entries = entries-delete ss ss' r topic here elsewhere subs t.entries;
                      each_once = Distinct-refs-delete (suc r) subs t.each_once;
                      inhabited = ground arith;
                    })))
        ]

pub Distinct-keys-unregister :
    (topic : Text) (id : ℕ) (topics : Map Text (Map ℕ ℕ))
    → Distinct (keys topics)
    → Distinct (keys (unregister topic id topics))
unfolding unregister
Distinct-keys-unregister topic id topics d = found (lookup topic topics) refl
  where
    found :
        (o : Option (Map ℕ ℕ))
        → lookup topic topics ≡ o
        → Distinct (keys (unregister topic id topics))
    found none q = rw (q, unregister) d
    found (some subs) q = elim (Bool-cases (length (delete id subs) == 0)) [
      | inl empty ↦ rw (q, unregister) (rw empty (Distinct-keys-delete topic topics d))
      | inr more ↦
          rw (q, unregister) (rw more (Distinct-keys-insert topic (delete id subs) topics d))
    ]
