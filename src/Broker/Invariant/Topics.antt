-- ===== src/Broker/Invariant/Topics.antt =====
-- The map of topics: a new subscription enters it, and a closed one leaves it.
use distributed_event_bus.Prelude.{
  ℕ, suc, ◌≤◌, ◌<◌, ◌≡◌, refl, false, List, [], ◌∷◌, ◌++◌, Text, some, length, get_elem?, All, Map,
  lookup, insert, contains, Distinct, nat_key, nat_eq_iff, text_key, arith, All-insert, All-lookup,
  Option-cases, inl, inr, Distinct-append_one,
}
use distributed_event_bus.Broker.State.{at}
use distributed_event_bus.Broker.MemoryLaws.{at-none, at-some}
use distributed_event_bus.Broker.Publish.{refs}
use distributed_event_bus.Broker.Invariant.Defs.{Standing, IsEntry, IsTopic}
use distributed_event_bus.Broker.Invariant.Standings.{get_elem?-append_left, get_elem?-lt}

-- One more subscription does not disturb the topics.
All-IsEntry-append :
    (ss : List Standing) (x : Standing) (topic : Text) (subs : Map ℕ ℕ)
    → All (IsEntry ss topic) subs
    → All (IsEntry (ss ++ (x ∷ [])) topic) subs
All-IsEntry-append ss x topic [] h = tt
All-IsEntry-append ss x topic (entry ∷ subs) h = (
  record { found = get_elem?-append_left ss (x ∷ []) entry.1 _ h.0.found; numbered = h.0.numbered },
  All-IsEntry-append ss x topic subs h.1,
)

pub routes-append :
    (ss : List Standing) (x : Standing) (topics : Map Text (Map ℕ ℕ))
    → All (IsTopic ss) topics
    → All (IsTopic (ss ++ (x ∷ []))) topics
routes-append ss x [] h = tt
routes-append ss x ((topic, subs) ∷ topics) h = (
  record {
    entries = All-IsEntry-append ss x topic subs h.0.entries;
    each_once = h.0.each_once;
    inhabited = h.0.inhabited;
  },
  routes-append ss x topics h.1,
)

-- The entry of a fresh subscription goes last.
pub refs-insert_fresh :
    (ss : List Standing) (topic : Text) (n : ℕ) (subs : Map ℕ ℕ)
    → length ss ≤ n
    → All (IsEntry ss topic) subs
    → (refs (insert (suc n) n subs) ≡ refs subs ++ (n ∷ [])) × (contains n (refs subs) ≡ false)
unfolding insert contains
refs-insert_fresh ss topic n [] le h = (refl, refl)
refs-insert_fresh ss topic n ((id, r) ∷ subs) le h =
    let (p, q) = refs-insert_fresh ss topic n subs le h.1 in
    let small : r < length ss = get_elem?-lt ss r _ h.0.found in
    let number : id ≡ suc r = h.0.numbered in
    (ground (arith, nat_eq_iff id (suc n)), ground (arith, nat_eq_iff r n))

length-insert_pos : (k v : ℕ) (m : Map ℕ ℕ) → 0 < length (insert k v m)
unfolding insert
length-insert_pos k v [] = omega arith
length-insert_pos k v ((j, w) ∷ m) = ground arith

-- The subscribers of a topic, if any.
abbrev pub Subscribers : List Standing → Text → Map ℕ ℕ → Type 0
Subscribers ss topic subs = All (IsEntry ss topic) subs × Distinct (refs subs)

pub Subscribers-at :
    (ss : List Standing) (topic : Text) (topics : Map Text (Map ℕ ℕ))
    → All (IsTopic ss) topics
    → Subscribers ss topic (at topic topics)
Subscribers-at ss topic topics h = elim (Option-cases (lookup topic topics)) [
  | inl e ↦ rw (at-none topic topics e) (tt, tt)
  | inr (v, e) ↦
      let t = All-lookup (IsTopic ss) topic v topics h e in
      rw (at-some topic topics v e) (t.entries, t.each_once)
]

-- `Subscribe` enters the subscription that it has put into the heap.
pub routes-insert :
    (ss ss' : List Standing) (topic : Text) (n : ℕ) (topics : Map Text (Map ℕ ℕ))
    → length ss ≤ n
    → All (IsTopic ss) topics
    → All (IsTopic ss') topics
    → get_elem? ss' n ≡ some (record { topic = topic; id = suc n; closed = false })
    → All (IsTopic ss') (insert topic (insert (suc n) n (at topic topics)) topics)
routes-insert ss ss' topic n topics le h h' g =
    let (p, q) =
      refs-insert_fresh ss topic n (at topic topics) le (Subscribers-at ss topic topics h).0 in
    All-insert (IsTopic ss') topic _ topics h' (record {
      entries =
          All-insert (IsEntry ss' topic) (suc n) n (at topic topics)
            (Subscribers-at ss' topic topics h').0 (record { found = g; numbered = refl });
      each_once =
          rw p
            (Distinct-append_one n (refs (at topic topics)) q (Subscribers-at ss topic topics h).1);
      inhabited = length-insert_pos (suc n) n (at topic topics);
    })
