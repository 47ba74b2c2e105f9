-- ===== src/Client/DeliveryLaws.antt =====
-- How long a client remembers a delivery.
use distributed_event_bus.Prelude.{
  ℕ, suc, ◌+◌, ◌≤◌, ◌<◌, ◌≡◌, refl, sym, ap, ◌∙◌, subst, true, false, List, [], ◌∷◌, ◌++◌, Text,
  length, ltb, contains, text_key, text_eq_iff, arith, Distinct, Bool-cases, inl, inr,
  length-append, contains-append, keep_last, append_assoc,
}
use distributed_event_bus.Client.Deliveries.{
  Deliveries, remember_delivery, was_delivered, remember_deliveries, max_remembered_deliveries,
}
use distributed_event_bus.Client.DeliverySteps.{
  next_ids, both, next_ids-IsKept, IsKept, remember_delivery-both, one_over, none_over,
}

-- The set and the queue hold the same IDs, each once, and no more than the limit.
pub record IsMemory (m : Deliveries) : Type 0 where
  pub same : m.acked ≡ m.acked_ids
  pub each_once : Distinct m.acked_ids
  pub bounded : length m.acked_ids ≤ max_remembered_deliveries

-- An ID with `n` others behind it.
record IsBehind (event_id : Text) (n : ℕ) (ids : List Text) : Type 0 where
  front : List Text
  back : List Text
  split : ids ≡ front ++ (event_id ∷ back)
  few : length back ≤ n

kept_part :
    (event_id x : Text) (front back : List Text) (n : ℕ)
    → length back ≤ n
    → suc n < max_remembered_deliveries
    → length (front ++ (event_id ∷ back)) ≤ max_remembered_deliveries
    → IsBehind event_id
        (suc n)
        (keep_last max_remembered_deliveries ((front ++ (event_id ∷ back)) ++ (x ∷ [])))
kept_part event_id x [] back n h k l =
    rw (none_over (suc (length (back ++ (x ∷ [])))) (omega (arith, length-append back (x ∷ []))))
      (record {
        front = [];
        back = back ++ (x ∷ []);
        split = refl;
        few = omega (arith, length-append back (x ∷ []));
      })
kept_part event_id x (y ∷ ys) back n h k l =
    let all = (ys ++ (event_id ∷ back)) ++ (x ∷ []) in
    let few : length (back ++ (x ∷ [])) ≤ suc n = omega (arith, length-append back (x ∷ [])) in
    let whole : all ≡ ys ++ (event_id ∷ (back ++ (x ∷ []))) =
      append_assoc ys (event_id ∷ back) (x ∷ []) in
    let size = length-append (ys ++ (event_id ∷ back)) (x ∷ []) in
    elim (Bool-cases (ltb max_remembered_deliveries (suc (length all)))) [
      | inl over ↦
          rw (one_over (length all) (ground arith) (omega arith))
            (record { front = ys; back = back ++ (x ∷ []); split = whole; few = few })
      | inr fits ↦
          rw (none_over (suc (length all)) (ground arith)) (record {
            front = y ∷ ys;
            back = back ++ (x ∷ []);
            split = ap (◌∷◌ y) whole;
            few = few;
          })
    ]

next_ids-IsBehind :
    (event_id x : Text) (ids : List Text) (n : ℕ)
    → IsKept ids
    → suc n < max_remembered_deliveries
    → IsBehind event_id n ids
    → IsBehind event_id (suc n) (next_ids x ids)
next_ids-IsBehind event_id x ids n h k b = elim (Bool-cases (contains x ids)) [
  | inl known ↦
      rw known
        (record { front = b.front; back = b.back; split = b.split; few = omega (arith, b.few) })
  | inr fresh ↦ rw (fresh) (
      subst (λ xs. IsBehind event_id (suc n) (keep_last max_remembered_deliveries (xs ++ (x ∷ []))))
        (sym b.split)
        (kept_part event_id x b.front b.back n b.few k
          (subst (λ xs. length xs ≤ max_remembered_deliveries) b.split h.1)))
]

split-contains :
    (event_id : Text) (ids : List Text) (n : ℕ)
    → IsBehind event_id n ids
    → contains event_id ids ≡ true
unfolding contains
split-contains event_id ids n b =
    rw (b.split, contains-append event_id b.front (event_id ∷ b.back))
      (ground (arith, text_eq_iff event_id event_id))

newest :
    (event_id : Text) (ids : List Text)
    → length ids ≤ max_remembered_deliveries
    → IsBehind event_id 0 (keep_last max_remembered_deliveries (ids ++ (event_id ∷ [])))
newest event_id [] h = record { front = []; back = []; split = refl; few = omega arith }
newest event_id (y ∷ ys) h =
    let all = ys ++ (event_id ∷ []) in
    let size = length-append ys (event_id ∷ []) in
    elim (Bool-cases (ltb max_remembered_deliveries (suc (length all)))) [
      | inl over ↦
          rw (one_over (length all) (ground arith) (omega arith))
            (record { front = ys; back = []; split = refl; few = omega arith })
      | inr fits ↦
          rw (none_over (suc (length all)) (ground arith))
            (record { front = y ∷ ys; back = []; split = refl; few = omega arith })
    ]

pub remember_deliveries_more :
    (x : Text) (xs : List Text) (m : Deliveries)
    → remember_deliveries (x ∷ xs) m ≡ remember_deliveries xs (remember_delivery x m)
unfolding remember_deliveries
remember_deliveries_more x xs m = refl

run-next_ids :
    (event_id : Text) (event_ids ids : List Text) (n : ℕ)
    → IsKept ids
    → IsBehind event_id n ids
    → n + length event_ids < max_remembered_deliveries
    → was_delivered event_id (remember_deliveries event_ids (both ids)) ≡ true
unfolding remember_deliveries was_delivered
run-next_ids event_id [] ids n h b k = split-contains event_id ids n b
run-next_ids event_id (x ∷ event_ids) ids n h b k =
    rw (remember_deliveries_more x event_ids (both ids), remember_delivery-both x ids h.0 h.1)
      (run-next_ids event_id event_ids (next_ids x ids) (suc n) (next_ids-IsKept x ids h)
        (next_ids-IsBehind event_id x ids n h (omega arith) b) (omega arith))

-- `rememberDelivery` keeps a memory well-formed: its set and its queue are equal, without repetition
-- and within the limit.
pub remember_delivery-IsMemory :
    (event_id : Text) (m : Deliveries) → IsMemory m → IsMemory (remember_delivery event_id m)
remember_delivery-IsMemory event_id m h =
    let kept = next_ids-IsKept event_id m.acked_ids (h.each_once, h.bounded) in
    rw
      (ap (λ xs. remember_delivery event_id (record { acked = xs; acked_ids = m.acked_ids })) h.same
        ∙ remember_delivery-both event_id m.acked_ids h.each_once h.bounded)
      (record { same = refl; each_once = kept.0; bounded = kept.1 })

-- A delivery that a well-formed memory did not know before and now remembers is still known after
-- any further deliveries, as long as there are fewer of them than the limit.
pub remembers_long :
    (event_id : Text) (event_ids : List Text) (m : Deliveries)
    → IsMemory m
    → was_delivered event_id m ≡ false
    → length event_ids < max_remembered_deliveries
    → was_delivered event_id (remember_deliveries event_ids (remember_delivery event_id m)) ≡ true
unfolding was_delivered
remembers_long event_id event_ids m h fresh k =
    let e =
      ap (λ xs. remember_delivery event_id (record { acked = xs; acked_ids = m.acked_ids })) h.same
      ∙ remember_delivery-both event_id m.acked_ids h.each_once h.bounded in
    let fresh_id : contains event_id m.acked_ids ≡ false =
      ap (contains event_id) (sym h.same) ∙ fresh in
    rw e (
      run-next_ids event_id event_ids (next_ids event_id m.acked_ids) 0
        (next_ids-IsKept event_id m.acked_ids (h.each_once, h.bounded))
        (rw (fresh_id) (newest event_id m.acked_ids h.bounded)) (omega arith))
