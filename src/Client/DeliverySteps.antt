-- ===== src/Client/DeliverySteps.antt =====
-- One call of `rememberDelivery`, as a change of a list of IDs.
use distributed_event_bus.Prelude.{
  ℕ, zero, suc, ◌-◌, ◌≤◌, ◌≡◌, refl, ap, ◌∙◌, true, false, List, [], ◌∷◌, ◌++◌, Text, length, ltb,
  if◌then◌else◌, contains, add, remove, text_key, arith, Distinct, Bool-cases, inl, inr,
  length-append, Distinct-append_one, beq_refl, keep_last, length-keep_last, drop,
}
use distributed_event_bus.Client.Deliveries.{
  Deliveries, forget_oldest, remember_delivery, max_remembered_deliveries,
}

remove_missing : (x : Text) (xs : List Text) → contains x xs ≡ false → remove x xs ≡ xs
unfolding contains remove
remove_missing x [] h = refl
remove_missing x (y ∷ ys) h = ground (arith, remove_missing x ys)

remove_head : (x : Text) (xs : List Text) → contains x xs ≡ false → remove x (x ∷ xs) ≡ xs
unfolding remove
remove_head x xs h = rw (beq_refl x) (remove_missing x xs h)

-- The IDs after one more.
abbrev pub next_ids : Text → List Text → List Text
next_ids event_id ids =
    if contains event_id ids
    then ids
    else keep_last max_remembered_deliveries (ids ++ (event_id ∷ []))

abbrev pub both : List Text → Deliveries
both ids = record { acked = ids; acked_ids = ids }

pub one_over :
    (n : ℕ)
    → max_remembered_deliveries ≤ n
    → suc n ≤ suc max_remembered_deliveries
    → suc n - max_remembered_deliveries ≡ 1
one_over n h k = omega arith

pub none_over : (n : ℕ) → n ≤ max_remembered_deliveries → n - max_remembered_deliveries ≡ 0
none_over n h = omega arith

forget_oldest-both :
    (ids : List Text)
    → Distinct ids
    → length ids ≤ suc max_remembered_deliveries
    → forget_oldest (both ids) ≡ both (keep_last max_remembered_deliveries ids)
unfolding forget_oldest
forget_oldest-both [] d h = ground arith
forget_oldest-both (x ∷ xs) d h =
    elim (Bool-cases (ltb max_remembered_deliveries (suc (length xs)))) [
      | inl over ↦ rw (over, one_over (length xs) (ground arith) h, remove_head x xs d.0)
      | inr fits ↦ rw (fits, none_over (suc (length xs)) (ground arith))
    ]

add_missing : (x : Text) (xs : List Text) → contains x xs ≡ false → add x xs ≡ xs ++ (x ∷ [])
unfolding add
add_missing x xs h = rw h

pub remember_known :
    (event_id : Text) (m : Deliveries)
    → contains event_id m.acked ≡ true
    → remember_delivery event_id m ≡ m
unfolding remember_delivery
remember_known event_id m h = rw h

remember_fresh :
    (event_id : Text) (m : Deliveries)
    → contains event_id m.acked ≡ false
    → remember_delivery event_id m
      ≡ forget_oldest
          (record { acked = add event_id m.acked; acked_ids = m.acked_ids ++ (event_id ∷ []) })
unfolding remember_delivery
remember_fresh event_id m h = rw h

pub remember_delivery-both :
    (event_id : Text) (ids : List Text)
    → Distinct ids
    → length ids ≤ max_remembered_deliveries
    → remember_delivery event_id (both ids) ≡ both (next_ids event_id ids)
remember_delivery-both event_id ids d h = elim (Bool-cases (contains event_id ids)) [
  | inl known ↦ rw known (remember_known event_id (both ids) known)
  | inr fresh ↦ rw fresh (
      remember_fresh event_id (both ids) fresh
      ∙ ap (λ xs. forget_oldest (record { acked = xs; acked_ids = ids ++ (event_id ∷ []) }))
          (add_missing event_id ids fresh)
      ∙ forget_oldest-both (ids ++ (event_id ∷ [])) (Distinct-append_one event_id ids fresh d)
          (omega (arith, length-append ids (event_id ∷ []))))
]

Distinct-drop : (n : ℕ) (xs : List Text) → Distinct xs → Distinct (drop n xs)
Distinct-drop zero xs d = d
Distinct-drop (suc n) [] d = d
Distinct-drop (suc n) (x ∷ xs) d = Distinct-drop n xs d.1

abbrev pub IsKept : List Text → Type 0
IsKept ids = Distinct ids × (length ids ≤ max_remembered_deliveries)

pub next_ids-IsKept :
    (event_id : Text) (ids : List Text) → IsKept ids → IsKept (next_ids event_id ids)
next_ids-IsKept event_id ids h = elim (Bool-cases (contains event_id ids)) [
  | inl known ↦ rw known h
  | inr fresh ↦ rw fresh (
    Distinct-drop (length (ids ++ (event_id ∷ [])) - max_remembered_deliveries)
        (ids ++ (event_id ∷ [])) (Distinct-append_one event_id ids fresh h.0),
    length-keep_last max_remembered_deliveries (ids ++ (event_id ∷ [])),
  )
]
