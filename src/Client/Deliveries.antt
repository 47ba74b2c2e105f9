-- ===== src/Client/Deliveries.antt =====
-- transport/tcp/client.go: the IDs of the events that the application has acknowledged.
use distributed_event_bus.Prelude.{
  ℕ, Bool, List, [], ◌∷◌, ◌++◌, Text, length, ltb, if◌then◌else◌, contains, add, remove, text_key,
}

-- `maxRememberedDeliveries`
abbrev pub max_remembered_deliveries : ℕ
max_remembered_deliveries = 4096

-- `acked` and `ackedIDs` of a `Client`.
pub record Deliveries : Type 0 where
  pub acked : List Text
  pub acked_ids : List Text

-- What `Dial` starts with.
unfoldable pub no_deliveries : Deliveries
no_deliveries = record { acked = []; acked_ids = [] }

-- The end of `rememberDelivery`: over the limit, the oldest ID is forgotten.
unfoldable pub forget_oldest : Deliveries → Deliveries
forget_oldest m =
    if ltb max_remembered_deliveries (length m.acked_ids)
    then elim m.acked_ids [
      | [] ↦ m
      | oldest ∷ rest ↦ record { acked = remove oldest m.acked; acked_ids = rest }
    ]
    else m

-- `rememberDelivery`
unfoldable pub remember_delivery : Text → Deliveries → Deliveries
unfolding forget_oldest
remember_delivery event_id m =
    if contains event_id m.acked
    then m
    else forget_oldest
        (record { acked = add event_id m.acked; acked_ids = m.acked_ids ++ (event_id ∷ []) })

-- `wasDelivered`
unfoldable pub was_delivered : Text → Deliveries → Bool
was_delivered event_id m = contains event_id m.acked

-- One call of `rememberDelivery` after another.
unfoldable pub remember_deliveries : List Text → Deliveries → Deliveries
remember_deliveries [] m = m
remember_deliveries (event_id ∷ event_ids) m =
    remember_deliveries event_ids (remember_delivery event_id m)
