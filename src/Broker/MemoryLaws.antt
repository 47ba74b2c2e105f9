-- ===== src/Broker/MemoryLaws.antt =====
-- The memory of keys and the cache: what a call of `remember` or `cacheEvent` guarantees.
use distributed_event_bus.Prelude.{
  ℕ, suc, ◌+◌, ◌-◌, ◌≤◌, ◌<◌, ◌≡◌, true, List, [], ◌∷◌, ◌++◌, Text, none, some, length, leb,
  if◌then◌else◌, Map, lookup, insert, add, text_key, text_eq, text_eq_iff, arith, lookup-insert,
  contains-add, beq_refl, length-append, keep_last, Bool-cases, inl, inr,
}
use distributed_event_bus.Broker.Event.{Event}
use distributed_event_bus.Broker.State.{Broker, at}
use distributed_event_bus.Broker.Memory.{seen, evict, remember, cache_append}

none_over : (m n : ℕ) → m ≤ n → m - n ≡ 0
none_over m n h = omega arith

one_over : (m n : ℕ) → suc m ≡ n → suc (m + 1) - n ≡ 1
one_over m n h = omega arith

pub at-none : {V : Type 0} (k : Text) (m : Map Text (List V)) → lookup k m ≡ none → at k m ≡ []
at-none k m h = rw (h, at)

pub at-some :
    {V : Type 0} (k : Text) (m : Map Text (List V)) (v : List V) → lookup k m ≡ some v → at k m ≡ v
at-some k m v h = rw (h, at)

pub at-insert :
    {V : Type 0} (k j : Text) (v : List V) (m : Map Text (List V))
    → at j (insert k v m) ≡ (if text_eq k j then v else at j m)
at-insert k j v m = ground (arith, lookup-insert k j v m)

pub at-insert_self :
    {V : Type 0} (k : Text) (v : List V) (m : Map Text (List V)) → at k (insert k v m) ≡ v
at-insert_self k v m = rw (at-insert k k v m, beq_refl k)

pub cache_append-keep_last :
    (n : ℕ) (cached : List Event) (e : Event)
    → 0 < n
    → length cached ≤ n
    → cache_append n cached e ≡ keep_last n (cached ++ (e ∷ []))
unfolding cache_append
cache_append-keep_last n [] e h k = rw (none_over 1 n h) (ground arith)
cache_append-keep_last n (x ∷ xs) e h k = elim (Bool-cases (leb n (suc (length xs)))) [
  | inl full ↦ rw (full, length-append xs (e ∷ []), one_over (length xs) n (ground arith))
  | inr room ↦
      rw (room, length-append xs (e ∷ []), none_over (suc (length xs + 1)) n (ground arith))
]

-- After `remember` the key is known, if keys are remembered at all.
pub seen-remember :
    (order : List Text → List Text) (topic id : Text) (b : Broker)
    → 0 < length id
    → 0 < b.config.deduplication_size
    → seen (remember order topic id b) topic id ≡ true
unfolding seen remember
seen-remember order topic id b h k =
    let kept =
      if leb b.config.deduplication_size (length (at topic b.dedup))
      then evict order (at topic b.dedup)
      else at topic b.dedup in
    ground (
      arith,
      at-insert_self topic (add id kept) b.dedup,
      contains-add id id kept,
      text_eq_iff id id,
    )
