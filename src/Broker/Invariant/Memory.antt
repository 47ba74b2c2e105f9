-- ===== src/Broker/Invariant/Memory.antt =====
-- `remember` and `cacheEvent` keep the bounds of the memory of keys and of the cache.
use mathlib.Core.List.{Perm}
use mathlib.Core.List.Perm
use distributed_event_bus.Prelude.{
  ℕ, suc, ◌≤◌, ◌<◌, ◌≡◌, refl, ap, subst, true, ◌||◌, List, [], ◌∷◌, ◌++◌, Text, length, leb, ◌==◌,
  if◌then◌else◌, All, Map, lookup, contains, add, remove, Distinct, text_key, text_eq_iff, ◌-◌,
  length-drop, arith, All-insert, All-lookup, Distinct-remove, Distinct-add, contains-Perm,
  length-add-le, length-remove-lt, length-append, length-keep_last, Bool-cases, Option-cases, inl,
  inr,
}
use distributed_event_bus.Broker.Event.{Event}
use distributed_event_bus.Broker.State.{Broker, at}
use distributed_event_bus.Broker.MemoryLaws.{at-none, at-some, cache_append-keep_last}
use distributed_event_bus.Broker.Memory.{evict, remember, cache_append, cache_event}
use distributed_event_bus.Broker.Invariant.Defs.{IsCached, IsRemembered}

-- The keys of a topic, known or not.
pub IsRemembered-at :
    (size : ℕ) (topic : Text) (m : Map Text (List Text))
    → All (IsRemembered size) m
    → IsRemembered size (topic, at topic m)
IsRemembered-at size topic m h = elim (Option-cases (lookup topic m)) [
  | inl e ↦ rw (at-none topic m e) (record { remembered_le = omega arith; keys_once = tt })
  | inr (v, e) ↦ rw (at-some topic m v e) (All-lookup (IsRemembered size) topic v m h e)
]

evict_none :
    (order : List Text → List Text) (ids : List Text) → order ids ≡ [] → evict order ids ≡ ids
unfolding evict
evict_none order ids q = rw (q, evict)

evict_some :
    (order : List Text → List Text) (ids : List Text) (o : Text) (os : List Text)
    → order ids ≡ o ∷ os
    → evict order ids ≡ remove o ids
unfolding evict
evict_some order ids o os q = rw (q, evict)

first_contained : (o : Text) (os ids : List Text) → Perm (o ∷ os) ids → contains o ids ≡ true
unfolding contains
first_contained o os ids p = ground (arith, contains-Perm o (o ∷ os) ids p, text_eq_iff o o)

evict_shrinks :
    (order : List Text → List Text) (ids : List Text)
    → Perm (order ids) ids
    → 0 < length ids
    → suc (length (evict order ids)) ≤ length ids
evict_shrinks order ids p h = visited (order ids) refl
  where
    visited : (os : List Text) → order ids ≡ os → suc (length (evict order ids)) ≤ length ids
    visited [] q = absurd (
        omega
          (arith, ap (length {A = Text}) (Perm.eq-nil (Perm.symm (subst (λ x. Perm x ids) q p)))))
    visited (o ∷ os) q =
        rw (evict_some order ids o os q)
          (length-remove-lt o ids (first_contained o os ids (subst (λ x. Perm x ids) q p)))

evict-Distinct :
    (order : List Text → List Text) (ids : List Text) → Distinct ids → Distinct (evict order ids)
evict-Distinct order ids d = visited (order ids) refl
  where
    visited : (os : List Text) → order ids ≡ os → Distinct (evict order ids)
    visited [] q = rw (evict_none order ids q) d
    visited (o ∷ os) q = rw (evict_some order ids o os q) (Distinct-remove o ids d)

-- The set that `remember` stores: one more key, and one fewer first where it is full.
make_room-IsRemembered :
    (order : List Text → List Text) (size : ℕ) (topic id : Text) (ids : List Text)
    → Perm (order ids) ids
    → 0 < size
    → IsRemembered size (topic, ids)
    → IsRemembered size (topic, add id (if leb size (length ids) then evict order ids else ids))
make_room-IsRemembered order size topic id ids p h r = elim (Bool-cases (leb size (length ids))) [
  | inl full ↦ rw full (record {
    remembered_le =
        ground
          (arith, length-add-le id (evict order ids), evict_shrinks order ids p, r.remembered_le);
    keys_once = Distinct-add id (evict order ids) (evict-Distinct order ids r.keys_once);
  })
  | inr room ↦ rw room (record {
    remembered_le = ground (arith, length-add-le id ids);
    keys_once = Distinct-add id ids r.keys_once;
  })
]

abbrev MemoryBounded : Broker → Type 0
MemoryBounded b = All (IsRemembered b.config.deduplication_size) b.dedup

pub remember-bounded :
    (order : List Text → List Text) (topic id : Text) (b : Broker)
    → ((xs : List Text) → Perm (order xs) xs)
    → MemoryBounded b
    → MemoryBounded (remember order topic id b)
unfolding remember
remember-bounded order topic id b p m =
    elim (Bool-cases (length id == 0 || b.config.deduplication_size == 0)) [
      | inl off ↦ rw off m
      | inr on ↦ rw on (
          All-insert (IsRemembered b.config.deduplication_size) topic _ b.dedup m (
            make_room-IsRemembered order b.config.deduplication_size topic id (at topic b.dedup)
              (p (at topic b.dedup)) (ground arith)
              (IsRemembered-at b.config.deduplication_size topic b.dedup m)))
    ]

abbrev CacheBounded : Broker → Type 0
CacheBounded b = All (IsCached b.config.cache_size) b.cache

-- The events that are cached for a topic, if any.
pub length-at_cache :
    (size : ℕ) (topic : Text) (m : Map Text (List Event))
    → All (IsCached size) m
    → length (at topic m) ≤ size
length-at_cache size topic m h = elim (Option-cases (lookup topic m)) [
  | inl e ↦ rw (at-none topic m e) (omega arith)
  | inr (v, e) ↦ rw (at-some topic m v e) (All-lookup (IsCached size) topic v m h e).cached_le
]

pub cache_event-bounded : (e : Event) (b : Broker) → CacheBounded b → CacheBounded (cache_event e b)
unfolding cache_event
cache_event-bounded e b h = elim (Bool-cases (b.config.cache_size == 0)) [
  | inl off ↦ rw off h
  | inr on ↦ rw on (
      All-insert (IsCached b.config.cache_size) e.topic _ b.cache h (
        appended b.config.cache_size e.topic (at e.topic b.cache) (ground arith)
          (length-at_cache b.config.cache_size e.topic b.cache h)))
]
  where
    appended :
        (n : ℕ) (topic : Text) (cached : List Event)
        → 0 < n
        → length cached ≤ n
        → IsCached n (topic, cache_append n cached e)
    appended n topic cached h k = rw (cache_append-keep_last n cached e h k) (record {
      some_cached = omega (
        arith,
        length-drop (length (cached ++ (e ∷ [])) - n) (cached ++ (e ∷ [])),
        length-append cached (e ∷ []),
      );
      cached_le = length-keep_last n (cached ++ (e ∷ []));
    })
