-- ===== src/Prelude/Maps.antt =====
-- A Go map as an association list in which an update stays in place and a new key goes last.
use Prim.Native.Nat.{◌≤◌, suc}
use mathlib.Core.Path.{◌≡◌, refl}
use mathlib.Core.Bool.{Bool, true, false, ◌||◌}
use mathlib.Core.Option.{Option, none, some}
use mathlib.Core.List.{List, [], ◌∷◌, ◌++◌}
use native.Mathlib.Omega.{arith}
use distributed_event_bus.Prelude.Tests.{Eq, if◌then◌else◌}
use distributed_event_bus.Prelude.Lists.{length}

abbrev pub Map : Type 0 → Type 0 → Type 0
Map K V = List (K × V)

module _ {K : Type 0} ⦃e : Eq K⦄ where
  -- `_, exists := set[k]` on a `map[K]struct{}`, which is the list of its keys.
  unfoldable pub contains : K → List K → Bool
  contains k [] = false
  contains k (x ∷ xs) = e.beq x k || contains k xs

  -- `set[k] = struct{}{}`
  unfoldable pub add : K → List K → List K
  add k xs = if contains k xs then xs else (xs ++ (k ∷ []))

  -- `delete(set, k)`
  unfoldable pub remove : K → List K → List K
  remove k [] = []
  remove k (x ∷ xs) = if e.beq x k then remove k xs else x ∷ remove k xs

  module _ {V : Type 0} where
    -- `m[k]`
    unfoldable pub lookup : K → Map K V → Option V
    lookup k [] = none
    lookup k ((j, v) ∷ m) = if e.beq j k then some v else lookup k m

    -- `m[k] = v`
    unfoldable pub insert : K → V → Map K V → Map K V
    insert k v [] = (k, v) ∷ []
    insert k v ((j, w) ∷ m) = if e.beq j k then (k, v) ∷ m else (j, w) ∷ insert k v m

    -- `delete(m, k)`
    unfoldable pub delete : K → Map K V → Map K V
    delete k [] = []
    delete k ((j, w) ∷ m) = if e.beq j k then delete k m else (j, w) ∷ delete k m

    pub lookup-insert :
        (k j : K) (v : V) (m : Map K V)
        → lookup j (insert k v m) ≡ (if e.beq k j then some v else lookup j m)
    unfolding lookup insert
    lookup-insert k j v [] = refl
    lookup-insert k j v ((i, w) ∷ m) =
        ground (arith, e.beq_iff k j, e.beq_iff i k, e.beq_iff i j, lookup-insert k j v m)

    pub lookup-delete :
        (k j : K) (m : Map K V) → lookup j (delete k m) ≡ (if e.beq k j then none else lookup j m)
    unfolding lookup delete
    lookup-delete k j [] = ground arith
    lookup-delete k j ((i, w) ∷ m) =
        ground (arith, e.beq_iff k j, e.beq_iff i k, e.beq_iff i j, lookup-delete k j m)

  pub beq_refl : (k : K) → e.beq k k ≡ true
  beq_refl k = (e.beq_iff k k).1 refl

  pub contains-append :
      (k : K) (xs ys : List K) → contains k (xs ++ ys) ≡ (contains k xs || contains k ys)
  unfolding contains
  contains-append k [] ys = refl
  contains-append k (x ∷ xs) ys = ground (arith, contains-append k xs ys)

  pub contains-add : (k j : K) (xs : List K) → contains j (add k xs) ≡ (e.beq k j || contains j xs)
  unfolding add contains
  contains-add k j xs = ground (arith, e.beq_iff k j, contains-append j xs (k ∷ []))

  pub contains-remove :
      (k j : K) (xs : List K)
      → contains j (remove k xs) ≡ (if e.beq k j then false else contains j xs)
  unfolding remove contains
  contains-remove k j [] = ground arith
  contains-remove k j (x ∷ xs) =
      ground (arith, e.beq_iff k j, e.beq_iff x k, e.beq_iff x j, contains-remove k j xs)

  pub length-remove-le : (k : K) (xs : List K) → length (remove k xs) ≤ length xs
  unfolding remove
  length-remove-le k [] = omega arith
  length-remove-le k (x ∷ xs) = ground (arith, length-remove-le k xs)

  -- Removing a key that is there makes the set smaller.
  pub length-remove-lt :
      (k : K) (xs : List K) → contains k xs ≡ true → suc (length (remove k xs)) ≤ length xs
  unfolding remove contains
  length-remove-lt k [] h = absurd (ground arith)
  length-remove-lt k (x ∷ xs) h = ground (arith, length-remove-le k xs, length-remove-lt k xs)

  -- No key stands twice.
  abbrev pub Distinct : List K → Type 0
  Distinct [] = Unit {0}
  Distinct (x ∷ xs) = (contains x xs ≡ false) × Distinct xs

abbrev pub keys : {K V : Type 0} → Map K V → List K
keys [] = []
keys ((k, v) ∷ m) = k ∷ keys m
