-- ===== src/Prelude/MapLaws.antt =====
-- Predicates on the entries of a map, and sets without repetition.
use Prim.Native.Nat.{◌≤◌, ◌+◌}
use mathlib.Core.Path.{◌≡◌, refl, sym, subst, ◌∙◌}
use mathlib.Core.Logic.{inl, inr}
use mathlib.Core.Logic.Or
use mathlib.Core.Bool.{Bool, true, false, ◌||◌}
use mathlib.Core.Option.{none, some}
use mathlib.Core.List.{
  List, [], ◌∷◌, ◌++◌, Mem, Perm, Nodup, mem-cons, not-mem-nil, Nodup-cons, Nodup-nil,
}
use mathlib.Core.List.Perm
use native.Mathlib.Omega.{arith}
use distributed_event_bus.Prelude.Tests.{Eq, if◌then◌else◌, Bool-cases}
use distributed_event_bus.Prelude.Lists.{length, All, length-append}
use distributed_event_bus.Prelude.Maps.{
  Map, contains, add, remove, lookup, insert, delete, Distinct, contains-remove, contains-append,
  keys,
}

Bool_set : IsSet Bool
Bool_set = hlevel

module _ {K : Type 0} ⦃e : Eq K⦄ where
  pub All-insert {ℓ} :
      {V : Type 0} (P : K × V → Type ℓ) (k : K) (v : V) (m : Map K V)
      → All P m
      → P (k, v)
      → All P (insert k v m)
  unfolding insert
  All-insert P k v [] h p = (p, tt)
  All-insert P k v ((j, w) ∷ m) h p = elim (Bool-cases (e.beq j k)) [
    | inl same ↦ rw same (p, h.1)
    | inr other ↦ rw other (h.0, All-insert P k v m h.1 p)
  ]

  pub All-delete {ℓ} :
      {V : Type 0} (P : K × V → Type ℓ) (k : K) (m : Map K V) → All P m → All P (delete k m)
  unfolding delete
  All-delete P k [] h = tt
  All-delete P k ((j, w) ∷ m) h = elim (Bool-cases (e.beq j k)) [
    | inl same ↦ rw same (All-delete P k m h.1)
    | inr other ↦ rw other (h.0, All-delete P k m h.1)
  ]

  pub All-lookup {ℓ} :
      {V : Type 0} (P : K × V → Type ℓ) (k : K) (v : V) (m : Map K V)
      → All P m
      → lookup k m ≡ some v
      → P (k, v)
  unfolding lookup
  All-lookup P k v [] h q = absurd (cc)
  All-lookup P k v ((j, w) ∷ m) h q = elim (Bool-cases (e.beq j k)) [
    | inl same ↦
        let e1 : j ≡ k = (e.beq_iff j k).0 same in
        let e2 : w ≡ v = ground arith in subst (λ x. P (x, v)) e1 (subst (λ y. P (j, y)) e2 h.0)
    | inr other ↦ All-lookup P k v m h.1 (ground arith)
  ]

  pub contains→Mem : (x : K) (xs : List K) → contains x xs ≡ true → Mem x xs
  unfolding contains
  contains→Mem x [] h = absurd (ground arith)
  contains→Mem x (y ∷ ys) h = elim (Bool-cases (e.beq y x)) [
    | inl same ↦ mem-cons.1 (Or.inl (sym ((e.beq_iff y x).0 same)))
    | inr other ↦ mem-cons.1 (Or.inr (contains→Mem x ys (ground arith)))
  ]

  pub Mem→contains : (x : K) (xs : List K) → Mem x xs → contains x xs ≡ true
  unfolding contains
  Mem→contains x [] h = absurd (not-mem-nil h)
  Mem→contains x (y ∷ ys) h =
      Or.elim (Bool_set _ _) (mem-cons.0 h) (λ q. ground (arith, e.beq_iff y x))
        (λ m. ground (arith, Mem→contains x ys m))

  pub Distinct→Nodup : (xs : List K) → Distinct xs → Nodup xs
  Distinct→Nodup [] d = Nodup-nil
  Distinct→Nodup (x ∷ xs) d =
      Nodup-cons.1 (λ m. cc (d.0, Mem→contains x xs m), Distinct→Nodup xs d.1)

  pub Nodup→Distinct : (xs : List K) → Nodup xs → Distinct xs
  Nodup→Distinct [] d = tt
  Nodup→Distinct (x ∷ xs) d = elim (Bool-cases (contains x xs)) [
    | inl there ↦ absurd ((Nodup-cons.0 d).0 (contains→Mem x xs there))
    | inr missing ↦ (missing, Nodup→Distinct xs (Nodup-cons.0 d).1)
  ]

  -- A list in another order holds the same keys, as often.
  pub contains-Perm : (x : K) (xs ys : List K) → Perm xs ys → contains x xs ≡ contains x ys
  contains-Perm x xs ys p = elim (Bool-cases (contains x xs)) [
    | inl there ↦ there ∙ sym (Mem→contains x ys ((Perm.mem_iff p).0 (contains→Mem x xs there)))
    | inr missing ↦ elim (Bool-cases (contains x ys)) [
      | inl there ↦
          absurd (cc (missing, Mem→contains x xs ((Perm.mem_iff p).1 (contains→Mem x ys there))))
      | inr missing' ↦ missing ∙ sym missing'
    ]
  ]

  pub Distinct-Perm : (xs ys : List K) → Perm xs ys → Distinct ys → Distinct xs
  Distinct-Perm xs ys p d = Nodup→Distinct xs (Perm.nodup (Perm.symm p) (Distinct→Nodup ys d))

  pub Distinct-remove : (k : K) (xs : List K) → Distinct xs → Distinct (remove k xs)
  unfolding remove
  Distinct-remove k [] d = tt
  Distinct-remove k (x ∷ xs) d = elim (Bool-cases (e.beq x k)) [
    | inl same ↦ rw same (Distinct-remove k xs d.1)
    | inr other ↦ rw other (ground (arith, contains-remove k x xs, d.0), Distinct-remove k xs d.1)
  ]

  pub Distinct-append_one :
      (k : K) (xs : List K) → contains k xs ≡ false → Distinct xs → Distinct (xs ++ (k ∷ []))
  unfolding contains
  Distinct-append_one k [] n d = (refl, tt)
  Distinct-append_one k (x ∷ xs) n d = (
    ground (arith, contains-append x xs (k ∷ []), d.0, e.beq_iff k x, e.beq_iff x k),
    Distinct-append_one k xs (ground arith) d.1,
  )

  pub Distinct-add : (k : K) (xs : List K) → Distinct xs → Distinct (add k xs)
  unfolding add
  Distinct-add k xs d = elim (Bool-cases (contains k xs)) [
    | inl there ↦ rw there d
    | inr missing ↦ rw missing (Distinct-append_one k xs missing d)
  ]

  pub length-add-le : (k : K) (xs : List K) → length (add k xs) ≤ length xs + 1
  unfolding add
  length-add-le k xs = ground (arith, length-append xs (k ∷ []))

  pub contains-keys-insert :
      {V : Type 0} (k j : K) (v : V) (m : Map K V)
      → contains j (keys (insert k v m)) ≡ (e.beq k j || contains j (keys m))
  unfolding insert contains
  contains-keys-insert k j v [] = refl
  contains-keys-insert k j v ((i, w) ∷ m) =
      ground (arith, e.beq_iff k j, e.beq_iff i k, e.beq_iff i j, contains-keys-insert k j v m)

  pub contains-keys-delete :
      {V : Type 0} (k j : K) (m : Map K V)
      → contains j (keys (delete k m)) ≡ (if e.beq k j then false else contains j (keys m))
  unfolding delete contains
  contains-keys-delete k j [] = ground arith
  contains-keys-delete k j ((i, w) ∷ m) =
      ground (arith, e.beq_iff k j, e.beq_iff i k, e.beq_iff i j, contains-keys-delete k j m)

  pub Distinct-keys-insert :
      {V : Type 0} (k : K) (v : V) (m : Map K V)
      → Distinct (keys m)
      → Distinct (keys (insert k v m))
  unfolding insert
  Distinct-keys-insert k v [] d = (unfold contains in refl, tt)
  Distinct-keys-insert k v ((j, w) ∷ m) d = elim (Bool-cases (e.beq j k)) [
    | inl same ↦ rw same (ground (arith, e.beq_iff j k, d.0), d.1)
    | inr other ↦ rw other (
      ground (arith, contains-keys-insert k j v m, d.0, e.beq_iff j k, e.beq_iff k j),
      Distinct-keys-insert k v m d.1,
    )
  ]

  pub Distinct-keys-delete :
      {V : Type 0} (k : K) (m : Map K V) → Distinct (keys m) → Distinct (keys (delete k m))
  unfolding delete
  Distinct-keys-delete k [] d = tt
  Distinct-keys-delete k ((j, w) ∷ m) d = elim (Bool-cases (e.beq j k)) [
    | inl same ↦ rw same (Distinct-keys-delete k m d.1)
    | inr other ↦
        rw other (ground (arith, contains-keys-delete k j m, d.0), Distinct-keys-delete k m d.1)
  ]

  -- A key that is not found stands nowhere.
  pub lookup-contains :
      {V : Type 0} (k : K) (m : Map K V) → lookup k m ≡ none → contains k (keys m) ≡ false
  unfolding lookup contains
  lookup-contains k [] h = refl
  lookup-contains k ((j, w) ∷ m) h = ground (arith, lookup-contains k m)
