-- ===== src/Prelude/Tables.antt =====
-- `HashMap`, `BTreeMap` and a column family as an association list, `HashSet` as a list.
-- A write replaces the entry of its key, or adds one at the end.
use mathlib.Core.Path.{◌≡◌, refl}
use mathlib.Core.Bool.{Bool, true, false}
use mathlib.Core.List.{List, [], ◌∷◌}
use mathlib.Core.Option.{Option, none, some}
use native.Mathlib.Omega.{arith}
use prism_rust_vivek.Prelude.Tests.{if◌then◌else◌}
use prism_rust_vivek.Prelude.Classes.{Eq, ◌==◌}

abbrev pub Table {ℓ κ} : Type ℓ → Type κ → Type (ℓ ⊔ κ)
Table K V = List (K × V)

module _ {ℓ κ} {K : Type ℓ} {V : Type κ} ⦃e : Eq K⦄ where
  unfoldable pub lookup : K → Table K V → Option V
  lookup key [] = none
  lookup key ((k, v) ∷ table) = if k == key then some v else lookup key table

  unfoldable pub insert : K → V → Table K V → Table K V
  insert key new [] = (key, new) ∷ []
  insert key new ((k, v) ∷ table) =
      if k == key then (key, new) ∷ table else (k, v) ∷ insert key new table

  unfoldable pub remove : K → Table K V → Table K V
  remove k [] = []
  remove k ((j, w) ∷ m) = let rest = remove k m in if j == k then rest else (j, w) ∷ rest

  abbrev pub contains_key : K → Table K V → Bool
  contains_key k m = elim (lookup k m) [ none ↦ false | some _ ↦ true ]

  pub lookup-insert :
      (key other : K) (new : V) (table : Table K V)
      → lookup other (insert key new table)
        ≡ (if key == other then some new else lookup other table)
  unfolding lookup insert
  lookup-insert key other new [] = refl
  lookup-insert key other new ((k, v) ∷ table) = ground (
    arith,
    e.beq_iff key other,
    e.beq_iff k key,
    e.beq_iff k other,
    lookup-insert key other new table,
  )

  pub lookup-remove :
      (k j : K) (m : Table K V) → lookup j (remove k m) ≡ (if k == j then none else lookup j m)
  unfolding lookup remove
  lookup-remove k j [] = ground arith
  lookup-remove k j ((i, w) ∷ m) =
      ground (arith, e.beq_iff k j, e.beq_iff i k, e.beq_iff i j, lookup-remove k j m)

  pub lookup-empty : (k : K) → lookup k [] ≡ none
  unfolding lookup
  lookup-empty k = refl

pub ruleset table_laws = (lookup-empty, lookup-insert, lookup-remove)

module _ {ℓ} {K : Type ℓ} ⦃e : Eq K⦄ where
  -- `HashSet::contains`
  unfoldable pub elem : K → List K → Bool
  elem k [] = false
  elem k (j ∷ s) = if j == k then true else elem k s

  -- `HashSet::insert`: nothing changes if the item is there.
  unfoldable pub add : K → List K → List K
  add k [] = k ∷ []
  add k (j ∷ s) = if j == k then j ∷ s else j ∷ add k s

  -- `HashSet::remove`
  unfoldable pub discard : K → List K → List K
  discard k [] = []
  discard k (j ∷ s) = let rest = discard k s in if j == k then rest else j ∷ rest

  pub elem-add : (k j : K) (s : List K) → elem j (add k s) ≡ (if k == j then true else elem j s)
  unfolding elem add
  elem-add k j [] = refl
  elem-add k j (i ∷ s) = ground (arith, e.beq_iff k j, e.beq_iff i k, e.beq_iff i j, elem-add k j s)

  pub elem-discard :
      (k j : K) (s : List K) → elem j (discard k s) ≡ (if k == j then false else elem j s)
  unfolding elem discard
  elem-discard k j [] = ground arith
  elem-discard k j (i ∷ s) =
      ground (arith, e.beq_iff k j, e.beq_iff i k, e.beq_iff i j, elem-discard k j s)

  pub beq_refl : (k : K) → (k == k) ≡ true
  beq_refl k = (e.beq_iff k k).1 refl

pub ruleset set_laws = (elem-add, elem-discard)
