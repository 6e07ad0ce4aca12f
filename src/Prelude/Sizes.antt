-- ===== src/Prelude/Sizes.antt =====
-- Tables whose keys differ, the size of a table, and a weight summed over its entries.
use Prim.Native.Nat.{ℕ, ◌+◌}
use mathlib.Core.Path.{◌≡◌, refl}
use mathlib.Core.List.{[], ◌∷◌}
use mathlib.Core.Option.{none, some}
use native.Mathlib.Omega.{arith}
use prism_rust_vivek.Prelude.Classes.{Eq}
use prism_rust_vivek.Prelude.Lists.{length}
use prism_rust_vivek.Prelude.Tables.{Table, lookup, insert, remove, lookup-insert, lookup-remove}

module _ {ℓ κ} {K : Type ℓ} {V : Type κ} ⦃e : Eq K⦄ where
  abbrev pub HasDistinctKeys : Table K V → Type κ
  HasDistinctKeys [] = Unit
  HasDistinctKeys ((k, v) ∷ m) = (lookup k m ≡ none) × HasDistinctKeys m

  -- The sum of a weight over the entries.
  abbrev pub total : (V → ℕ) → Table K V → ℕ
  total w [] = 0
  total w ((k, v) ∷ m) = w v + total w m

  pub insert-HasDistinctKeys :
      (k : K) (v : V) (m : Table K V) → HasDistinctKeys m → HasDistinctKeys (insert k v m)
  unfolding insert
  insert-HasDistinctKeys k v [] h = (unfold lookup in refl, tt)
  insert-HasDistinctKeys k v ((j, w) ∷ m) h =
      ground (
        arith,
        e.beq_iff j k,
        e.beq_iff k j,
        lookup-insert k j v m,
        insert-HasDistinctKeys k v m h.1,
      )

  pub remove-HasDistinctKeys :
      (k : K) (m : Table K V) → HasDistinctKeys m → HasDistinctKeys (remove k m)
  unfolding remove
  remove-HasDistinctKeys k [] h = tt
  remove-HasDistinctKeys k ((j, w) ∷ m) h =
      ground (arith, lookup-remove k j m, remove-HasDistinctKeys k m h.1)

  pub remove-absent : (k : K) (m : Table K V) → lookup k m ≡ none → remove k m ≡ m
  unfolding remove lookup
  remove-absent k [] h = refl
  remove-absent k ((j, w) ∷ m) h = ground (arith, remove-absent k m)

  pub total-insert :
      (f : V → ℕ) (k : K) (v : V) (m : Table K V)
      → lookup k m ≡ none
      → total f (insert k v m) ≡ f v + total f m
  unfolding insert lookup
  total-insert f k v [] h = refl
  total-insert f k v ((j, w) ∷ m) h = ground (arith, total-insert f k v m)

  pub total-remove :
      (f : V → ℕ) (k : K) (v : V) (m : Table K V)
      → HasDistinctKeys m
      → lookup k m ≡ some v
      → total f (remove k m) + f v ≡ total f m
  unfolding remove lookup
  total-remove f k v [] d h = cc
  total-remove f k v ((j, w) ∷ m) d h =
      ground (arith, e.beq_iff j k, total-remove f k v m d.1, remove-absent k m)

  -- The size of a table is the weight that counts every entry once.
  pub length-eq-total : (m : Table K V) → length m ≡ total (λ v. 1) m
  length-eq-total [] = refl
  length-eq-total ((k, v) ∷ m) = omega (arith, length-eq-total m)
