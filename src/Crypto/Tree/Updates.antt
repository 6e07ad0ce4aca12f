-- ===== src/Crypto/Tree/Updates.antt =====
-- The loop of `update` of src/crypto/merkle.rs: from a leaf to the root, it leaves the nodes of the
-- tree over the changed leaves.
use prism_rust_vivek.Prelude.{
  ℕ, zero, suc, ◌/◌, ◌<◌, ◌≤◌, ◌≡◌, refl, sym, true, false, some, List, [], ◌∷◌, ◌++◌, length,
  nat_beq, nat_eq, arith, Bool-cases, inl, inr, length-append, set, length-set,
}
use prism_rust_vivek.Crypto.{H256}
use prism_rust_vivek.Crypto.Halvings.{tail}
use prism_rust_vivek.Crypto.Tree.{data_sizes, double_last, update_node, updated_hash, update_layers}
use prism_rust_vivek.Crypto.Tree.Layers.{
  data_sizes-cons, stored, stored-one, stored-more, append_assoc, above, length-above, upper,
  upper-one, upper-more, above-fits, upper-odd,
}
use prism_rust_vivek.Crypto.Tree.Siblings.{around, around-more, data_sizes-one, data_sizes-more}
use prism_rust_vivek.Crypto.Tree.Stores.{above-set, update_node-more, update_node-one}
use prism_rust_vivek.Crypto.Tree.Rounds.{update_layers-cons, upper-IsBelow, next-hash}

module _ (node : H256 → H256 → H256) (item_hash : H256) (last : ℕ) where
  around-one :
      (fuel : ℕ) (layer after : List H256)
      → nat_beq (length layer) 1 ≡ true
      → around node (suc fuel) layer after ≡ layer ++ after
  around-one fuel layer after one = rw (upper-one node fuel layer one, stored-one layer one) refl

  update_layers-nil :
      (start index : ℕ) (nodes : List H256)
      → update_layers node item_hash last [] start index nodes ≡ some nodes
  unfolding update_layers
  update_layers-nil start index nodes = refl

  unfoldable pub Settles : ℕ → List H256 → List H256 → ℕ → H256 → Type 0
  Settles fuel layer after index value =
      update_layers node item_hash last (data_sizes fuel (length layer))
        (length (upper node fuel layer)) index (around node fuel layer after)
      ≡ some (around node fuel (set layer index value) after)

  unfoldable pub IsHashed : ℕ → List H256 → List H256 → ℕ → H256 → Type 0
  IsHashed fuel layer after index value =
      updated_hash node item_hash (around node fuel layer after) last (length layer)
        (length (upper node fuel layer)) index
      ≡ some value

  top-Settles :
      (fuel : ℕ) (layer after : List H256) (index : ℕ) (value : H256)
      → index < length layer
      → nat_beq (length layer) 1 ≡ true
      → IsHashed (suc fuel) layer after index value
      → Settles (suc fuel) layer after index value
  unfolding Settles IsHashed
  top-Settles fuel layer after index value h one hash =
      let size = length layer in
      let before = upper node (suc fuel) layer in
      let layer' = set layer index value in
      let one' : nat_beq (length layer') 1 ≡ true = rw (length-set layer index value) one in
      let e = around-one fuel layer after one in
      let stored' : update_node (around node (suc fuel) layer after) size (length before) index
            value
          ≡ some (layer' ++ after) =
        rw (e, upper-one node fuel layer one) (update_node-one layer after index value h one) in
      rw
        (
          data_sizes-cons (suc fuel) size (omega arith),
          data_sizes-one (suc fuel) size one,
          around-one fuel layer' after one',
        )
        (update_layers-cons node item_hash last size [] (length before) 0 index value
          (around node (suc fuel) layer after) (layer' ++ after) hash stored' tt
          (update_layers-nil 0 (index / 2) (layer' ++ after)))

  next-Settles :
      (fuel : ℕ) (layer after : List H256) (index : ℕ) (value digest : H256)
      → index < length layer
      → length layer ≤ suc (suc fuel)
      → nat_beq (length layer) 1 ≡ false
      → IsHashed (suc (suc fuel)) layer after index value
      → above node (set layer index value) ≡ set (above node layer) (index / 2) digest
      → Settles
          (suc fuel)
          (above node layer)
          (double_last (set layer index value) ++ after)
          (index / 2)
          digest
      → Settles (suc (suc fuel)) layer after index value
  unfolding Settles IsHashed
  next-Settles fuel layer after index value digest h fits more hash up rest =
      let size = length layer in
      let next = above node layer in
      let before = upper node (suc (suc fuel)) layer in
      let layer' = set layer index value in
      let doubled = double_last layer' in
      let sizes = tail (data_sizes (suc fuel) (length next)) in
      let more' : nat_beq (length layer') 1 ≡ false = rw (length-set layer index value) more in
      let p : 0 < size = omega arith in
      let odd = upper-odd node (suc fuel) layer p fits more in
      let e : before ++ (doubled ++ after) ≡ around node (suc fuel) next (doubled ++ after) =
        rw (upper-more node (suc fuel) layer more)
          (append_assoc (upper node (suc fuel) next) (stored next) (doubled ++ after)) in
      let stored' : update_node (around node (suc (suc fuel)) layer after) size (length before)
            index value
          ≡ some (around node (suc fuel) next (doubled ++ after)) =
        rw (stored-more layer more, sym e)
          (update_node-more before layer after index value h odd) in
      let rest' : update_layers node item_hash last (length next ∷ sizes)
            (length (upper node (suc fuel) next)) (index / 2)
            (around node (suc fuel) next (doubled ++ after))
          ≡ some (around node (suc (suc fuel)) layer' after) =
        rw
          (
            around-more node (suc fuel) layer' after more',
            up,
            sym (data_sizes-cons (suc fuel) (length next) (omega arith)),
          )
          rest in
      rw
        (
          data_sizes-cons (suc (suc fuel)) size (omega arith),
          data_sizes-more (suc fuel) layer node more (omega arith),
        )
        (update_layers-cons node item_hash last size (length next ∷ sizes) (length before)
          (length (upper node (suc fuel) next)) index value
          (around node (suc (suc fuel)) layer after)
          (around node (suc fuel) next (doubled ++ after)) hash stored'
          (upper-IsBelow node item_hash last fuel layer p fits more) rest')

  -- The loop, from a layer in which one node changes.
  pub update_layers-Settles :
      (fuel : ℕ) (layer after : List H256) (index value : ℕ)
      → index < length layer
      → length layer ≤ fuel
      → length (upper node fuel layer) ≤ last
      → IsHashed fuel layer after index value
      → Settles fuel layer after index value
  unfolding IsHashed
  update_layers-Settles zero layer after index value h fits low hash = absurd (omega arith)
  update_layers-Settles (suc zero) layer after index value h fits low hash =
      top-Settles zero layer after index value h (ground arith) hash
  update_layers-Settles (suc (suc fuel)) layer after index value h fits low hash =
      elim (Bool-cases (nat_beq (length layer) 1)) [
        | inl one ↦ top-Settles (suc fuel) layer after index value h one hash
        | inr more ↦
            let next = above node layer in
            let (left, right, l, r, up) = above-set node layer index value h in
            let size = length-above node layer in
            let smaller = above-fits node layer (suc fuel) (omega (arith, h)) fits more in
            let within : index / 2 < length next = ground (arith, size) in
            let low' : length (upper node (suc fuel) next ++ stored next) ≤ last =
              rw (sym (upper-more node (suc fuel) layer more)) low in
            let sum = length-append (upper node (suc fuel) next) (stored next) in
            let doubled = double_last (set layer index value) in
            next-Settles fuel layer after index value (node left right) h fits more hash up (
              update_layers-Settles (suc fuel) next (doubled ++ after) (index / 2) (node left right)
                within smaller.1 (omega (arith, low', sum))
                (next-hash node item_hash last fuel next doubled after (index / 2) within smaller.1
                  low' l r))
      ]
