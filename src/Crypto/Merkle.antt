-- ===== src/Crypto/Merkle.antt =====
-- `verify` of src/crypto/merkle.rs. SHA-256 of the concatenation of two hashes, which a library
-- computes, is the parameter `node`.
use prism_rust_vivek.Prelude.{
  ℕ, zero, suc, ◌+◌, ◌/◌, ◌%◌, ◌<◌, ◌≤◌, ◌≡◌, refl, Bool, true, false, List, [], ◌∷◌, length, leb,
  nat_beq, ◌==◌, if◌then◌else◌, nat_eq, arith, Bool-cases, inl, inr, ◌↔◌, Option, none, some, ◌>>=◌,
  add_u64, ◌^◌,
}
use prism_rust_vivek.Crypto.{H256}
use prism_rust_vivek.Crypto.Halvings.{
  tail, height, halvings, total, AreSizes, length-halvings, halvings-AreSizes, total-odd,
  AreSizes-tail, tail-AreSizes, length-tail, total-halvings, total-tail,
}

-- The sizes of the layers from the leaves to the root, each rounded up to an even size, on fuel.
-- `none` is a loop that does not end: the size 2 ^ 64 - 1 wraps around to 0, whose half is 0.
unfoldable pub layer_sizes : ℕ → ℕ → Option (List ℕ)
layer_sizes zero this_layer_size = none
layer_sizes (suc fuel) this_layer_size =
    let even = if this_layer_size % 2 == 1 then add_u64 this_layer_size 1 else this_layer_size in
    let rest = layer_sizes fuel (even / 2) in
    if this_layer_size == 1
    then some (this_layer_size ∷ [])
    else (rest >>= (λ sizes. some (even ∷ sizes)))

abbrev pub sum : List ℕ → ℕ
sum [] = 0
sum (x ∷ xs) = add_u64 x (sum xs)

module _ (node : H256 → H256 → H256) where
  -- The loop over the proof: `upper` are the sizes of the layers above the current one, whose sum is
  -- `layer_start`. There is one for each item of the proof.
  unfoldable pub fold_proof : H256 → List H256 → H256 → ℕ → List ℕ → Bool
  fold_proof root [] acc index upper = acc == root
  fold_proof root (h ∷ proof) acc index upper =
      let nodes_index = add_u64 (sum upper) index in
      let acc' = if nodes_index % 2 == 1 then node acc h else node h acc in
      let rest = fold_proof root proof acc' (index / 2) (tail upper) in
      if nodes_index == 0 then false else rest

  -- Halving `leaf_size` ends within `leaf_size` rounds, or not at all.
  unfoldable pub verify : H256 → H256 → List H256 → ℕ → ℕ → Option Bool
  unfolding fold_proof layer_sizes
  verify root value proof index leaf_size =
      if leb leaf_size index
      then some false
      else (layer_sizes leaf_size leaf_size >>= (λ sizes.
          if length sizes == length proof + 1
          then some (fold_proof root proof value index (tail sizes))
          else some false))

  -- The root that a proof leads to: at each layer an even index is a left child.
  unfoldable pub climb : H256 → List H256 → ℕ → H256
  climb acc [] index = acc
  climb acc (h ∷ proof) index =
      climb (if index % 2 == 0 then node acc h else node h acc) proof (index / 2)

layer_sizes-halvings :
    (fuel size : ℕ)
    → 0 < size
    → size ≤ fuel
    → size < 2 ^ 63
    → layer_sizes fuel size ≡ some (halvings fuel size)
unfolding layer_sizes halvings
layer_sizes-halvings zero size p h small = absurd (omega arith)
layer_sizes-halvings (suc fuel) size p h small = elim (Bool-cases (nat_beq size 1)) [
  | inl one ↦ rw one refl
  | inr more ↦ elim (Bool-cases (nat_beq (size % 2) 1)) [
    | inl odd ↦
        let e : add_u64 size 1 ≡ size + 1 = omega arith in
        let ih =
          layer_sizes-halvings fuel ((size + 1) / 2) (omega arith) (ground arith) (omega arith) in
        rw (more, odd, e, ih) refl
    | inr even ↦
        let ih = layer_sizes-halvings fuel (size / 2) (ground arith) (ground arith) (omega arith) in
        rw (more, even, ih) refl
  ]
]

sum-total : (xs : List ℕ) → total xs < 2 ^ 64 → sum xs ≡ total xs
sum-total [] h = refl
sum-total (x ∷ xs) h = omega (arith, sum-total xs (omega arith))

module _ (node : H256 → H256 → H256) where
  fold_proof-eq-climb :
      (root : H256) (proof : List H256) (acc index : ℕ) (upper : List ℕ)
      → AreSizes upper
      → length upper ≡ length proof
      → total upper + index < 2 ^ 64
      → fold_proof node root proof acc index upper ≡ (climb node acc proof index == root)
  unfolding fold_proof climb
  fold_proof-eq-climb root [] acc index upper h n small = refl
  fold_proof-eq-climb root (p ∷ proof) acc index [] h n small = absurd (omega (arith, n))
  fold_proof-eq-climb root (p ∷ proof) acc index (x ∷ xs) h n small =
      let odd = total-odd x xs h in
      let m : length xs ≡ length proof = omega (arith, n) in
      let next = λ (a : H256).
        fold_proof-eq-climb root proof a (index / 2) xs (AreSizes-tail x xs h) m (omega arith) in
      let s : add_u64 (sum (x ∷ xs)) index ≡ x + total xs + index =
        omega (arith, sum-total (x ∷ xs) (omega arith)) in
      elim (Bool-cases (nat_beq (index % 2) 0)) [
        | inl left ↦
            let a : nat_beq ((x + total xs + index) % 2) 1 ≡ true = ground arith in
            let b : nat_beq (x + total xs + index) 0 ≡ false = ground arith in
            rw (s, a, b, left) (next (node acc p))
        | inr right ↦
            let a : nat_beq ((x + total xs + index) % 2) 1 ≡ false = ground arith in
            let b : nat_beq (x + total xs + index) 0 ≡ false = ground arith in
            rw (s, a, b, right) (next (node p acc))
      ]

  -- For at most 2 ^ 62 leaves, `verify` returns: it accepts a proof if the index is that of a leaf,
  -- the proof has one hash for each layer above the leaves (`leaf_size` halved, rounding up, until it
  -- is 1), and hashing up from the leaf, with the item as the left child where the index is even,
  -- gives the root; and it rejects every other proof.
  pub verify_iff :
      (root value : H256) (proof : List H256) (index leaf_size : ℕ)
      → leaf_size ≤ 2 ^ 62
      → (accepted : Bool) × (verify node root value proof index leaf_size ≡ some accepted)
        × ((accepted ≡ true) ↔ (
            (index < leaf_size)
            × (length proof ≡ height leaf_size leaf_size)
            × (climb node value proof index ≡ root)))
  unfolding verify
  verify_iff root value proof index leaf_size small = elim (Bool-cases (leb leaf_size index)) [
    | inl out ↦ (false, rw out refl, ground (arith, out))
    | inr within ↦
        let p : 0 < leaf_size = ground arith in
        let sizes = halvings leaf_size leaf_size in
        let n = length-halvings leaf_size leaf_size p (omega arith) in
        let run = layer_sizes-halvings leaf_size leaf_size p (omega arith) (omega arith) in
        elim (Bool-cases (nat_beq (length sizes) (length proof + 1))) [
          | inl same ↦
              let k : length sizes ≡ suc (length proof) = ground (arith, same) in
              let all = total-halvings leaf_size leaf_size p (omega arith) in
              let upper = total-tail leaf_size leaf_size p (omega arith) in
              let e =
                fold_proof-eq-climb root proof value index (tail sizes)
                  (tail-AreSizes sizes (halvings-AreSizes leaf_size leaf_size p (omega arith)))
                  (length-tail sizes (length proof) k) (ground (arith, within, all, upper)) in
              (
                fold_proof node root proof value index (tail sizes),
                rw (within, run, same) refl,
                ground (arith, within, n, k, e),
              )
          | inr other ↦ (false, rw (within, run, other) refl, ground (arith, within, other, n))
        ]
  ]
