-- ===== src/Crypto/Tree/Proofs.antt =====
-- That `verify` accepts what `proof` of src/crypto/merkle.rs gives.
use prism_rust_vivek.Prelude.{
  ℕ, zero, suc, ◌+◌, ◌-◌, ◌<◌, ◌≡◌, ◌≤◌, ◌^◌, ◌⊎◌, refl, sym, ap, ◌∙◌, true, false, some, List, [],
  ◌∷◌, ◌++◌, length, map, nat_beq, nat_eq, arith, Bool-cases, inl, inr, length-append, get_elem?,
  lt-get_elem?, ltb, leb, ◌>>=◌, length-map,
}
use prism_rust_vivek.Crypto.{H256}
use prism_rust_vivek.Crypto.Halvings.{tail, height}
use prism_rust_vivek.Crypto.Merkle.{climb, verify, verify_iff}
use prism_rust_vivek.Crypto.Tree.{even_size, data_sizes, siblings, sub_usize, new, root, proof}
use prism_rust_vivek.Crypto.Tree.Layers.{
  fill-eq, upper, stored, data_sizes-cons, length-double_last, stored-more,
}
use prism_rust_vivek.Crypto.Tree.Siblings.{
  siblings-Leads, Leads, around, data_sizes-one, siblings-none,
}

get_elem?-map {ℓ} :
    {T : Type ℓ} (f : T → H256) (items : List T) (i : ℕ) {item : T}
    → get_elem? items i ≡ some item
    → get_elem? (map f items) i ≡ some (f item)
get_elem?-map f [] i h = cc
get_elem?-map f (x ∷ xs) zero h = cc
get_elem?-map f (x ∷ xs) (suc i) h = get_elem?-map f xs i h

root-nodes :
    (sizes : List ℕ) (nodes : List H256) {top : H256}
    → get_elem? nodes 0 ≡ some top
    → root (record { data_size = sizes; nodes = nodes }) ≡ top
unfolding root
root-nodes sizes [] h = cc
root-nodes sizes (x ∷ nodes) h = cc

proof-run :
    (nodes : List H256) (size above index : ℕ) (sizes : List ℕ)
    → index < size
    → proof (record { data_size = size ∷ above ∷ sizes; nodes = nodes }) index ≡ (
        sub_usize (length nodes) (even_size size)
        >>= (λ start. siblings nodes (above ∷ sizes) start index))
unfolding proof
proof-run nodes size above index sizes h =
    let a : leb size index ≡ false = ground arith in rw a refl

proof-one :
    (nodes : List H256) (size index : ℕ)
    → proof (record { data_size = size ∷ []; nodes = nodes }) index ≡ some []
unfolding proof
proof-one nodes size index = refl

proof-siblings :
    (nodes : List H256) (size index start : ℕ) (sizes : List ℕ) {results : List H256}
    → index < size
    → (sizes ≡ []) ⊎ (length nodes ≡ start + even_size size)
    → siblings nodes sizes start index ≡ some results
    → proof (record { data_size = size ∷ sizes; nodes = nodes }) index ≡ some results
proof-siblings nodes size index start [] h k m =
    let e = siblings-none nodes start index in proof-one nodes size index ∙ cc
proof-siblings nodes size index start (above ∷ sizes) h k m = elim k [
  | inl e ↦ cc
  | inr e ↦
      let b : ltb (length nodes) (even_size size) ≡ false = ground (arith, e) in
      let c : length nodes - even_size size ≡ start = omega (arith, e) in
      proof-run nodes size above index sizes h ∙ rw (b, c) m
]

module _ {ℓ} {T : Type ℓ} (node : H256 → H256 → H256) (hash : T → H256) where
  pub new-around :
      (items : List T)
      → 0 < length items
      → new node hash items ≡ record {
        data_size = data_sizes (length items) (length items);
        nodes = around node (length items) (map hash items) [];
      }
  unfolding new
  new-around items h =
      let more : nat_beq (length items) 0 ≡ false = ground arith in
      let e = length-map hash items in
      rw
        (
          more,
          fill-eq node (length items) (map hash items) [] (omega (arith, e)) (omega (arith, e)),
        )
        refl

  -- where the leaves are, if they are not the root
  pub length-nodes :
      (items : List T)
      → nat_beq (length items) 1 ≡ false
      → length (around node (length items) (map hash items) [])
        ≡ length (upper node (length items) (map hash items)) + even_size (length items)
  length-nodes items more =
      let layer = map hash items in
      let before = upper node (length items) layer in
      let e = length-map hash items in
      let m : nat_beq (length layer) 1 ≡ false = rw e more in
      let a = length-append before (stored layer ++ []) in
      let b = length-append (stored layer) [] in
      let c = length-double_last layer in rw (a, b, stored-more layer m, c, e) (omega arith)

  leaves-start :
      (items : List T)
      → (tail (data_sizes (length items) (length items)) ≡ [])
        ⊎ (length (around node (length items) (map hash items) [])
            ≡ length (upper node (length items) (map hash items)) + even_size (length items))
  leaves-start items = elim (Bool-cases (nat_beq (length items) 1)) [
    | inl one ↦ inl (data_sizes-one (length items) (length items) one)
    | inr more ↦ inr (length-nodes items more)
  ]

  leaves-lead :
      (items : List T) (index : ℕ) {item : T}
      → get_elem? items index ≡ some item
      → (results : List H256) × (siblings
            (around node (length items) (map hash items) [])
            (tail (data_sizes (length items) (length items)))
            (length (upper node (length items) (map hash items)))
            index
          ≡ some results)
        × (get_elem? (around node (length items) (map hash items) []) 0
            ≡ some (climb node (hash item) results index))
        × (length results ≡ height (length items) (length items))
  unfolding Leads
  leaves-lead items index found =
      let layer = map hash items in
      let e = length-map hash items in
      let h = lt-get_elem? items index found in
      rw (sym e) (
        siblings-Leads node (length layer) layer [] index (omega (arith, e, h)) (omega arith)
          (get_elem?-map hash items index found))

  -- For an index at which a tree of at most 2 ^ 62 items has an item, `proof` gives a proof without a
  -- panic, and `verify` accepts it for the item, the index and the root of the tree.
  pub verify-proof :
      (items : List T) (index : ℕ) {item : T}
      → length items ≤ 2 ^ 62
      → get_elem? items index ≡ some item
      → (results : List H256) × (proof (new node hash items) index ≡ some results)
        × (verify node (root (new node hash items)) (hash item) results index (length items)
            ≡ some true)
  verify-proof items index {item} small found =
      let size = length items in
      let layer = map hash items in
      let nodes = around node size layer [] in
      let h = lt-get_elem? items index found in
      let (results, s, top, n) = leaves-lead items index found in
      let sizes = tail (data_sizes size size) in
      let e : new node hash items ≡ record { data_size = size ∷ sizes; nodes = nodes } =
        new-around items (omega (arith, h))
        ∙ ap (λ ds. record { data_size = ds; nodes = nodes })
            (data_sizes-cons size size (omega (arith, h))) in
      let r = root-nodes (size ∷ sizes) nodes top in
      let (accepted, run, iff) =
        verify_iff node (climb node (hash item) results index) (hash item) results index size
          small in
      (
        results,
        rw e (
            proof-siblings nodes size index (length (upper node size layer)) sizes h
              (leaves-start items) s),
        rw (e, r, run) (ap some (iff.1 (h, n, refl))),
      )
