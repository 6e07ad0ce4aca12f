-- ===== src/Crypto/Tree/Rounds.antt =====
-- The rounds of `update` of src/crypto/merkle.rs: what each stores, and where the next one begins.
use prism_rust_vivek.Prelude.{
  ℕ, suc, ◌+◌, ◌-◌, ◌*◌, ◌/◌, ◌<◌, ◌≤◌, ◌≡◌, refl, sym, ap, ◌∙◌, true, false, some, List, [], ◌∷◌,
  ◌++◌, length, nat_beq, nat_eq, arith, Bool-cases, inl, inr, length-append, get_elem?, ltb, leb,
  ◌>>=◌,
}
use prism_rust_vivek.Crypto.{H256}
use prism_rust_vivek.Crypto.Halvings.{tail}
use prism_rust_vivek.Crypto.Tree.{
  even_size, data_sizes, sub_usize, update_node, digest_at, updated_hash, update_layers,
}
use prism_rust_vivek.Crypto.Tree.Layers.{
  length-double_last, stored, stored-one, stored-more, above, upper, upper-one, upper-more,
  above-fits, upper-odd,
}
use prism_rust_vivek.Crypto.Tree.Siblings.{around, data_sizes-one, data_sizes-more}
use prism_rust_vivek.Crypto.Tree.Stores.{digest_at-append}

-- Where the next round begins: at 0 for the root.
abbrev pub IsBelow : List ℕ → ℕ → ℕ → Type 0
IsBelow [] start next = Unit
IsBelow (above ∷ []) start next = next ≡ 0
IsBelow (above ∷ _ ∷ _) start next = start ≡ next + even_size above

module _ (node : H256 → H256 → H256) (item_hash : H256) (last : ℕ) where
  update_layers-run :
      (size above b : ℕ) (sizes : List ℕ) (start index : ℕ) (nodes : List H256)
      → update_layers node item_hash last (size ∷ above ∷ b ∷ sizes) start index nodes ≡ (
          updated_hash node item_hash nodes last size start index >>= (λ value.
            update_node nodes size start index value >>= (λ nodes'.
              sub_usize start (even_size above) >>= (λ next.
                update_layers node item_hash last (above ∷ b ∷ sizes) next (index / 2) nodes'))))
  unfolding update_layers
  update_layers-run size above b sizes start index nodes = refl

  update_layers-below_root :
      (size above start index : ℕ) (nodes : List H256)
      → update_layers node item_hash last (size ∷ above ∷ []) start index nodes ≡ (
          updated_hash node item_hash nodes last size start index >>= (λ value.
            update_node nodes size start index value
            >>= (λ nodes'. update_layers node item_hash last (above ∷ []) 0 (index / 2) nodes')))
  unfolding update_layers
  update_layers-below_root size above start index nodes = refl

  update_layers-root :
      (size start index next : ℕ) (nodes : List H256)
      → update_layers node item_hash last (size ∷ []) start index nodes ≡ (
          updated_hash node item_hash nodes last size start index >>= (λ value.
            update_node nodes size start index value
            >>= (λ nodes'. update_layers node item_hash last [] next (index / 2) nodes')))
  unfolding update_layers
  update_layers-root size start index next nodes = refl

  pub update_layers-cons :
      (size : ℕ) (sizes : List ℕ) (start next index value : ℕ) (nodes nodes' : List H256)
      {result : List H256}
      → updated_hash node item_hash nodes last size start index ≡ some value
      → update_node nodes size start index value ≡ some nodes'
      → IsBelow sizes start next
      → update_layers node item_hash last sizes next (index / 2) nodes' ≡ some result
      → update_layers node item_hash last (size ∷ sizes) start index nodes ≡ some result
  update_layers-cons size [] start next index value nodes nodes' a b c d =
      rw (update_layers-root size start index next nodes, a, b) d
  update_layers-cons size (s ∷ []) start next index value nodes nodes' a b c d =
      rw (update_layers-below_root size s start index nodes, a, b, sym c) d
  update_layers-cons size (s ∷ t ∷ sizes) start next index value nodes nodes' a b c d =
      let e : ltb start (even_size s) ≡ false = ground (arith, c) in
      let f : start - even_size s ≡ next = omega (arith, c) in
      rw (update_layers-run size s t sizes start index nodes, a, b, e, f) d

  pub upper-IsBelow :
      (fuel : ℕ) (layer : List H256)
      → 0 < length layer
      → length layer ≤ suc (suc fuel)
      → nat_beq (length layer) 1 ≡ false
      → IsBelow
          (length (above node layer) ∷ tail (data_sizes (suc fuel) (length (above node layer))))
          (length (upper node (suc (suc fuel)) layer))
          (length (upper node (suc fuel) (above node layer)))
  upper-IsBelow fuel layer p h more =
      let next = above node layer in
      elim (Bool-cases (nat_beq (length next) 1)) [
        | inl one ↦
            rw (data_sizes-one (suc fuel) (length next) one, upper-one node fuel next one) refl
        | inr again ↦
            let fits = above-fits node layer (suc fuel) p h more in
            let grows : 0 < fuel = ground (arith, fits, again) in
            let d = data_sizes-more fuel next node again grows in
            rw
              (
                d,
                upper-more node (suc fuel) layer more,
                length-append (upper node (suc fuel) next) (stored next),
                stored-more next again,
                length-double_last next,
              )
              refl
      ]

  pub hash-leaf :
      (nodes : List H256) (size start index : ℕ)
      → leb last (start + index) ≡ true
      → updated_hash node item_hash nodes last size start index ≡ some item_hash
  unfolding updated_hash
  hash-leaf nodes size start index h = rw h refl

  hash-inner :
      (nodes : List H256) (size start index : ℕ)
      → leb last (start + index) ≡ false
      → ltb 0 (start + index) ≡ true
      → updated_hash node item_hash nodes last size start index
        ≡ digest_at node nodes (start + index * 2 + even_size size)
  unfolding updated_hash
  hash-inner nodes size start index h k = rw (h, k) refl

  hash-root :
      (nodes : List H256) (size start index : ℕ)
      → leb last (start + index) ≡ false
      → ltb 0 (start + index) ≡ false
      → updated_hash node item_hash nodes last size start index ≡ digest_at node nodes 1
  unfolding updated_hash
  hash-root nodes size start index h k = rw (h, k) refl

  -- The round above a layer hashes the pair that the changed node is in.
  pub next-hash :
      (fuel : ℕ) (layer doubled after : List H256) (index : ℕ) {left right : H256}
      → index < length layer
      → length layer ≤ suc fuel
      → length (upper node (suc fuel) layer ++ stored layer) ≤ last
      → get_elem? doubled (index * 2) ≡ some left
      → get_elem? doubled (index * 2 + 1) ≡ some right
      → updated_hash node item_hash
          (around node (suc fuel) layer (doubled ++ after))
          last
          (length layer)
          (length (upper node (suc fuel) layer))
          index
        ≡ some (node left right)
  next-hash fuel layer doubled after index h fits low l r =
      let before = upper node (suc fuel) layer in
      let nodes = around node (suc fuel) layer (doubled ++ after) in
      let sum = length-append before (stored layer) in
      elim (Bool-cases (nat_beq (length layer) 1)) [
        | inl one ↦
            let a = ap (λ (xs : List H256). length xs) (upper-one node fuel layer one) in
            let s = ap (λ (xs : List H256). length xs) (stored-one layer one) in
            let inner : leb last (length before + index) ≡ false = ground arith in
            let first : ltb 0 (length before + index) ≡ false = ground arith in
            let at : 1 ≡ length before + (length (stored layer) + index * 2) = ground arith in
            hash-root nodes (length layer) (length before) index inner first
            ∙ digest_at-append node before (stored layer) doubled after 1 (index * 2) at l r
        | inr more ↦
            let d = length-double_last layer in
            let s = ap (λ (xs : List H256). length xs) (stored-more layer more) in
            let odd = upper-odd node fuel layer (omega (arith, h)) fits more in
            let inner : leb last (length before + index) ≡ false = ground arith in
            let positive : ltb 0 (length before + index) ≡ true = ground arith in
            let at : length before + index * 2 + even_size (length layer)
                ≡ length before + (length (stored layer) + index * 2) =
              omega (arith, s, d) in
            hash-inner nodes (length layer) (length before) index inner positive
            ∙ digest_at-append node before (stored layer) doubled after
                (length before + index * 2 + even_size (length layer)) (index * 2) at l r
      ]
