-- ===== src/Crypto/Tree/Pairs.antt =====
-- The two items of a pair, in a layer of a tree of src/crypto/merkle.rs and in the one above.
use prism_rust_vivek.Prelude.{
  ℕ, zero, suc, ◌+◌, ◌-◌, ◌/◌, ◌%◌, ◌≡◌, ◌⊎◌, refl, ◌∙◌, true, false, some, List, [], ◌∷◌, ◌++◌,
  length, nat_beq, ◌==◌, if◌then◌else◌, nat_eq, arith, inl, inr, get_elem?, ltb,
}
use prism_rust_vivek.Crypto.{H256}
use prism_rust_vivek.Crypto.Halvings.{height}
use prism_rust_vivek.Crypto.Merkle.{climb}
use prism_rust_vivek.Crypto.Tree.{even_size, double_last, hash_pairs, sibling_of}
use prism_rust_vivek.Crypto.Tree.Layers.{get_elem?-append, get_elem?-before, above}

-- the other item of a pair
unfoldable pub partner : ℕ → ℕ
partner zero = 1
partner (suc zero) = 0
partner (suc (suc i)) = suc (suc (partner i))

partner_lem : (i : ℕ) → ((i % 2 ≡ 0) × (partner i ≡ i + 1)) ⊎ ((i % 2 ≡ 1) × (suc (partner i) ≡ i))
unfolding partner
partner_lem zero = inl (omega arith, omega arith)
partner_lem (suc zero) = inr (omega arith, omega arith)
partner_lem (suc (suc i)) = elim (partner_lem i) [
  | inl h ↦ inl (omega (arith, h.0), omega (arith, h.1))
  | inr h ↦ inr (omega (arith, h.0), omega (arith, h.1))
]

module _ (node : H256 → H256 → H256) where
  abbrev pub join : H256 → H256 → ℕ → H256
  join value sibling index = if index % 2 == 0 then node value sibling else node sibling value

  -- The item above two partners is the digest of the two.
  pub above-pair :
      (layer : List H256) (index : ℕ) {value : H256}
      → get_elem? layer index ≡ some value
      → (sibling : H256) × (get_elem? (double_last layer) (partner index) ≡ some sibling)
        × (get_elem? (above node layer) (index / 2) ≡ some (join value sibling index))
  unfolding partner double_last hash_pairs
  above-pair [] index h = cc
  above-pair (x ∷ []) zero h = (x, refl, cc)
  above-pair (x ∷ []) (suc i) h = cc
  above-pair (x ∷ y ∷ rest) zero h = (y, refl, cc)
  above-pair (x ∷ y ∷ rest) (suc zero) h = (x, refl, cc)
  above-pair (x ∷ y ∷ rest) (suc (suc i)) h =
      let ih = above-pair rest i h in
      let e : suc (suc i) / 2 ≡ suc (i / 2) = omega arith in
      let f : suc (suc i) % 2 ≡ i % 2 = omega arith in (ih.0, ih.1, rw (e, f) ih.2)

  pub climb-cons :
      (value sibling : H256) (results : List H256) (index : ℕ)
      → climb node value (sibling ∷ results) index
        ≡ climb node (join value sibling index) results (index / 2)
  unfolding climb
  climb-cons value sibling results index = refl

pub height-more :
    (fuel size : ℕ)
    → nat_beq size 1 ≡ false
    → height (suc fuel) size ≡ suc (height fuel (even_size size / 2))
unfolding height
height-more fuel size more =
    let e : even_size size / 2 ≡ (size + 1) / 2 = ground arith in rw (more, e) refl

-- The layer that begins after an odd number of nodes has even indices on the left.
pub sibling_of-partner :
    (before layer after : List H256) (index : ℕ) {sibling : H256}
    → length before % 2 ≡ 1
    → get_elem? layer (partner index) ≡ some sibling
    → sibling_of (before ++ (layer ++ after)) (length before + index) ≡ some sibling
unfolding sibling_of
sibling_of-partner before layer after index odd h =
    let found =
      get_elem?-append before (layer ++ after) (partner index)
      ∙ get_elem?-before layer after (partner index) h in
    elim (partner_lem index) [
      | inl left ↦
          let a : nat_beq ((length before + index) % 2) 1 ≡ true = ground (arith, left.0) in
          let b : length before + index + 1 ≡ length before + partner index =
            omega (arith, left.1) in
          rw (a, b) found
      | inr right ↦
          let a : nat_beq ((length before + index) % 2) 1 ≡ false = ground (arith, right.0) in
          let b : length before + index - 1 ≡ length before + partner index =
            omega (arith, right.1) in
          let c : ltb (length before + index) 1 ≡ false = ground (arith, odd) in rw (a, c, b) found
    ]
