-- ===== src/Crypto/Tree/Siblings.antt =====
-- The siblings that the loop of `proof` of src/crypto/merkle.rs collects: they lead from an item to
-- the root.
use prism_rust_vivek.Prelude.{
  ℕ, zero, suc, ◌+◌, ◌-◌, ◌/◌, ◌%◌, ◌<◌, ◌≤◌, ◌≡◌, ◌⊎◌, refl, sym, ap, true, false, some, List, [],
  ◌∷◌, ◌++◌, length, nat_beq, nat_eq, arith, Bool-cases, inl, inr, length-append, get_elem?, ltb,
  ◌>>=◌,
}
use prism_rust_vivek.Crypto.{H256}
use prism_rust_vivek.Crypto.Halvings.{tail, height}
use prism_rust_vivek.Crypto.Merkle.{climb}
use prism_rust_vivek.Crypto.Tree.{
  even_size, data_sizes, double_last, sibling_of, siblings, sub_usize,
}
use prism_rust_vivek.Crypto.Tree.Layers.{
  length-double_last, data_sizes-cons, stored, stored-more, append_assoc, above, length-above,
  upper, upper-more, above-fits, upper-odd,
}
use prism_rust_vivek.Crypto.Tree.Pairs.{
  partner, join, above-pair, climb-cons, height-more, sibling_of-partner,
}

siblings-run :
    (nodes : List H256) (size s : ℕ) (sizes : List ℕ) (start index : ℕ)
    → siblings nodes (size ∷ s ∷ sizes) start index ≡ (
        sibling_of nodes (start + index) >>= (λ sibling.
          (sub_usize start (even_size size)
            >>= (λ next. siblings nodes (s ∷ sizes) next (index / 2)))
          >>= (λ results. some (sibling ∷ results))))
unfolding siblings
siblings-run nodes size s sizes start index = refl

siblings-last :
    (nodes : List H256) (size start index : ℕ)
    → siblings nodes (size ∷ []) start index
      ≡ (sibling_of nodes (start + index) >>= (λ sibling. some (sibling ∷ [])))
unfolding siblings
siblings-last nodes size start index = refl

pub siblings-none : (nodes : List H256) (start index : ℕ) → siblings nodes [] start index ≡ some []
unfolding siblings
siblings-none nodes start index = refl

siblings-cons :
    (nodes : List H256) (size : ℕ) (sizes : List ℕ) (start next index : ℕ) {sibling : H256}
    {results : List H256}
    → sibling_of nodes (start + index) ≡ some sibling
    → (start ≡ next + even_size size) ⊎ (sizes ≡ [])
    → siblings nodes sizes next (index / 2) ≡ some results
    → siblings nodes (size ∷ sizes) start index ≡ some (sibling ∷ results)
siblings-cons nodes size [] start next index found top h =
    let e = siblings-none nodes next (index / 2) in
    rw (siblings-last nodes size start index, found) cc
siblings-cons nodes size (s ∷ sizes) start next index found top h = elim top [
  | inl e ↦
      let a : ltb start (even_size size) ≡ false = ground (arith, e) in
      let b : start - even_size size ≡ next = omega (arith, e) in
      rw (siblings-run nodes size s sizes start index, found, a, b, h) refl
  | inr e ↦ cc
]

data_sizes-tail :
    (fuel size : ℕ)
    → nat_beq size 1 ≡ false
    → tail (data_sizes (suc fuel) size) ≡ data_sizes fuel (even_size size / 2)
unfolding data_sizes
data_sizes-tail fuel size more = rw more refl

pub data_sizes-one : (fuel size : ℕ) → nat_beq size 1 ≡ true → tail (data_sizes fuel size) ≡ []
unfolding data_sizes
data_sizes-one zero size one = refl
data_sizes-one (suc fuel) size one = rw one refl

pub data_sizes-more :
    (fuel : ℕ) (layer : List H256) (node : H256 → H256 → H256)
    → nat_beq (length layer) 1 ≡ false
    → 0 < fuel
    → tail (data_sizes (suc fuel) (length layer))
      ≡ length (above node layer) ∷ tail (data_sizes fuel (length (above node layer)))
data_sizes-more fuel layer node more h =
    rw (data_sizes-tail fuel (length layer) more, sym (length-above node layer))
      (data_sizes-cons fuel (length (above node layer)) h)

module _ (node : H256 → H256 → H256) where
  -- the layers above a layer, with the layer itself and what follows it
  abbrev pub around : ℕ → List H256 → List H256 → List H256
  around fuel layer after = upper node fuel layer ++ (stored layer ++ after)

  pub around-more :
      (fuel : ℕ) (layer after : List H256)
      → nat_beq (length layer) 1 ≡ false
      → around (suc fuel) layer after ≡ around fuel (above node layer) (double_last layer ++ after)
  around-more fuel layer after more =
      rw (upper-more node fuel layer more, stored-more layer more)
        (append_assoc (upper node fuel (above node layer)) (stored (above node layer))
          (double_last layer ++ after))

  -- where the loop finds the layer above
  upper-start :
      (fuel : ℕ) (layer : List H256)
      → nat_beq (length layer) 1 ≡ false
      → (length (upper node (suc fuel) layer)
          ≡ length (upper node fuel (above node layer)) + even_size (length (above node layer)))
        ⊎ (tail (data_sizes fuel (length (above node layer))) ≡ [])
  upper-start fuel layer more =
      let next = above node layer in
      elim (Bool-cases (nat_beq (length next) 1)) [
        | inl one ↦ inr (data_sizes-one fuel (length next) one)
        | inr again ↦ inl (
            rw
              (
                upper-more node fuel layer more,
                length-append (upper node fuel next) (stored next),
                stored-more next again,
                length-double_last next,
              )
              refl)
      ]

  unfoldable pub Leads : ℕ → List H256 → List H256 → ℕ → H256 → Type 0
  Leads fuel layer after index value =
      (results : List H256) × (siblings (around fuel layer after)
          (tail (data_sizes fuel (length layer))) (length (upper node fuel layer)) index
        ≡ some results)
      × (get_elem? (around fuel layer after) 0 ≡ some (climb node value results index))
      × (length results ≡ height fuel (length layer))

  top-Leads :
      (fuel : ℕ) (layer after : List H256) (index : ℕ) {value : H256}
      → nat_beq (length layer) 1 ≡ true
      → get_elem? layer index ≡ some value
      → Leads (suc fuel) layer after index value
  unfolding Leads siblings upper stored data_sizes climb height
  top-Leads fuel [] after index one found = cc
  top-Leads fuel (x ∷ []) after zero one found = ([], refl, found, refl)
  top-Leads fuel (x ∷ []) after (suc i) one found = cc
  top-Leads fuel (x ∷ y ∷ rest) after index one found = absurd (ground (arith, one))

  next-Leads :
      (fuel : ℕ) (layer after : List H256) (index value sibling : H256)
      → 0 < fuel
      → nat_beq (length layer) 1 ≡ false
      → length (upper node (suc fuel) layer) % 2 ≡ 1
      → get_elem? (double_last layer) (partner index) ≡ some sibling
      → Leads fuel
          (above node layer)
          (double_last layer ++ after)
          (index / 2)
          (join node value sibling index)
      → Leads (suc fuel) layer after index value
  unfolding Leads
  next-Leads fuel layer after index value sibling h more odd pair (results, found, top, size) =
      let next = above node layer in
      let before = upper node (suc fuel) layer in
      let e = around-more fuel layer after more in
      let here : sibling_of (around (suc fuel) layer after) (length before + index) ≡ some sibling =
        rw (stored-more layer more)
          (sibling_of-partner before (double_last layer) after index odd pair) in
      (
        sibling ∷ results,
        rw (data_sizes-more fuel layer node more h) (
            siblings-cons (around (suc fuel) layer after) (length next)
              (tail (data_sizes fuel (length next))) (length before) (length (upper node fuel next))
              index here (upper-start fuel layer more) (rw e found)),
        rw (e, climb-cons node value sibling results index) top,
        rw (height-more fuel (length layer) more, sym (length-above node layer)) (ap suc size),
      )

  -- From the item at an index of a layer, the loop collects siblings that lead to the first node,
  -- one for each layer above.
  pub siblings-Leads :
      (fuel : ℕ) (layer after : List H256) (index : ℕ) {value : H256}
      → 0 < length layer
      → length layer ≤ fuel
      → get_elem? layer index ≡ some value
      → Leads fuel layer after index value
  siblings-Leads zero layer after index p h found = absurd (omega arith)
  siblings-Leads (suc fuel) layer after index p h found =
      elim (Bool-cases (nat_beq (length layer) 1)) [
        | inl one ↦ top-Leads fuel layer after index one found
        | inr more ↦
            let (below, fits) = above-fits node layer fuel p h more in
            let pair = above-pair node layer index found in
            next-Leads fuel layer after index _ pair.0 (omega arith) more
              (upper-odd node fuel layer p h more) pair.1
              (siblings-Leads fuel (above node layer) (double_last layer ++ after) (index / 2) below
                fits pair.2)
      ]
