-- ===== src/Crypto/Tree/Layers.antt =====
-- The layers of a tree of src/crypto/merkle.rs: their sizes, and where each stands among the nodes.
use prism_rust_vivek.Prelude.{
  ℕ, zero, suc, ◌+◌, ◌/◌, ◌%◌, ◌<◌, ◌≤◌, ◌≡◌, refl, sym, ap, ◌∙◌, true, false, List, [], ◌∷◌, ◌++◌,
  length, nat_beq, ◌==◌, if◌then◌else◌, nat_eq, arith, Bool-cases, inl, inr, length-append,
  get_elem?, Option,
}
use prism_rust_vivek.Crypto.{H256}
use prism_rust_vivek.Crypto.Halvings.{tail}
use prism_rust_vivek.Crypto.Tree.{even_size, data_sizes, double_last, hash_pairs, fill}

pub length-double_last : (layer : List H256) → length (double_last layer) ≡ even_size (length layer)
unfolding double_last
length-double_last [] = refl
length-double_last (x ∷ []) = refl
length-double_last (x ∷ y ∷ rest) = ground (arith, length-double_last rest)

pub data_sizes-cons :
    (fuel size : ℕ) → 0 < fuel → data_sizes fuel size ≡ size ∷ tail (data_sizes fuel size)
unfolding data_sizes
data_sizes-cons zero size h = absurd (omega arith)
data_sizes-cons (suc fuel) size h = ground arith

-- What a layer is stored as.
unfoldable pub stored : List H256 → List H256
stored layer = if length layer == 1 then layer else double_last layer

pub stored-one : (layer : List H256) → nat_beq (length layer) 1 ≡ true → stored layer ≡ layer
unfolding stored
stored-one layer one = rw one refl

pub stored-more :
    (layer : List H256) → nat_beq (length layer) 1 ≡ false → stored layer ≡ double_last layer
unfolding stored
stored-more layer more = rw more refl

pub append_assoc : (xs ys zs : List H256) → (xs ++ ys) ++ zs ≡ xs ++ (ys ++ zs)
append_assoc [] ys zs = refl
append_assoc (x ∷ xs) ys zs = ap (λ r. x ∷ r) (append_assoc xs ys zs)

pub get_elem?-append :
    (xs ys : List H256) (i : ℕ) → get_elem? (xs ++ ys) (length xs + i) ≡ get_elem? ys i
get_elem?-append [] ys i = let e : 0 + i ≡ i = omega arith in rw e refl
get_elem?-append (x ∷ xs) ys i =
    let e : suc (length xs) + i ≡ suc (length xs + i) = omega arith in
    rw e (get_elem?-append xs ys i)

pub get_elem?-before :
    (xs ys : List H256) (i : ℕ) {value : H256}
    → get_elem? xs i ≡ Option.some value
    → get_elem? (xs ++ ys) i ≡ Option.some value
get_elem?-before [] ys i h = cc
get_elem?-before (x ∷ xs) ys zero h = h
get_elem?-before (x ∷ xs) ys (suc i) h = get_elem?-before xs ys i h

module _ (node : H256 → H256 → H256) where
  abbrev pub above : List H256 → List H256
  above layer = hash_pairs node (double_last layer)

  pub length-above : (layer : List H256) → length (above layer) ≡ even_size (length layer) / 2
  unfolding double_last hash_pairs
  length-above [] = omega arith
  length-above (x ∷ []) = omega arith
  length-above (x ∷ y ∷ rest) = ground (arith, length-above rest)

  -- The layers above a layer, from the root down.
  unfoldable pub upper : ℕ → List H256 → List H256
  upper zero layer = []
  upper (suc fuel) layer =
      let rest = upper fuel (above layer) ++ stored (above layer) in
      if length layer == 1 then [] else rest

  pub upper-one :
      (fuel : ℕ) (layer : List H256) → nat_beq (length layer) 1 ≡ true → upper (suc fuel) layer ≡ []
  unfolding upper
  upper-one fuel layer one = rw one refl

  pub upper-more :
      (fuel : ℕ) (layer : List H256)
      → nat_beq (length layer) 1 ≡ false
      → upper (suc fuel) layer ≡ upper fuel (above layer) ++ stored (above layer)
  unfolding upper
  upper-more fuel layer more = rw more refl

  pub above-fits :
      (layer : List H256) (fuel : ℕ)
      → 0 < length layer
      → length layer ≤ suc fuel
      → nat_beq (length layer) 1 ≡ false
      → (0 < length (above layer)) × (length (above layer) ≤ fuel)
  above-fits layer fuel p h more = ground (arith, length-above layer)

  -- The layers above a layer of more than one node have an odd number of nodes.
  pub upper-odd :
      (fuel : ℕ) (layer : List H256)
      → 0 < length layer
      → length layer ≤ suc fuel
      → nat_beq (length layer) 1 ≡ false
      → length (upper (suc fuel) layer) % 2 ≡ 1
  upper-odd zero layer p h more = absurd (ground arith)
  upper-odd (suc fuel) layer p h more =
      let next = above layer in
      let fits = above-fits layer (suc fuel) p h more in
      let size = length-append (upper (suc fuel) next) (stored next) in
      elim (Bool-cases (nat_beq (length next) 1)) [
        | inl one ↦
            rw (upper-more (suc fuel) layer more, upper-one fuel next one, stored-one next one)
              (ground (arith, one))
        | inr again ↦
            let odd = upper-odd fuel next fits.0 fits.1 again in
            let even : length (double_last next) % 2 ≡ 0 =
              ground (arith, length-double_last next) in
            rw (upper-more (suc fuel) layer more, size, stored-more next again) (omega arith)
      ]

  pub fill-eq :
      (fuel : ℕ) (layer nodes : List H256)
      → 0 < length layer
      → length layer ≤ fuel
      → fill node fuel layer nodes ≡ upper fuel layer ++ (stored layer ++ nodes)
  unfolding fill
  fill-eq zero layer nodes p h = absurd (omega arith)
  fill-eq (suc fuel) layer nodes p h = elim (Bool-cases (nat_beq (length layer) 1)) [
    | inl one ↦ rw (upper-one fuel layer one, stored-one layer one, one) refl
    | inr more ↦
        let fits = above-fits layer fuel p h more in
        let ih = fill-eq fuel (above layer) (double_last layer ++ nodes) fits.0 fits.1 in
        rw (upper-more fuel layer more, stored-more layer more, more)
          (ih
            ∙ sym (
                append_assoc (upper fuel (above layer)) (stored (above layer))
                  (double_last layer ++ nodes)))
  ]
