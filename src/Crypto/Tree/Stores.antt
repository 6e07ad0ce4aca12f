-- ===== src/Crypto/Tree/Stores.antt =====
-- What a round of `update` of src/crypto/merkle.rs does to a layer and to the one above it.
use prism_rust_vivek.Prelude.{
  ℕ, zero, suc, ◌+◌, ◌-◌, ◌*◌, ◌/◌, ◌%◌, ◌<◌, ◌≡◌, refl, ap, ◌∙◌, Bool, true, false, some, List, [],
  ◌∷◌, ◌++◌, length, nat_beq, ◌==◌, if◌then◌else◌, nat_eq, arith, Bool-cases, inl, inr,
  length-append, get_elem?, ltb, ◌>>=◌, set, length-set, ◌&&◌,
}
use prism_rust_vivek.Crypto.{H256}
use prism_rust_vivek.Crypto.Tree.{
  double_last, hash_pairs, sub_usize, set_elem?, update_node, digest_at,
}
use prism_rust_vivek.Crypto.Tree.Layers.{
  length-double_last, get_elem?-append, get_elem?-before, above,
}

set-append :
    (xs ys : List H256) (i : ℕ) (value : H256)
    → set (xs ++ ys) (length xs + i) value ≡ xs ++ set ys i value
set-append [] ys i value = let e : 0 + i ≡ i = omega arith in rw e refl
set-append (x ∷ xs) ys i value =
    let e : suc (length xs) + i ≡ suc (length xs + i) = omega arith in
    rw e (ap (λ r. x ∷ r) (set-append xs ys i value))

set-before :
    (xs ys : List H256) (i : ℕ) (value : H256)
    → i < length xs
    → set (xs ++ ys) i value ≡ set xs i value ++ ys
set-before [] ys i value h = absurd (omega arith)
set-before (x ∷ xs) ys zero value h = refl
set-before (x ∷ xs) ys (suc i) value h = ap (λ r. x ∷ r) (set-before xs ys i value (omega arith))

if-cons :
    (b : Bool) (x y : H256) (s t : List H256)
    → (if b then x ∷ y ∷ s else x ∷ y ∷ t) ≡ x ∷ y ∷ (if b then s else t)
if-cons true x y s t = refl
if-cons false x y s t = refl

-- The last node of an odd layer is stored twice.
set-double_last :
    (layer : List H256) (index : ℕ) (value : H256)
    → index < length layer
    → (if nat_beq (index + 1) (length layer) && nat_beq (index % 2) 0
        then set (set (double_last layer) index value) (index + 1) value
        else set (double_last layer) index value)
      ≡ double_last (set layer index value)
unfolding double_last
set-double_last [] index value h = absurd (omega arith)
set-double_last (x ∷ []) zero value h = refl
set-double_last (x ∷ []) (suc i) value h = absurd (omega arith)
set-double_last (x ∷ y ∷ rest) zero value h =
    let t : nat_beq 1 (suc (suc (length rest))) ≡ false = ground arith in rw t refl
set-double_last (x ∷ y ∷ rest) (suc zero) value h =
    let t : (nat_beq 2 (suc (suc (length rest))) && false) ≡ false = ground arith in rw t refl
set-double_last (x ∷ y ∷ rest) (suc (suc i)) value h =
    let e : suc (suc i) + 1 ≡ suc (suc (i + 1)) = omega arith in
    let f : suc (suc i) % 2 ≡ i % 2 = omega arith in
    let t : nat_beq (suc (suc (i + 1))) (suc (suc (length rest))) ≡ nat_beq (i + 1) (length rest) =
      ground arith in
    rw (e, f, t)
      (if-cons (nat_beq (i + 1) (length rest) && nat_beq (i % 2) 0) x y
          (set (set (double_last rest) i value) (i + 1) value) (set (double_last rest) i value)
        ∙ ap (λ s. x ∷ y ∷ s) (set-double_last rest i value (omega arith)))

-- A node stored in a layer changes one node of the layer above: the digest of the pair it is in.
pub above-set :
    (node : H256 → H256 → H256) (layer : List H256) (index : ℕ) (value : H256)
    → index < length layer
    → (left right : H256) × (get_elem? (double_last (set layer index value)) (index / 2 * 2)
        ≡ some left)
      × (get_elem? (double_last (set layer index value)) (index / 2 * 2 + 1) ≡ some right)
      × (above node (set layer index value) ≡ set (above node layer) (index / 2) (node left right))
unfolding double_last hash_pairs
above-set node [] index value h = absurd (omega arith)
above-set node (x ∷ []) zero value h = (value, value, refl, refl, refl)
above-set node (x ∷ []) (suc i) value h = absurd (omega arith)
above-set node (x ∷ y ∷ rest) zero value h = (value, y, refl, refl, refl)
above-set node (x ∷ y ∷ rest) (suc zero) value h = (x, value, refl, refl, refl)
above-set node (x ∷ y ∷ rest) (suc (suc i)) value h =
    let (left, right, l, r, up) = above-set node rest i value (omega arith) in
    let e : suc (suc i) / 2 ≡ suc (i / 2) = omega arith in
    let f : suc (i / 2) * 2 ≡ suc (suc (i / 2 * 2)) = omega arith in
    let g : suc (suc (i / 2 * 2)) + 1 ≡ suc (suc (i / 2 * 2 + 1)) = omega arith in
    (left, right, rw (e, f) l, rw (e, f, g) r, rw e (ap (λ s. node x y ∷ s) up))

set_elem?-append :
    (before layer after : List H256) (index : ℕ) (value : H256)
    → index < length layer
    → set_elem? (before ++ (layer ++ after)) (length before + index) value
      ≡ some (before ++ (set layer index value ++ after))
set_elem?-append before layer after index value h =
    let a = length-append before (layer ++ after) in
    let b = length-append layer after in
    let t : ltb (length before + index) (length (before ++ (layer ++ after))) ≡ true =
      ground (arith, a, b) in
    rw (t, set-append before (layer ++ after) index value, set-before layer after index value h)
      refl

pub digest_at-append :
    (node : H256 → H256 → H256) (before layer doubled after : List H256) (at index : ℕ)
    {left right : H256}
    → at ≡ length before + (length layer + index)
    → get_elem? doubled index ≡ some left
    → get_elem? doubled (index + 1) ≡ some right
    → digest_at node (before ++ (layer ++ (doubled ++ after))) at ≡ some (node left right)
unfolding digest_at
digest_at-append node before layer doubled after at index e l r =
    let down = λ (i : ℕ).
      get_elem?-append before (layer ++ (doubled ++ after)) (length layer + i)
      ∙ get_elem?-append layer (doubled ++ after) i in
    let a = down index ∙ get_elem?-before doubled after index l in
    let b = down (index + 1) ∙ get_elem?-before doubled after (index + 1) r in
    let f : length before + (length layer + index) + 1
        ≡ length before + (length layer + (index + 1)) =
      omega arith in
    rw (e, f, a, b) refl

update_node-run :
    (nodes : List H256) (size layer_start index : ℕ) (value : H256)
    → update_node nodes size layer_start index value ≡ (
        set_elem? nodes (layer_start + index) value >>= (λ nodes'.
          sub_usize (layer_start + size) 1 >>= (λ last.
            if (layer_start + index) == last && (layer_start + index) % 2 == 1
            then set_elem? nodes' (layer_start + index + 1) value
            else some nodes')))
unfolding update_node
update_node-run nodes size layer_start index value = refl

pick-true : (b : Bool) (s t r : List H256) → b ≡ true → (if b then s else t) ≡ r → s ≡ r
pick-true true s t r e h = h
pick-true false s t r e h = cc

pick-false : (b : Bool) (s t r : List H256) → b ≡ false → (if b then s else t) ≡ r → t ≡ r
pick-false true s t r e h = cc
pick-false false s t r e h = h

-- A layer that begins after an odd number of nodes, in a round of `update`.
pub update_node-more :
    (before layer after : List H256) (index : ℕ) (value : H256)
    → index < length layer
    → length before % 2 ≡ 1
    → update_node
        (before ++ (double_last layer ++ after))
        (length layer)
        (length before)
        index
        value
      ≡ some (before ++ (double_last (set layer index value) ++ after))
update_node-more before layer after index value h odd =
    let start = length before in
    let size = length layer in
    let d = length-double_last layer in
    let fits : index < length (double_last layer) = ground (arith, d) in
    let a : ltb (start + size) 1 ≡ false = ground arith in
    let b : nat_beq (start + index) (start + size - 1) ≡ nat_beq (index + 1) size = ground arith in
    let c : nat_beq ((start + index) % 2) 1 ≡ nat_beq (index % 2) 0 = ground arith in
    let first = set_elem?-append before (double_last layer) after index value fits in
    let all = set-double_last layer index value h in
    let put = λ (r : List H256). some (before ++ (r ++ after)) in
    elim (Bool-cases (nat_beq (index + 1) size && nat_beq (index % 2) 0)) [
      | inl twice ↦
          let e : start + index + 1 ≡ start + (index + 1) = omega arith in
          let l = length-set (double_last layer) index value in
          let fits' : index + 1 < length (set (double_last layer) index value) =
            ground (arith, d, l, twice) in
          rw
            (
              update_node-run (before ++ (double_last layer ++ after)) size start index value,
              first,
              a,
              b,
              c,
              twice,
              e,
            )
            (set_elem?-append before (set (double_last layer) index value) after (index + 1) value
                fits'
              ∙ ap put (pick-true _ _ _ _ twice all))
      | inr once ↦
          rw
            (
              update_node-run (before ++ (double_last layer ++ after)) size start index value,
              first,
              a,
              b,
              c,
              once,
            )
            (ap put (pick-false _ _ _ _ once all))
    ]

-- The root, in a round of `update`.
pub update_node-one :
    (layer after : List H256) (index : ℕ) (value : H256)
    → index < length layer
    → nat_beq (length layer) 1 ≡ true
    → update_node (layer ++ after) (length layer) 0 index value
      ≡ some (set layer index value ++ after)
update_node-one [] after index value h one = absurd (omega arith)
update_node-one (x ∷ []) after zero value h one =
    let t : ltb 0 (suc (length after)) ≡ true = ground arith in
    rw (update_node-run (x ∷ after) 1 0 0 value, t) refl
update_node-one (x ∷ []) after (suc i) value h one = absurd (omega arith)
update_node-one (x ∷ y ∷ rest) after index value h one = absurd (ground (arith, one))
