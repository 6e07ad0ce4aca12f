-- ===== src/Crypto/Tree.antt =====
-- src/crypto/merkle.rs: the tree, its root, the proof of an item and the change of an item. SHA-256
-- of the concatenation of two hashes, which a library computes, is the parameter `node`. `none` is a
-- panic: an index out of range, or a subtraction that goes below 0.
pub mod Layers
pub mod Pairs
pub mod Siblings
pub mod Proofs
pub mod Stores
pub mod Rounds
pub mod Updates
pub mod Updated
use prism_rust_vivek.Prelude.{
  ℕ, zero, suc, ◌+◌, ◌-◌, ◌*◌, ◌/◌, ◌%◌, Bool, true, Option, none, some, List, [], ◌∷◌, ◌++◌,
  length, map, get_elem?, set, leb, ltb, nat_beq, ◌==◌, ◌>>=◌, if◌then◌else◌, nat_eq, ◌&&◌,
}
use prism_rust_vivek.Crypto.{H256}

-- `nodes` has the layers from the root to the leaves; `data_size` goes from the leaves to the root.
pub record MerkleTree : Type 0 where
  pub data_size : List ℕ
  pub nodes : List H256

-- a size rounded up to an even number
abbrev pub even_size : ℕ → ℕ
even_size size = if size % 2 == 1 then size + 1 else size

-- The sizes of the layers before the last node is doubled, on fuel.
unfoldable pub data_sizes : ℕ → ℕ → List ℕ
data_sizes zero this_layer_size = []
data_sizes (suc fuel) this_layer_size =
    let rest = data_sizes fuel (even_size this_layer_size / 2) in
    if this_layer_size == 1 then this_layer_size ∷ [] else this_layer_size ∷ rest

-- A layer with its last node doubled if the size is odd.
unfoldable pub double_last : List H256 → List H256
double_last [] = []
double_last (x ∷ []) = x ∷ x ∷ []
double_last (x ∷ y ∷ rest) = x ∷ y ∷ double_last rest

module _ (node : H256 → H256 → H256) where
  -- the digests of the pairs of a layer
  unfoldable pub hash_pairs : List H256 → List H256
  hash_pairs [] = []
  hash_pairs (left ∷ []) = []
  hash_pairs (left ∷ right ∷ rest) = node left right ∷ hash_pairs rest

  -- The layers above a layer, put before the nodes that are there already, on fuel. The root is not
  -- doubled.
  unfoldable pub fill : ℕ → List H256 → List H256 → List H256
  unfolding hash_pairs double_last
  fill zero this_layer nodes = nodes
  fill (suc fuel) this_layer nodes =
      let layer = double_last this_layer in
      let rest = fill fuel (hash_pairs layer) (layer ++ nodes) in
      if length this_layer == 1 then this_layer ++ nodes else rest

  -- Halving the size ends within as many rounds as there are items.
  unfoldable pub new {ℓ} : {T : Type ℓ} → (T → H256) → List T → MerkleTree
  unfolding fill data_sizes
  new hash items =
      let size = length items in
      if size == 0
      then record { data_size = 0 ∷ []; nodes = [] }
      else record { data_size = data_sizes size size; nodes = fill size (map hash items) [] }

unfoldable pub root : MerkleTree → H256
root tree = elim tree.nodes [ [] ↦ 0 | top ∷ _ ↦ top ]

abbrev pub sub_usize : ℕ → ℕ → Option ℕ
sub_usize a b = if ltb a b then none else some (a - b)

-- The item `nodes_index + 1` or `nodes_index - 1`.
unfoldable pub sibling_of : List H256 → ℕ → Option H256
sibling_of nodes nodes_index =
    if nodes_index % 2 == 1
    then get_elem? nodes (nodes_index + 1)
    else (sub_usize nodes_index 1 >>= get_elem? nodes)

-- The loop of `proof`; `sizes` are the sizes of the layers above the current one.
unfoldable pub siblings : List H256 → List ℕ → ℕ → ℕ → Option (List H256)
unfolding sibling_of
siblings nodes [] layer_start index = some []
siblings nodes (size ∷ sizes) layer_start index = do
  sibling ← sibling_of nodes (layer_start + index)
  results ← elim sizes [
    | [] ↦ some []
    | _ ∷ _ ↦
        sub_usize layer_start (even_size size) >>= (λ start. siblings nodes sizes start (index / 2))
  ]
  some (sibling ∷ results)

unfoldable pub proof : MerkleTree → ℕ → Option (List H256)
unfolding siblings
proof tree index = elim tree.data_size [
  | [] ↦ none
  | size ∷ [] ↦ some []
  | size ∷ above ∷ sizes ↦
      if leb size index
      then some []
      else (sub_usize (length tree.nodes) (even_size size)
          >>= (λ start. siblings tree.nodes (above ∷ sizes) start index))
]

abbrev pub set_elem? : List H256 → ℕ → H256 → Option (List H256)
set_elem? nodes i value = if ltb i (length nodes) then some (set nodes i value) else none

-- one round: the node, and its double if it is the last of an odd layer
unfoldable pub update_node : List H256 → ℕ → ℕ → ℕ → H256 → Option (List H256)
update_node nodes size layer_start index value = do
  let nodes_index = layer_start + index
  nodes' ← set_elem? nodes nodes_index value
  last ← sub_usize (layer_start + size) 1
  if nodes_index == last && nodes_index % 2 == 1
      then set_elem? nodes' (nodes_index + 1) value
      else some nodes'

module _ (node : H256 → H256 → H256) where
  -- the digest of two neighbours
  unfoldable pub digest_at : List H256 → ℕ → Option H256
  digest_at nodes left_index = do
    left_hash ← get_elem? nodes left_index
    right_hash ← get_elem? nodes (left_index + 1)
    some (node left_hash right_hash)

  -- what a round of `update` stores; `item_hash` is the hash of the new item
  unfoldable pub updated_hash : H256 → List H256 → ℕ → ℕ → ℕ → ℕ → Option H256
  unfolding digest_at
  updated_hash item_hash nodes last_layer_start size layer_start index =
      let nodes_index = layer_start + index in
      if leb last_layer_start nodes_index
      then some item_hash
      else if ltb 0 nodes_index
      then digest_at nodes (layer_start + index * 2 + even_size size)
      else digest_at nodes 1

  -- The loop of `update`, with the sizes of the current layer and of those above it.
  unfoldable pub update_layers : H256 → ℕ → List ℕ → ℕ → ℕ → List H256 → Option (List H256)
  unfolding updated_hash update_node
  update_layers item_hash last_layer_start [] layer_start index nodes = some nodes
  update_layers item_hash last_layer_start (size ∷ sizes) layer_start index nodes = do
    value ← updated_hash item_hash nodes last_layer_start size layer_start index
    nodes' ← update_node nodes size layer_start index value
    elim sizes [
      | [] ↦ some nodes'
      | above ∷ [] ↦ update_layers item_hash last_layer_start sizes 0 (index / 2) nodes'
      | above ∷ _ ∷ _ ↦
          sub_usize layer_start (even_size above)
          >>= (λ start. update_layers item_hash last_layer_start sizes start (index / 2) nodes')
    ]

  unfoldable pub update {ℓ} : {T : Type ℓ} → (T → H256) → ℕ → T → MerkleTree → Option MerkleTree
  unfolding update_layers
  update hash index item tree = elim tree.data_size [
    | [] ↦ none
    | size ∷ sizes ↦
        if leb size index
        then some tree
        else if size == 1
        then (do nodes ← set_elem? tree.nodes 0 (hash item); some (record tree { nodes = nodes }))
        else (do
          start ← sub_usize (length tree.nodes) (even_size size)
          nodes ← update_layers (hash item) start (size ∷ sizes) start index tree.nodes
          some (record tree { nodes = nodes }))
  ]
