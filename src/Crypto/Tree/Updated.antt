-- ===== src/Crypto/Tree/Updated.antt =====
-- That `update` of src/crypto/merkle.rs gives the tree that `new` builds over the changed items.
use prism_rust_vivek.Prelude.{
  ℕ, zero, suc, ◌+◌, ◌-◌, ◌<◌, ◌≤◌, ◌≡◌, refl, sym, ap, true, false, some, List, [], ◌∷◌, length,
  map, nat_beq, nat_eq, arith, Bool-cases, inl, inr, ltb, leb, ◌>>=◌, set, length-set, length-map,
}
use prism_rust_vivek.Crypto.{H256}
use prism_rust_vivek.Crypto.Halvings.{tail}
use prism_rust_vivek.Crypto.Tree.{even_size, data_sizes, sub_usize, update_layers, new, update}
use prism_rust_vivek.Crypto.Tree.Layers.{data_sizes-cons, upper}
use prism_rust_vivek.Crypto.Tree.Siblings.{around}
use prism_rust_vivek.Crypto.Tree.Proofs.{new-around, length-nodes}
use prism_rust_vivek.Crypto.Tree.Rounds.{hash-leaf}
use prism_rust_vivek.Crypto.Tree.Updates.{Settles, IsHashed, update_layers-Settles}

module _ {ℓ} {T : Type ℓ} where
  set-outside :
      (items : List T) (index : ℕ) (item : T) → length items ≤ index → set items index item ≡ items
  set-outside [] index item h = refl
  set-outside (x ∷ xs) zero item h = absurd (omega arith)
  set-outside (x ∷ xs) (suc i) item h = ap (λ r. x ∷ r) (set-outside xs i item (omega arith))

  map-set :
      (hash : T → H256) (items : List T) (index : ℕ) (item : T)
      → map hash (set items index item) ≡ set (map hash items) index (hash item)
  map-set hash [] index item = refl
  map-set hash (x ∷ xs) zero item = refl
  map-set hash (x ∷ xs) (suc i) item = ap (λ r. hash x ∷ r) (map-set hash xs i item)

module _ {ℓ} {T : Type ℓ} (node : H256 → H256 → H256) (hash : T → H256) where
  update-outside :
      (index : ℕ) (item : T) (size : ℕ) (sizes : List ℕ) (nodes : List H256)
      → size ≤ index
      → update node hash index item (record { data_size = size ∷ sizes; nodes = nodes })
        ≡ some (record { data_size = size ∷ sizes; nodes = nodes })
  unfolding update
  update-outside index item size sizes nodes h =
      let a : leb size index ≡ true = ground arith in rw a refl

  update-run :
      (index : ℕ) (item : T) (size : ℕ) (sizes : List ℕ) (nodes : List H256)
      → leb size index ≡ false
      → nat_beq size 1 ≡ false
      → update node hash index item (record { data_size = size ∷ sizes; nodes = nodes }) ≡ (
          sub_usize (length nodes) (even_size size) >>= (λ start.
            update_layers node (hash item) start (size ∷ sizes) start index nodes
            >>= (λ nodes'. some (record { data_size = size ∷ sizes; nodes = nodes' }))))
  unfolding update
  update-run index item size sizes nodes h more = rw (h, more) refl

  new-empty : new node hash [] ≡ record { data_size = 0 ∷ []; nodes = [] }
  unfolding new
  new-empty = refl

  update-one :
      (x item : T)
      → update node hash 0 item (new node hash (x ∷ [])) ≡ some (new node hash (item ∷ []))
  unfolding update new
  update-one x item = refl

  -- what the loop makes of the leaves
  update_layers-leaves :
      (items : List T) (index : ℕ) (item : T)
      → index < length items
      → update_layers node
          (hash item)
          (length (upper node (length items) (map hash items)))
          (data_sizes (length items) (length items))
          (length (upper node (length items) (map hash items)))
          index
          (around node (length items) (map hash items) [])
        ≡ some (around node (length items) (map hash (set items index item)) [])
  unfolding Settles IsHashed
  update_layers-leaves items index item h =
      let leaves = map hash items in
      let size = length leaves in
      let before = upper node size leaves in
      let e = length-map hash items in
      let leaf : leb (length before) (length before + index) ≡ true = ground arith in
      rw (sym e, map-set hash items index item)
        (update_layers-Settles node (hash item) (length before) size leaves [] index (hash item)
          (omega (arith, h, e)) (omega arith) (omega arith)
          (hash-leaf node (hash item) (length before) (around node size leaves []) size
            (length before) index leaf))

  update-inside :
      (items : List T) (index : ℕ) (item : T)
      → index < length items
      → nat_beq (length items) 1 ≡ false
      → update node hash index item (new node hash items)
        ≡ some (new node hash (set items index item))
  update-inside items index item h more =
      let size = length items in
      let sizes = tail (data_sizes size size) in
      let nodes = around node size (map hash items) [] in
      let start = length (upper node size (map hash items)) in
      let l = length-set items index item in
      let p : 0 < size = omega arith in
      let cons = data_sizes-cons size size p in
      let a : leb size index ≡ false = ground arith in
      let n = length-nodes node hash items more in
      let b : ltb (length nodes) (even_size size) ≡ false = ground (arith, n) in
      let c : length nodes - even_size size ≡ start = omega (arith, n) in
      let loop : update_layers node (hash item) start (size ∷ sizes) start index nodes
          ≡ some (around node size (map hash (set items index item)) []) =
        rw (sym cons) (update_layers-leaves items index item h) in
      rw
        (
          new-around node hash items p,
          new-around node hash (set items index item) (omega (arith, l, p)),
          l,
          cons,
          update-run index item size sizes nodes a more,
          b,
          c,
          loop,
        )
        refl

  update-unchanged :
      (items : List T) (index : ℕ) (item : T)
      → 0 < length items
      → length items ≤ index
      → update node hash index item (new node hash items)
        ≡ some (new node hash (set items index item))
  update-unchanged items index item p h =
      let size = length items in
      let nodes = around node size (map hash items) [] in
      rw (set-outside items index item h, new-around node hash items p, data_sizes-cons size size p)
        (update-outside index item size (tail (data_sizes size size)) nodes h)

  -- Replacing the item at an index of a tree gives the tree that is built from the items with that
  -- one replaced; with an index out of range nothing changes.
  pub update-new :
      (items : List T) (index : ℕ) (item : T)
      → update node hash index item (new node hash items)
        ≡ some (new node hash (set items index item))
  update-new [] index item = rw new-empty (update-outside index item 0 [] [] (omega arith))
  update-new (x ∷ []) zero item = update-one x item
  update-new (x ∷ []) (suc i) item =
      update-unchanged (x ∷ []) (suc i) item (omega arith) (omega arith)
  update-new (x ∷ y ∷ rest) index item =
      let items = x ∷ y ∷ rest in
      elim (Bool-cases (leb (length items) index)) [
        | inl out ↦ update-unchanged items index item (omega arith) (ground (arith, out))
        | inr within ↦ update-inside items index item (ground (arith, within)) (ground arith)
      ]
