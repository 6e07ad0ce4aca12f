-- ===== src/Mempool.antt =====
-- src/miner/memory_pool.rs and src/handler/new_transaction.rs: the transactions that wait for a
-- block. `by_storage_index` is a `BTreeMap`, a table in the order of its keys. The hash of a
-- transaction, SHA-256 of its encoding by libraries, is the parameter `tx_hash`.
pub mod Order
pub mod Valid
pub mod Removal
pub mod Cascade
pub mod Queue
mod Tests
use prism_rust_vivek.Prelude.{
  ℕ, zero, suc, ◌+◌, ◌%◌, ◌^◌, Bool, true, false, not, ◌&&◌, Option, none, some, List, [], ◌∷◌,
  ◌++◌, Table, lookup, insert, remove, contains_key, ltb, any, length, total, take, ◌==◌,
  if◌then◌else◌, nat_eq, add_u64, sub_u64,
}
use prism_rust_vivek.Crypto.{H256}
use prism_rust_vivek.Ledger.Transaction.{CoinId, Input, Output, Transaction, input_eq}

pub record Entry : Type 0 where
  pub transaction : Transaction
  pub storage_index : ℕ

pub record MemoryPool : Type 0 where
  pub num_transactions : ℕ
  pub max_transactions : ℕ
  pub counter : ℕ
  pub by_hash : Table H256 Entry
  pub by_input : Table Input H256
  pub by_storage_index : Table ℕ H256

-- `MemoryPool::new`
abbrev pub new : ℕ → MemoryPool
new size_limit = record {
  num_transactions = 0;
  max_transactions = size_limit;
  counter = 0;
  by_hash = [];
  by_input = [];
  by_storage_index = [];
}

-- `BTreeMap::insert`
unfoldable pub btree_insert : ℕ → H256 → Table ℕ H256 → Table ℕ H256
btree_insert k v [] = (k, v) ∷ []
btree_insert k v ((j, w) ∷ m) =
    let rest = btree_insert k v m in
    if j == k then (k, v) ∷ m else if ltb k j then (k, v) ∷ (j, w) ∷ m else (j, w) ∷ rest

-- `for input in ..: by_input.insert(input, hash)`, and the removal of inputs
unfoldable pub insert_inputs : H256 → List Input → Table Input H256 → Table Input H256
insert_inputs hash [] m = m
insert_inputs hash (x ∷ inputs) m = insert_inputs hash inputs (insert x hash m)

unfoldable pub remove_inputs : List Input → Table Input H256 → Table Input H256
remove_inputs [] m = m
remove_inputs (x ∷ inputs) m = remove_inputs inputs (remove x m)

unfoldable pub contains : MemoryPool → H256 → Bool
contains p h = contains_key h p.by_hash

unfoldable pub get : MemoryPool → H256 → Option Entry
get p h = lookup h p.by_hash

unfoldable pub is_double_spend : MemoryPool → List Input → Bool
is_double_spend p inputs = any (λ x. contains_key x p.by_input) inputs

unfoldable pub remove_and_get : MemoryPool → H256 → Option (MemoryPool × Entry)
unfolding remove_inputs
remove_and_get p hash = elim (lookup hash p.by_hash) [
  | none ↦ none
  | some entry ↦ some (
    record p {
      num_transactions = sub_u64 p.num_transactions 1;
      by_hash = remove hash p.by_hash;
      by_input = remove_inputs entry.transaction.input p.by_input;
      by_storage_index = remove entry.storage_index p.by_storage_index;
    },
    entry,
  )
]

-- the result of `remove_and_get` is dropped
unfoldable pub remove_by_hash : MemoryPool → H256 → MemoryPool
unfolding remove_and_get
remove_by_hash p hash = elim (remove_and_get p hash) [ none ↦ p | some (q, _) ↦ q ]

-- The inputs that would spend the outputs of a transaction, from an index on.
unfoldable pub output_inputs : H256 → ℕ → List Output → List Input
output_inputs hash idx [] = []
output_inputs hash idx (o ∷ outputs) =
    record {
      coin = record { hash = hash; index = idx % 2 ^ 32 };
      value = o.value;
      owner = o.recipient;
    }
    ∷ output_inputs hash (idx + 1) outputs

-- How a loop ends: with a pool, by a failed `unwrap`, or for lack of fuel.
pub data Ended : Type 0 where
  done : MemoryPool → Ended
  panicked out_of_fuel : Ended

-- the `while let` of `remove_by_input`, on a queue of inputs
unfoldable pub remove_queue : ℕ → List Input → MemoryPool → Ended
unfolding remove_and_get output_inputs
remove_queue zero queue p = out_of_fuel
remove_queue (suc fuel) [] p = done p
remove_queue (suc fuel) (prevout ∷ queue) p = elim (lookup prevout p.by_input) [
  | none ↦ remove_queue fuel queue p
  | some entry_hash ↦ elim (remove_and_get p entry_hash) [
    | none ↦ panicked
    | some (q, entry) ↦
        remove_queue fuel (queue ++ output_inputs entry_hash 0 entry.transaction.output) q
  ]
]

-- Every round takes an input off the queue, or takes an entry out of the pool and queues its
-- outputs: as many rounds as the pool has outputs, and two more, are enough.
abbrev pub queue_fuel : MemoryPool → ℕ
queue_fuel p = total (λ (e : Entry). length e.transaction.output) p.by_hash + 2

unfoldable pub remove_by_input : MemoryPool → Input → Ended
unfolding remove_queue
remove_by_input p prevout = remove_queue (queue_fuel p) (prevout ∷ []) p

-- `get_transactions`: the first `n` values, each looked up; `none` is a failed `unwrap`
unfoldable pub get_all : MemoryPool → Table ℕ H256 → Option (List Transaction)
unfolding get
get_all p [] = some []
get_all p ((_, hash) ∷ m) =
    let rest = get_all p m in
    elim (get p hash) [
      | none ↦ none
      | some entry ↦ elim rest [ none ↦ none | some txs ↦ some (entry.transaction ∷ txs) ]
    ]

unfoldable pub get_transactions : MemoryPool → ℕ → Option (List Transaction)
unfolding get_all
get_transactions p n = get_all p (take n p.by_storage_index)

unfoldable pub len : MemoryPool → ℕ
len p = length p.by_hash

module _ (tx_hash : Transaction → H256) where
  -- `MemoryPool::insert`
  unfoldable pub insert_transaction : MemoryPool → Transaction → MemoryPool
  unfolding insert_inputs btree_insert
  insert_transaction p tx =
      let hash = tx_hash tx in
      if ltb p.max_transactions p.num_transactions then p else record p {
        num_transactions = add_u64 p.num_transactions 1;
        counter = add_u64 p.counter 1;
        by_hash = insert hash (record { transaction = tx; storage_index = p.counter }) p.by_hash;
        by_input = insert_inputs hash tx.input p.by_input;
        by_storage_index = btree_insert p.counter hash p.by_storage_index;
      }

  -- the handler of a transaction from a peer or from the API
  unfoldable pub new_transaction : MemoryPool → Transaction → MemoryPool
  unfolding insert_transaction contains is_double_spend
  new_transaction p tx =
      if not (contains p (tx_hash tx)) && not (is_double_spend p tx.input)
      then insert_transaction p tx
      else p
