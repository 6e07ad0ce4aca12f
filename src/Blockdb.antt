-- ===== src/Blockdb.antt =====
-- src/blockdb/mod.rs: the blocks that the node has received, under their hashes and by their order
-- of arrival. The column families of the database are tables; the keys that are the bytes of a `u64`
-- are numbers. Encoding and decoding of blocks are the parameters `encode` and `decode`.
pub mod Stored
pub mod Arrival
pub mod Reached
mod Tests
use prism_rust_vivek.Prelude.{
  ℕ, zero, suc, ◌+◌, ◌%◌, ◌^◌, Bool, Option, none, some, List, [], ◌∷◌, Table, lookup, insert,
  contains_key, get_elem?, ltb, ◌&&◌, if◌then◌else◌, nat_eq, add_u64, sub_u64, ◌>>=◌,
}
use prism_rust_vivek.Crypto.{H256}
use prism_rust_vivek.Config.{BlockchainConfig}
use prism_rust_vivek.Block.{Block, Header, block_hash, proposer_genesis_block, voter_genesis_block}

abbrev pub Bytes : Type 0
Bytes = List ℕ

pub record BlockDatabase : Type 0 where
  pub block_cf : Table H256 Bytes
  pub block_arrival_order_cf : Table ℕ H256
  pub block_sequence_number_cf : Table H256 ℕ
  pub count : ℕ

-- the three writes for a block with a number
unfoldable pub put_block : H256 → Bytes → ℕ → BlockDatabase → BlockDatabase
put_block hash raw_block counter db = record db {
  block_cf = insert hash raw_block db.block_cf;
  block_arrival_order_cf = insert counter hash db.block_arrival_order_cf;
  block_sequence_number_cf = insert hash counter db.block_sequence_number_cf;
}

-- The number of the block, and the database. `fetch_add` wraps around.
unfoldable pub insert_encoded : H256 → Bytes → BlockDatabase → ℕ × BlockDatabase
unfolding put_block
insert_encoded hash raw_block db =
    (db.count, put_block hash raw_block db.count (record db { count = add_u64 db.count 1 }))

unfoldable pub get_encoded : H256 → BlockDatabase → Option Bytes
get_encoded hash db = lookup hash db.block_cf

unfoldable pub contains : H256 → BlockDatabase → Bool
contains hash db = contains_key hash db.block_cf

abbrev pub num_blocks : BlockDatabase → ℕ
num_blocks db = db.count

-- `latest_block_hash`, by the rounds left: from the last number down to a number that is there
unfoldable pub latest_from : ℕ → ℕ → BlockDatabase → Option H256
latest_from zero count db = none
latest_from (suc rounds) count db = elim (lookup count db.block_arrival_order_cf) [
  | some hash ↦ some hash
  | none ↦ latest_from rounds (sub_u64 count 1) db
]

unfoldable pub latest_block_hash : BlockDatabase → Option H256
unfolding latest_from
latest_block_hash db = latest_from db.count (sub_u64 db.count 1) db

pub record BlocksInArrivalOrder : Type 0 where
  pub seq : ℕ
  pub batch : ℕ

-- `none` is a failed `unwrap`: the block is not there
unfoldable pub blocks_after : H256 → ℕ → BlockDatabase → Option BlocksInArrivalOrder
blocks_after after batch_size db = do
  seq ← lookup after db.block_sequence_number_cf
  some (record { seq = add_u64 seq 1; batch = batch_size })

module _ (encode : Block → Bytes) where
  -- the loop over the voter chains in `new`, by the chains left
  unfoldable pub put_geneses :
      BlockchainConfig → ℕ → ℕ → ℕ × BlockDatabase → Option (ℕ × BlockDatabase)
  unfolding put_block
  put_geneses config i zero (counter, db) = some (counter, db)
  put_geneses config i (suc chains) (counter, db) = do
    hash ← get_elem? config.voter_genesis i
    let db' = put_block hash (encode (voter_genesis_block (i % 2 ^ 16))) counter db
    put_geneses config (i + 1) chains (add_u64 counter 1, db')

  -- `none` is an index out of range
  unfoldable pub new : BlockchainConfig → Option BlockDatabase
  unfolding put_geneses
  new config = do
    let empty : BlockDatabase = record {
      block_cf = [];
      block_arrival_order_cf = [];
      block_sequence_number_cf = [];
      count = 0;
    }
    let first = put_block config.proposer_genesis (encode proposer_genesis_block) 0 empty
    last ← put_geneses config 0 config.voter_chains (1, first)
    some (record last.1 { count = last.0 })

  unfoldable pub insert_block : (Header → H256) → Block → BlockDatabase → ℕ × BlockDatabase
  unfolding block_hash put_block
  insert_block header_hash block db =
      let hash = block_hash header_hash block in
      (db.count, put_block hash (encode block) db.count (record db { count = add_u64 db.count 1 }))

module _ (decode : Bytes → Option Block) where
  -- the outer `none` is a failed `unwrap`: the bytes do not decode
  unfoldable pub get : H256 → BlockDatabase → Option (Option Block)
  get hash db = elim (lookup hash db.block_cf) [
    | none ↦ some none
    | some s ↦ decode s >>= (λ block. some (some block))
  ]

  -- the loop of `next`, by what is left of the batch
  unfoldable pub next_blocks : ℕ → ℕ → BlockDatabase → Option (List Block × ℕ)
  next_blocks zero seq db = some ([], seq)
  next_blocks (suc left) seq db =
      if ltb seq (num_blocks db)
      then (do
        hash ← lookup seq db.block_arrival_order_cf
        s ← lookup hash db.block_cf
        block ← decode s
        rest ← next_blocks left (add_u64 seq 1) db
        some (block ∷ rest.0, rest.1))
      else some ([], seq)

  -- `Iterator::next`: a batch if there is one, and the iterator
  unfoldable pub next :
      BlocksInArrivalOrder → BlockDatabase → Option (Option (List Block) × BlocksInArrivalOrder)
  unfolding next_blocks
  next it db = do
    r ← next_blocks it.batch it.seq db
    some (elim r.0 [ [] ↦ none | _ ∷ _ ↦ some r.0 ], record it { seq = r.1 })
