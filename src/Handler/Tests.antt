-- ===== src/Handler/Tests.antt =====
-- A transaction block with one transaction, and a pool that holds it and one that spends its output.
use prism_rust_vivek.Prelude.{◌+◌, ◌<◌, ◌^◌, ◌≡◌, refl, some, [], ◌∷◌, lookup, nat_eq, arith}
use prism_rust_vivek.Crypto.{H256}
use prism_rust_vivek.Ledger.Transaction.{Transaction}
use prism_rust_vivek.Block.{Block, Header, transaction, block_hash}
use prism_rust_vivek.Mempool.{MemoryPool, new, new_transaction}
use prism_rust_vivek.Mempool.Valid.{IsValid, new-IsValid, new_transaction-IsValid}
use prism_rust_vivek.Chain.State.{BlockChain}
use prism_rust_vivek.Chain.Forest.{IsForest}
use prism_rust_vivek.Chain.Sample.{start, start-IsForest, start-HasRoom}
use prism_rust_vivek.Validation.{check_data_availability}
use prism_rust_vivek.Handler.{new_validated_block}
use prism_rust_vivek.Handler.Confirm.{Shrinks}
use prism_rust_vivek.Handler.Validated.{Cleared, new_validated_block_lem}

-- the hash of a transaction here: one more than that of its first coin
abbrev tx_hash : Transaction → H256
tx_hash t = elim t.input [ [] ↦ 0 | i ∷ _ ↦ i.coin.hash + 1 ]

abbrev spend : H256 → Transaction
spend h = record {
  input = record { coin = record { hash = h; index = 0 }; value = 5; owner = 1 } ∷ [];
  output = record { value = 5; recipient = 1 } ∷ [];
  authorization = [];
}

abbrev pool : MemoryPool
pool = new_transaction tx_hash (new_transaction tx_hash (new 8) (spend 10)) (spend 11)

pool-IsValid : IsValid tx_hash pool
unfolding new_transaction
pool-IsValid =
    new_transaction-IsValid tx_hash (new_transaction tx_hash (new 8) (spend 10)) (spend 11)
      (new_transaction-IsValid tx_hash (new 8) (spend 10) (new-IsValid tx_hash 8) (omega arith)
        (omega arith))
      (ground arith) (ground arith)

pool_limit : pool.max_transactions + 1 < 2 ^ 64
unfolding new_transaction
pool_limit = ground arith

abbrev header_hash : Header → H256
header_hash h = h.nonce

abbrev block : Block
block = record {
  header = record {
    parent = 100;
    timestamp = 0;
    nonce = 300;
    content_merkle_root = 0;
    extra_content = [];
    difficulty = 0;
  };
  content = transaction (record { transactions = spend 10 ∷ [] });
  sortition_proof = [];
}

new_validated_block_lem_example :
    (q : MemoryPool) × (d : BlockChain) × (new_validated_block tx_hash header_hash block pool start
      ≡ some (q, d))
    × Shrinks tx_hash pool q
    × Cleared tx_hash q block.content
    × IsForest d
unfolding start lookup block_hash check_data_availability
new_validated_block_lem_example =
    new_validated_block_lem tx_hash header_hash block pool start pool-IsValid pool_limit
      start-IsForest start-HasRoom refl refl refl
