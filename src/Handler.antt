-- ===== src/Handler.antt =====
-- src/handler/new_validated_block.rs: what happens to a block that passed the checks.
pub mod Confirm
pub mod Validated
mod Tests
use prism_rust_vivek.Prelude.{Option, none, some, List, [], ◌∷◌, ◌>>=◌}
use prism_rust_vivek.Crypto.{H256}
use prism_rust_vivek.Ledger.Transaction.{Input, Transaction}
use prism_rust_vivek.Block.{Block, Header, Content, transaction, proposer, voter}
use prism_rust_vivek.Mempool.{
  MemoryPool, Ended, done, panicked, out_of_fuel, remove_by_hash, remove_by_input,
}
use prism_rust_vivek.Chain.State.{BlockChain}
use prism_rust_vivek.Chain.Insert.{insert_block}

-- the next step on the pool that a loop left
abbrev pub and_then : Ended → (MemoryPool → Ended) → Ended
and_then (done p) next = next p
and_then panicked next = panicked
and_then out_of_fuel next = out_of_fuel

-- `for input in tx.input.iter() { mempool.remove_by_input(input) }`
unfoldable pub remove_spenders : List Input → MemoryPool → Ended
remove_spenders [] p = done p
remove_spenders (x ∷ inputs) p = and_then (remove_by_input p x) (remove_spenders inputs)

module _ (tx_hash : Transaction → H256) where
  -- the loop over the transactions of a block
  unfoldable pub confirm : List Transaction → MemoryPool → Ended
  unfolding remove_by_hash remove_spenders
  confirm [] p = done p
  confirm (t ∷ transactions) p =
      and_then (remove_spenders t.input (remove_by_hash p (tx_hash t))) (confirm transactions)

  unfoldable pub clean_pool : Content → MemoryPool → Ended
  unfolding confirm
  clean_pool (transaction content) p = confirm content.transactions p
  clean_pool (proposer _) p = done p
  clean_pool (voter _) p = done p

  -- `none` is a panic
  unfoldable pub new_validated_block :
      (Header → H256) → Block → MemoryPool → BlockChain → Option (MemoryPool × BlockChain)
  unfolding clean_pool insert_block
  new_validated_block header_hash block p c = elim (clean_pool block.content p) [
    | panicked ↦ none
    | out_of_fuel ↦ none
    | done q ↦ insert_block header_hash block c >>= (λ d. some (q, d))
  ]
