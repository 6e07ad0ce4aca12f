-- ===== src/Mempool/Tests.antt =====
-- The theorems on the memory pool at concrete pools: a transaction and one that spends its output.
use prism_rust_vivek.Prelude.{
  ◌+◌, ◌<◌, ◌^◌, ◌≡◌, refl, none, some, [], ◌∷◌, lookup, insert, remove, elem, arith, if◌then◌else◌,
  nat_eq, ◌==◌,
}
use prism_rust_vivek.Crypto.{H256}
use prism_rust_vivek.Ledger.Transaction.{Input, Transaction, input_eq}
use prism_rust_vivek.Mempool.{
  MemoryPool, new, new_transaction, remove_by_hash, remove_by_input, done, len, get_transactions,
}
use prism_rust_vivek.Mempool.Valid.{IsValid, new-IsValid, new_transaction-IsValid}
use prism_rust_vivek.Mempool.Queue.{submitted, withdrawn, performed}
use prism_rust_vivek.Mempool.Queue.Refines.{get_transactions-performed}
use prism_rust_vivek.Mempool.Removal.{remove_by_hash-IsValid}
use prism_rust_vivek.Mempool.Cascade.{IsSwept, remove_by_input-IsSwept}

abbrev input : H256 → Input
input h = record { coin = record { hash = h; index = 0 }; value = 5; owner = 1 }

-- The hash of a transaction here: one more than that of its first coin.
abbrev tx_hash : Transaction → H256
tx_hash t = elim t.input [ [] ↦ 0 | i ∷ _ ↦ i.coin.hash + 1 ]

abbrev spend : H256 → Transaction
spend h = record {
  input = input h ∷ [];
  output = record { value = 5; recipient = 1 } ∷ [];
  authorization = [];
}

unfoldable pool : MemoryPool
unfolding new_transaction
pool = new_transaction tx_hash (new_transaction tx_hash (new 8) (spend 10)) (spend 11)

pool_sizes : (len pool ≡ 2) × (get_transactions pool 9 ≡ some (spend 10 ∷ spend 11 ∷ []))
unfolding pool new_transaction len get_transactions insert remove lookup
pool_sizes = (refl, refl)

new_transaction-IsValid_example : IsValid tx_hash (new_transaction tx_hash (new 8) (spend 10))
new_transaction-IsValid_example =
    new_transaction-IsValid tx_hash (new 8) (spend 10) (new-IsValid tx_hash 8) (omega arith)
      (omega arith)

pool-IsValid : IsValid tx_hash pool
unfolding pool new_transaction
pool-IsValid =
    new_transaction-IsValid tx_hash (new_transaction tx_hash (new 8) (spend 10)) (spend 11)
      new_transaction-IsValid_example (ground arith) (ground arith)

pool_limit : pool.max_transactions + 1 < 2 ^ 64
unfolding pool new_transaction
pool_limit = ground arith

remove_by_hash-IsValid_example :
    IsValid tx_hash (remove_by_hash pool 11)
    × ((k : H256)
        → lookup k (remove_by_hash pool 11).by_hash
          ≡ (if 11 == k then none else lookup k pool.by_hash))
remove_by_hash-IsValid_example = remove_by_hash-IsValid tx_hash pool 11 pool-IsValid pool_limit

remove_by_input-IsSwept_example :
    (q : MemoryPool) × (remove_by_input pool (input 10) ≡ done q)
    × IsSwept tx_hash pool (input 10) q
remove_by_input-IsSwept_example =
    remove_by_input-IsSwept tx_hash pool (input 10) pool-IsValid pool_limit

-- The cascade takes out the second transaction with the first: it spends an output of the first, as
-- an input that names the coin with the value and the owner of that output.
pool_swept : remove_by_input pool (input 10) ≡ done (record (new 8) { counter = 2 })
unfolding pool new_transaction remove_by_input insert remove lookup
pool_swept = refl

-- A known transaction is not taken twice, and the first is removed: the second is left.
get_transactions-performed_example :
    get_transactions
      (performed tx_hash
        (submitted (spend 10) ∷ submitted (spend 20) ∷ submitted (spend 10) ∷ withdrawn 11 ∷ [])
        (new 8))
      5
    ≡ some (spend 20 ∷ [])
unfolding elem
get_transactions-performed_example =
    get_transactions-performed tx_hash 8 5
      (submitted (spend 10) ∷ submitted (spend 20) ∷ submitted (spend 10) ∷ withdrawn 11 ∷ [])
      (omega arith) (omega arith)
