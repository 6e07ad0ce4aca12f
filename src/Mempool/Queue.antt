-- ===== src/Mempool/Queue.antt =====
-- The memory pool as a client sees it: a queue of transactions, first in, first out.
pub mod Listed
pub mod Agree
pub mod Submitted
pub mod Withdrawn
pub mod Refines
use prism_rust_vivek.Prelude.{
  ℕ, ◌+◌, ◌≡◌, Bool, true, false, not, some, List, [], ◌∷◌, ◌++◌, HasDistinctKeys, any, filter,
  length, elem, ltb, nat_eq, ◌==◌, ◌||◌, if◌then◌else◌,
}
use prism_rust_vivek.Crypto.{H256}
use prism_rust_vivek.Ledger.Transaction.{Input, Transaction, input_eq}
use prism_rust_vivek.Mempool.{MemoryPool, get_all, new_transaction, remove_by_hash}
use prism_rust_vivek.Mempool.Valid.{IsValid}

-- What happens to a pool: transactions come in, and transactions of a hash are removed.
pub data Operation : Type 0 where
  submitted : Transaction → Operation
  withdrawn : H256 → Operation

module _ (tx_hash : Transaction → H256) where
  abbrev pub has_hash : H256 → List Transaction → Bool
  has_hash h q = any (λ t. tx_hash t == h) q

  -- Some transaction of the queue spends the input.
  abbrev pub spends : Input → List Transaction → Bool
  spends x q = any (λ t. elem x t.input) q

  -- A transaction is taken if it is new, spends nothing that another spends, and there is room.
  abbrev pub submit : ℕ → Transaction → List Transaction → List Transaction
  submit limit tx q =
      if has_hash (tx_hash tx) q || any (λ x. spends x q) tx.input
      then q
      else if ltb limit (length q)
      then q
      else q ++ tx ∷ []

  abbrev pub withdraw : H256 → List Transaction → List Transaction
  withdraw h q = filter (λ t. not (tx_hash t == h)) q

  abbrev pub specified : ℕ → List Operation → List Transaction → List Transaction
  specified limit [] q = q
  specified limit (submitted tx ∷ ops) q = specified limit ops (submit limit tx q)
  specified limit (withdrawn h ∷ ops) q = specified limit ops (withdraw h q)

  abbrev pub performed : List Operation → MemoryPool → MemoryPool
  performed [] p = p
  performed (submitted tx ∷ ops) p = performed ops (new_transaction tx_hash p tx)
  performed (withdrawn h ∷ ops) p = performed ops (remove_by_hash p h)

-- A pool in order whose transactions, in the order of the storage index, are the queue.
pub record Represents (tx_hash : Transaction → H256) (p : MemoryPool) (q : List Transaction)
    : Type 0 where
  pub valid : IsValid tx_hash p
  pub distinct : HasDistinctKeys p.by_storage_index
  pub listed : get_all p p.by_storage_index ≡ some q
  pub size : p.num_transactions ≡ length p.by_storage_index
