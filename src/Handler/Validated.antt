-- ===== src/Handler/Validated.antt =====
-- A block that passed the check of its references, through the handler.
use mathlib.Core.Path.{subst}
use prism_rust_vivek.Prelude.{arith, ◌+◌, ◌<◌, ◌^◌, ◌≡◌, refl, none, some, lookup, nat_eq}
use prism_rust_vivek.Crypto.{H256}
use prism_rust_vivek.Ledger.Transaction.{Transaction}
use prism_rust_vivek.Block.{Block, Header, Content, block_hash, transaction, proposer, voter}
use prism_rust_vivek.Mempool.{MemoryPool, done}
use prism_rust_vivek.Mempool.Valid.{IsValid}
use prism_rust_vivek.Chain.State.{BlockChain}
use prism_rust_vivek.Chain.Forest.{IsForest, HasRoom}
use prism_rust_vivek.Chain.Extends.{Extends}
use prism_rust_vivek.Validation.{check_data_availability, pass}
use prism_rust_vivek.Validation.Insertion.{insert_block-IsForest, insert_block-Extends}
use prism_rust_vivek.Handler.{clean_pool, new_validated_block}
use prism_rust_vivek.Handler.Confirm.{Shrinks, Confirmed, confirm-Confirmed}

-- What a block takes out of the pool.
abbrev pub Cleared : (Transaction → H256) → MemoryPool → Content → Type 0
Cleared tx_hash q (transaction content) = Confirmed tx_hash q content.transactions
Cleared tx_hash q (proposer _) = Unit
Cleared tx_hash q (voter _) = Unit

clean_pool-Cleared :
    (tx_hash : Transaction → H256) (content : Content) (p : MemoryPool)
    → IsValid tx_hash p
    → p.max_transactions + 1 < 2 ^ 64
    → (q : MemoryPool) × (clean_pool tx_hash content p ≡ done q)
      × Shrinks tx_hash p q
      × Cleared tx_hash q content
unfolding clean_pool
clean_pool-Cleared tx_hash (transaction content) p v room =
    confirm-Confirmed tx_hash content.transactions p v room
clean_pool-Cleared tx_hash (proposer _) p v room =
    (p, refl, record { valid = v; limit = refl; subset = λ h e l. l }, tt)
clean_pool-Cleared tx_hash (voter _) p v room =
    (p, refl, record { valid = v; limit = refl; subset = λ h e l. l }, tt)

-- The handler of a validated block does not panic: in a forest with room, with a pool in order, a
-- block of a new hash that passes `check_data_availability` is inserted, and leaves a forest and a
-- pool in order. The pool keeps a part of its transactions; if the block is a transaction block, then
-- none of its transactions is left, and none that spends an input of one of them.
-- The limit of the pool is below 2 ^ 64 - 1.
pub new_validated_block_lem :
    (tx_hash : Transaction → H256) (header_hash : Header → H256) (block : Block) (p : MemoryPool)
    (c : BlockChain)
    → IsValid tx_hash p
    → p.max_transactions + 1 < 2 ^ 64
    → IsForest c
    → HasRoom c
    → lookup (block_hash header_hash block) c.proposer_node_level ≡ none
    → lookup (block_hash header_hash block) c.voter_node_level ≡ none
    → check_data_availability block c ≡ pass
    → (q : MemoryPool) × (d : BlockChain) × (new_validated_block tx_hash header_hash block p c
        ≡ some (q, d))
      × Shrinks tx_hash p q
      × Cleared tx_hash q block.content
      × IsForest d
unfolding new_validated_block
new_validated_block_lem tx_hash header_hash block p c v limit f room new_proposer new_voter e =
    let (q, run, s, cleared) = clean_pool-Cleared tx_hash block.content p v limit in
    let (d, inserted, g) =
      insert_block-IsForest header_hash block c f room new_proposer new_voter e in
    (q, d, rw (run, inserted, new_validated_block) refl, s, cleared, g)

-- The handler adds nothing but the block to the chain.
pub new_validated_block-Extends :
    (tx_hash : Transaction → H256) (header_hash : Header → H256) (block : Block) (p q : MemoryPool)
    (c d : BlockChain)
    → IsForest c
    → HasRoom c
    → lookup (block_hash header_hash block) c.proposer_node_level ≡ none
    → lookup (block_hash header_hash block) c.voter_node_level ≡ none
    → check_data_availability block c ≡ pass
    → new_validated_block tx_hash header_hash block p c ≡ some (q, d)
    → Extends (block_hash header_hash block) c d
unfolding new_validated_block
new_validated_block-Extends tx_hash header_hash block p q c d f room new_proposer new_voter e run =
    let (d', inserted, g) =
      insert_block-IsForest header_hash block c f room new_proposer new_voter e in
    let x = insert_block-Extends header_hash block c d' f room new_proposer new_voter e inserted in
    let same : d' ≡ d = ground (arith, run, inserted) in
    subst (Extends (block_hash header_hash block) c) same x
