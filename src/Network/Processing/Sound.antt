-- ===== src/Network/Processing/Sound.antt =====
-- What holds in every round of the loop over the blocks of a message.
use prism_rust_vivek.Prelude.{
  ℕ, ◌+◌, ◌<◌, ◌≤◌, ◌^◌, ◌≡◌, true, none, some, List, All, count, length, lookup, elem, nat_eq,
  nat_beq,
}
use prism_rust_vivek.Crypto.{H256}
use prism_rust_vivek.Config.{BlockchainConfig}
use prism_rust_vivek.Block.{Block}
use prism_rust_vivek.Mempool.Valid.{IsValid}
use prism_rust_vivek.Blockdb.{contains}
use prism_rust_vivek.Chain.Forest.{IsForest}
use prism_rust_vivek.Chain.Extends.{HasSpace}
use prism_rust_vivek.Validation.{check_pow_sortition_id, pass}
use prism_rust_vivek.Validation.Total.{KeysParse}
use prism_rust_vivek.Validation.Missing.{missing_of}
use prism_rust_vivek.Network.Buffer.Waiting.{Waits, IsBuffered}
use prism_rust_vivek.Network.Buffer.Rounds.{held}
use prism_rust_vivek.Network.Message.{Libraries}
use prism_rust_vivek.Network.Processing.{Progress}

-- How many blocks are not processed yet: on the stack, and in the buffer.
abbrev pub unprocessed : Progress → ℕ
unprocessed s = length s.to_process + length s.context.buffer.dependency

module _ (l : Libraries) where
  -- The proof of work passed, and the keys and signatures parse.
  abbrev pub Checked : BlockchainConfig → Block → Type 0
  Checked config block =
      (check_pow_sortition_id l.header_hash l.u256 block config ≡ pass)
      × KeysParse l.ed25519 block.content

  -- How often the block with a hash is on the stack or in the buffer.
  abbrev pub times : List Block → H256 → ℕ
  times blocks n = count (λ block. nat_beq (l.header_hash block.header) n) blocks

  abbrev pub pending : Progress → H256 → ℕ
  pending s n = times s.to_process n + held s.context.buffer n

  pub record IsSound (s : Progress) : Type 0 where
    pub forest : IsForest s.context.chain
    pub pool : IsValid l.tx_hash s.context.mempool
    pub limit : s.context.mempool.max_transactions + 1 < 2 ^ 64
    pub buffered : IsBuffered l.header_hash s.context.buffer
    pub space : HasSpace (unprocessed s) s.context.chain
    -- a block that is not processed yet is there once, is stored, and is not in the chain
    pub once : (n : H256) → pending s n ≤ 1
    pub unknown :
        (n : H256)
        → 0 < pending s n
        → (lookup n s.context.chain.proposer_node_level ≡ none)
          × (lookup n s.context.chain.voter_node_level ≡ none)
    pub stored : (n : H256) → 0 < pending s n → contains n s.context.blockdb ≡ true
    -- what is in the chain is stored
    pub proposer_stored :
        (n : H256) (k : ℕ)
        → lookup n s.context.chain.proposer_node_level ≡ some k
        → contains n s.context.blockdb ≡ true
    pub voter_stored :
        (n : H256) (k : ℕ)
        → lookup n s.context.chain.voter_node_level ≡ some k
        → contains n s.context.blockdb ≡ true
    pub stack_checked : All (Checked s.context.config) s.to_process
    pub buffer_checked :
        (n : H256) (block : Block)
        → lookup n s.context.buffer.blocks ≡ some block
        → Checked s.context.config block
    -- what a block in the buffer waits for is missing
    pub starved :
        (n d : H256) (block : Block)
        → Waits s.context.buffer n d
        → lookup n s.context.buffer.blocks ≡ some block
        → elem d (missing_of block s.context.chain) ≡ true
