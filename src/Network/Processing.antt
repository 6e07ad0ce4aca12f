-- ===== src/Network/Processing.antt =====
-- The loop over `to_process` in the handler of `Message::Blocks` of src/network/worker.rs.
-- `to_process` is a stack: its head is the last block of the source's vector, which `pop` takes.
-- `none` is a panic, or in the loop a lack of fuel.
pub mod Sound
pub mod Hold
pub mod Accept
pub mod Loop
use prism_rust_vivek.Prelude.{
  ℕ, zero, suc, Bool, true, false, Option, none, some, List, [], ◌∷◌, ◌++◌, if◌then◌else◌, ◌>>=◌,
}
use prism_rust_vivek.Crypto.{H256}
use prism_rust_vivek.Block.{Block, Content, proposer, voter, transaction, block_hash}
use prism_rust_vivek.Validation.{
  BlockResult, pass, missing_references, check_data_availability, check_sortition_proof,
  check_content_semantic,
}
use prism_rust_vivek.Handler.{new_validated_block}
use prism_rust_vivek.Network.Buffer.{insert_block, satisfy}
use prism_rust_vivek.Network.Message.{
  Libraries, ContextUpdateSignal, new_proposer_block, new_voter_block, new_transaction_block,
}
use prism_rust_vivek.Network.Context.{Context}

-- the variables of the loop
pub record Progress : Type 0 where
  pub context : Context
  pub to_process : List Block
  pub to_request : List H256
  pub context_update_sig : List ContextUpdateSignal

abbrev pub is_pass : BlockResult → Bool
is_pass pass = true
is_pass _ = false

abbrev pub signal_of : Content → ContextUpdateSignal
signal_of (proposer _) = new_proposer_block
signal_of (voter content) = new_voter_block content.chain_number
signal_of (transaction _) = new_transaction_block

-- `for b in resolved_by_current.drain(..) { to_process.push(b) }`
unfoldable pub push_all : List Block → List Block → List Block
push_all [] stack = stack
push_all (b ∷ resolved) stack = push_all resolved (b ∷ stack)

module _ (l : Libraries) where
  -- the check of the sortition proof, and then of the content
  unfoldable pub check_block : Block → Context → Option Bool
  unfolding check_sortition_proof check_content_semantic
  check_block block c = do
    sortition_proof ←
        check_sortition_proof l.header_hash l.content_hash l.node l.u256 block c.config
    elim (is_pass sortition_proof) [
      | false ↦ some false
      | true ↦ do
        content_semantic ← check_content_semantic l.ed25519 block c.chain
        some (is_pass content_semantic)
    ]

  -- a block whose references are missing
  unfoldable pub hold_block : Block → List H256 → Progress → Progress
  unfolding insert_block
  hold_block block missing s = record s {
    context = record s.context {
      buffer = insert_block l.header_hash block missing s.context.buffer;
    };
    to_request = s.to_request ++ missing;
  }

  -- a block that passed all checks
  unfoldable pub accept_block : Block → Progress → Option Progress
  unfolding new_validated_block satisfy push_all block_hash
  accept_block block s = do
    validated ← new_validated_block l.tx_hash l.header_hash block s.context.mempool s.context.chain
    resolved ← satisfy (block_hash l.header_hash block) s.context.buffer
    some (record s {
      context = record s.context {
        mempool = validated.0;
        chain = validated.1;
        buffer = resolved.1;
      };
      to_process = push_all resolved.0 s.to_process;
      context_update_sig = s.context_update_sig ++ signal_of block.content ∷ [];
    })

  -- one round of the loop, with the block that was popped
  unfoldable pub process_block : Block → Progress → Option Progress
  unfolding check_block hold_block accept_block check_data_availability
  process_block block s = elim (check_data_availability block s.context.chain) [
    | missing_references r ↦ some (hold_block block r s)
    | pass ↦ do valid ← check_block block s.context; if valid then accept_block block s else some s
    | _ ↦ none
  ]

  -- the loop over the stack
  unfoldable pub process_blocks : ℕ → Progress → Option Progress
  unfolding process_block
  process_blocks zero s = none
  process_blocks (suc fuel) s = elim s.to_process [
    | [] ↦ some s
    | block ∷ rest ↦ process_block block (record s { to_process = rest }) >>= process_blocks fuel
  ]
