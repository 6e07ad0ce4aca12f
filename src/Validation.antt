-- ===== src/Validation.antt =====
-- src/validation: the checks of a received block, by its content. `none` is a panic: a failed
-- `unwrap` of a level, of a chain number, or of a key or signature that does not parse.
pub mod Transactions
pub mod Signatures
pub mod Insertion
pub mod Missing
pub mod Total
pub mod Miner
mod Tests
use prism_rust_vivek.Prelude.{
  ℕ, zero, suc, ◌+◌, ◌-◌, ◌%◌, ◌^◌, Bool, true, false, not, ◌||◌, Option, none, some, List, [], ◌∷◌,
  ◌++◌, filter, length, ltb, leb, ◌==◌, nat_eq, if◌then◌else◌, ◌>>=◌, add_u64,
}
use prism_rust_vivek.Crypto.{H256}
use prism_rust_vivek.Crypto.Merkle.{verify}
use prism_rust_vivek.Config.{
  BlockchainConfig, U256, sortition_hash, proposer_index, transaction_index, first_voter_index,
  add_u16,
}
use prism_rust_vivek.Ledger.Transaction.{Transaction}
use prism_rust_vivek.Block.{
  Block, Header, Content, ProposerContent, VoterContent, TransactionContent, proposer, voter,
  transaction, block_hash,
}
use prism_rust_vivek.Chain.State.{BlockChain}
use prism_rust_vivek.Chain.Query.{
  contains_proposer, contains_voter, contains_transaction, proposer_level, deepest_voted_level,
  voter_chain_number,
}
use prism_rust_vivek.Validation.Transactions.{
  check_transactions, Failure, is_empty_tx, has_zero, lacks_input,
}
use prism_rust_vivek.Validation.Signatures.{Ed25519, check_signature_batch}

pub data BlockResult : Type 0 where
  pass wrong_pow wrong_sortition_id wrong_sortition_proof : BlockResult
  missing_references : List H256 → BlockResult
  wrong_proposer_ref wrong_chain_number wrong_vote_level : BlockResult
  empty_transaction zero_value insufficient_input wrong_signature : BlockResult

-- the sortition id that fits the content
abbrev pub correct_sortition_id : Content → ℕ
correct_sortition_id (proposer _) = proposer_index
correct_sortition_id (transaction _) = transaction_index
correct_sortition_id (voter content) = add_u16 content.chain_number first_voter_index

unfoldable pub check_pow_sortition_id :
    (Header → H256) → U256 → Block → BlockchainConfig → BlockResult
unfolding sortition_hash block_hash
check_pow_sortition_id header_hash u block config =
    elim (sortition_hash u config (block_hash header_hash block) block.header.difficulty) [
      | none ↦ wrong_pow
      | some sortition_id ↦
          if sortition_id == correct_sortition_id block.content then pass else wrong_sortition_id
    ]

-- `none` is `unreachable!()`
unfoldable pub check_sortition_proof :
    (Header → H256)
    → (Content → H256)
    → (H256 → H256 → H256)
    → U256
    → Block
    → BlockchainConfig
    → Option BlockResult
unfolding sortition_hash block_hash verify
check_sortition_proof header_hash content_hash node u block config =
    elim (sortition_hash u config (block_hash header_hash block) block.header.difficulty) [
      | none ↦ none
      | some sortition_id ↦
          verify node block.header.content_merkle_root (content_hash block.content)
            block.sortition_proof sortition_id (add_u16 config.voter_chains first_voter_index)
          >>= (λ accepted. some (if accepted then pass else wrong_sortition_proof))
    ]

-- `get_missing_references` of a proposer and of a voter content
unfoldable pub proposer_missing_references : ProposerContent → BlockChain → List H256
unfolding contains_proposer contains_transaction
proposer_missing_references content c =
    filter (λ h. not (contains_transaction c h)) content.transaction_refs
    ++ filter (λ h. not (contains_proposer c h)) content.proposer_refs

unfoldable pub voter_missing_references : VoterContent → BlockChain → List H256
unfolding contains_proposer contains_voter
voter_missing_references content c =
    (if contains_voter c content.voter_parent then [] else content.voter_parent ∷ [])
    ++ filter (λ h. not (contains_proposer c h)) content.votes

unfoldable pub missing_in_content : Content → BlockChain → List H256
unfolding proposer_missing_references voter_missing_references
missing_in_content (proposer content) c = proposer_missing_references content c
missing_in_content (voter content) c = voter_missing_references content c
missing_in_content (transaction _) c = []

-- `if !missing.is_empty() { MissingReferences(missing) } else { Pass }`
abbrev pub availability : List H256 → BlockResult
availability [] = pass
availability (h ∷ hashes) = missing_references (h ∷ hashes)

unfoldable pub check_data_availability : Block → BlockChain → BlockResult
unfolding missing_in_content contains_proposer
check_data_availability block c =
    let parent = block.header.parent in
    let missing =
      (if contains_proposer c parent then [] else parent ∷ [])
      ++ missing_in_content block.content c in
    availability missing

-- the loop over the references
unfoldable pub refs_up_to : ℕ → List H256 → BlockChain → Option Bool
unfolding proposer_level
refs_up_to parent_level [] c = some true
refs_up_to parent_level (h ∷ refs) c = do
  l ← proposer_level c h
  if ltb parent_level l then some false else refs_up_to parent_level refs c

unfoldable pub check_ref_proposer_level : H256 → ProposerContent → BlockChain → Option Bool
unfolding refs_up_to proposer_level
check_ref_proposer_level parent content c = do
  parent_level ← proposer_level c parent
  refs_up_to parent_level content.proposer_refs c

unfoldable pub check_chain_number : VoterContent → BlockChain → Option Bool
unfolding voter_chain_number
check_chain_number content c = do
  chain_num ← voter_chain_number c content.voter_parent
  some (chain_num == content.chain_number)

-- the loop over the votes, from the level before the first one
unfoldable pub votes_follow : ℕ → List H256 → BlockChain → Option Bool
unfolding proposer_level
votes_follow start [] c = some true
votes_follow start (vote ∷ votes) c = do
  l ← proposer_level c vote
  if add_u64 start 1 == l then votes_follow (add_u64 start 1) votes c else some false

unfoldable pub check_levels_voted : VoterContent → BlockChain → H256 → Option Bool
unfolding votes_follow deepest_voted_level proposer_level
check_levels_voted content c parent = do
  start ← deepest_voted_level c content.voter_parent
  end ← proposer_level c parent
  (if ltb end start
      then some false
      else if length content.votes == end - start
      then votes_follow start content.votes c
      else some false)

abbrev pub transaction_failure : Failure → BlockResult
transaction_failure is_empty_tx = empty_transaction
transaction_failure has_zero = zero_value
transaction_failure lacks_input = insufficient_input

unfoldable pub check_content_semantic : Ed25519 → Block → BlockChain → Option BlockResult
unfolding check_ref_proposer_level check_chain_number check_levels_voted check_signature_batch
check_content_semantic ed block c = elim block.content [
  | proposer content ↦ do
    ok ← check_ref_proposer_level block.header.parent content c
    some (if ok then pass else wrong_proposer_ref)
  | voter content ↦ do
    same ← check_chain_number content c
    elim same [
      | false ↦ some wrong_chain_number
      | true ↦ do
        voted ← check_levels_voted content c block.header.parent
        some (if voted then pass else wrong_vote_level)
    ]
  | transaction content ↦ elim (check_transactions content.transactions) [
    | some failure ↦ some (transaction_failure failure)
    | none ↦ do
      ok ← check_signature_batch ed content.transactions
      some (if ok then pass else wrong_signature)
  ]
]
