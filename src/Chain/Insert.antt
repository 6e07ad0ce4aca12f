-- ===== src/Chain/Insert.antt =====
-- `insert_block` of blockchain/mod.rs, by the content of the block. The writes of the batch come in
-- order; a merge is a read, the operator and a write. `none` is a failed `unwrap`: the parent, or the
-- voter parent, is not in the database, or its chain has no entry in `voter_best`.
use prism_rust_vivek.Prelude.{
  discard_all, ℕ, Option, some, List, [], ◌∷◌, Table, lookup, insert, add, discard, get_elem?, set,
  ltb, if◌then◌else◌, nat_eq, pair_eq, add_u64, ◌>>=◌,
}
use prism_rust_vivek.Crypto.{H256}
use prism_rust_vivek.Block.{
  Block, Header, Content, ProposerContent, VoterContent, transaction, proposer, voter, block_hash,
}
use prism_rust_vivek.Chain.State.{BlockChain}
use prism_rust_vivek.Chain.Merge.{h256_vec_append_merge, u64_plus_merge}

-- One vote more for each block of a list.
unfoldable pub count_votes : List H256 → Table H256 ℕ → Table H256 ℕ
unfolding u64_plus_merge
count_votes [] m = m
count_votes (h ∷ votes) m = count_votes votes (insert h (u64_plus_merge (lookup h m) (1 ∷ [])) m)

unfoldable pub insert_proposer : H256 → H256 → ProposerContent → BlockChain → Option BlockChain
unfolding discard_all h256_vec_append_merge
insert_proposer block_hash parent_hash content c = do
  parent_level ← lookup parent_hash c.proposer_node_level
  let self_level = add_u64 parent_level 1
  let at_level = h256_vec_append_merge (lookup self_level c.proposer_tree_level) (block_hash ∷ [])
  some (record c {
    parent_neighbor = insert block_hash parent_hash c.parent_neighbor;
    proposer_ref_neighbor =
        insert block_hash (parent_hash ∷ content.proposer_refs) c.proposer_ref_neighbor;
    transaction_ref_neighbor =
        insert block_hash content.transaction_refs c.transaction_ref_neighbor;
    proposer_node_level = insert block_hash self_level c.proposer_node_level;
    proposer_tree_level = insert self_level at_level c.proposer_tree_level;
    unconfirmed_proposers = add block_hash c.unconfirmed_proposers;
    proposer_best_level =
        if ltb c.proposer_best_level self_level then self_level else c.proposer_best_level;
    unreferred_proposers =
        discard parent_hash
          (discard_all content.proposer_refs (add block_hash c.unreferred_proposers));
    unreferred_transactions = discard_all content.transaction_refs c.unreferred_transactions;
  })

-- `if self_level > voter_best.1 { voter_best = (block_hash, self_level) }`
unfoldable pub update_voter_best : H256 → ℕ → H256 × ℕ → H256 × ℕ
update_voter_best block_hash self_level best =
    if ltb best.1 self_level then (block_hash, self_level) else best

unfoldable pub insert_voter : H256 → H256 → VoterContent → BlockChain → Option BlockChain
unfolding count_votes u64_plus_merge update_voter_best
insert_voter block_hash parent_hash content c = do
  voter_parent_level ← lookup content.voter_parent c.voter_node_level
  self_chain ← lookup content.voter_parent c.voter_node_chain
  proposer_parent_level ← lookup parent_hash c.proposer_node_level
  best ← get_elem? c.voter_best self_chain
  let self_level = add_u64 voter_parent_level 1
  let level_count =
      u64_plus_merge (lookup (self_chain, self_level) c.voter_tree_level_count) (1 ∷ [])
  some (record c {
    parent_neighbor = insert block_hash parent_hash c.parent_neighbor;
    voter_parent_neighbor = insert block_hash content.voter_parent c.voter_parent_neighbor;
    voter_node_level = insert block_hash self_level c.voter_node_level;
    voter_node_chain = insert block_hash self_chain c.voter_node_chain;
    voter_tree_level_count = insert (self_chain, self_level) level_count c.voter_tree_level_count;
    proposer_vote_count = count_votes content.votes c.proposer_vote_count;
    vote_neighbor = insert block_hash content.votes c.vote_neighbor;
    voter_node_voted_level = insert block_hash proposer_parent_level c.voter_node_voted_level;
    voter_best = set c.voter_best self_chain (update_voter_best block_hash self_level best);
  })

unfoldable pub insert_transaction : H256 → H256 → BlockChain → BlockChain
insert_transaction block_hash parent_hash c = record c {
  parent_neighbor = insert block_hash parent_hash c.parent_neighbor;
  unreferred_transactions = add block_hash c.unreferred_transactions;
}

unfoldable pub insert_content : H256 → H256 → Content → BlockChain → Option BlockChain
unfolding insert_proposer insert_voter insert_transaction
insert_content hash parent (proposer content) c = insert_proposer hash parent content c
insert_content hash parent (voter content) c = insert_voter hash parent content c
insert_content hash parent (transaction _) c = some (insert_transaction hash parent c)

unfoldable pub insert_block : (Header → H256) → Block → BlockChain → Option BlockChain
unfolding insert_content block_hash
insert_block header_hash block c =
    insert_content (block_hash header_hash block) block.header.parent block.content c
