-- ===== src/Chain/State.antt =====
-- `BlockChain`: the column families of its database, one table each, and the fields that it keeps
-- under locks. An I/O error of the database is not modelled; a failed `unwrap` is `none`.
use prism_rust_vivek.Prelude.{ℕ, List, Table}
use prism_rust_vivek.Crypto.{H256}
use prism_rust_vivek.Config.{BlockchainConfig}

pub record BlockChain : Type 0 where
  -- hash to node level
  pub proposer_node_level : Table H256 ℕ
  pub voter_node_level : Table H256 ℕ
  -- hash to chain number
  pub voter_node_chain : Table H256 ℕ
  -- chain number and level to number of blocks
  pub voter_tree_level_count : Table (ℕ × ℕ) ℕ
  -- level to hashes of blocks
  pub proposer_tree_level : Table ℕ (List H256)
  -- hash to the deepest voted level
  pub voter_node_voted_level : Table H256 ℕ
  -- hash to chain number and level of the main chain votes
  pub proposer_node_vote : Table H256 (List (ℕ × ℕ))
  -- level to the leader, and to the blocks that the leader confirms
  pub proposer_leader_sequence : Table ℕ H256
  pub proposer_ledger_order : Table ℕ (List H256)
  -- number of all votes on a block
  pub proposer_vote_count : Table H256 ℕ
  -- graph neighbours
  pub parent_neighbor : Table H256 H256
  pub vote_neighbor : Table H256 (List H256)
  pub voter_parent_neighbor : Table H256 H256
  pub transaction_ref_neighbor : Table H256 (List H256)
  pub proposer_ref_neighbor : Table H256 (List H256)
  -- the fields under locks
  pub proposer_best_level : ℕ
  pub voter_best : List (H256 × ℕ)
  pub unreferred_transactions : List H256
  pub unreferred_proposers : List H256
  pub unconfirmed_proposers : List H256
  pub proposer_ledger_tip : ℕ
  pub voter_ledger_tips : List H256
  pub config : BlockchainConfig
