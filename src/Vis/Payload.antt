-- ===== src/Vis/Payload.antt =====
-- The object that `/blockchain.json` holds, in the shape in which `handle_data` reads it.
-- A JSON object is a table in the order of its keys; the keys are hashes in hexadecimal.
use prism_rust_vivek.Prelude.{ℕ, List, Table}
use prism_rust_vivek.Text.{Text}

-- `v['status'] == 'Leader'`, or any other status
pub data ProposerStatus : Type 0 where
  leader others : ProposerStatus

pub data VoterStatus : Type 0 where
  on_main_chain orphan : VoterStatus

pub record ProposerNode : Type 0 where
  pub level : ℕ
  pub status : ProposerStatus
  pub votes : ℕ

pub record VoterNode : Type 0 where
  pub chain : ℕ
  pub level : ℕ
  pub status : VoterStatus

pub data EdgeType : Type 0 where
  voter_to_voter_parent proposer_to_proposer_parent : EdgeType
  voter_to_proposer_parent_and_vote voter_to_proposer_vote : EdgeType
  other_edge : Text → EdgeType

pub record Edge : Type 0 where
  pub from : Text
  pub to : Text
  pub edgetype : EdgeType

pub record Payload : Type 0 where
  pub proposer_nodes : Table Text ProposerNode
  pub proposer_levels : List (List Text)
  pub proposer_tree_number : Text
  pub voter_longest : List Text
  pub voter_nodes : Table Text VoterNode
  pub voter_chain_number : List Text
  pub edges : List Edge
