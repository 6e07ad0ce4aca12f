-- ===== src/Validation/Tests.antt =====
-- The theorems on the checks at the chain of two voter chains, for a proposer block and a voter block.
use prism_rust_vivek.Prelude.{ℕ, ◌≡◌, refl, true, none, some, [], ◌∷◌, lookup}
use prism_rust_vivek.Crypto.{H256}
use prism_rust_vivek.Block.{Block, Header, VoterContent, proposer, voter, Content, block_hash}
use prism_rust_vivek.Chain.State.{BlockChain}
use prism_rust_vivek.Chain.Insert.{insert_block}
use prism_rust_vivek.Chain.Query.{best_proposer, unvoted_proposer}
use prism_rust_vivek.Chain.Forest.{IsForest}
use prism_rust_vivek.Chain.Sample.{
  start, start-IsForest, start-HasRoom, proposal, proposed, proposed-IsForest, proposed-HasRoom,
}
use prism_rust_vivek.Validation.{check_data_availability, check_content_semantic, pass}
use prism_rust_vivek.Validation.Signatures.{Ed25519}
use prism_rust_vivek.Validation.Insertion.{insert_block-IsForest}
use prism_rust_vivek.Validation.Miner.{mined_voter_lem}

-- the hash of a header here: its nonce
abbrev header_hash : Header → H256
header_hash h = h.nonce

abbrev block : ℕ → H256 → Content → Block
block nonce parent content = record {
  header = record {
    parent = parent;
    timestamp = 0;
    nonce = nonce;
    content_merkle_root = 0;
    extra_content = [];
    difficulty = 0;
  };
  content = content;
  sortition_proof = [];
}

abbrev ballot : VoterContent
ballot = record { chain_number = 1; voter_parent = 201; votes = 101 ∷ [] }

-- no key and no signature parses
abbrev no_keys : Ed25519
no_keys = record {
  Key = ℕ;
  Signature = ℕ;
  key_of = λ _. none;
  signature_of = λ _. none;
  message_of = λ _. [];
  verify_batch = λ _. true;
}

insert_block-IsForest_example :
    (d : BlockChain) × (insert_block header_hash (block 101 100 (proposer proposal)) start ≡ some d)
    × IsForest d
unfolding start lookup check_data_availability block_hash
insert_block-IsForest_example =
    insert_block-IsForest header_hash (block 101 100 (proposer proposal)) start start-IsForest
      start-HasRoom refl refl refl

mined_voter_lem_example :
    (check_data_availability (block 210 101 (voter ballot)) proposed ≡ pass)
    × (check_content_semantic no_keys (block 210 101 (voter ballot)) proposed ≡ some pass)
unfolding proposed lookup best_proposer unvoted_proposer
mined_voter_lem_example =
    mined_voter_lem no_keys (block 210 101 (voter ballot)) ballot proposed 0 proposed-IsForest
      proposed-HasRoom refl refl refl refl refl
