-- ===== src/Block.antt =====
-- src/block: headers, contents and blocks. The contents keep the source's names, one record for each
-- `Content` type. The hash of a header, SHA-256 of its encoding by libraries, is the parameter
-- `header_hash` wherever a block is hashed.
use prism_rust_vivek.Prelude.{ℕ, ◌-◌, ◌^◌, List, [], replicate}
use prism_rust_vivek.Crypto.{H256}
use prism_rust_vivek.Ledger.Transaction.{Transaction}

pub record Header : Type 0 where
  pub parent : H256
  pub timestamp : ℕ
  pub nonce : ℕ
  pub content_merkle_root : H256
  pub extra_content : List ℕ
  pub difficulty : H256

-- transaction::Content
pub record TransactionContent : Type 0 where
  pub transactions : List Transaction

-- proposer::Content
pub record ProposerContent : Type 0 where
  pub transaction_refs : List H256
  pub proposer_refs : List H256

-- voter::Content
pub record VoterContent : Type 0 where
  pub chain_number : ℕ
  pub voter_parent : H256
  pub votes : List H256

pub data Content : Type 0 where
  transaction : TransactionContent → Content
  proposer : ProposerContent → Content
  voter : VoterContent → Content

pub record Block : Type 0 where
  pub header : Header
  pub content : Content
  pub sortition_proof : List H256

-- `impl Hashable for Block`: "we are only hashing the header here"
unfoldable pub block_hash : (Header → H256) → Block → H256
block_hash header_hash b = header_hash b.header

-- `DEFAULT_DIFFICULTY`: 32 bytes of 255
abbrev pub default_difficulty : H256
default_difficulty = 2 ^ 256 - 1

abbrev genesis_header : Header
genesis_header = record {
  parent = 0;
  timestamp = 0;
  nonce = 0;
  content_merkle_root = 0;
  extra_content = replicate 32 0;
  difficulty = default_difficulty;
}

-- `proposer::genesis`
abbrev pub proposer_genesis_block : Block
proposer_genesis_block = record {
  header = genesis_header;
  content = proposer (record { transaction_refs = []; proposer_refs = [] });
  sortition_proof = [];
}

-- `voter::genesis`
abbrev pub voter_genesis_block : ℕ → Block
voter_genesis_block chain_num = record {
  header = genesis_header;
  content = voter (record { chain_number = chain_num; voter_parent = 0; votes = [] });
  sortition_proof = [];
}
