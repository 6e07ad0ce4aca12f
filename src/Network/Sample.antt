-- ===== src/Network/Sample.antt =====
-- A node for the tests: the chain with two voter chains, and proposer blocks that are two numbers
-- when they are encoded, their hash and their parent.
use prism_rust_vivek.Prelude.{
  ℕ, true, Option, none, some, [], ◌∷◌, lookup, insert, nat_eq, arith, replicate,
}
use prism_rust_vivek.Crypto.{H256}
use prism_rust_vivek.Config.Sample.{wrapping}
use prism_rust_vivek.Block.{Block, proposer}
use prism_rust_vivek.Blockdb.{BlockDatabase, Bytes, contains, put_block, new as new_blockdb}
use prism_rust_vivek.Mempool.{new as empty_pool}
use prism_rust_vivek.Mempool.Valid.{new-IsValid}
use prism_rust_vivek.Chain.Sample.{config, start, start-IsForest, proposal}
use prism_rust_vivek.Chain.Genesis.{new as new_chain}
use prism_rust_vivek.Chain.Extends.{HasSpace}
use prism_rust_vivek.Validation.Signatures.{Ed25519}
use prism_rust_vivek.Network.Buffer.{new as empty_buffer}
use prism_rust_vivek.Network.Buffer.Insert.{new-IsBuffered}
use prism_rust_vivek.Network.Message.{Libraries}
use prism_rust_vivek.Network.Context.{Context}
use prism_rust_vivek.Network.Worker.Messages.{IsNode}

abbrev pub block : ℕ → H256 → Block
block nonce parent = record {
  header = record {
    parent = parent;
    timestamp = 0;
    nonce = nonce;
    content_merkle_root = 0;
    extra_content = replicate 32 0;
    difficulty = 10000;
  };
  content = proposer proposal;
  sortition_proof = 0 ∷ 0 ∷ [];
}

abbrev decode : Bytes → Option Block
decode (nonce ∷ parent ∷ []) = some (block nonce parent)
decode _ = none

-- no key and no signature parses
abbrev no_keys : Ed25519
no_keys = record {
  Key = ℕ;
  Signature = ℕ;
  key_of = λ _. none;
  signature_of = λ _. none;
  message_of = λ _. [];
  verify_batch = λ _. true;
}

abbrev pub libraries : Libraries
libraries = record {
  tx_hash = λ t. 0;
  header_hash = λ h. h.nonce;
  content_hash = λ c. 0;
  node = λ a b. 0;
  u256 = wrapping;
  ed25519 = no_keys;
  decode = decode;
}

abbrev take_blockdb : Option BlockDatabase → BlockDatabase
take_blockdb none = record {
  block_cf = [];
  block_arrival_order_cf = [];
  block_sequence_number_cf = [];
  count = 0;
}
take_blockdb (some db) = db

unfoldable pub node : Context
unfolding new_blockdb start
node = record {
  chain = start;
  blockdb = take_blockdb (new_blockdb (λ b. []) config);
  mempool = empty_pool 8;
  buffer = empty_buffer;
  recent_blocks = [];
  requested_blocks = [];
  config = config;
}

pub node-HasSpace : HasSpace 2 node.chain
unfolding node start new_chain lookup
node-HasSpace = record { best_level = omega arith; voter_level = λ h l q. ground arith }

pub node-IsNode : IsNode libraries node
unfolding node start new_chain new_blockdb put_block contains lookup insert
node-IsNode = record {
  forest = start-IsForest;
  pool = new-IsValid (λ t. 0) 8;
  limit = omega arith;
  buffered = new-IsBuffered (λ h. h.nonce);
  space = record { best_level = omega arith; voter_level = λ h l q. ground arith };
  once = λ n. omega arith;
  unknown = λ n lt. absurd (omega (arith, lt));
  stored = λ n lt. absurd (omega (arith, lt));
  proposer_stored = λ n k e. ground arith;
  voter_stored = λ n k e. ground arith;
  stack_checked = tt;
  buffer_checked = λ n b e. cc e;
  starved = λ n d b (ds, l, k) e. cc l;
}
