-- ===== src/Network/Message.antt =====
-- src/network/message.rs, and what a worker sends: messages and the signals to the miner. The
-- libraries that the worker's code calls are one parameter, `Libraries`.
use prism_rust_vivek.Prelude.{ℕ, Option, List}
use prism_rust_vivek.Text.{Text}
use prism_rust_vivek.Crypto.{H256}
use prism_rust_vivek.Config.{U256}
use prism_rust_vivek.Ledger.Transaction.{Transaction}
use prism_rust_vivek.Block.{Block, Header, Content}
use prism_rust_vivek.Blockdb.{Bytes}
use prism_rust_vivek.Validation.Signatures.{Ed25519}

pub data Message : Type 0 where
  ping pong : Text → Message
  new_block_hashes get_blocks : List H256 → Message
  blocks : List Bytes → Message
  new_transaction_hashes get_transactions : List H256 → Message
  transactions : List Transaction → Message
  bootstrap : H256 → Message

-- `ContextUpdateSignal` of src/miner/mod.rs
pub data ContextUpdateSignal : Type 0 where
  new_proposer_block : ContextUpdateSignal
  new_voter_block : ℕ → ContextUpdateSignal
  new_transaction_block : ContextUpdateSignal

-- to the peer, to all peers, and to the miner
pub data Event : Type 0 where
  write broadcast : Message → Event
  send : ContextUpdateSignal → Event

-- SHA-256, 256-bit arithmetic, signatures and the decoding of blocks.
pub record Libraries : Type 1 where
  pub tx_hash : Transaction → H256
  pub header_hash : Header → H256
  pub content_hash : Content → H256
  pub node : H256 → H256 → H256
  pub u256 : U256
  pub ed25519 : Ed25519
  pub decode : Bytes → Option Block
