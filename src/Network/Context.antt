-- ===== src/Network/Context.antt =====
-- The state that a worker of src/network/worker.rs reads and writes. The locks are not modelled: one
-- worker handles one message after another. The database of coins and the wallet, which it holds but
-- does not touch, are left out.
use prism_rust_vivek.Prelude.{List}
use prism_rust_vivek.Crypto.{H256}
use prism_rust_vivek.Config.{BlockchainConfig}
use prism_rust_vivek.Chain.State.{BlockChain}
use prism_rust_vivek.Blockdb.{BlockDatabase}
use prism_rust_vivek.Mempool.{MemoryPool}
use prism_rust_vivek.Network.Buffer.{BlockBuffer}

pub record Context : Type 0 where
  pub chain : BlockChain
  pub blockdb : BlockDatabase
  pub mempool : MemoryPool
  pub buffer : BlockBuffer
  -- received but not yet stored, and requested but not yet received
  pub recent_blocks : List H256
  pub requested_blocks : List H256
  pub config : BlockchainConfig
