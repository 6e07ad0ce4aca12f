-- ===== src/Ledger.antt =====
-- The ledger of coins: src/transaction, src/utxodb, src/miner/memory_pool.rs.
pub mod Transaction
pub mod Utxo
pub mod Manager
mod Tests
