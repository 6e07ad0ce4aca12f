-- ===== src/Crypto.antt =====
-- src/crypto: hashes and their order. Everywhere else a hash is the number that its 32 bytes spell.
pub mod Hash
pub mod Halvings
pub mod Merkle
pub mod Tree
mod Tests
use prism_rust_vivek.Prelude.{ℕ}

-- `H256`, "big endian u256"; that its order is that of the numbers is `Crypto.Hash.cmp-eq-compare`.
abbrev pub H256 : Type 0
H256 = ℕ
