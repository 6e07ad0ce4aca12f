-- ===== src/Config.antt =====
-- src/config.rs: the configuration, and the sortition of hashes to chains. The widths are computed
-- in floating point when the configuration is made; here they are any numbers. The 256-bit numbers
-- of a library are numbers, and its arithmetic is the parameter `u`.
pub mod Sortition
pub mod Sample
mod Tests
use prism_rust_vivek.Prelude.{
  ℕ, ◌+◌, ◌-◌, ◌*◌, ◌/◌, ◌%◌, ◌^◌, ◌<◌, ◌≤◌, ◌≡◌, Option, none, some, List, ltb, if◌then◌else◌,
}
use prism_rust_vivek.Crypto.{H256}

pub record BlockchainConfig : Type 0 where
  pub voter_chains : ℕ
  pub proposer_genesis : H256
  pub voter_genesis : List H256
  pub total_sortition_width : ℕ
  pub proposer_sortition_width : ℕ
  pub tx_sortition_width : ℕ

-- Arithmetic on 256-bit numbers: exact where the result is in range.
pub record U256 : Type 0 where
  pub add : ℕ → ℕ → ℕ
  pub sub : ℕ → ℕ → ℕ
  pub mul : ℕ → ℕ → ℕ
  pub add_exact : (a b : ℕ) → a + b < 2 ^ 256 → add a b ≡ a + b
  pub sub_exact : (a b : ℕ) → b ≤ a → sub a b ≡ a - b
  pub mul_exact : (a b : ℕ) → a * b < 2 ^ 256 → mul a b ≡ a * b

abbrev pub proposer_index : ℕ
proposer_index = 0

abbrev pub transaction_index : ℕ
transaction_index = 1

abbrev pub first_voter_index : ℕ
first_voter_index = 2

abbrev pub add_u16 : ℕ → ℕ → ℕ
add_u16 a b = (a + b) % 2 ^ 16

unfoldable pub sortition_hash : U256 → BlockchainConfig → H256 → H256 → Option ℕ
sortition_hash u config hash difficulty =
    let multiplier = difficulty / config.total_sortition_width in
    let proposer_width = u.mul multiplier config.proposer_sortition_width in
    let transaction_width =
      u.mul multiplier (u.add config.proposer_sortition_width config.tx_sortition_width) in
    let voter_idx = u.sub (u.sub hash proposer_width) transaction_width % config.voter_chains in
    if ltb hash proposer_width
    then some proposer_index
    else if ltb hash (u.add transaction_width proposer_width)
    then some transaction_index
    else if ltb hash difficulty
    then some (add_u16 (voter_idx % 2 ^ 16) first_voter_index)
    else none
