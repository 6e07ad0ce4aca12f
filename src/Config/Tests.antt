-- ===== src/Config/Tests.antt =====
-- Sortition with widths 10 and 70 of 100, and two voter chains.
use prism_rust_vivek.Prelude.{ℕ, ◌-◌, ◌%◌, ◌<◌, ◌≤◌, ◌≡◌, ◌↔◌, refl, none, some, [], arith}
use prism_rust_vivek.Config.{BlockchainConfig, sortition_hash}
use prism_rust_vivek.Config.Sample.{wrapping}
use prism_rust_vivek.Config.Sortition.{sortition_hash_lem}

abbrev config : BlockchainConfig
config = record {
  voter_chains = 2;
  proposer_genesis = 0;
  voter_genesis = [];
  total_sortition_width = 100;
  proposer_sortition_width = 10;
  tx_sortition_width = 70;
}

sortition_hash_lem_example :
    ((sortition_hash wrapping config 85 100 ≡ none) ↔ (100 ≤ 85))
    × ((sortition_hash wrapping config 85 100 ≡ some 0) ↔ (85 < 10))
    × ((sortition_hash wrapping config 85 100 ≡ some 1) ↔ ((10 ≤ 85) × (85 < 90)))
    × ((sortition_hash wrapping config 85 100 ≡ some 2)
        ↔ ((90 ≤ 85) × (85 < 100) × (◌≡◌ {A = ℕ} ((85 - 90) % 2) 0)))
sortition_hash_lem_example =
    sortition_hash_lem wrapping config 85 100 0 (omega arith) (omega arith) (omega arith)
      (omega arith) (omega arith)

-- The widths promise 70 of 100 hashes to transactions, which have 80: those from 10 to 89.
sortition_hash-tx : sortition_hash wrapping config 89 100 ≡ some 1
unfolding sortition_hash
sortition_hash-tx = refl
