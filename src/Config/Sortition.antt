-- ===== src/Config/Sortition.antt =====
-- Which hashes belong to which chain.
use native.Mathlib.Nat.{div-mul-le_self, mul-add, mod-lt, mul-le-mul_left}
use prism_rust_vivek.Prelude.{
  ℕ, ◌+◌, ◌-◌, ◌*◌, ◌/◌, ◌%◌, ◌^◌, ◌<◌, ◌≤◌, ◌≡◌, ◌↔◌, ap, ◌∙◌, none, some, ltb, if◌then◌else◌,
  arith,
}
use prism_rust_vivek.Crypto.{H256}
use prism_rust_vivek.Config.{BlockchainConfig, U256, sortition_hash}

module _ (u : U256) (config : BlockchainConfig) (hash difficulty : H256)
    (fits : 2 * config.proposer_sortition_width + config.tx_sortition_width
      ≤ config.total_sortition_width)
    (total_small : config.total_sortition_width < 2 ^ 64)
    (difficulty_small : difficulty < 2 ^ 256) where
  abbrev multiplier : ℕ
  multiplier = difficulty / config.total_sortition_width

  -- the first hash after those of proposers, and the number of those of transactions
  abbrev proposer_end : ℕ
  proposer_end = multiplier * config.proposer_sortition_width

  abbrev tx_count : ℕ
  tx_count = multiplier * (config.proposer_sortition_width + config.tx_sortition_width)

  products_fit : proposer_end + tx_count ≤ difficulty
  products_fit =
      let p = config.proposer_sortition_width in
      let t = config.tx_sortition_width in
      let below : multiplier * (p + (p + t)) ≤ multiplier * config.total_sortition_width =
        mul-le-mul_left multiplier (omega (arith, fits)) in
      omega (
        arith,
        below,
        mul-add multiplier p (p + t),
        div-mul-le_self difficulty config.total_sortition_width,
      )

  proposer_width : u.mul multiplier config.proposer_sortition_width ≡ proposer_end
  proposer_width =
      u.mul_exact multiplier config.proposer_sortition_width (omega (arith, products_fit))

  transaction_width :
      u.mul multiplier (u.add config.proposer_sortition_width config.tx_sortition_width) ≡ tx_count
  transaction_width =
      let e : u.add config.proposer_sortition_width config.tx_sortition_width
          ≡ config.proposer_sortition_width + config.tx_sortition_width =
        u.add_exact config.proposer_sortition_width config.tx_sortition_width (omega arith) in
      ap (u.mul multiplier) e
      ∙ u.mul_exact multiplier (config.proposer_sortition_width + config.tx_sortition_width)
          (omega (arith, products_fit))

  both_widths : u.add tx_count proposer_end ≡ tx_count + proposer_end
  both_widths = u.add_exact tx_count proposer_end (omega (arith, products_fit))

  past_both :
      tx_count + proposer_end ≤ hash
      → u.sub (u.sub hash proposer_end) tx_count ≡ hash - (proposer_end + tx_count)
  past_both h =
      ap (λ (x : ℕ). u.sub x tx_count) (u.sub_exact hash proposer_end (omega arith))
      ∙ (u.sub_exact (hash - proposer_end) tx_count (omega arith) ∙ omega arith)

  sortition_hash-eq : sortition_hash u config hash difficulty ≡ (
      if ltb hash proposer_end
      then some 0
      else if ltb hash (tx_count + proposer_end)
      then some 1
      else if ltb hash difficulty
      then some (((hash - (proposer_end + tx_count)) % config.voter_chains % 2 ^ 16 + 2) % 2 ^ 16)
      else none)
  unfolding sortition_hash
  sortition_hash-eq =
      rw (proposer_width, transaction_width, both_widths)
        (ground (
          arith,
          past_both,
          ap (λ (x : ℕ). some ((x % config.voter_chains % 2 ^ 16 + 2) % 2 ^ 16)),
        ))

-- The ranges, for any two ends and any remainder.
ranges :
    (p t hash difficulty n r k : ℕ)
    → p + t ≤ difficulty
    → r < n
    → n + 2 ≤ 2 ^ 16
    → let id =
        if ltb hash p
        then some 0
        else if ltb hash (t + p)
        then some 1
        else if ltb hash difficulty
        then some ((r % 2 ^ 16 + 2) % 2 ^ 16)
        else none in
      ((id ≡ none) ↔ (difficulty ≤ hash))
      × ((id ≡ some 0) ↔ (hash < p))
      × ((id ≡ some 1) ↔ ((p ≤ hash) × (hash < p + t)))
      × ((id ≡ some (2 + k)) ↔ ((p + t ≤ hash) × (hash < difficulty) × (r ≡ k)))
ranges p t hash difficulty n r k le lt few =
    let e : (r % 2 ^ 16 + 2) % 2 ^ 16 ≡ 2 + r = omega arith in rw e (ground arith)

-- With `m` the difficulty over the total width: a hash below the difficulty belongs to a chain and
-- no other hash does; the proposer chain has the hashes below `m` times its width `p`; transactions
-- have the next `m * (p + t)` hashes, where `t` is their width; and every other hash below the
-- difficulty belongs to a voter chain, by its remainder. The widths are such that twice `p` and `t`
-- fit the total width, which is below 2 ^ 64, and there are between 1 and 2 ^ 16 - 2 voter chains.
pub sortition_hash_lem :
    (u : U256) (config : BlockchainConfig) (hash difficulty k : ℕ)
    → 2 * config.proposer_sortition_width + config.tx_sortition_width ≤ config.total_sortition_width
    → config.total_sortition_width < 2 ^ 64
    → difficulty < 2 ^ 256
    → 0 < config.voter_chains
    → config.voter_chains + 2 ≤ 2 ^ 16
    → let m = difficulty / config.total_sortition_width in
      let p_end = m * config.proposer_sortition_width in
      let t_end = p_end + m * (config.proposer_sortition_width + config.tx_sortition_width) in
      ((sortition_hash u config hash difficulty ≡ none) ↔ (difficulty ≤ hash))
      × ((sortition_hash u config hash difficulty ≡ some 0) ↔ (hash < p_end))
      × ((sortition_hash u config hash difficulty ≡ some 1) ↔ ((p_end ≤ hash) × (hash < t_end)))
      × ((sortition_hash u config hash difficulty ≡ some (2 + k))
          ↔ ((t_end ≤ hash) × (hash < difficulty) × ((hash - t_end) % config.voter_chains ≡ k)))
sortition_hash_lem u config hash difficulty k fits total small chains few =
    rw (sortition_hash-eq u config hash difficulty fits total small) (
      ranges (proposer_end u config hash difficulty fits total small)
        (tx_count u config hash difficulty fits total small) hash difficulty config.voter_chains
        ((hash
            - (proposer_end u config hash difficulty fits total small
                + tx_count u config hash difficulty fits total small))
          % config.voter_chains)
        k (products_fit u config hash difficulty fits total small)
        (mod-lt
          (hash
            - (proposer_end u config hash difficulty fits total small
                + tx_count u config hash difficulty fits total small))
          chains)
        few)
