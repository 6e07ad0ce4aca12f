-- ===== src/Chain/Query.antt =====
-- The questions that the miner, the validation and the visualiser ask of the block trees.
-- `none` is a failed `unwrap` or an index out of range.
use prism_rust_vivek.Prelude.{
  ℕ, zero, suc, ◌+◌, ◌-◌, Bool, Option, none, some, List, [], ◌∷◌, lookup, contains_key, get_elem?,
  ltb, leb, if◌then◌else◌, nat_eq, pair_eq, add_u64, ◌>>=◌,
}
use prism_rust_vivek.Crypto.{H256}
use prism_rust_vivek.Chain.State.{BlockChain}
use prism_rust_vivek.Chain.Merge.{from_stored}

unfoldable pub contains_proposer : BlockChain → H256 → Bool
contains_proposer c hash = contains_key hash c.proposer_node_level

unfoldable pub contains_voter : BlockChain → H256 → Bool
contains_voter c hash = contains_key hash c.voter_node_level

-- A block of any kind has an entry here, so this cannot tell transaction blocks from others.
unfoldable pub contains_transaction : BlockChain → H256 → Bool
contains_transaction c hash = contains_key hash c.parent_neighbor

unfoldable pub proposer_level : BlockChain → H256 → Option ℕ
proposer_level c hash = lookup hash c.proposer_node_level

unfoldable pub deepest_voted_level : BlockChain → H256 → Option ℕ
deepest_voted_level c hash = lookup hash c.voter_node_voted_level

unfoldable pub voter_chain_number : BlockChain → H256 → Option ℕ
voter_chain_number c hash = lookup hash c.voter_node_chain

-- the first block of the best level
unfoldable pub best_proposer : BlockChain → Option H256
best_proposer c = do blocks ← lookup c.proposer_best_level c.proposer_tree_level; get_elem? blocks 0

unfoldable pub best_voter : BlockChain → ℕ → Option H256
best_voter c chain_num = do best ← get_elem? c.voter_best chain_num; some best.0

-- `for l in start_level..=end_level`, by the rounds left
unfoldable pub sum_levels : BlockChain → ℕ → ℕ → ℕ → Option ℕ
sum_levels c chain l zero = some 0
sum_levels c chain l (suc rounds) = do
  t ← lookup (chain, l) c.voter_tree_level_count
  rest ← sum_levels c chain (l + 1) rounds
  some (add_u64 t rest)

unfoldable pub num_voter_blocks : BlockChain → ℕ → ℕ → ℕ → Option ℕ
unfolding sum_levels
num_voter_blocks c chain start_level end_level =
    sum_levels c chain start_level (end_level + 1 - start_level)

-- `sort_unstable` on hashes
unfoldable pub insert_sorted : H256 → List H256 → List H256
insert_sorted h [] = h ∷ []
insert_sorted h (x ∷ xs) = let rest = insert_sorted h xs in if leb h x then h ∷ x ∷ xs else x ∷ rest

unfoldable pub sort : List H256 → List H256
unfolding insert_sorted
sort [] = []
sort (x ∷ xs) = insert_sorted x (sort xs)

abbrev pub vote_count : BlockChain → H256 → ℕ
vote_count c hash = from_stored 0 (lookup hash c.proposer_vote_count)

-- The loop over the blocks of a level: the first block with the most votes.
abbrev pub better_vote : BlockChain → Option (H256 × ℕ) → H256 → Option (H256 × ℕ)
better_vote c none hash = some (hash, vote_count c hash)
better_vote c (some (best, num_votes)) hash =
    if ltb num_votes (vote_count c hash)
    then some (hash, vote_count c hash)
    else some (best, num_votes)

unfoldable pub best_vote : BlockChain → Option (H256 × ℕ) → List H256 → Option (H256 × ℕ)
best_vote c best [] = best
best_vote c best (hash ∷ blocks) = best_vote c (better_vote c best hash) blocks

-- `for level in first_vote_level + 1..=last_vote_level`, by the rounds left
unfoldable pub vote_levels : BlockChain → ℕ → ℕ → Option (List H256)
unfolding best_vote sort
vote_levels c level zero = some []
vote_levels c level (suc rounds) = do
  blocks ← lookup level c.proposer_tree_level
  best ← best_vote c none (sort blocks)
  rest ← vote_levels c (level + 1) rounds
  some (best.0 ∷ rest)

unfoldable pub unvoted_proposer : BlockChain → H256 → H256 → Option (List H256)
unfolding vote_levels
unvoted_proposer c tip proposer_parent = do
  first_vote_level ← lookup tip c.voter_node_voted_level
  last_vote_level ← lookup proposer_parent c.proposer_node_level
  let start = add_u64 first_vote_level 1
  vote_levels c start (last_vote_level + 1 - start)

-- The leaders from level 0 to the ledger tip, by the rounds left.
unfoldable pub leaders_from : BlockChain → ℕ → ℕ → Option (List H256)
leaders_from c level zero = some []
leaders_from c level (suc rounds) = do
  leader ← lookup level c.proposer_leader_sequence
  rest ← leaders_from c (level + 1) rounds
  some (leader ∷ rest)

unfoldable pub proposer_leaders : BlockChain → Option (List H256)
unfolding leaders_from
proposer_leaders c = leaders_from c 0 (c.proposer_ledger_tip + 1)
