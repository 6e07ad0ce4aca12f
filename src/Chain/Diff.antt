-- ===== src/Chain/Diff.antt =====
-- `vote_diff` of blockchain/mod.rs: the votes that are added and removed when the main chain of
-- voters moves from one tip to another. Two loops walk the tips down to their meeting block.
use prism_rust_vivek.Prelude.{
  ℕ, zero, suc, ◌+◌, ◌-◌, Option, none, some, List, [], ◌++◌, map, lookup, ltb, ◌==◌, if◌then◌else◌,
  nat_eq, ◌>>=◌,
}
use prism_rust_vivek.Crypto.{H256}
use prism_rust_vivek.Chain.State.{BlockChain}

pub record Walk : Type 0 where
  pub to : H256
  pub from : H256
  pub to_level : ℕ
  pub from_level : ℕ
  pub added : List (H256 × ℕ)
  pub removed : List (H256 × ℕ)

-- `for vote in votes { ..push((vote, level)) }`
abbrev pub at_level : ℕ → List H256 → List (H256 × ℕ)
at_level level = map (λ vote. (vote, level))

unfoldable pub step_to : BlockChain → Walk → Option Walk
step_to c s = do
  votes ← lookup s.to c.vote_neighbor
  parent ← lookup s.to c.voter_parent_neighbor
  some (record s {
    added = s.added ++ at_level s.to_level votes;
    to = parent;
    to_level = s.to_level - 1;
  })

unfoldable pub step_from : BlockChain → Walk → Option Walk
step_from c s = do
  votes ← lookup s.from c.vote_neighbor
  parent ← lookup s.from c.voter_parent_neighbor
  some (record s {
    removed = s.removed ++ at_level s.from_level votes;
    from = parent;
    from_level = s.from_level - 1;
  })

-- `while to_level != from_level`, on fuel
unfoldable pub level_loop : BlockChain → ℕ → Walk → Option Walk
unfolding step_to step_from
level_loop c zero s = none
level_loop c (suc fuel) s =
    if s.to_level == s.from_level
    then some s
    else if ltb s.from_level s.to_level
    then step_to c s >>= (λ t. level_loop c fuel t)
    else step_from c s >>= (λ t. level_loop c fuel t)

-- `while to != from`, on fuel
unfoldable pub meet_loop : BlockChain → ℕ → Walk → Option Walk
unfolding step_to step_from
meet_loop c zero s = none
meet_loop c (suc fuel) s =
    if s.to == s.from
    then some s
    else step_to c s >>= (λ t. step_from c t >>= (λ u. meet_loop c fuel u))

-- A tip of level `n` is walked down `n` times at most: the fuel is the sum of the levels, and one.
unfoldable pub vote_diff : BlockChain → H256 → H256 → Option (List (H256 × ℕ) × List (H256 × ℕ))
unfolding level_loop meet_loop
vote_diff c from to = do
  to_level ← lookup to c.voter_node_level
  from_level ← lookup from c.voter_node_level
  let fuel = to_level + from_level + 1
  s ← level_loop c fuel (record {
    to = to;
    from = from;
    to_level = to_level;
    from_level = from_level;
    added = [];
    removed = [];
  })
  t ← meet_loop c fuel s
  some (t.added, t.removed)
