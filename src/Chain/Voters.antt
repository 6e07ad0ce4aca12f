-- ===== src/Chain/Voters.antt =====
-- The trees of voter blocks stay in order under every insertion: every voter block has a path to the
-- genesis block of its chain, and `voter_best` is a block of the greatest level of its chain.
use mathlib.Core.Path.{subst₂}
use prism_rust_vivek.Prelude.{
  ℕ, zero, suc, ◌+◌, ◌%◌, ◌^◌, ◌<◌, ◌≤◌, ◌≡◌, refl, ap, none, some, List, [], ◌∷◌, ◌++◌, lookup,
  insert, lookup-insert, ltb, ◌==◌, if◌then◌else◌, nat_eq, pair_eq, nat_beq, nat_beq_iff, arith,
  Bool-cases, Option-cases, inl, inr, get_elem?, set,
}
use prism_rust_vivek.Crypto.{H256}
use prism_rust_vivek.Block.{VoterContent}
use prism_rust_vivek.Chain.State.{BlockChain}
use prism_rust_vivek.Chain.Merge.{u64_plus_merge}
use prism_rust_vivek.Chain.Insert.{insert_voter, count_votes, update_voter_best}
use prism_rust_vivek.Chain.Diff.{at_level}
use prism_rust_vivek.Chain.Paths.{ChainPath, root, link}

-- A voter block of a level: its chain, with the genesis block and the best block of the chain.
pub record InChain (c : BlockChain) (h : H256) (l : ℕ) : Type 0 where
  pub chain : ℕ
  pub genesis : H256
  pub best : H256 × ℕ
  pub votes : List (H256 × ℕ)
  pub has_chain : lookup h c.voter_node_chain ≡ some chain
  pub has_genesis : get_elem? c.config.voter_genesis chain ≡ some genesis
  pub path : ChainPath c genesis h l votes
  pub has_best : get_elem? c.voter_best chain ≡ some best
  pub below_best : l ≤ best.1

pub record IsVoterTree (c : BlockChain) : Type 0 where
  pub chained : (h : H256) (l : ℕ) → lookup h c.voter_node_level ≡ some l → InChain c h l
  pub best_known :
      (k : ℕ) (best : H256 × ℕ)
      → get_elem? c.voter_best k ≡ some best
      → (lookup best.0 c.voter_node_level ≡ some best.1)
        × (lookup best.0 c.voter_node_chain ≡ some k)
  pub linked :
      (h parent : H256)
      → lookup h c.voter_parent_neighbor ≡ some parent
      → (l : ℕ) × (lookup h c.voter_node_level ≡ some l)

pub get_elem?-set :
    (xs : List (H256 × ℕ)) (i j : ℕ) (old new : H256 × ℕ)
    → get_elem? xs i ≡ some old
    → get_elem? (set xs i new) j ≡ (if i == j then some new else get_elem? xs j)
get_elem?-set [] i j old new h = cc
get_elem?-set (x ∷ xs) zero zero old new h = refl
get_elem?-set (x ∷ xs) zero (suc j) old new h = ground arith
get_elem?-set (x ∷ xs) (suc i) zero old new h = ground arith
get_elem?-set (x ∷ xs) (suc i) (suc j) old new h = ground (arith, get_elem?-set xs i j old new h)

module _ (hash parent : H256) (content : VoterContent) (c : BlockChain) (v : IsVoterTree c)
    (fresh : lookup hash c.voter_node_level ≡ none) (parent_level : ℕ)
    (known : lookup content.voter_parent c.voter_node_level ≡ some parent_level)
    (small : parent_level + 1 < 2 ^ 64) (voted : ℕ)
    (proposer_known : lookup parent c.proposer_node_level ≡ some voted) where
  abbrev up : InChain c content.voter_parent parent_level
  up = v.chained content.voter_parent parent_level known

  abbrev pub self_level : ℕ
  self_level = (parent_level + 1) % 2 ^ 64

  self_level-eq : self_level ≡ suc parent_level
  self_level-eq = omega arith

  abbrev new_best : H256 × ℕ
  new_best = update_voter_best hash self_level up.best

  abbrev pub grown : BlockChain
  grown = record c {
    parent_neighbor = insert hash parent c.parent_neighbor;
    voter_parent_neighbor = insert hash content.voter_parent c.voter_parent_neighbor;
    voter_node_level = insert hash self_level c.voter_node_level;
    voter_node_chain = insert hash up.chain c.voter_node_chain;
    voter_tree_level_count =
        insert (up.chain, self_level)
          (u64_plus_merge (lookup (up.chain, self_level) c.voter_tree_level_count) (1 ∷ []))
          c.voter_tree_level_count;
    proposer_vote_count = count_votes content.votes c.proposer_vote_count;
    vote_neighbor = insert hash content.votes c.vote_neighbor;
    voter_node_voted_level = insert hash voted c.voter_node_voted_level;
    voter_best = set c.voter_best up.chain new_best;
  }

  not_linked : lookup hash c.voter_parent_neighbor ≡ none
  not_linked = elim (Option-cases (lookup hash c.voter_parent_neighbor)) [
    | inl free ↦ free
    | inr (p, e) ↦ let (l, q) = v.linked hash p e in absurd (cc (fresh, q))
  ]

  -- The paths of the old blocks are paths still.
  ChainPath-grown :
      {g tip : H256} {l : ℕ} {votes : List (H256 × ℕ)}
      → ChainPath c g tip l votes
      → ChainPath grown g tip l votes
  ChainPath-grown root = root
  ChainPath-grown (link {tip = t} {parent = p} own a b path) =
      link own (ground (arith, not_linked, b, lookup-insert hash t content.votes c.vote_neighbor))
        (ground
          (arith, not_linked, lookup-insert hash t content.voter_parent c.voter_parent_neighbor))
        (ChainPath-grown path)

  -- The best block of a chain has a level no lower than before.
  grown_best :
      (k : ℕ) (best : H256 × ℕ)
      → get_elem? c.voter_best k ≡ some best
      → (b : H256 × ℕ) × (get_elem? grown.voter_best k ≡ some b) × (best.1 ≤ b.1)
  unfolding update_voter_best
  grown_best k best e = elim (Bool-cases (nat_beq up.chain k)) [
    | inl same ↦ (
      new_best,
      ground (arith, get_elem?-set c.voter_best up.chain k up.best new_best up.has_best),
      ground (arith, up.has_best, ap (λ (j : ℕ). get_elem? c.voter_best j)),
    )
    | inr other ↦ (
      best,
      ground (arith, get_elem?-set c.voter_best up.chain k up.best new_best up.has_best),
      omega arith,
    )
  ]

  new-self : InChain grown hash (suc parent_level)
  unfolding update_voter_best
  new-self = record {
    chain = up.chain;
    genesis = up.genesis;
    best = new_best;
    votes = at_level (suc parent_level) content.votes ++ up.votes;
    has_chain = ground (arith, lookup-insert hash hash up.chain c.voter_node_chain);
    has_genesis = up.has_genesis;
    path =
        link content.votes (ground (arith, lookup-insert hash hash content.votes c.vote_neighbor))
          (ground (arith, lookup-insert hash hash content.voter_parent c.voter_parent_neighbor))
          (ChainPath-grown up.path);
    has_best =
        ground (arith, get_elem?-set c.voter_best up.chain up.chain up.best new_best up.has_best);
    below_best = ground (arith, self_level-eq);
  }

  new-chained : (h : H256) (l : ℕ) → lookup h grown.voter_node_level ≡ some l → InChain grown h l
  new-chained h l q = elim (Bool-cases (nat_beq hash h)) [
    | inl same ↦
        subst₂ (λ (x : H256) (n : ℕ). InChain grown x n) ((nat_beq_iff hash h).0 same)
          (ground (arith, self_level-eq, lookup-insert hash h self_level c.voter_node_level))
          new-self
    | inr other ↦
        let old =
          v.chained h l (ground (arith, lookup-insert hash h self_level c.voter_node_level)) in
        let (b, e, higher) = grown_best old.chain old.best old.has_best in
        record {
          chain = old.chain;
          genesis = old.genesis;
          best = b;
          votes = old.votes;
          has_chain =
              ground (arith, old.has_chain, lookup-insert hash h up.chain c.voter_node_chain);
          has_genesis = old.has_genesis;
          path = ChainPath-grown old.path;
          has_best = e;
          below_best = omega (arith, old.below_best);
        }
  ]

  -- An old block keeps its level and its chain.
  old_block :
      (h : H256) (l k : ℕ)
      → lookup h c.voter_node_level ≡ some l
      → lookup h c.voter_node_chain ≡ some k
      → (lookup h grown.voter_node_level ≡ some l) × (lookup h grown.voter_node_chain ≡ some k)
  old_block h l k a b = (
    ground (
      arith,
      lookup-insert hash h self_level c.voter_node_level,
      ap (λ (x : H256). lookup x c.voter_node_level),
    ),
    ground (
      arith,
      lookup-insert hash h up.chain c.voter_node_chain,
      ap (λ (x : H256). lookup x c.voter_node_level),
    ),
  )

  new_best_known :
      (lookup new_best.0 grown.voter_node_level ≡ some new_best.1)
      × (lookup new_best.0 grown.voter_node_chain ≡ some up.chain)
  unfolding update_voter_best
  new_best_known = elim (Bool-cases (ltb up.best.1 self_level)) [
    | inl higher ↦ rw higher (
      ground (arith, lookup-insert hash hash self_level c.voter_node_level),
      ground (arith, lookup-insert hash hash up.chain c.voter_node_chain),
    )
    | inr lower ↦ rw lower (
        let (a, b) = v.best_known up.chain up.best up.has_best in
        old_block up.best.0 up.best.1 up.chain a b)
  ]

  new-best_known :
      (k : ℕ) (best : H256 × ℕ)
      → get_elem? grown.voter_best k ≡ some best
      → (lookup best.0 grown.voter_node_level ≡ some best.1)
        × (lookup best.0 grown.voter_node_chain ≡ some k)
  new-best_known k best e = elim (Bool-cases (nat_beq up.chain k)) [
    | inl same ↦
        let known_best : new_best ≡ best =
          ground (arith, e, get_elem?-set c.voter_best up.chain k up.best new_best up.has_best) in
        let chain_eq : up.chain ≡ k = (nat_beq_iff up.chain k).0 same in
        subst₂
          (λ (b : H256 × ℕ) (j : ℕ).
            (lookup b.0 grown.voter_node_level ≡ some b.1)
            × (lookup b.0 grown.voter_node_chain ≡ some j))
          known_best chain_eq new_best_known
    | inr other ↦
        let (at_level_of, on_chain) =
          v.best_known k best (
            ground
              (arith, e, get_elem?-set c.voter_best up.chain k up.best new_best up.has_best)) in
        old_block best.0 best.1 k at_level_of on_chain
  ]

  new-linked :
      (h p : H256)
      → lookup h grown.voter_parent_neighbor ≡ some p
      → (l : ℕ) × (lookup h grown.voter_node_level ≡ some l)
  new-linked h p e = elim (Bool-cases (nat_beq hash h)) [
    | inl same ↦ (self_level, ground (arith, lookup-insert hash h self_level c.voter_node_level))
    | inr other ↦
        let (l, q) =
          v.linked h p
            (ground (arith, lookup-insert hash h content.voter_parent c.voter_parent_neighbor)) in
        (l, ground (arith, q, lookup-insert hash h self_level c.voter_node_level))
  ]

  pub insert_voter_known : (insert_voter hash parent content c ≡ some grown) × IsVoterTree grown
  unfolding insert_voter
  insert_voter_known = (
    ground (arith, up.has_chain, up.has_best),
    record { chained = new-chained; best_known = new-best_known; linked = new-linked },
  )

-- A voter block with a new hash, whose voter parent and proposer parent are in the trees, is
-- inserted, and the voter trees stay in order: it gets the level after its voter parent, the chain
-- of its voter parent, and the level of its proposer parent as the deepest voted level. Levels stay
-- below 2 ^ 64.
pub insert_voter-IsVoterTree :
    (hash parent : H256) (content : VoterContent) (c : BlockChain) (l n : ℕ)
    → IsVoterTree c
    → lookup hash c.voter_node_level ≡ none
    → lookup content.voter_parent c.voter_node_level ≡ some l
    → l + 1 < 2 ^ 64
    → lookup parent c.proposer_node_level ≡ some n
    → (d : BlockChain) × (insert_voter hash parent content c ≡ some d)
      × IsVoterTree d
      × (lookup hash d.voter_node_level ≡ some (l + 1))
      × (lookup hash d.voter_node_chain ≡ lookup content.voter_parent c.voter_node_chain)
      × (lookup hash d.voter_node_voted_level ≡ some n)
insert_voter-IsVoterTree hash parent content c l n v fresh known small proposer_known =
    let (run, tree) =
      insert_voter_known hash parent content c v fresh l known small n proposer_known in
    let above = v.chained content.voter_parent l known in
    (
      grown hash parent content c v fresh l known small n proposer_known,
      run,
      tree,
      ground (
        arith,
        self_level-eq hash parent content c v fresh l known small n proposer_known,
        lookup-insert hash hash ((l + 1) % 2 ^ 64) c.voter_node_level,
      ),
      ground (arith, above.has_chain, lookup-insert hash hash above.chain c.voter_node_chain),
      ground (arith, lookup-insert hash hash n c.voter_node_voted_level),
    )
