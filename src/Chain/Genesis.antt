-- ===== src/Chain/Genesis.antt =====
-- `BlockChain::new`: the database with the genesis blocks of the proposer tree and the voter chains.
use mathlib.Core.Path.{subst}
use prism_rust_vivek.Prelude.{
  ℕ, zero, suc, ◌+◌, ◌<◌, ◌≡◌, refl, sym, ap, ◌∙◌, true, Option, some, [], ◌∷◌, lookup, insert,
  lookup-insert, lookup-empty, elem, add, nat_eq, pair_eq, nat_beq, nat_beq_iff, arith, Bool-cases,
  inl, inr, get_elem?, set, length, length-set, replicate, length-replicate, get_elem?-lt,
  lt-get_elem?, ◌≢◌, ◌>>=◌, Table,
}
use prism_rust_vivek.Crypto.{H256}
use prism_rust_vivek.Config.{BlockchainConfig}
use prism_rust_vivek.Chain.State.{BlockChain}
use prism_rust_vivek.Chain.Merge.{h256_vec_append_merge, u64_plus_merge, vote_vec_merge}
use prism_rust_vivek.Chain.Paths.{ChainPath, root}
use prism_rust_vivek.Chain.Proposers.{IsProposerTree}
use prism_rust_vivek.Chain.Voters.{IsVoterTree, get_elem?-set}

-- `open`: empty column families, and the fields with default values.
abbrev pub opened : BlockchainConfig → BlockChain
opened config = record {
  proposer_node_level = [];
  voter_node_level = [];
  voter_node_chain = [];
  voter_tree_level_count = [];
  proposer_tree_level = [];
  voter_node_voted_level = [];
  proposer_node_vote = [];
  proposer_leader_sequence = [];
  proposer_ledger_order = [];
  proposer_vote_count = [];
  parent_neighbor = [];
  vote_neighbor = [];
  voter_parent_neighbor = [];
  transaction_ref_neighbor = [];
  proposer_ref_neighbor = [];
  proposer_best_level = 0;
  voter_best = replicate config.voter_chains (0, 0);
  unreferred_transactions = [];
  unreferred_proposers = [];
  unconfirmed_proposers = [];
  proposer_ledger_tip = 0;
  voter_ledger_tips = replicate config.voter_chains 0;
  config = config;
}

-- the writes for the proposer genesis block
unfoldable pub proposer_genesis : BlockchainConfig → BlockChain
unfolding h256_vec_append_merge add insert
proposer_genesis config =
    let c = opened config in
    let g = config.proposer_genesis in
    record c {
      proposer_node_level = insert g 0 c.proposer_node_level;
      proposer_tree_level =
          insert 0 (h256_vec_append_merge (lookup 0 c.proposer_tree_level) (g ∷ []))
            c.proposer_tree_level;
      unreferred_proposers = add g c.unreferred_proposers;
      proposer_leader_sequence = insert 0 g c.proposer_leader_sequence;
      proposer_ledger_order = insert 0 (g ∷ []) c.proposer_ledger_order;
      proposer_ref_neighbor = insert g [] c.proposer_ref_neighbor;
      transaction_ref_neighbor = insert g [] c.transaction_ref_neighbor;
    }

-- the writes for the genesis block `g` of one voter chain
unfoldable pub voter_genesis : ℕ → H256 → BlockChain → BlockChain
unfolding h256_vec_append_merge u64_plus_merge vote_vec_merge
voter_genesis chain_num g c =
    let p = c.config.proposer_genesis in
    record c {
      parent_neighbor = insert g p c.parent_neighbor;
      vote_neighbor =
          insert g (h256_vec_append_merge (lookup g c.vote_neighbor) (p ∷ [])) c.vote_neighbor;
      proposer_vote_count =
          insert p (u64_plus_merge (lookup p c.proposer_vote_count) (1 ∷ [])) c.proposer_vote_count;
      proposer_node_vote =
          insert p (vote_vec_merge (lookup p c.proposer_node_vote) ((true, chain_num, 0) ∷ []))
            c.proposer_node_vote;
      voter_node_level = insert g 0 c.voter_node_level;
      voter_node_voted_level = insert g 0 c.voter_node_voted_level;
      voter_node_chain = insert g chain_num c.voter_node_chain;
      voter_tree_level_count =
          insert (chain_num, 0)
            (u64_plus_merge (lookup (chain_num, 0) c.voter_tree_level_count) (1 ∷ []))
            c.voter_tree_level_count;
      voter_best = set c.voter_best chain_num (g, 0);
      voter_ledger_tips = set c.voter_ledger_tips chain_num g;
    }

-- `for chain_num in 0..voter_chains`, by the rounds left; `none` is an index out of range
unfoldable pub voter_geneses : ℕ → ℕ → BlockChain → Option BlockChain
unfolding voter_genesis
voter_geneses chain_num zero c = some c
voter_geneses chain_num (suc rounds) c =
    get_elem? c.config.voter_genesis chain_num
    >>= (λ g. voter_geneses (chain_num + 1) rounds (voter_genesis chain_num g c))

unfoldable pub new : BlockchainConfig → Option BlockChain
unfolding proposer_genesis voter_geneses
new config = voter_geneses 0 config.voter_chains (proposer_genesis config)

-- The proposer tree of the genesis block is in order.
genesis-IsProposerTree : (config : BlockchainConfig) → IsProposerTree (proposer_genesis config)
unfolding proposer_genesis lookup elem
genesis-IsProposerTree config = record {
  listed = λ h l q. (config.proposer_genesis ∷ [], ground arith, ground arith);
  leveled = λ l blocks h q e. ground (arith, ap (elem h));
  filled = λ l le. (config.proposer_genesis, [], ground arith);
  best = λ h l q. ground arith;
  unreferred = λ h e. (0, ground arith);
}

-- What holds when the chains below `k` have their genesis blocks.
record Begun (config : BlockchainConfig) (k : ℕ) (c : BlockChain) : Type 0 where
  same_config : c.config ≡ config
  sized : length c.voter_best ≡ config.voter_chains
  no_links : c.voter_parent_neighbor ≡ []
  only :
      (h : H256) (l : ℕ)
      → lookup h c.voter_node_level ≡ some l
      → (j : ℕ) × (l ≡ 0)
        × (j < k)
        × (lookup h c.voter_node_chain ≡ some j)
        × (get_elem? config.voter_genesis j ≡ some h)
  begun :
      (j : ℕ) (g : H256)
      → j < k
      → get_elem? config.voter_genesis j ≡ some g
      → (lookup g c.voter_node_level ≡ some 0)
        × (lookup g c.voter_node_chain ≡ some j)
        × (get_elem? c.voter_best j ≡ some (g, 0))

-- The genesis blocks of the chains differ.
abbrev pub HasDistinctGeneses : BlockchainConfig → Type 0
HasDistinctGeneses config =
    (i j : ℕ) (g : H256)
    → get_elem? config.voter_genesis i ≡ some g
    → get_elem? config.voter_genesis j ≡ some g
    → i ≡ j

module _ (config : BlockchainConfig) (distinct : HasDistinctGeneses config) where
  begin_one :
      (k : ℕ) (g : H256) (c : BlockChain)
      → k < config.voter_chains
      → get_elem? config.voter_genesis k ≡ some g
      → Begun config k c
      → Begun config (k + 1) (voter_genesis k g c)
  unfolding voter_genesis
  begin_one k g c small at_k b = record {
    same_config = b.same_config;
    sized = length-set c.voter_best k (g, 0) ∙ b.sized;
    no_links = b.no_links;
    only = λ h l q. elim (Bool-cases (nat_beq g h)) [
      | inl same ↦ (
        k,
        ground (arith, lookup-insert g h 0 c.voter_node_level),
        omega arith,
        ground (arith, lookup-insert g h k c.voter_node_chain),
        ground arith,
      )
      | inr other ↦
          let (j, z, lt, on, at_j) =
            b.only h l (ground (arith, lookup-insert g h 0 c.voter_node_level)) in
          (j, z, omega arith, ground (arith, lookup-insert g h k c.voter_node_chain, on), at_j)
    ];
    begun = λ j h lt at_j. elim (Bool-cases (nat_beq k j)) [
      | inl same ↦
          let one : g ≡ h =
            cc (at_k, at_j, ap (get_elem? config.voter_genesis) ((nat_beq_iff k j).0 same)) in
          let (best, e) = get_elem?-lt c.voter_best k (omega (arith, b.sized)) in
          (
            ground (arith, one, lookup-insert g h 0 c.voter_node_level),
            ground (arith, one, lookup-insert g h k c.voter_node_chain),
            ground (arith, one, get_elem?-set c.voter_best k j best (g, 0) e),
          )
      | inr other ↦
          let (level, on, best_of) = b.begun j h (ground arith) at_j in
          let (best, e) = get_elem?-lt c.voter_best k (omega (arith, b.sized)) in
          let differ : g ≢ h =
            λ one. absurd (ground (arith, distinct k j h (rw one at at_k) at_j)) in
          (
            ground (arith, level, differ, lookup-insert g h 0 c.voter_node_level),
            ground (arith, on, differ, lookup-insert g h k c.voter_node_chain),
            ground (arith, best_of, get_elem?-set c.voter_best k j best (g, 0) e),
          )
    ];
  }

  -- The loop over the chains succeeds, and the proposer part of the state stays as it is.
  begin_all :
      (rounds k : ℕ) (c : BlockChain)
      → k + rounds ≡ config.voter_chains
      → length config.voter_genesis ≡ config.voter_chains
      → Begun config k c
      → IsProposerTree c
      → (d : BlockChain) × (voter_geneses k rounds c ≡ some d)
        × Begun config config.voter_chains d
        × IsProposerTree d
  unfolding voter_geneses
  begin_all zero k c n len b p = (c, refl, subst (λ (m : ℕ). Begun config m c) (omega arith) b, p)
  begin_all (suc rounds) k c n len b p =
      let (g, at_k) = get_elem?-lt config.voter_genesis k (omega arith) in
      let (d, run, b', p') =
        begin_all rounds (k + 1) (voter_genesis k g c) (omega arith) len
          (begin_one k g c (omega arith) at_k b)
          (unfold voter_genesis in
            record {
              listed = p.listed;
              leveled = p.leveled;
              filled = p.filled;
              best = p.best;
              unreferred = p.unreferred;
            }) in
      (d, ground (arith, at_k, run, b.same_config), b', p')

  Begun-IsVoterTree :
      (d : BlockChain)
      → length config.voter_genesis ≡ config.voter_chains
      → Begun config config.voter_chains d
      → IsVoterTree d
  Begun-IsVoterTree d len b = record {
    chained = λ h l q.
        let (j, z, lt, on, at_j) = b.only h l q in
        let (level, on', best_of) = b.begun j h lt at_j in
        record {
          chain = j;
          genesis = h;
          best = (h, 0);
          votes = [];
          has_chain = on;
          has_genesis =
              ap (λ (k : BlockchainConfig). get_elem? k.voter_genesis j) b.same_config ∙ at_j;
          path = subst (λ (n : ℕ). ChainPath d h h n []) (sym z) root;
          has_best = best_of;
          below_best = omega arith;
        };
    best_known = λ k best e.
        let small = lt-get_elem? d.voter_best k e in
        let (g, at_k) = get_elem?-lt config.voter_genesis k (omega (arith, b.sized)) in
        let (level, on, best_of) = b.begun k g (omega (arith, b.sized)) at_k in
        (ground (arith, best_of, level), ground (arith, best_of, on));
    linked = λ h p q.
        absurd
          (cc (q, lookup-empty {V = H256} h, ap (λ (m : Table H256 H256). lookup h m) b.no_links));
  }

  Begun-none : Begun config 0 (proposer_genesis config)
  unfolding proposer_genesis
  Begun-none = record {
    same_config = refl;
    sized = length-replicate config.voter_chains (0, 0);
    no_links = refl;
    only = λ h l q. absurd (cc (lookup-empty {V = ℕ} h));
    begun = λ j g lt e. absurd (omega arith);
  }

-- `new` succeeds, and both kinds of trees are in order at the start, if the configuration has one
-- genesis hash for each voter chain and no two of them are equal.
pub new-IsTree :
    (config : BlockchainConfig)
    → HasDistinctGeneses config
    → length config.voter_genesis ≡ config.voter_chains
    → (c : BlockChain) × (new config ≡ some c) × IsProposerTree c × IsVoterTree c
unfolding new
new-IsTree config distinct len =
    let (c, run, b, p) =
      begin_all config distinct config.voter_chains 0 (proposer_genesis config) (omega arith) len
        (Begun-none config distinct) (genesis-IsProposerTree config) in
    (c, run, p, Begun-IsVoterTree config distinct c len b)
