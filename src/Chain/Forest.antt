-- ===== src/Chain/Forest.antt =====
-- Both kinds of trees together: `insert_block` and `new` keep them in order.
use prism_rust_vivek.Prelude.{
  length, ℕ, zero, suc, ◌+◌, ◌^◌, ◌<◌, ◌≤◌, ◌≡◌, refl, sym, ap, ◌∙◌, none, some, List, lookup,
  lookup-insert, lookup-empty, elem, nat_eq, nat_beq, arith, Bool-cases, Option-cases, inl, inr,
  get_elem?,
}
use prism_rust_vivek.Crypto.{H256}
use prism_rust_vivek.Block.{ProposerContent, VoterContent}
use prism_rust_vivek.Config.{BlockchainConfig}
use prism_rust_vivek.Chain.State.{BlockChain}
use prism_rust_vivek.Chain.Insert.{insert_proposer, insert_voter, insert_transaction}
use prism_rust_vivek.Chain.Paths.{ChainPath, root, link}
use prism_rust_vivek.Chain.Genesis.{
  new, new-IsTree, HasDistinctGeneses, voter_genesis, voter_geneses, proposer_genesis,
}
use mathlib.Core.Path.{subst}
use prism_rust_vivek.Chain.Proposers.{
  IsProposerTree, insert_proposer_known, grown as proposer_grown,
}
use prism_rust_vivek.Chain.Voters.{
  IsVoterTree, insert_voter_known, grown as voter_grown, self_level,
}

-- The trees, and for every voter block the level that it votes up to, which no proposer tree ends below.
pub record IsForest (c : BlockChain) : Type 0 where
  pub proposers : IsProposerTree c
  pub voters : IsVoterTree c
  pub voted :
      (h : H256) (l : ℕ)
      → lookup h c.voter_node_level ≡ some l
      → (n : ℕ) × (lookup h c.voter_node_voted_level ≡ some n) × (n ≤ c.proposer_best_level)

-- Levels of new blocks fit 64 bits.
pub record HasRoom (c : BlockChain) : Type 0 where
  pub best_level : c.proposer_best_level + 1 < 2 ^ 64
  pub voter_level : (h : H256) (l : ℕ) → lookup h c.voter_node_level ≡ some l → l + 1 < 2 ^ 64

-- A proposer block and a voter block share nothing of the trees of the other kind.
module _ (c d : BlockChain) (same_config : d.config ≡ c.config)
    (levels : d.voter_node_level ≡ c.voter_node_level)
    (chains : d.voter_node_chain ≡ c.voter_node_chain) (votes : d.vote_neighbor ≡ c.vote_neighbor)
    (parents : d.voter_parent_neighbor ≡ c.voter_parent_neighbor)
    (best : d.voter_best ≡ c.voter_best) where
  ChainPath-same :
      {g tip : H256} {l : ℕ} {vs : List (H256 × ℕ)}
      → ChainPath c g tip l vs
      → ChainPath d g tip l vs
  ChainPath-same root = root
  ChainPath-same (link {tip = t} own a b path) =
      link own (ap (lookup t) votes ∙ a) (ap (lookup t) parents ∙ b) (ChainPath-same path)

  IsVoterTree-same : IsVoterTree c → IsVoterTree d
  IsVoterTree-same v = record {
    chained = λ h l q.
        let i = v.chained h l (sym (ap (lookup h) levels) ∙ q) in
        record {
          chain = i.chain;
          genesis = i.genesis;
          best = i.best;
          votes = i.votes;
          has_chain = ap (lookup h) chains ∙ i.has_chain;
          has_genesis =
              ap (λ (x : BlockchainConfig). get_elem? x.voter_genesis i.chain) same_config
              ∙ i.has_genesis;
          path = ChainPath-same i.path;
          has_best = ap (λ (x : List (H256 × ℕ)). get_elem? x i.chain) best ∙ i.has_best;
          below_best = i.below_best;
        };
    best_known = λ k b q.
        let (x, y) =
          v.best_known k b (sym (ap (λ (x : List (H256 × ℕ)). get_elem? x k) best) ∙ q) in
        (ap (lookup b.0) levels ∙ x, ap (lookup b.0) chains ∙ y);
    linked = λ h p q.
        let (l, e) = v.linked h p (sym (ap (lookup h) parents) ∙ q) in
        (l, ap (lookup h) levels ∙ e);
  }

module _ (c d : BlockChain) (levels : d.proposer_node_level ≡ c.proposer_node_level)
    (tree : d.proposer_tree_level ≡ c.proposer_tree_level)
    (best : d.proposer_best_level ≡ c.proposer_best_level)
    (waiting : d.unreferred_proposers ≡ c.unreferred_proposers) where
  IsProposerTree-same : IsProposerTree c → IsProposerTree d
  IsProposerTree-same v = record {
    listed = λ h l q.
        let (blocks, e, k) = v.listed h l (sym (ap (lookup h) levels) ∙ q) in
        (blocks, ap (lookup l) tree ∙ e, k);
    leveled = λ l blocks h q k.
        ap (lookup h) levels ∙ v.leveled l blocks h (sym (ap (lookup l) tree) ∙ q) k;
    filled = λ l le.
        let (h, blocks, e) = v.filled l (omega (arith, best)) in
        (h, blocks, ap (lookup l) tree ∙ e);
    best = λ h l q. omega (arith, best, v.best h l (sym (ap (lookup h) levels) ∙ q));
    unreferred = λ h k.
        let (l, e) = v.unreferred h (sym (ap (elem h) waiting) ∙ k) in
        (l, ap (lookup h) levels ∙ e);
  }

-- A proposer block with a new hash and a parent in the tree.
pub insert_proposer-IsForest :
    (hash parent : H256) (content : ProposerContent) (c : BlockChain) (l : ℕ)
    → IsForest c
    → HasRoom c
    → lookup hash c.proposer_node_level ≡ none
    → lookup parent c.proposer_node_level ≡ some l
    → (d : BlockChain) × (insert_proposer hash parent content c ≡ some d) × IsForest d
insert_proposer-IsForest hash parent content c l f room fresh known =
    let (run, tree) =
      insert_proposer_known hash parent content c f.proposers fresh room.best_level l known in
    let d = proposer_grown hash parent content c f.proposers fresh room.best_level l known in
    (
      d,
      run,
      record {
        proposers = tree;
        voters = IsVoterTree-same c d refl refl refl refl refl refl f.voters;
        voted = λ h k q. let (n, e, le) = f.voted h k q in (n, e, ground (arith, le));
      },
    )

-- A voter block with a new hash, and both parents in the trees.
pub insert_voter-IsForest :
    (hash parent : H256) (content : VoterContent) (c : BlockChain) (l n : ℕ)
    → IsForest c
    → HasRoom c
    → lookup hash c.voter_node_level ≡ none
    → lookup content.voter_parent c.voter_node_level ≡ some l
    → lookup parent c.proposer_node_level ≡ some n
    → (d : BlockChain) × (insert_voter hash parent content c ≡ some d) × IsForest d
insert_voter-IsForest hash parent content c l n f room fresh known above =
    let small = room.voter_level content.voter_parent l known in
    let (run, tree) =
      insert_voter_known hash parent content c f.voters fresh l known small n above in
    let d = voter_grown hash parent content c f.voters fresh l known small n above in
    let level = self_level hash parent content c f.voters fresh l known small n above in
    let voted_now : (h : H256) (k : ℕ)
        → lookup h d.voter_node_level ≡ some k
        → (m : ℕ) × (lookup h d.voter_node_voted_level ≡ some m) × (m ≤ d.proposer_best_level) =
      λ h k q. elim (Bool-cases (nat_beq hash h)) [
        | inl same ↦ (
          n,
          ground (arith, lookup-insert hash h n c.voter_node_voted_level),
          f.proposers.best parent n above,
        )
        | inr other ↦
            let (m, e, le) =
              f.voted h k (ground (arith, lookup-insert hash h level c.voter_node_level)) in
            (m, ground (arith, e, lookup-insert hash h n c.voter_node_voted_level), le)
      ] in
    (
      d,
      run,
      record {
        proposers = IsProposerTree-same c d refl refl refl refl f.proposers;
        voters = tree;
        voted = voted_now;
      },
    )

pub insert_transaction-IsForest :
    (hash parent : H256) (c : BlockChain) → IsForest c → IsForest (insert_transaction hash parent c)
unfolding insert_transaction
insert_transaction-IsForest hash parent c f =
    let d = insert_transaction hash parent c in
    record {
      proposers = IsProposerTree-same c d refl refl refl refl f.proposers;
      voters = IsVoterTree-same c d refl refl refl refl refl refl f.voters;
      voted = f.voted;
    }

-- What the genesis blocks of the voter chains vote up to.
abbrev VotesGenesis : BlockChain → Type 0
VotesGenesis c =
    (h : H256) (l : ℕ)
    → lookup h c.voter_node_level ≡ some l
    → lookup h c.voter_node_voted_level ≡ some 0

voter_genesis-VotesGenesis :
    (k : ℕ) (g : H256) (c : BlockChain) → VotesGenesis c → VotesGenesis (voter_genesis k g c)
unfolding voter_genesis
voter_genesis-VotesGenesis k g c v h l q = ground (
  arith,
  v h l,
  lookup-insert g h 0 c.voter_node_level,
  lookup-insert g h 0 c.voter_node_voted_level,
)

voter_geneses-VotesGenesis :
    (k n : ℕ) (c d : BlockChain) → VotesGenesis c → voter_geneses k n c ≡ some d → VotesGenesis d
unfolding voter_geneses
voter_geneses-VotesGenesis k zero c d v run = let same : c ≡ d = cc run in subst VotesGenesis same v
voter_geneses-VotesGenesis k (suc n) c d v run =
    elim (Option-cases (get_elem? c.config.voter_genesis k)) [
      | inl out ↦ absurd (let bad : none ≡ some d = rw out at run in cc bad)
      | inr (g, found) ↦
          let rest : voter_geneses (k + 1) n (voter_genesis k g c) ≡ some d = rw found at run in
          voter_geneses-VotesGenesis (k + 1) n (voter_genesis k g c) d
            (voter_genesis-VotesGenesis k g c v) rest
    ]

-- `new` gives a forest, if the configuration has one genesis hash for each voter chain and no two of
-- them are equal.
pub new-IsForest :
    (config : BlockchainConfig)
    → HasDistinctGeneses config
    → length config.voter_genesis ≡ config.voter_chains
    → (c : BlockChain) × (new config ≡ some c) × IsForest c
new-IsForest config distinct len =
    let (c, run, p, v) = new-IsTree config distinct len in
    let votes : VotesGenesis c =
      unfold new in
      voter_geneses-VotesGenesis 0 config.voter_chains (proposer_genesis config) c
        (λ h l q. absurd (cc (lookup-empty {V = ℕ} h, q))) run in
    (c, run, record { proposers = p; voters = v; voted = λ h l q. (0, votes h l q, omega arith) })
