-- ===== src/Chain/Extends.antt =====
-- What `insert_block` changes: nothing is added but the block, and levels grow by one at most.
use prism_rust_vivek.Prelude.{
  ℕ, suc, ◌+◌, ◌%◌, ◌^◌, ◌<◌, ◌≤◌, ◌≡◌, refl, false, none, some, lookup, lookup-insert, nat_eq,
  nat_beq, arith,
}
use prism_rust_vivek.Crypto.{H256}
use prism_rust_vivek.Block.{Content, ProposerContent, VoterContent, proposer, voter, transaction}
use prism_rust_vivek.Chain.State.{BlockChain}
use prism_rust_vivek.Chain.Insert.{
  insert_proposer, insert_voter, insert_transaction, insert_content,
}
use prism_rust_vivek.Chain.Proposers.{
  IsProposerTree, insert_proposer_known, grown as proposer_grown,
}
use prism_rust_vivek.Chain.Voters.{IsVoterTree, insert_voter_known, grown as voter_grown}
use prism_rust_vivek.Chain.Forest.{IsForest, HasRoom}

-- Room for `n` more blocks, whatever they are: the levels stay below 2 ^ 64.
pub record HasSpace (n : ℕ) (c : BlockChain) : Type 0 where
  pub best_level : c.proposer_best_level + n < 2 ^ 64
  pub voter_level : (h : H256) (l : ℕ) → lookup h c.voter_node_level ≡ some l → l + n < 2 ^ 64

pub HasSpace-HasRoom : (n : ℕ) (c : BlockChain) → HasSpace (suc n) c → HasRoom c
HasSpace-HasRoom n c s = record {
  best_level = omega (arith, s.best_level);
  voter_level = λ h l e. let le = s.voter_level h l e in omega (arith, le);
}

pub HasSpace-less : (m n : ℕ) (c : BlockChain) → m ≤ n → HasSpace n c → HasSpace m c
HasSpace-less m n c le s = record {
  best_level = omega (arith, s.best_level);
  voter_level = λ h l e. let lt = s.voter_level h l e in omega (arith, lt);
}

pub record Extends (hash : H256) (c d : BlockChain) : Type 0 where
  pub proposers :
      (h : H256)
      → nat_beq hash h ≡ false
      → lookup h d.proposer_node_level ≡ lookup h c.proposer_node_level
  pub voters :
      (h : H256)
      → nat_beq hash h ≡ false
      → lookup h d.voter_node_level ≡ lookup h c.voter_node_level
  pub parents :
      (h : H256) → nat_beq hash h ≡ false → lookup h d.parent_neighbor ≡ lookup h c.parent_neighbor
  pub space : (n : ℕ) → HasSpace (suc n) c → HasSpace n d

insert_proposer-Extends :
    (hash parent : H256) (content : ProposerContent) (c : BlockChain) (l : ℕ)
    → IsProposerTree c
    → HasRoom c
    → lookup hash c.proposer_node_level ≡ none
    → lookup parent c.proposer_node_level ≡ some l
    → (d : BlockChain) × (insert_proposer hash parent content c ≡ some d) × Extends hash c d
insert_proposer-Extends hash parent content c l v room fresh known =
    let d = proposer_grown hash parent content c v fresh room.best_level l known in
    let (run, tree) = insert_proposer_known hash parent content c v fresh room.best_level l known in
    let le = v.best parent l known in
    let level = (l + 1) % 2 ^ 64 in
    (
      d,
      run,
      record {
        proposers = λ h other. ground (arith, lookup-insert hash h level c.proposer_node_level);
        voters = λ h other. refl;
        parents = λ h other. ground (arith, lookup-insert hash h parent c.parent_neighbor);
        space = λ n s. record {
          best_level = let lt = s.best_level in ground arith;
          voter_level = λ h k e. let lt = s.voter_level h k e in omega (arith, lt);
        };
      },
    )

insert_voter-Extends :
    (hash parent : H256) (content : VoterContent) (c : BlockChain) (l n : ℕ)
    → IsVoterTree c
    → HasRoom c
    → lookup hash c.voter_node_level ≡ none
    → lookup content.voter_parent c.voter_node_level ≡ some l
    → lookup parent c.proposer_node_level ≡ some n
    → (d : BlockChain) × (insert_voter hash parent content c ≡ some d) × Extends hash c d
insert_voter-Extends hash parent content c l n v room fresh known above =
    let small = room.voter_level content.voter_parent l known in
    let d = voter_grown hash parent content c v fresh l known small n above in
    let (run, tree) = insert_voter_known hash parent content c v fresh l known small n above in
    let level = (l + 1) % 2 ^ 64 in
    (
      d,
      run,
      record {
        proposers = λ h other. refl;
        voters = λ h other. ground (arith, lookup-insert hash h level c.voter_node_level);
        parents = λ h other. ground (arith, lookup-insert hash h parent c.parent_neighbor);
        space = λ m s. record {
          best_level = omega (arith, s.best_level);
          voter_level = λ h k e.
              let lt = s.voter_level content.voter_parent l known in
              ground (arith, lt, s.voter_level h k, lookup-insert hash h level c.voter_node_level);
        };
      },
    )

insert_transaction-Extends :
    (hash parent : H256) (c : BlockChain) → Extends hash c (insert_transaction hash parent c)
unfolding insert_transaction
insert_transaction-Extends hash parent c = record {
  proposers = λ h other. refl;
  voters = λ h other. refl;
  parents = λ h other. ground (arith, lookup-insert hash h parent c.parent_neighbor);
  space = λ n s. record {
    best_level = omega (arith, s.best_level);
    voter_level = λ h k e. let lt = s.voter_level h k e in omega (arith, lt);
  };
}

-- The insertion of a content whose references are there.
pub insert_content-Extends :
    (hash parent : H256) (content : Content) (c : BlockChain) (n : ℕ)
    → IsForest c
    → HasRoom c
    → lookup hash c.proposer_node_level ≡ none
    → lookup hash c.voter_node_level ≡ none
    → lookup parent c.proposer_node_level ≡ some n
    → ((v : VoterContent)
        → content ≡ voter v
        → (l : ℕ) × (lookup v.voter_parent c.voter_node_level ≡ some l))
    → (d : BlockChain) × (insert_content hash parent content c ≡ some d) × Extends hash c d
unfolding insert_content
insert_content-Extends hash parent (proposer content) c n f room p v above e =
    insert_proposer-Extends hash parent content c n f.proposers room p above
insert_content-Extends hash parent (voter content) c n f room p v above e =
    let (l, known) = e content refl in
    insert_voter-Extends hash parent content c l n f.voters room v known above
insert_content-Extends hash parent (transaction content) c n f room p v above e =
    (insert_transaction hash parent c, refl, insert_transaction-Extends hash parent c)
