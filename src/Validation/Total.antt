-- ===== src/Validation/Total.antt =====
-- On a forest the checks of a block whose references are there do not panic, if its keys parse.
use prism_rust_vivek.Prelude.{
  arith, ◌≡◌, refl, Bool, true, false, some, List, [], ◌∷◌, All, lookup, length, nat_eq, ltb, ◌==◌,
  ◌-◌, ℕ, add_u64, if◌then◌else◌, Bool-cases, Option-cases, inl, inr,
}
use prism_rust_vivek.Crypto.{H256}
use prism_rust_vivek.Crypto.Merkle.{verify, verify_iff}
use prism_rust_vivek.Config.{BlockchainConfig, U256, sortition_hash, add_u16, first_voter_index}
use prism_rust_vivek.Block.{
  Block, Header, Content, VoterContent, proposer, voter, transaction, block_hash,
}
use prism_rust_vivek.Chain.State.{BlockChain}
use prism_rust_vivek.Chain.Query.{
  contains_proposer, proposer_level, deepest_voted_level, voter_chain_number,
}
use prism_rust_vivek.Chain.Forest.{IsForest}
use prism_rust_vivek.Validation.{
  check_data_availability, pass, BlockResult, check_ref_proposer_level, refs_up_to,
  check_chain_number, check_levels_voted, votes_follow, check_content_semantic,
  check_pow_sortition_id, check_sortition_proof, wrong_pow, wrong_proposer_ref, wrong_vote_level,
  wrong_chain_number, wrong_signature, wrong_sortition_proof, transaction_failure,
}
use prism_rust_vivek.Validation.Transactions.{check_transactions}
use prism_rust_vivek.Validation.Signatures.{Ed25519, check_signature_batch}
use prism_rust_vivek.Validation.Insertion.{
  availability-parent, proposer-references, voter-references, contains_proposer-some,
}

-- Every key and signature of a block's transactions parses.
abbrev pub KeysParse : Ed25519 → Content → Type 0
KeysParse ed (transaction content) =
    (ok : Bool) × (check_signature_batch ed content.transactions ≡ some ok)
KeysParse ed (proposer _) = Unit
KeysParse ed (voter _) = Unit

refs_up_to-total :
    (n : ℕ) (refs : List H256) (c : BlockChain)
    → All (λ h. contains_proposer c h ≡ true) refs
    → (ok : Bool) × (refs_up_to n refs c ≡ some ok)
unfolding refs_up_to proposer_level
refs_up_to-total n [] c a = (true, refl)
refs_up_to-total n (h ∷ refs) c (k, a) =
    let (l, found) = contains_proposer-some c h k in
    elim (Bool-cases (ltb n l)) [
      | inl above ↦ (false, rw (found, above) refl)
      | inr up_to ↦
          let (ok, rest) = refs_up_to-total n refs c a in (ok, rw (found, up_to, refs_up_to) rest)
    ]

votes_follow-total :
    (n : ℕ) (votes : List H256) (c : BlockChain)
    → All (λ h. contains_proposer c h ≡ true) votes
    → (ok : Bool) × (votes_follow n votes c ≡ some ok)
unfolding votes_follow proposer_level
votes_follow-total n [] c a = (true, refl)
votes_follow-total n (h ∷ votes) c (k, a) =
    let (l, found) = contains_proposer-some c h k in
    elim (Bool-cases (add_u64 n 1 == l)) [
      | inl next ↦
          let (ok, rest) = votes_follow-total (add_u64 n 1) votes c a in
          (ok, rw (found, next, votes_follow) rest)
      | inr gap ↦ (false, rw (found, gap) refl)
    ]

check_levels_voted-total :
    (content : VoterContent) (c : BlockChain) (parent : H256) (l m n : ℕ)
    → lookup content.voter_parent c.voter_node_voted_level ≡ some m
    → lookup parent c.proposer_node_level ≡ some n
    → All (λ h. contains_proposer c h ≡ true) content.votes
    → (ok : Bool) × (check_levels_voted content c parent ≡ some ok)
unfolding check_levels_voted deepest_voted_level proposer_level
check_levels_voted-total content c parent l m n voted above a =
    let (ok, follow) = votes_follow-total m content.votes c a in
    elim (Bool-cases (ltb n m)) [
      | inl behind ↦ (false, rw (voted, above, behind) refl)
      | inr ahead ↦ elim (Bool-cases (length content.votes == n - m)) [
        | inl same ↦ (ok, rw (voted, above, ahead, same, votes_follow) follow)
        | inr short ↦ (false, rw (voted, above, ahead, short) refl)
      ]
    ]

-- The block with any content.
check_content-total :
    (ed : Ed25519) (block : Block) (c : BlockChain) (content : Content)
    → IsForest c
    → KeysParse ed content
    → check_data_availability (record block { content = content }) c ≡ pass
    → (r : BlockResult) × (check_content_semantic ed (record block { content = content }) c
        ≡ some r)
unfolding check_content_semantic check_ref_proposer_level check_chain_number
check_content-total ed block c (proposer content) f keys e =
    let ((l, above), complete) =
      availability-parent (record block { content = proposer content }) c e in
    let (ok, run) =
      refs_up_to-total l content.proposer_refs c (proposer-references content c complete) in
    (
      if ok then pass else wrong_proposer_ref,
      (unfold proposer_level in rw (above, run, refs_up_to) refl),
    )
check_content-total ed block c (voter content) f keys e =
    let ((n, above), complete) =
      availability-parent (record block { content = voter content }) c e in
    let ((l, known), votes) = voter-references content c complete in
    let in_chain = f.voters.chained content.voter_parent l known in
    let (m, voted, _) = f.voted content.voter_parent l known in
    let (ok, run) =
      check_levels_voted-total content c block.header.parent l m n voted above votes in
    elim (Bool-cases (in_chain.chain == content.chain_number)) [
      | inl same ↦ (
        if ok then pass else wrong_vote_level,
        unfold voter_chain_number in rw (in_chain.has_chain, same, run, check_levels_voted) refl,
      )
      | inr other ↦
          (wrong_chain_number, unfold voter_chain_number in rw (in_chain.has_chain, other) refl)
    ]
check_content-total ed block c (transaction content) f (ok, run) e =
    elim (Option-cases (check_transactions content.transactions)) [
      | inl fine ↦
          (if ok then pass else wrong_signature, rw (fine, run, check_content_semantic) refl)
      | inr (failure, bad) ↦ (transaction_failure failure, rw (bad, check_content_semantic) refl)
    ]

-- The check of the content of a block whose references are there.
pub check_content_semantic-total :
    (ed : Ed25519) (block : Block) (c : BlockChain)
    → IsForest c
    → KeysParse ed block.content
    → check_data_availability block c ≡ pass
    → (r : BlockResult) × (check_content_semantic ed block c ≡ some r)
check_content_semantic-total ed block c f keys e =
    check_content-total ed block c block.content f keys e

sortition_proof-run :
    (header_hash : Header → H256) (content_hash : Content → H256) (node : H256 → H256 → H256)
    (u : U256) (block : Block) (config : BlockchainConfig) (id : ℕ) (accepted : Bool)
    → sortition_hash u config (block_hash header_hash block) block.header.difficulty ≡ some id
    → verify node block.header.content_merkle_root
        (content_hash block.content)
        block.sortition_proof
        id
        (add_u16 config.voter_chains first_voter_index)
      ≡ some accepted
    → check_sortition_proof header_hash content_hash node u block config
      ≡ some (if accepted then pass else wrong_sortition_proof)
unfolding check_sortition_proof
sortition_proof-run header_hash content_hash node u block config id accepted found run =
    rw (found, check_sortition_proof, run) refl

-- A block whose proof of work passed has a sortition id, so the check of its sortition proof does not
-- reach `unreachable!()`.
pub check_sortition_proof-total :
    (header_hash : Header → H256) (content_hash : Content → H256) (node : H256 → H256 → H256)
    (u : U256) (block : Block) (config : BlockchainConfig)
    → check_pow_sortition_id header_hash u block config ≡ pass
    → (r : BlockResult) × (check_sortition_proof header_hash content_hash node u block config
        ≡ some r)
unfolding check_pow_sortition_id check_sortition_proof
check_sortition_proof-total header_hash content_hash node u block config e =
    elim (Option-cases
      (sortition_hash u config (block_hash header_hash block) block.header.difficulty)) [
        | inl missing ↦
            absurd
              (let bad : wrong_pow ≡ pass = rw (missing, check_pow_sortition_id) at e in cc bad)
        | inr (id, found) ↦
            let leaf_size = add_u16 config.voter_chains first_voter_index in
            let (accepted, run, _) =
              verify_iff node block.header.content_merkle_root (content_hash block.content)
                block.sortition_proof id leaf_size (omega arith) in
            (
              if accepted then pass else wrong_sortition_proof,
              sortition_proof-run header_hash content_hash node u block config id accepted found
                  run,
            )
      ]
