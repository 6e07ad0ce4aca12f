-- ===== src/Validation/Miner.antt =====
-- The voter blocks that the miner makes pass the checks of other nodes.
use mathlib.Core.Path.{subst}
use prism_rust_vivek.Prelude.{
  ℕ, ◌+◌, ◌-◌, ◌%◌, ◌^◌, ◌<◌, ◌≤◌, ◌≡◌, refl, true, false, not, some, List, [], ◌∷◌, filter, length,
  lookup, nat_eq, nat_beq, ltb, arith,
}
use prism_rust_vivek.Crypto.{H256}
use prism_rust_vivek.Block.{Block, VoterContent, voter}
use prism_rust_vivek.Chain.State.{BlockChain}
use prism_rust_vivek.Chain.Query.{
  best_proposer, unvoted_proposer, contains_proposer, contains_voter, proposer_level,
  deepest_voted_level, voter_chain_number,
}
use prism_rust_vivek.Chain.Proposers.{IsProposerTree, best_proposer_lem}
use prism_rust_vivek.Chain.Forest.{IsForest, HasRoom}
use prism_rust_vivek.Chain.Votes.{Chosen, unvoted_proposer_lem}
use prism_rust_vivek.Validation.{
  check_data_availability, pass, missing_in_content, voter_missing_references, votes_follow,
  check_levels_voted, check_chain_number, check_content_semantic,
}
use prism_rust_vivek.Validation.Signatures.{Ed25519}

votes_follow-Chosen :
    (c : BlockChain) (start : ℕ) (votes : List H256)
    → IsProposerTree c
    → start + length votes < 2 ^ 64
    → Chosen c start votes
    → votes_follow start votes c ≡ some true
unfolding votes_follow proposer_level
votes_follow-Chosen c start [] v small chosen = refl
votes_follow-Chosen c start (vote ∷ votes) v small ((blocks, there, w), chosen) =
    let level = v.leveled (start + 1) blocks vote there w.listed in
    let next : (start + 1) % 2 ^ 64 ≡ start + 1 = omega arith in
    let same : nat_beq (start + 1) (start + 1) ≡ true = ground arith in
    rw (level, next, same) (votes_follow-Chosen c (start + 1) votes v (omega arith) chosen)

known_proposer :
    (c : BlockChain) (h : H256) (l : ℕ)
    → lookup h c.proposer_node_level ≡ some l
    → contains_proposer c h ≡ true
unfolding contains_proposer
known_proposer c h l e = ground (arith, e)

known_voter :
    (c : BlockChain) (h : H256) (l : ℕ)
    → lookup h c.voter_node_level ≡ some l
    → contains_voter c h ≡ true
unfolding contains_voter
known_voter c h l e = ground (arith, e)

Chosen-known :
    (c : BlockChain) (start : ℕ) (votes : List H256)
    → IsProposerTree c
    → Chosen c start votes
    → filter (λ h. not (contains_proposer c h)) votes ≡ []
Chosen-known c start [] v chosen = refl
Chosen-known c start (vote ∷ votes) v ((blocks, there, w), chosen) =
    let level = v.leveled (start + 1) blocks vote there w.listed in
    rw (known_proposer c vote (start + 1) level) (Chosen-known c (start + 1) votes v chosen)

module _ (c : BlockChain) (f : IsForest c) (room : HasRoom c) (parent : H256)
    (content : VoterContent) (l n : ℕ)
    (above : lookup parent c.proposer_node_level ≡ some c.proposer_best_level)
    (known : lookup content.voter_parent c.voter_node_level ≡ some l)
    (voted : lookup content.voter_parent c.voter_node_voted_level ≡ some n)
    (le : n ≤ c.proposer_best_level) (len : length content.votes ≡ c.proposer_best_level - n)
    (chosen : Chosen c n content.votes) where
  levels_pass : check_levels_voted content c parent ≡ some true
  unfolding check_levels_voted proposer_level deepest_voted_level
  levels_pass =
      let up : ltb c.proposer_best_level n ≡ false = ground arith in
      let same : nat_beq (length content.votes) (c.proposer_best_level - n) ≡ true =
        ground (arith, len) in
      let small : n + length content.votes < 2 ^ 64 = omega (arith, len, room.best_level) in
      rw (voted, above, up, same) (votes_follow-Chosen c n content.votes f.proposers small chosen)

  none_missing : missing_in_content (voter content) c ≡ []
  unfolding missing_in_content voter_missing_references
  none_missing =
      rw (known_voter c content.voter_parent l known)
        (Chosen-known c n content.votes f.proposers chosen)

-- A voter block that the miner makes passes `check_data_availability` and `check_content_semantic` of
-- every node with the same forest, with room for another level: if its parent is the best proposer,
-- its voter parent a block of its chain, and its votes are those of `unvoted_proposer`.
pub mined_voter_lem :
    (ed : Ed25519) (block : Block) (content : VoterContent) (c : BlockChain) (l : ℕ)
    → IsForest c
    → HasRoom c
    → block.content ≡ voter content
    → best_proposer c ≡ some block.header.parent
    → lookup content.voter_parent c.voter_node_level ≡ some l
    → lookup content.voter_parent c.voter_node_chain ≡ some content.chain_number
    → unvoted_proposer c content.voter_parent block.header.parent ≡ some content.votes
    → (check_data_availability block c ≡ pass) × (check_content_semantic ed block c ≡ some pass)
unfolding check_data_availability check_content_semantic check_chain_number voter_chain_number
mined_voter_lem ed block content c l f room is_voter best known chain mined =
    let (h, is_best, level) = best_proposer_lem c f.proposers in
    let same_parent : h ≡ block.header.parent = cc (is_best, best) in
    let above : lookup block.header.parent c.proposer_node_level ≡ some c.proposer_best_level =
      rw same_parent at level in
    let (n, voted, le) = f.voted content.voter_parent l known in
    let (votes, run, len, chosen) =
      unvoted_proposer_lem c content.voter_parent block.header.parent n c.proposer_best_level
        f.proposers (omega (arith, le, room)) voted above in
    let same_votes : votes ≡ content.votes = cc (run, mined) in
    let len' : length content.votes ≡ c.proposer_best_level - n = rw same_votes at len in
    let chosen' = subst (Chosen c n) same_votes chosen in
    let complete =
      none_missing c f room block.header.parent content l n above known voted le len' chosen' in
    let levels =
      levels_pass c f room block.header.parent content l n above known voted le len' chosen' in
    let same_chain : nat_beq content.chain_number content.chain_number ≡ true = ground arith in
    (
      rw (known_proposer c block.header.parent c.proposer_best_level above, is_voter, complete)
          refl,
      rw (is_voter, chain, same_chain, levels) refl,
    )
