-- ===== src/Chain/Tests.antt =====
-- The theorems on the block chain at concrete chains: two voter chains, each with its genesis block,
-- then a proposer block and two voter blocks that compete on the first chain.
use prism_rust_vivek.Prelude.{
  length, ℕ, ◌≡◌, refl, true, false, none, some, List, [], ◌∷◌, ◌++◌, lookup, insert, remove, elem,
  arith, ◌>>=◌, nat_eq, pair_eq,
}
use prism_rust_vivek.Crypto.{H256}
use prism_rust_vivek.Block.{VoterContent}
use prism_rust_vivek.Chain.State.{BlockChain}
use prism_rust_vivek.Chain.Merge.{
  vote_vec_merge, h256_vec_append_merge, u64_plus_merge, votes_of, replace_vote, merge-append,
  h256_vec_append_merge_lem, IsDistinct, from_stored,
}
use prism_rust_vivek.Chain.Insert.{insert_proposer, insert_voter}
use prism_rust_vivek.Chain.Query.{best_proposer, unvoted_proposer}
use prism_rust_vivek.Chain.Diff.{vote_diff}
use prism_rust_vivek.Chain.Paths.{root, link, vote_diff_lem}
use prism_rust_vivek.Chain.Proposers.{
  IsProposerTree, best_proposer_lem, insert_proposer-IsProposerTree,
}
use prism_rust_vivek.Chain.Voters.{IsVoterTree, insert_voter-IsVoterTree}
use prism_rust_vivek.Chain.Sample.{
  config, config-HasDistinctGeneses, take_chain, start, start-IsForest, proposal, proposed,
  proposed-IsForest,
}
use prism_rust_vivek.Chain.Forest.{IsForest, new-IsForest}
use prism_rust_vivek.Chain.Votes.{Chosen, unvoted_proposer_lem}
use prism_rust_vivek.Chain.Genesis.{new}

abbrev ballot : List H256 → VoterContent
ballot votes = record { chain_number = 0; voter_parent = 200; votes = votes }

unfoldable forked : BlockChain
unfolding insert_voter proposed
forked = take_chain (
    insert_voter 210 101 (ballot (101 ∷ [])) proposed >>= (λ c. insert_voter 211 101 (ballot []) c))

new-IsForest_example : (c : BlockChain) × (new config ≡ some c) × IsForest c
new-IsForest_example = new-IsForest config config-HasDistinctGeneses refl

vote_diff_lem_example :
    (added removed common : List (H256 × ℕ)) × (vote_diff forked 211 210 ≡ some (added, removed))
    × ((101, 1) ∷ [] ≡ added ++ common)
    × ([] ≡ removed ++ common)
unfolding forked lookup insert remove
vote_diff_lem_example =
    vote_diff_lem 211 210 1 1 ((101, 1) ∷ []) [] (link (101 ∷ []) refl refl root)
      (link [] refl refl root) refl refl

-- The run of this example: block 210 has one vote, and block 211 none.
vote_diff-forked : vote_diff forked 211 210 ≡ some ((101, 1) ∷ [], [])
unfolding forked vote_diff lookup insert
vote_diff-forked = refl

insert_proposer-IsProposerTree_example :
    (d : BlockChain) × (insert_proposer 101 100 proposal start ≡ some d)
    × IsProposerTree d
    × (lookup 101 d.proposer_node_level ≡ some 1)
unfolding start lookup
insert_proposer-IsProposerTree_example =
    insert_proposer-IsProposerTree 101 100 proposal start 0 start-IsForest.proposers refl
      (omega arith) refl

insert_voter-IsVoterTree_example :
    (d : BlockChain) × (insert_voter 210 100 (ballot []) start ≡ some d)
    × IsVoterTree d
    × (lookup 210 d.voter_node_level ≡ some 1)
    × (lookup 210 d.voter_node_chain ≡ lookup 200 start.voter_node_chain)
    × (lookup 210 d.voter_node_voted_level ≡ some 0)
unfolding start lookup
insert_voter-IsVoterTree_example =
    insert_voter-IsVoterTree 210 100 (ballot []) start 0 0 start-IsForest.voters refl refl
      (omega arith) refl

best_proposer_lem_example :
    (h : H256) × (best_proposer start ≡ some h)
    × (lookup h start.proposer_node_level ≡ some start.proposer_best_level)
best_proposer_lem_example = best_proposer_lem start start-IsForest.proposers

replace_vote_example :
    votes_of 4 (vote_vec_merge (some ((3, 9) ∷ (4, 2) ∷ [])) ((false, 3, 9) ∷ (true, 3, 7) ∷ []))
    ≡ 1
replace_vote_example = replace_vote 3 4 9 7 ((3, 9) ∷ (4, 2) ∷ []) (omega arith)

merge-append_example :
    (vote_vec_merge none ((true, 1, 5) ∷ (false, 1, 5) ∷ [])
      ≡ vote_vec_merge (some (vote_vec_merge none ((true, 1, 5) ∷ []))) ((false, 1, 5) ∷ []))
    × (h256_vec_append_merge (some (8 ∷ [])) (8 ∷ 9 ∷ [])
        ≡ h256_vec_append_merge (some (h256_vec_append_merge (some (8 ∷ [])) (8 ∷ []))) (9 ∷ []))
    × (u64_plus_merge none (1 ∷ 2 ∷ [])
        ≡ u64_plus_merge (some (u64_plus_merge none (1 ∷ []))) (2 ∷ []))
merge-append_example =
    merge-append none ((true, 1, 5) ∷ []) ((false, 1, 5) ∷ []) (some (8 ∷ [])) (8 ∷ []) (9 ∷ [])
      none (1 ∷ []) (2 ∷ [])

one-IsDistinct : IsDistinct (from_stored [] (some (8 ∷ [])))
one-IsDistinct x = ground arith

h256_vec_append_merge_lem_example :
    (elem 9 (h256_vec_append_merge (some (8 ∷ [])) (8 ∷ 9 ∷ [])) ≡ true)
    × IsDistinct (h256_vec_append_merge (some (8 ∷ [])) (8 ∷ 9 ∷ []))
unfolding elem
h256_vec_append_merge_lem_example =
    h256_vec_append_merge_lem (some (8 ∷ [])) (8 ∷ 9 ∷ []) 9 one-IsDistinct

unvoted_proposer_lem_example :
    (votes : List H256) × (unvoted_proposer proposed 200 101 ≡ some votes)
    × (length votes ≡ 1)
    × Chosen proposed 0 votes
unfolding proposed lookup
unvoted_proposer_lem_example =
    unvoted_proposer_lem proposed 200 101 0 1 proposed-IsForest.proposers (omega arith) refl refl
