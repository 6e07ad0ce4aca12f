-- ===== src/Vis/Tests.antt =====
-- The theorems on the page of the block chain at concrete payloads.
use prism_rust_vivek.Prelude.{
  ℕ, ◌≡◌, ◌+◌, refl, true, none, List, [], ◌∷◌, ◌++◌, count, All, nat_eq,
}
use prism_rust_vivek.Text.{text}
use prism_rust_vivek.Vis.Payload.{
  Payload, VoterNode, leader, on_main_chain, voter_to_voter_parent, voter_to_proposer_vote,
}
use prism_rust_vivek.Vis.Render.{add_proposers, Call, layout, returned, handle_data}
use prism_rust_vivek.Vis.Nodes.{adds, has_key, on_chains, count-handle_data}
use prism_rust_vivek.Vis.Phases.{
  is_layout, is_vote, draws_parent, draws_vote, parent_entry, vote_entry, handle_data_phases,
}
use prism_rust_vivek.Vis.Load.{Xhr, page, silent, handled, logged}

abbrev voter_at : ℕ → ℕ → VoterNode
voter_at chain level = record { chain = chain; level = level; status = on_main_chain }

-- One proposer block, two blocks of voter chain 0, one of chain 1 that is not drawn, and two edges.
abbrev payload : Payload
payload = record {
  proposer_nodes = (text "p", record { level = 4; status = leader; votes = 1 }) ∷ [];
  proposer_levels = (text "p" ∷ []) ∷ [];
  proposer_tree_number = text "P";
  voter_longest = text "v" ∷ [];
  voter_nodes = (text "v", voter_at 0 7) ∷ (text "u", voter_at 0 6) ∷ (text "w", voter_at 1 2) ∷ [];
  voter_chain_number = text "0:" ∷ [];
  edges =
      record { from = text "v"; to = text "u"; edgetype = voter_to_voter_parent }
      ∷ record { from = text "v"; to = text "p"; edgetype = voter_to_proposer_vote }
      ∷ [];
}

payload_returns : (handle_data payload).1 ≡ returned
unfolding handle_data add_proposers
payload_returns = refl

count-handle_data_example :
    count (adds (text "v")) (handle_data payload).0
    ≡ count (has_key (text "v")) payload.proposer_nodes
      + count (on_chains (text "v") 0 1) payload.voter_nodes
count-handle_data_example = count-handle_data payload (text "v") payload_returns

handle_data_phases_example :
    (before after : List Call) × ((handle_data payload).0 ≡ before ++ layout ∷ after)
    × (count is_layout before ≡ 0)
    × (count is_vote before ≡ 0)
    × All (λ c. is_vote c ≡ true) after
    × (count (draws_parent (text "u") (text "v")) before
        ≡ count (parent_entry (text "u") (text "v")) payload.edges)
    × (count (draws_vote (text "u") (text "v")) after
        ≡ count (vote_entry (text "u") (text "v")) payload.edges)
handle_data_phases_example = handle_data_phases payload (text "u") (text "v") payload_returns

-- The server answers 404: the request is logged, once.
abbrev state_of : ℕ → ℕ → Xhr
state_of ready status = record { ready_state = ready; status = status; response_text = [] }

page_logs :
    page (λ t. none) (state_of 1 0 ∷ state_of 4 404 ∷ [])
    ≡ silent ∷ handled (logged (state_of 4 404)) ∷ []
unfolding page
page_logs = refl
