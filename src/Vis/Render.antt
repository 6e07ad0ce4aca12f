-- ===== src/Vis/Render.antt =====
-- `handle_data` of blockchain_vis.js. The graph widget is a library that the page only calls: the
-- result is the list of those calls, in order, with the way in which the handler ends.
use prism_rust_vivek.Prelude.{
  ℕ, zero, suc, ◌+◌, Bool, true, false, Option, none, some, List, [], ◌∷◌, ◌++◌, map, length,
  filter, get_elem?, Table, ltb, ◌==◌, if◌then◌else◌, nat_eq, text_eq,
}
use prism_rust_vivek.Text.{Text, text, substring, decimal}
use prism_rust_vivek.Vis.Payload.{
  Payload, ProposerNode, VoterNode, ProposerStatus, leader, others, VoterStatus, on_main_chain,
  orphan, Edge, EdgeType, voter_to_voter_parent, proposer_to_proposer_parent,
  voter_to_proposer_parent_and_vote, voter_to_proposer_vote,
}

-- the `type` of a node, which the style sheet selects by
pub data NodeType : Type 0 where
  voter_node orphan_voter leader_proposer proposer_node : NodeType

pub data EdgeClass : Type 0 where
  to_parent vote_for_proposer : EdgeClass

pub data Call : Type 0 where
  -- `cy.elements().remove()`
  remove_all : Call
  -- `cy.add` of a node: its id, its label and its type
  add_node : Text → Text → NodeType → Call
  -- `cy.add` of an edge: source, target and type
  add_edge : Text → Text → EdgeClass → Call
  -- `cy.layout({name: 'dagre'}).run()`
  layout : Call

-- How the handler ends: it returns, or it reads a property of `undefined`.
pub data Ending : Type 0 where
  returned type_error : Ending

-- `hash.substring(58, 64)`
abbrev pub short_hash : Text → Text
short_hash hash = substring 58 64 hash

-- `hash == data['proposer_levels'][0][0]`; an empty first level gives `undefined`, which no hash
-- equals. With no level at all the expression throws, which is `none`.
unfoldable pub is_first_proposer : Payload → Text → Option Bool
is_first_proposer d hash = elim d.proposer_levels [
  | [] ↦ none
  | level ∷ _ ↦ some (elim level [ [] ↦ false | first ∷ _ ↦ hash == first ])
]

unfoldable pub proposer_type : ProposerStatus → NodeType
proposer_type leader = leader_proposer
proposer_type others = proposer_node

unfoldable pub proposer_label : Text → Text → ProposerNode → Text
proposer_label prefix hash v =
    prefix
    ++ (decimal v.level
        ++ (text ":" ++ (short_hash hash ++ (text " (" ++ (decimal v.votes ++ text ")")))))

-- the first loop of the handler
unfoldable pub add_proposers : Payload → Table Text ProposerNode → List Call × Ending
unfolding is_first_proposer proposer_type
add_proposers d [] = ([], returned)
add_proposers d ((hash, v) ∷ nodes) =
    let (calls, ending) = add_proposers d nodes in
    elim (is_first_proposer d hash) [
      | none ↦ ([], type_error)
      | some first ↦
          let prefix : Text = if first then d.proposer_tree_number else [] in
          (add_node hash (proposer_label prefix hash v) (proposer_type v.status) ∷ calls, ending)
    ]

-- `reduce` over the voter nodes: those of one chain, in their order
unfoldable pub nodes_on_this_chain : Payload → ℕ → Table Text VoterNode
nodes_on_this_chain d idx = filter (λ e. e.1.chain == idx) d.voter_nodes

-- `lowest < 0 || level < lowest`; `none` is the start value -1, since no level is negative
abbrev pub is_lower : ℕ → Option ℕ → Bool
is_lower level none = true
is_lower level (some lowest) = ltb level lowest

unfoldable pub lowest_level : Option ℕ → Table Text VoterNode → Option ℕ
lowest_level lowest [] = lowest
lowest_level lowest ((_, v) ∷ nodes) =
    lowest_level (if is_lower v.level lowest then some v.level else lowest) nodes

-- `data['voter_chain_number'][voter_idx] + v['level'] + ':'`; past the end of the list the first
-- sum is `undefined` and a number, which is `NaN`
unfoldable pub chain_prefix : Payload → ℕ → ℕ → Text
chain_prefix d idx level = elim (get_elem? d.voter_chain_number idx) [
  | none ↦ text "NaN:"
  | some number ↦ number ++ (decimal level ++ text ":")
]

abbrev pub is_lowest : ℕ → Option ℕ → Bool
is_lowest level none = false
is_lowest level (some lowest) = level == lowest

unfoldable pub voter_type : VoterStatus → NodeType
voter_type orphan = orphan_voter
voter_type on_main_chain = voter_node

unfoldable pub voter_call : Payload → ℕ → Option ℕ → Text × VoterNode → Call
unfolding voter_type
voter_call d idx lowest (hash, v) =
    let prefix : Text = if is_lowest v.level lowest then chain_prefix d idx v.level else [] in
    add_node hash (prefix ++ short_hash hash) (voter_type v.status)

-- one round of the loop over the chains
unfoldable pub add_chain : Payload → ℕ → List Call
unfolding nodes_on_this_chain voter_call
add_chain d idx =
    let nodes = nodes_on_this_chain d idx in map (voter_call d idx (lowest_level none nodes)) nodes

-- `for (voter_idx = 0; voter_idx < num_voter; voter_idx++)`, by the rounds left
unfoldable pub add_chains : Payload → ℕ → ℕ → List Call
add_chains d idx zero = []
add_chains d idx (suc rounds) = add_chain d idx ++ add_chains d (idx + 1) rounds

abbrev pub is_parent_edge : EdgeType → Bool
is_parent_edge voter_to_voter_parent = true
is_parent_edge proposer_to_proposer_parent = true
is_parent_edge _ = false

abbrev pub is_vote_edge : EdgeType → Bool
is_vote_edge voter_to_proposer_parent_and_vote = true
is_vote_edge voter_to_proposer_vote = true
is_vote_edge _ = false

-- the edges to the parents, reversed: the source is the parent
unfoldable pub add_parent_edges : List Edge → List Call
add_parent_edges [] = []
add_parent_edges (e ∷ edges) =
    let calls = add_parent_edges edges in
    if is_parent_edge e.edgetype then add_edge e.to e.from to_parent ∷ calls else calls

unfoldable pub add_vote_edges : List Edge → List Call
add_vote_edges [] = []
add_vote_edges (e ∷ edges) =
    let calls = add_vote_edges edges in
    if is_vote_edge e.edgetype then add_edge e.from e.to vote_for_proposer ∷ calls else calls

-- what follows the proposer loop
unfoldable pub add_rest : Payload → List Call
add_rest d =
    add_chains d 0 (length d.voter_longest)
    ++ (add_parent_edges d.edges ++ (layout ∷ add_vote_edges d.edges))

unfoldable pub handle_data : Payload → List Call × Ending
handle_data d =
    let (calls, ending) = add_proposers d d.proposer_nodes in
    elim ending [
      | type_error ↦ (remove_all ∷ calls, type_error)
      | returned ↦ (remove_all ∷ (calls ++ add_rest d), returned)
    ]
