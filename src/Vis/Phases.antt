-- ===== src/Vis/Phases.antt =====
-- The order of the calls of `handle_data`: nodes and parent edges, the layout, then the votes.
use mathlib.Core.List.{append_assoc}
use prism_rust_vivek.Prelude.{
  ℕ, zero, suc, ◌+◌, ◌≡◌, refl, Bool, true, false, Option, none, List, [], ◌∷◌, ◌++◌, map, length,
  count, count-append, Table, ◌==◌, ◌&&◌, text_eq, arith, All, ◌∙◌,
}
use prism_rust_vivek.Text.{Text}
use prism_rust_vivek.Vis.Payload.{Payload, ProposerNode, VoterNode, Edge}
use prism_rust_vivek.Vis.Render.{
  Call, add_node, add_edge, remove_all, layout, returned, add_proposers, add_chain, add_chains,
  add_parent_edges, add_vote_edges, add_rest, handle_data, voter_call, NodeType, is_parent_edge,
  is_vote_edge, to_parent, vote_for_proposer, nodes_on_this_chain, lowest_level,
}

-- tests on a call: a layout, a vote, the edge from `s` to `t` of either class
abbrev pub is_layout : Call → Bool
is_layout layout = true
is_layout _ = false

abbrev pub is_vote : Call → Bool
is_vote (add_edge _ _ vote_for_proposer) = true
is_vote _ = false

abbrev pub draws_parent : Text → Text → Call → Bool
draws_parent s t (add_edge a b to_parent) = a == s && b == t
draws_parent s t _ = false

abbrev pub draws_vote : Text → Text → Call → Bool
draws_vote s t (add_edge a b vote_for_proposer) = a == s && b == t
draws_vote s t _ = false

-- the entries of the payload that these calls come from
abbrev pub parent_entry : Text → Text → Edge → Bool
parent_entry s t e = is_parent_edge e.edgetype && (e.to == s && e.from == t)

abbrev pub vote_entry : Text → Text → Edge → Bool
vote_entry s t e = is_vote_edge e.edgetype && (e.from == s && e.to == t)

-- A test that no added node passes is passed by no call of the node loops.
module _ (p : Call → Bool)
    (nodes_fail : (i l : Text) (t : NodeType) → p (add_node i l t) ≡ false) where
  count-proposers : (d : Payload) (l : Table Text ProposerNode) → count p (add_proposers d l).0 ≡ 0
  unfolding add_proposers
  count-proposers d [] = refl
  count-proposers d ((h, v) ∷ l) = grind (arith, count-proposers d l, nodes_fail)

  count-voter_calls :
      (d : Payload) (i : ℕ) (low : Option ℕ) (l : Table Text VoterNode)
      → count p (map (voter_call d i low) l) ≡ 0
  unfolding voter_call
  count-voter_calls d i low [] = refl
  count-voter_calls d i low ((h, v) ∷ l) =
      rw (nodes_fail, count-voter_calls d i low l) (omega arith)

  count-chains : (d : Payload) (i k : ℕ) → count p (add_chains d i k) ≡ 0
  unfolding add_chains add_chain
  count-chains d i zero = refl
  count-chains d i (suc k) =
      let nodes = nodes_on_this_chain d i in
      omega (
        arith,
        count-append p (add_chain d i) (add_chains d (i + 1) k),
        count-voter_calls d i (lowest_level none nodes) nodes,
        count-chains d (i + 1) k,
      )

count-parents :
    (s t : Text) (es : List Edge)
    → (count (draws_parent s t) (add_parent_edges es) ≡ count (parent_entry s t) es)
      × (count is_layout (add_parent_edges es) ≡ 0)
      × (count is_vote (add_parent_edges es) ≡ 0)
unfolding add_parent_edges
count-parents s t [] = (refl, refl, refl)
count-parents s t (e ∷ es) = ground (arith, count-parents s t es)

count-votes :
    (s t : Text) (es : List Edge)
    → (count (draws_vote s t) (add_vote_edges es) ≡ count (vote_entry s t) es)
      × All (λ c. is_vote c ≡ true) (add_vote_edges es)
unfolding add_vote_edges
count-votes s t [] = (refl, tt)
count-votes s t (e ∷ es) = ground (arith, count-votes s t es)

abbrev before_layout : Payload → List Call
before_layout d =
    remove_all
    ∷ ((add_proposers d d.proposer_nodes).0
        ++ (add_chains d 0 (length d.voter_longest) ++ add_parent_edges d.edges))

count-before :
    (d : Payload) (p : Call → Bool)
    → ((i l : Text) (t : NodeType) → p (add_node i l t) ≡ false)
    → p remove_all ≡ false
    → count p (before_layout d) ≡ count p (add_parent_edges d.edges)
count-before d p nf rf =
    simp
      (
        rf,
        count-append,
        count-proposers p nf d d.proposer_nodes,
        count-chains p nf d 0 (length d.voter_longest),
      )
      (omega arith)

-- When `handle_data` returns, its calls are some calls, one `layout`, and votes alone. Before the
-- layout there is no other layout and no vote. The edge from `s` to `t` is drawn as a parent edge
-- before the layout once for each parent entry of the payload from `t` to `s` (reversed), and as a
-- vote after it once for each vote entry from `s` to `t`.
pub handle_data_phases :
    (d : Payload) (s t : Text)
    → (handle_data d).1 ≡ returned
    → (before after : List Call) × ((handle_data d).0 ≡ before ++ layout ∷ after)
      × (count is_layout before ≡ 0)
      × (count is_vote before ≡ 0)
      × All (λ c. is_vote c ≡ true) after
      × (count (draws_parent s t) before ≡ count (parent_entry s t) d.edges)
      × (count (draws_vote s t) after ≡ count (vote_entry s t) d.edges)
unfolding handle_data add_rest
handle_data_phases d s t h =
    let (drawn, no_layout, no_vote) = count-parents s t d.edges in
    let (voted, votes) = count-votes s t d.edges in
    (
      before_layout d,
      add_vote_edges d.edges,
      simp append_assoc (ground arith),
      count-before d is_layout (λ i l u. refl) refl ∙ no_layout,
      count-before d is_vote (λ i l u. refl) refl ∙ no_vote,
      votes,
      count-before d (draws_parent s t) (λ i l u. refl) refl ∙ drawn,
      voted,
    )
