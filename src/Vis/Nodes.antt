-- ===== src/Vis/Nodes.antt =====
-- Which nodes `handle_data` draws, and what the lowest level of a chain is.
use prism_rust_vivek.Prelude.{
  ℕ, zero, suc, ◌+◌, ◌≤◌, ◌≡◌, ◌≢◌, refl, Bool, false, Option, none, some, List, [], ◌∷◌, map,
  length, count, count-append, filter, Table, ltb, leb, ◌==◌, ◌&&◌, if◌then◌else◌, nat_eq, text_eq,
  arith, inl, inr, ◌⊎◌, All, Bool-cases,
}
use native.Mathlib.Nat.{zero-add}
use prism_rust_vivek.Text.{Text}
use prism_rust_vivek.Vis.Payload.{Payload, ProposerNode, VoterNode, Edge}
use prism_rust_vivek.Vis.Render.{
  Call, add_node, returned, add_proposers, add_chain, add_chains, add_parent_edges, add_vote_edges,
  add_rest, handle_data, nodes_on_this_chain, voter_call, lowest_level,
}

-- a call that adds the node `id`
abbrev pub adds : Text → Call → Bool
adds id (add_node i label t) = i == id
adds id _ = false

-- an entry of key `id`; one of a chain from `lo` to below `hi`
abbrev pub has_key {ℓ} : {V : Type ℓ} → Text → Text × V → Bool
has_key id e = e.0 == id

abbrev pub on_chains : Text → ℕ → ℕ → Text × VoterNode → Bool
on_chains id lo hi e = e.0 == id && (leb lo e.1.chain && ltb e.1.chain hi)

count-map_voter :
    (d : Payload) (id : Text) (idx : ℕ) (low : Option ℕ) (nodes : Table Text VoterNode)
    → count (adds id) (map (voter_call d idx low) (filter (λ e. e.1.chain == idx) nodes))
      ≡ count (on_chains id idx (idx + 1)) nodes
unfolding voter_call
count-map_voter d id idx low [] = refl
count-map_voter d id idx low ((h, v) ∷ nodes) = ground (arith, count-map_voter d id idx low nodes)

count-add_chain :
    (d : Payload) (id : Text) (idx : ℕ)
    → count (adds id) (add_chain d idx) ≡ count (on_chains id idx (idx + 1)) d.voter_nodes
unfolding add_chain
count-add_chain d id idx =
    count-map_voter d id idx (lowest_level none (nodes_on_this_chain d idx)) d.voter_nodes

count-split :
    (id : Text) (lo k : ℕ) (nodes : Table Text VoterNode)
    → count (on_chains id lo (lo + 1)) nodes + count (on_chains id (lo + 1) (lo + 1 + k)) nodes
      ≡ count (on_chains id lo (lo + suc k)) nodes
count-split id lo k [] = refl
count-split id lo k ((h, v) ∷ nodes) = ground (arith, count-split id lo k nodes)

count-none :
    (id : Text) (lo : ℕ) (nodes : Table Text VoterNode) → count (on_chains id lo (lo + 0)) nodes ≡ 0
count-none id lo [] = refl
count-none id lo ((h, v) ∷ nodes) = ground (arith, count-none id lo nodes)

pub count-add_chains :
    (d : Payload) (id : Text) (lo k : ℕ)
    → count (adds id) (add_chains d lo k) ≡ count (on_chains id lo (lo + k)) d.voter_nodes
unfolding add_chains
count-add_chains d id lo zero = omega (arith, count-none id lo d.voter_nodes)
count-add_chains d id lo (suc k) = omega (
  arith,
  count-append (adds id) (add_chain d lo) (add_chains d (lo + 1) k),
  count-add_chain d id lo,
  count-add_chains d id (lo + 1) k,
  count-split id lo k d.voter_nodes,
)

count-add_proposers :
    (d : Payload) (id : Text) (nodes : Table Text ProposerNode)
    → (add_proposers d nodes).1 ≡ returned
    → count (adds id) (add_proposers d nodes).0 ≡ count (has_key id) nodes
unfolding add_proposers
count-add_proposers d id [] h = refl
count-add_proposers d id ((x, v) ∷ nodes) h = ground (arith, count-add_proposers d id nodes)

count-parent_edges : (id : Text) (es : List Edge) → count (adds id) (add_parent_edges es) ≡ 0
unfolding add_parent_edges
count-parent_edges id [] = refl
count-parent_edges id (e ∷ es) = ground (arith, count-parent_edges id es)

count-vote_edges : (id : Text) (es : List Edge) → count (adds id) (add_vote_edges es) ≡ 0
unfolding add_vote_edges
count-vote_edges id [] = refl
count-vote_edges id (e ∷ es) = ground (arith, count-vote_edges id es)

count-add_rest :
    (d : Payload) (id : Text)
    → count (adds id) (add_rest d) ≡ count (on_chains id 0 (length d.voter_longest)) d.voter_nodes
unfolding add_rest
count-add_rest d id =
    simp (count-append, count-parent_edges, count-vote_edges, count-add_chains, zero-add)
      (omega arith)

-- When `handle_data` returns, it has added the node of a hash once for each proposer entry of that
-- hash and once for each voter entry of that hash whose chain number is below the length of
-- `voter_longest`: voters of further chains are not drawn.
pub count-handle_data :
    (d : Payload) (id : Text)
    → (handle_data d).1 ≡ returned
    → count (adds id) (handle_data d).0
      ≡ count (has_key id) d.proposer_nodes
        + count (on_chains id 0 (length d.voter_longest)) d.voter_nodes
unfolding handle_data
count-handle_data d id h = ground (
  arith,
  count-add_proposers d id d.proposer_nodes,
  count-add_rest d id,
  count-append (adds id) (add_proposers d d.proposer_nodes).0 (add_rest d),
)

found_here : (level l : ℕ) {k : ℕ} → (l ≡ level) ⊎ (k ≢ 0) → (if level == l then 1 else 0) + k ≢ 0
found_here level l w = ground arith

found_later :
    (level l : ℕ) {m k : ℕ} → (l ≡ m) ⊎ (k ≢ 0) → (l ≡ m) ⊎ ((if level == l then 1 else 0) + k ≢ 0)
found_later level l w = ground arith

lowest_level-some :
    (m : ℕ) (nodes : Table Text VoterNode)
    → (l : ℕ) × (lowest_level (some m) nodes ≡ some l)
      × (l ≤ m)
      × All (λ e. l ≤ e.1.level) nodes
      × ((l ≡ m) ⊎ (count (λ e. e.1.level == l) nodes ≢ 0))
unfolding lowest_level
lowest_level-some m [] = (m, refl, omega arith, tt, inl refl)
lowest_level-some m ((h, v) ∷ nodes) = elim (Bool-cases (ltb v.level m)) [
  | inl lower ↦
      let (l, e, b, a, w) = lowest_level-some v.level nodes in
      (l, rw lower e, ground arith, (b, a), inr (found_here v.level l w))
  | inr not_lower ↦
      let (l, e, b, a, w) = lowest_level-some m nodes in
      (l, rw not_lower e, b, (ground arith, a), found_later v.level l w)
]

-- The lowest level of the nodes of a chain is found exactly if the chain has a node; it is then
-- at most the level of each of them, and the level of one of them.
pub lowest_level_lem :
    (node : Text × VoterNode) (nodes : Table Text VoterNode)
    → (lowest_level none [] ≡ none)
      × ((l : ℕ) × (lowest_level none (node ∷ nodes) ≡ some l)
          × All (λ e. l ≤ e.1.level) (node ∷ nodes)
          × (count (λ e. e.1.level == l) (node ∷ nodes) ≢ 0))
unfolding lowest_level
lowest_level_lem (h, v) nodes = (
  refl,
  let (l, e, b, a, w) = lowest_level-some v.level nodes in (l, e, (b, a), found_here v.level l w),
)
