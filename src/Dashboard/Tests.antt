-- ===== src/Dashboard/Tests.antt =====
-- The theorems on the dashboard for a run with three nodes.
use prism_rust_vivek.Prelude.{ℕ, ◌≡◌, ◌↔◌, some, none, refl, arith, length, get_elem?}
use prism_rust_vivek.Text.{text, decimal, parse_int, nonneg, signed}
use prism_rust_vivek.Dashboard.{dashboard, node_target, Board}
use prism_rust_vivek.Dashboard.Queries.{node_curves, node_curves_lem}

-- `parseInt` rounds to a double, and more nodes than an array has items are an error.
parse_large : parse_int (text "9007199254740993") ≡ nonneg 9007199254740992
unfolding parse_int signed
parse_large = refl

too_many_nodes : dashboard (some (text "4294967296")) ≡ none
unfolding dashboard parse_int signed
too_many_nodes = refl

node_curves_lem_example :
    (b : Board) × (dashboard (some (decimal 12)) ≡ some b)
    × (length (node_curves b.panels) ≡ 12)
    × (get_elem? (node_curves b.panels) 10 ≡ some (node_target 10))
    × ((node_target 10 ≡ node_target 1) ↔ (◌≡◌ {A = ℕ} 10 1))
node_curves_lem_example = node_curves_lem 12 10 1 (omega arith) (omega arith)
