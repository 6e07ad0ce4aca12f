-- ===== src/Vis/Style.antt =====
-- The style sheet of the graph widget in blockchain_vis.js.
use prism_rust_vivek.Prelude.{ℕ, Option, none, some, List, [], ◌∷◌}
use prism_rust_vivek.Text.{Text, text}
use prism_rust_vivek.Vis.Render.{
  NodeType, voter_node, orphan_voter, leader_proposer, proposer_node, EdgeClass, to_parent,
  vote_for_proposer,
}

-- `'node'`, `'node[type="..."]'`, `'edge'`, `'edge[type="..."]'`
pub data Selector : Type 0 where
  any_node : Selector
  node_of : NodeType → Selector
  any_edge : Selector
  edge_of : EdgeClass → Selector

pub record NodeStyle : Type 0 where
  pub shape : Text
  pub width : Text
  pub height : Text
  pub text_halign : Text
  pub text_valign : Text
  pub background_color : Text
  pub label : Text

-- `arrow_scale` in tenths; `none` where the rule does not set it
pub record EdgeStyle : Type 0 where
  pub width : ℕ
  pub arrow_scale : Option ℕ
  pub line_color : Text
  pub target_arrow_color : Text
  pub target_arrow_shape : Text
  pub curve_style : Text

pub data Rule : Type 0 where
  node_rule : Selector → NodeStyle → Rule
  edge_rule : Selector → EdgeStyle → Rule

-- All node rules differ in their colour alone.
abbrev pub box : Text → NodeStyle
box color = record {
  shape = text "rectangle";
  width = text "label";
  height = text "label";
  text_halign = text "center";
  text_valign = text "center";
  background_color = color;
  label = text "data(disp)";
}

abbrev arrow : ℕ → Option ℕ → Text → EdgeStyle
arrow width scale color = record {
  width = width;
  arrow_scale = scale;
  line_color = color;
  target_arrow_color = color;
  target_arrow_shape = text "triangle";
  curve_style = text "straight";
}

unfoldable pub style : List Rule
style =
    node_rule any_node (box (text "#AAA"))
    ∷ node_rule (node_of voter_node) (box (text "#4CECED"))
    ∷ node_rule (node_of orphan_voter) (box (text "#E1E1E1"))
    ∷ node_rule (node_of leader_proposer) (box (text "#69D979"))
    ∷ node_rule (node_of proposer_node) (box (text "#E1E1E1"))
    ∷ edge_rule any_edge (arrow 3 none (text "#ccc"))
    ∷ edge_rule (edge_of to_parent) (arrow 2 (some 8) (text "#C4282C"))
    ∷ edge_rule (edge_of vote_for_proposer) (arrow 1 (some 5) (text "#E65026"))
    ∷ []
