-- ===== src/Dashboard.antt =====
-- testbed/dashboard/prism.js: the script that builds the Grafana dashboard.
-- A panel keeps the fields of its object literal; one that a literal may leave out is an option.
pub mod Queries
mod Tests
use prism_rust_vivek.Prelude.{
  ℕ, zero, suc, ◌+◌, Option, none, some, List, [], ◌∷◌, ◌++◌, Bool, true, false, ◌^◌, ltb,
  if◌then◌else◌, ◌>>=◌,
}
use prism_rust_vivek.Text.{Text, text, decimal, Number, nan, nonneg, negative, infinite, parse_int}

pub record GridPos : Type 0 where
  pub h : ℕ
  pub w : ℕ
  pub x : ℕ
  pub y : ℕ

pub record Target : Type 0 where
  pub ref_id : Option Text
  pub target : Text
  pub kind : Text

pub record Legend : Type 0 where
  pub avg : Bool
  pub current : Bool
  pub max : Bool
  pub min : Bool
  pub show : Bool
  pub total : Bool
  pub values : Bool

pub record Sparkline : Type 0 where
  pub fill_color : Text
  pub full : Bool
  pub line_color : Text
  pub show : Bool

-- The fields of the single-stat panels; their `cacheTimeout` is `null` in both.
pub record SingleStat : Type 0 where
  pub format : Text
  pub postfix : Text
  pub postfix_font_size : Text
  pub value_font_size : Text
  pub value_name : Text
  pub sparkline : Option Sparkline

-- The fields of the graph panels; the field of `tooltip` is `shared`.
pub record Graph : Type 0 where
  pub fill : ℕ
  pub linewidth : ℕ
  pub tooltip_shared : Bool
  pub legend : Legend

-- the `type` of a panel, with the fields that panels of this type have
pub data PanelType : Type 0 where
  graph : Graph → PanelType
  singlestat : SingleStat → PanelType

pub record Panel : Type 0 where
  pub title : Text
  pub grid_pos : GridPos
  pub panel_type : PanelType
  pub targets : List Target

-- `dashboard`, with the global settings that the script makes first
pub record Board : Type 0 where
  pub title : Text
  pub time_from : Text
  pub time_to : Text
  pub refresh : Text
  pub refresh_intervals : List Text
  pub time_options : List Text
  pub panels : List Panel

-- `var nodes = 1; if (!_.isUndefined(ARGS.nodes)) nodes = parseInt(ARGS.nodes, 10)`
unfoldable pub nodes_arg : Option Text → Number
nodes_arg none = nonneg 1
nodes_arg (some s) = parse_int s

-- The rounds of `for (var i = 0; i < nodes; i++)`: a comparison with `NaN` fails. An array has at
-- most 2 ^ 32 - 1 items; `none` is the error of the `push` after them.
unfoldable pub rounds : Number → Option ℕ
rounds nan = some 0
rounds (nonneg n) = if ltb n (2 ^ 32) then some n else none
rounds (negative n) = some 0
rounds (infinite minus) = if minus then some 0 else none

unfoldable pub node_target : ℕ → Target
node_target i = record {
  ref_id = none;
  target = text "node_" ++ (decimal i ++ text ":confirmed_tx");
  kind = text "timeserie";
}

-- the loop that fills `txRateTargets`, from round `i` on
unfoldable pub tx_rate_targets : ℕ → ℕ → List Target
unfolding node_target
tx_rate_targets i zero = []
tx_rate_targets i (suc left) = node_target i ∷ tx_rate_targets (i + 1) left

abbrev query : Text → Text → Target
query id name = record { ref_id = some id; target = name; kind = text "timeserie" }

abbrev rate_stat : Text → Option Sparkline → SingleStat
rate_stat value_name sparkline = record {
  format = text "short";
  postfix = text "Tx/s";
  postfix_font_size = text "50%";
  value_font_size = text "80%";
  value_name = value_name;
  sparkline = sparkline;
}

abbrev pub current_rate : Panel
current_rate = record {
  title = text "Current Confirmation Rate";
  grid_pos = record { h = 8; w = 4; x = 0; y = 2 };
  panel_type = singlestat (
      rate_stat (text "current") (
        some (record {
          fill_color = text "rgba(31, 118, 189, 0.18)";
          full = false;
          line_color = text "rgb(31, 120, 193)";
          show = true;
        })));
  targets = query (text "A") (text "average:confirmed_tx") ∷ [];
}

abbrev pub transaction_count : Panel
transaction_count = record {
  title = text "Transaction Count";
  grid_pos = record { h = 10; w = 8; x = 4; y = 0 };
  panel_type = graph (record {
    fill = 1;
    linewidth = 2;
    tooltip_shared = true;
    legend = record {
      avg = true;
      current = false;
      max = false;
      min = false;
      show = true;
      total = false;
      values = true;
    };
  });
  targets =
      query (text "A") (text "accumulative:confirmed_tx")
      ∷ query (text "B") (text "accumulative:generated_tx")
      ∷ [];
}

abbrev pub per_node_rate : List Target → Panel
per_node_rate targets = record {
  title = text "Per-node Confirmation Rate";
  grid_pos = record { h = 10; w = 12; x = 12; y = 0 };
  panel_type = graph (record {
    fill = 0;
    linewidth = 1;
    tooltip_shared = true;
    legend = record {
      avg = false;
      current = false;
      max = false;
      min = false;
      show = false;
      total = false;
      values = false;
    };
  });
  targets = targets;
}

abbrev pub average_rate : Panel
average_rate = record {
  title = text "Average Confirmation Rate";
  grid_pos = record { h = 2; w = 4; x = 0; y = 0 };
  panel_type = singlestat (rate_stat (text "avg") none);
  targets = query (text "A") (text "average:confirmed_tx") ∷ [];
}

abbrev pub board : List Target → Board
board targets = record {
  title = text "Prism";
  time_from = text "now-5m";
  time_to = text "now";
  refresh = text "1s";
  refresh_intervals = text "1s" ∷ text "3s" ∷ text "5s" ∷ text "10s" ∷ text "30s" ∷ text "1m" ∷ [];
  time_options = text "1m" ∷ text "5m" ∷ text "10m" ∷ text "30m" ∷ text "1h" ∷ [];
  panels = current_rate ∷ transaction_count ∷ per_node_rate targets ∷ average_rate ∷ [];
}

-- The whole script, by the argument `ARGS.nodes`; `none` is an error.
unfoldable pub dashboard : Option Text → Option Board
unfolding nodes_arg rounds
dashboard arg = rounds (nodes_arg arg) >>= (λ n. some (board (tx_rate_targets 0 n)))
