-- ===== src/Dashboard/Queries.antt =====
-- The queries of the per-node panel.
use native.Mathlib.Nat.{zero-add}
use mathlib.Core.List.{append_cancel_left, append_cancel_right}
use prism_rust_vivek.Prelude.{
  ℕ, zero, suc, ◌+◌, ◌<◌, ◌≡◌, ◌^◌, true, ltb, refl, ap, some, List, [], ◌∷◌, ◌++◌, length,
  get_elem?, arith, ◌∙◌, ◌↔◌,
}
use prism_rust_vivek.Text.{text, decimal, nonneg}
use prism_rust_vivek.Text.Decimal.{parse_int-decimal, decimal-injective}
use prism_rust_vivek.Dashboard.{
  Target, node_target, tx_rate_targets, dashboard, Panel, Board, board, rounds,
}

length-tx_rate_targets : (i left : ℕ) → length (tx_rate_targets i left) ≡ left
unfolding tx_rate_targets
length-tx_rate_targets i zero = refl
length-tx_rate_targets i (suc left) = omega (arith, length-tx_rate_targets (i + 1) left)

get-tx_rate_targets :
    (i left k : ℕ) → k < left → get_elem? (tx_rate_targets i left) k ≡ some (node_target (i + k))
unfolding tx_rate_targets
get-tx_rate_targets i zero k h = elim h [ ]
get-tx_rate_targets i (suc left) zero h = ap (λ (j : ℕ). some (node_target j)) (omega arith)
get-tx_rate_targets i (suc left) (suc k) h =
    get-tx_rate_targets (i + 1) left k (omega arith)
    ∙ ap (λ (j : ℕ). some (node_target j)) (omega arith)

-- The targets of the third panel, which shows one curve for each node.
abbrev pub node_curves : List Panel → List Target
node_curves (_ ∷ _ ∷ p ∷ _) = p.targets
node_curves _ = []

-- Different nodes have different queries.
node_target-injective : (i j : ℕ) → node_target i ≡ node_target j → i ≡ j
unfolding node_target
node_target-injective i j h = decimal-injective i j (
    append_cancel_right (decimal i) (decimal j) (text ":confirmed_tx") (
      append_cancel_left (text "node_") (decimal i ++ text ":confirmed_tx")
        (decimal j ++ text ":confirmed_tx") (ap (λ (t : Target). t.target) h)))

rounds-small : (n : ℕ) → n < 2 ^ 32 → rounds (nonneg n) ≡ some n
unfolding rounds
rounds-small n small = let fits : ltb n (2 ^ 32) ≡ true = ground arith in rw fits refl

dashboard-decimal :
    (n : ℕ)
    → n < 2 ^ 32
    → (b : Board) × (dashboard (some (decimal n)) ≡ some b)
      × (node_curves b.panels ≡ tx_rate_targets 0 n)
unfolding dashboard
dashboard-decimal n small = (
  board (tx_rate_targets 0 n),
  rw (parse_int-decimal n (omega arith), rounds-small n small) refl,
  refl,
)

-- With the decimal text of an `n` below 2 ^ 32 as `ARGS.nodes` the script makes a dashboard: its
-- per-node panel has `n` queries, the query at each place `i` below `n` is that of node `i`, and two
-- nodes have one query only if they are equal.
pub node_curves_lem :
    (n i j : ℕ)
    → n < 2 ^ 32
    → i < n
    → (b : Board) × (dashboard (some (decimal n)) ≡ some b)
      × (length (node_curves b.panels) ≡ n)
      × (get_elem? (node_curves b.panels) i ≡ some (node_target i))
      × ((node_target i ≡ node_target j) ↔ (i ≡ j))
node_curves_lem n i j small h =
    let (b, made, curves) = dashboard-decimal n small in
    (
      b,
      made,
      rw curves (length-tx_rate_targets 0 n),
      rw curves (get-tx_rate_targets 0 n i h ∙ ap (λ (k : ℕ). some (node_target k)) (zero-add i)),
      (node_target-injective i j, ap node_target),
    )
