-- ===== src/Validation/Transactions.antt =====
-- src/validation/transaction.rs without the signatures: the checks of each transaction of a block.
use prism_rust_vivek.Prelude.{
  ℕ, Bool, true, false, not, ◌||◌, Option, none, some, List, [], ◌∷◌, map, any, leb, ◌==◌, nat_eq,
  if◌then◌else◌, add_u64,
}
use prism_rust_vivek.Ledger.Transaction.{Transaction}

abbrev pub is_empty {ℓ} : {A : Type ℓ} → List A → Bool
is_empty [] = true
is_empty (_ ∷ _) = false

unfoldable pub check_non_empty : Transaction → Bool
check_non_empty t = not (is_empty t.input || is_empty t.output)

unfoldable pub check_non_zero : Transaction → Bool
check_non_zero t = not (any (λ x. x.value == 0) t.input || any (λ x. x.value == 0) t.output)

-- the sum of an iterator of `u64`, which wraps around in a release build
unfoldable pub sum_u64 : List ℕ → ℕ
sum_u64 [] = 0
sum_u64 (x ∷ xs) = add_u64 x (sum_u64 xs)

unfoldable pub check_sufficient_input : Transaction → Bool
unfolding sum_u64
check_sufficient_input t =
    leb (sum_u64 (map (λ x. x.value) t.output)) (sum_u64 (map (λ x. x.value) t.input))

-- what is wrong with a transaction
pub data Failure : Type 0 where
  is_empty_tx has_zero lacks_input : Failure

-- The loop over the transactions: the first failure.
unfoldable pub check_transactions : List Transaction → Option Failure
unfolding check_non_empty check_non_zero check_sufficient_input
check_transactions [] = none
check_transactions (t ∷ transactions) =
    if not (check_non_empty t)
    then some is_empty_tx
    else if not (check_non_zero t)
    then some has_zero
    else if not (check_sufficient_input t)
    then some lacks_input
    else check_transactions transactions
