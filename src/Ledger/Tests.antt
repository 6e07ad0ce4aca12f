-- ===== src/Ledger/Tests.antt =====
-- The theorems on the coin database at concrete transactions.
use prism_rust_vivek.Prelude.{
  ℕ, ◌≡◌, ◌≢◌, refl, true, none, some, List, [], ◌∷◌, lookup, arith, if◌then◌else◌, elem, All, add,
  nat_eq,
}
use prism_rust_vivek.Ledger.Transaction.{CoinId, Input, Transaction, Address, coin_eq}
use prism_rust_vivek.Ledger.Utxo.{
  Utxo, add_transaction, remove_transaction, is_accepted, restored, enumerate_outputs, input_coins,
}
use prism_rust_vivek.Ledger.Utxo.Lookup.{or_else, output_at}
use prism_rust_vivek.Ledger.Utxo.Rollback.{
  IsHonest, add_transaction_lem, remove-add_transaction, rollback_changes_owner,
  duplicate_input_accepted,
}

-- the address of a public key: its first byte
abbrev address_of : List ℕ → Address
address_of [] = 0
address_of (x ∷ xs) = x

abbrev coin : CoinId
coin = record { hash = 50; index = 1 }

abbrev database : Utxo
database = (coin, record { value = 9; recipient = 4 }) ∷ []

abbrev input : Address → Input
input owner = record { coin = coin; value = 9; owner = owner }

-- A transaction that the owner 4 of the coin signs, and that names `owner` as the coin's owner.
abbrev payment : Address → Transaction
payment owner = record {
  input = input owner ∷ [];
  output = record { value = 3; recipient = 6 } ∷ record { value = 6; recipient = 4 } ∷ [];
  authorization = record { pubkey = 4 ∷ []; signature = [] } ∷ [];
}

payment-accepted : (owner : Address) → is_accepted address_of database (payment owner) ≡ true
unfolding is_accepted lookup elem add
payment-accepted owner = refl

payment-fresh : (c : CoinId) → c.hash ≡ 60 → lookup c database ≡ none
unfolding lookup
payment-fresh c e = ground arith

payment-IsHonest : All (IsHonest database) (payment 4).input
unfolding lookup
payment-IsHonest = (λ d e. ground arith, tt)

add_transaction_lem_example :
    (lookup coin (add_transaction address_of database (payment 4) 60).0 ≡ (
      if is_accepted address_of database (payment 4)
      then or_else
          (output_at 60 0 (payment 4).output coin)
          (if elem coin (input_coins (payment 4).input) then none else lookup coin database)
      else lookup coin database))
    × ((add_transaction address_of database (payment 4) 60).1 ≡ (
        if is_accepted address_of database (payment 4)
        then (enumerate_outputs 60 0 (payment 4).output, input_coins (payment 4).input)
        else ([], [])))
add_transaction_lem_example =
    add_transaction_lem address_of database (payment 4) 60 coin (omega arith)

remove-add_transaction_example :
    lookup coin
      (remove_transaction (add_transaction address_of database (payment 4) 60).0 (payment 4) 60).0
    ≡ lookup coin database
remove-add_transaction_example =
    remove-add_transaction address_of database (payment 4) 60 (omega arith) (payment-accepted 4)
      payment-fresh payment-IsHonest coin

-- The rollback of a payment that names 5 as the owner of the coin of 4.
rollback_changes_owner_example :
    let after =
      (remove_transaction
        (add_transaction address_of database (payment 5) 60).0
        (payment 5)
        60).0 in
    (lookup coin after ≡ some (restored (input 5))) × (lookup coin after ≢ lookup coin database)
unfolding lookup
rollback_changes_owner_example =
    rollback_changes_owner address_of database (payment 5) 60 (input 5)
      (record { value = 9; recipient = 4 }) (omega arith) (payment-accepted 5) refl refl
      (omega arith)

duplicate_input_accepted_example :
    is_accepted address_of database (record (payment 4) { input = input 4 ∷ input 4 ∷ [] })
    ≡ is_accepted address_of database (record (payment 4) { input = input 4 ∷ [] })
duplicate_input_accepted_example =
    duplicate_input_accepted address_of database (payment 4) (input 4) []
