-- ===== src/Ledger/Utxo.antt =====
-- src/utxodb/mod.rs: the set of unspent coins. The RocksDB handle is a table from coin ids to
-- outputs, and a write batch is its writes in order; an I/O error of the database is not modelled.
-- The address of a public key, SHA-256 of a library, is the parameter `address_of`.
pub mod Lookup
pub mod Rollback
use prism_rust_vivek.Prelude.{
  ℕ, ◌+◌, ◌%◌, ◌^◌, Bool, true, false, ◌&&◌, Option, none, some, List, [], ◌∷◌, ◌++◌, Table, lookup,
  insert, remove, contains_key, elem, add, all, map, ◌==◌, if◌then◌else◌, nat_eq,
}
use prism_rust_vivek.Crypto.{H256}
use prism_rust_vivek.Ledger.Transaction.{
  CoinId, Address, Input, Output, Authorization, Transaction, coin_eq,
}

abbrev pub Utxo : Type 0
Utxo = Table CoinId Output

-- The coins that a call added and those that it removed.
abbrev pub Diff : Type 0
Diff = List (CoinId × Output) × List CoinId

-- `UtxoDatabase::contains`
unfoldable pub contains : Utxo → CoinId → Bool
contains db coin = contains_key coin db

-- `CoinId { hash, index: idx as u32 }`
abbrev pub coin_of : H256 → ℕ → CoinId
coin_of hash idx = record { hash = hash; index = idx % 2 ^ 32 }

-- The loop over the inputs: the owners of the coins, or `none` on an early return.
unfoldable pub check_inputs : Utxo → List Address → List Input → Option (List Address)
check_inputs db owners [] = some owners
check_inputs db owners (i ∷ inputs) = elim (lookup i.coin db) [
  | none ↦ none
  | some coin_data ↦
      if coin_data.value == i.value
      then check_inputs db (add coin_data.recipient owners) inputs
      else none
]

-- The batch of deletions, and of puts of outputs from an index on.
unfoldable pub delete_coins : List CoinId → Utxo → Utxo
delete_coins [] db = db
delete_coins (c ∷ coins) db = delete_coins coins (remove c db)

unfoldable pub put_outputs : H256 → ℕ → List Output → Utxo → Utxo
put_outputs hash idx [] db = db
put_outputs hash idx (o ∷ outputs) db =
    put_outputs hash (idx + 1) outputs (insert (coin_of hash idx) o db)

unfoldable pub enumerate_outputs : H256 → ℕ → List Output → List (CoinId × Output)
enumerate_outputs hash idx [] = []
enumerate_outputs hash idx (o ∷ outputs) =
    (coin_of hash idx, o) ∷ enumerate_outputs hash (idx + 1) outputs

-- Equality of two `HashSet`s.
abbrev pub same_set : List Address → List Address → Bool
same_set a b = all (λ x. elem x b) a && all (λ x. elem x a) b

unfoldable pub signed_users : (List ℕ → Address) → List Authorization → List Address
signed_users address_of [] = []
signed_users address_of (a ∷ auths) = add (address_of a.pubkey) (signed_users address_of auths)

-- Whether the transaction passes: the inputs are there with their values, and the signers are
-- exactly the owners.
unfoldable pub is_accepted : (List ℕ → Address) → Utxo → Transaction → Bool
unfolding check_inputs signed_users
is_accepted address_of db t = elim (check_inputs db [] t.input) [
  | none ↦ false
  | some owners ↦ same_set (signed_users address_of t.authorization) owners
]

abbrev pub input_coins : List Input → List CoinId
input_coins = map (λ i. i.coin)

unfoldable pub add_transaction : (List ℕ → Address) → Utxo → Transaction → H256 → Utxo × Diff
unfolding is_accepted put_outputs delete_coins enumerate_outputs
add_transaction address_of db t hash =
    if is_accepted address_of db t
    then (
      put_outputs hash 0 t.output (delete_coins (input_coins t.input) db),
      (enumerate_outputs hash 0 t.output, input_coins t.input),
    )
    else (db, ([], []))

-- The ids of the outputs from an index on, and whether all of them are there.
unfoldable pub output_coins : H256 → ℕ → List Output → List CoinId
output_coins hash idx [] = []
output_coins hash idx (o ∷ outputs) = coin_of hash idx ∷ output_coins hash (idx + 1) outputs

-- `Output { value: input.value, recipient: input.owner }`
abbrev pub restored : Input → Output
restored i = record { value = i.value; recipient = i.owner }

unfoldable pub put_inputs : List Input → Utxo → Utxo
put_inputs [] db = db
put_inputs (i ∷ inputs) db = put_inputs inputs (insert i.coin (restored i) db)

unfoldable pub remove_transaction : Utxo → Transaction → H256 → Utxo × Diff
unfolding output_coins put_inputs delete_coins contains
remove_transaction db t hash =
    let ids = output_coins hash 0 t.output in
    if all (contains db) ids
    then (put_inputs t.input (delete_coins ids db), (map (λ i. (i.coin, restored i)) t.input, ids))
    else (db, ([], []))
