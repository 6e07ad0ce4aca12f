-- ===== src/Ledger/Utxo/Rollback.antt =====
-- What `add_transaction` leaves in the database, and what `remove_transaction` undoes.
use prism_rust_vivek.Prelude.{
  ℕ, ◌^◌, ◌≤◌, ◌≡◌, ◌≢◌, refl, ap, ◌∙◌, Bool, true, Option, none, some, List, [], ◌∷◌, lookup,
  insert, lookup-insert, elem, add, all, length, ◌==◌, if◌then◌else◌, nat_eq, arith, inl, inr,
  Bool-cases, Option-cases, All,
}
use prism_rust_vivek.Crypto.{H256}
use prism_rust_vivek.Ledger.Transaction.{
  CoinId, Input, Output, Address, Transaction, coin_eq, coin_beq_iff,
}
use prism_rust_vivek.Ledger.Utxo.{
  Utxo, delete_coins, put_inputs, restored, input_coins, output_coins, add_transaction,
  remove_transaction, is_accepted, check_inputs, contains, enumerate_outputs,
}
use prism_rust_vivek.Ledger.Utxo.Lookup.{
  lookup-delete_coins, output_at, or_else, lookup-put_outputs, elem-output_coins,
}

-- An input that names its coin as the database has it.
abbrev pub HasValue : Utxo → Input → Type 0
HasValue db i = (d : Output) × (lookup i.coin db ≡ some d) × (d.value ≡ i.value)

abbrev pub IsHonest : Utxo → Input → Type 0
IsHonest db i = (d : Output) → lookup i.coin db ≡ some d → d.recipient ≡ i.owner

check_inputs-HasValue :
    (db : Utxo) (owners : List Address) (inputs : List Input)
    → check_inputs db owners inputs ≢ none
    → All (HasValue db) inputs
unfolding check_inputs
check_inputs-HasValue db owners [] h = tt
check_inputs-HasValue db owners (i ∷ inputs) h = elim (Option-cases (lookup i.coin db)) [
  | inl missing ↦ absurd (h (ground arith))
  | inr (d, found) ↦ elim (Bool-cases (d.value == i.value)) [
    | inl same ↦ (
      (d, found, ground arith),
      check_inputs-HasValue db (add d.recipient owners) inputs (λ e. h (ground arith)),
    )
    | inr other ↦ absurd (h (ground arith))
  ]
]

pub is_accepted-HasValue :
    (address_of : List ℕ → Address) (db : Utxo) (t : Transaction)
    → is_accepted address_of db t ≡ true
    → All (HasValue db) t.input
unfolding is_accepted
is_accepted-HasValue address_of db t h = check_inputs-HasValue db [] t.input (λ e. ground arith)

-- The output that the inputs restore under a coin id: the last input of that id counts.
abbrev input_at : CoinId → List Input → Option Output
input_at c [] = none
input_at c (i ∷ inputs) =
    or_else (input_at c inputs) (if i.coin == c then some (restored i) else none)

lookup-put_inputs :
    (c : CoinId) (inputs : List Input) (db : Utxo)
    → lookup c (put_inputs inputs db) ≡ or_else (input_at c inputs) (lookup c db)
unfolding put_inputs
lookup-put_inputs c [] db = refl
lookup-put_inputs c (i ∷ inputs) db = ground (
  arith,
  lookup-put_inputs c inputs (insert i.coin (restored i) db),
  lookup-insert i.coin c (restored i) db,
)

restored-eq :
    (db : Utxo) (i : Input) → HasValue db i → IsHonest db i → lookup i.coin db ≡ some (restored i)
restored-eq db i (d, found, value) honest = ground (arith, honest d found)

-- Honest inputs restore what the database had.
input_at-honest :
    (db : Utxo) (c : CoinId) (inputs : List Input)
    → All (HasValue db) inputs
    → All (IsHonest db) inputs
    → input_at c inputs ≡ (if elem c (input_coins inputs) then lookup c db else none)
unfolding elem
input_at-honest db c [] h k = refl
input_at-honest db c (i ∷ inputs) h k = ground (
  arith,
  input_at-honest db c inputs h.1 k.1,
  restored-eq db i h.0 k.0,
  coin_beq_iff i.coin c,
  ap (λ (j : CoinId). lookup j db),
)

-- What `add_transaction` leaves under every coin id, and what it reports: an accepted transaction
-- leaves its outputs under their ids, nothing else under the ids of its inputs, all else as it was,
-- and reports both; one that is not accepted changes nothing and reports no coin. The outputs are
-- 2 ^ 32 at most.
pub add_transaction_lem :
    (address_of : List ℕ → Address) (db : Utxo) (t : Transaction) (hash : H256) (c : CoinId)
    → length t.output ≤ 2 ^ 32
    → (lookup c (add_transaction address_of db t hash).0 ≡ (
        if is_accepted address_of db t
        then or_else
            (output_at hash 0 t.output c)
            (if elem c (input_coins t.input) then none else lookup c db)
        else lookup c db))
      × ((add_transaction address_of db t hash).1 ≡ (
          if is_accepted address_of db t
          then (enumerate_outputs hash 0 t.output, input_coins t.input)
          else ([], [])))
unfolding add_transaction
add_transaction_lem address_of db t hash c n = (
  ground (
    arith,
    lookup-put_outputs hash 0 t.output c (delete_coins (input_coins t.input) db),
    lookup-delete_coins c (input_coins t.input) db,
  ),
  ground arith,
)

all-of-elem :
    (p : CoinId → Bool) (l : List CoinId)
    → ((c : CoinId) → elem c l ≡ true → p c ≡ true)
    → all p l ≡ true
unfolding elem
all-of-elem p [] h = refl
all-of-elem p (c ∷ l) h =
    ground
      (arith, h c (ground (arith, coin_beq_iff c c)), all-of-elem p l (λ d e. h d (ground arith)))

module _ (address_of : List ℕ → Address) (db : Utxo) (t : Transaction) (hash : H256)
    (few : length t.output ≤ 2 ^ 32) (accepted : is_accepted address_of db t ≡ true) where
  abbrev added : Utxo
  added = (add_transaction address_of db t hash).0

  outputs_there : all (contains added) (output_coins hash 0 t.output) ≡ true
  unfolding contains
  outputs_there = all-of-elem (contains added) (output_coins hash 0 t.output) λ c e. ground (
    arith,
    elem-output_coins hash 0 t.output c,
    (add_transaction_lem address_of db t hash c few).0,
  )

  -- What the rollback leaves under a coin id.
  lookup-rollback :
      (c : CoinId)
      → lookup c (remove_transaction added t hash).0
        ≡ or_else (input_at c t.input) (
            if elem c (output_coins hash 0 t.output)
            then none
            else if elem c (input_coins t.input)
            then none
            else lookup c db)
  unfolding remove_transaction
  lookup-rollback c = ground (
    arith,
    outputs_there,
    lookup-put_inputs c t.input (delete_coins (output_coins hash 0 t.output) added),
    lookup-delete_coins c (output_coins hash 0 t.output) added,
    elem-output_coins hash 0 t.output c,
    (add_transaction_lem address_of db t hash c few).0,
  )

-- Removing an accepted transaction of 2 ^ 32 outputs at most undoes its addition: if no coin of its hash was there before,
-- and every input names the recipient of its coin as the owner, then every coin id holds again what
-- it held.
pub remove-add_transaction :
    (address_of : List ℕ → Address) (db : Utxo) (t : Transaction) (hash : H256)
    → length t.output ≤ 2 ^ 32
    → is_accepted address_of db t ≡ true
    → ((c : CoinId) → c.hash ≡ hash → lookup c db ≡ none)
    → All (IsHonest db) t.input
    → (c : CoinId)
    → lookup c (remove_transaction (add_transaction address_of db t hash).0 t hash).0 ≡ lookup c db
remove-add_transaction address_of db t hash few accepted fresh honest c = ground (
  arith,
  lookup-rollback address_of db t hash few accepted c,
  input_at-honest db c t.input (is_accepted-HasValue address_of db t accepted) honest,
  elem-output_coins hash 0 t.output c,
  fresh c,
)

-- `add_transaction` does not compare the owner that an input names with the recipient of the coin.
-- If they differ in an accepted transaction of one input and 2 ^ 32 outputs at most, then after the rollback the coin belongs
-- to the owner that the input names, and no longer to its recipient.
pub rollback_changes_owner :
    (address_of : List ℕ → Address) (db : Utxo) (t : Transaction) (hash : H256) (i : Input)
    (d : Output)
    → length t.output ≤ 2 ^ 32
    → is_accepted address_of db t ≡ true
    → t.input ≡ i ∷ []
    → lookup i.coin db ≡ some d
    → d.recipient ≢ i.owner
    → let after = (remove_transaction (add_transaction address_of db t hash).0 t hash).0 in
      (lookup i.coin after ≡ some (restored i)) × (lookup i.coin after ≢ lookup i.coin db)
rollback_changes_owner address_of db t hash i d few accepted one found differ =
    let e : lookup i.coin (remove_transaction (add_transaction address_of db t hash).0 t hash).0
        ≡ some (restored i) =
      lookup-rollback address_of db t hash few accepted i.coin
      ∙ (rw one (ground (arith, coin_beq_iff i.coin i.coin))) in
    (e, λ same. differ (ground arith))

add-add : (x : Address) (s : List Address) → add x (add x s) ≡ add x s
unfolding add
add-add x [] = ground arith
add-add x (y ∷ s) = ground (arith, add-add x s)

-- The check reads the database and not the batch: an input that is listed twice in a row is accepted
-- exactly if it is accepted once, so one coin is spent twice by one transaction.
pub duplicate_input_accepted :
    (address_of : List ℕ → Address) (db : Utxo) (t : Transaction) (i : Input) (rest : List Input)
    → is_accepted address_of db (record t { input = i ∷ i ∷ rest })
      ≡ is_accepted address_of db (record t { input = i ∷ rest })
unfolding is_accepted
duplicate_input_accepted address_of db t i rest = elim (Option-cases (lookup i.coin db)) [
  | inl missing ↦ ground arith
  | inr (d, found) ↦ ground (arith, add-add d.recipient [])
]
