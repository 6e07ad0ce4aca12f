-- ===== src/Ledger/Manager/Frame.antt =====
-- A job reads and writes the coins that it touches, and no others.
use prism_rust_vivek.Prelude.{
  ℕ, ◌+◌, ◌≡◌, refl, Bool, true, false, List, [], ◌∷◌, lookup, insert, lookup-insert, elem, add,
  all, elem-add_all, all-of-elem, nat_eq, nat_beq, ◌==◌, if◌then◌else◌, arith, Bool-cases,
  Option-cases, inl, inr,
}
use prism_rust_vivek.Crypto.{H256}
use prism_rust_vivek.Ledger.Transaction.{CoinId, Input, Output, Address, Transaction, coin_eq}
use prism_rust_vivek.Ledger.Utxo.{
  Utxo, coin_of, check_inputs, is_accepted, delete_coins, put_outputs, put_inputs, output_coins,
  input_coins, restored, contains, add_transaction, remove_transaction,
}
use prism_rust_vivek.Ledger.Utxo.Lookup.{lookup-delete_coins}
use prism_rust_vivek.Ledger.Manager.{Job, touched, input_hashes, process}

-- Two databases agree on the coins of some transactions.
abbrev pub Agree : (H256 → Bool) → Utxo → Utxo → Type 0
Agree p db db' = (c : CoinId) → p c.hash ≡ true → lookup c db ≡ lookup c db'

pub elem-touched :
    (j : Job) (x : H256)
    → elem x (touched j)
      ≡ (if nat_beq j.hash x then true else elem x (input_hashes j.transaction.input))
unfolding elem
elem-touched j x =
    let e : elem x (touched j)
        ≡ (if elem x (j.hash ∷ input_hashes j.transaction.input) then true else false) =
      elem-add_all x (j.hash ∷ input_hashes j.transaction.input) [] in
    ground (arith, e)

module _ (p : H256 → Bool) where
  insert-Agree :
      (k : CoinId) (o : Output) (db db' : Utxo)
      → Agree p db db'
      → Agree p (insert k o db) (insert k o db')
  insert-Agree k o db db' a c e =
      ground (arith, a c e, lookup-insert k c o db, lookup-insert k c o db')

  delete_coins-Agree :
      (coins : List CoinId) (db db' : Utxo)
      → Agree p db db'
      → Agree p (delete_coins coins db) (delete_coins coins db')
  delete_coins-Agree coins db db' a c e =
      ground (arith, a c e, lookup-delete_coins c coins db, lookup-delete_coins c coins db')

  put_outputs-Agree :
      (hash : H256) (idx : ℕ) (outputs : List Output) (db db' : Utxo)
      → Agree p db db'
      → Agree p (put_outputs hash idx outputs db) (put_outputs hash idx outputs db')
  unfolding put_outputs
  put_outputs-Agree hash idx [] db db' a = a
  put_outputs-Agree hash idx (o ∷ outputs) db db' a =
      put_outputs-Agree hash (idx + 1) outputs (insert (coin_of hash idx) o db)
        (insert (coin_of hash idx) o db') (insert-Agree (coin_of hash idx) o db db' a)

  put_inputs-Agree :
      (inputs : List Input) (db db' : Utxo)
      → Agree p db db'
      → Agree p (put_inputs inputs db) (put_inputs inputs db')
  unfolding put_inputs
  put_inputs-Agree [] db db' a = a
  put_inputs-Agree (i ∷ inputs) db db' a =
      put_inputs-Agree inputs (insert i.coin (restored i) db) (insert i.coin (restored i) db')
        (insert-Agree i.coin (restored i) db db' a)

  -- The checks read the coins of the inputs, or of the outputs.
  check_inputs-Agree :
      (owners : List Address) (inputs : List Input) (db db' : Utxo)
      → Agree p db db'
      → all p (input_hashes inputs) ≡ true
      → check_inputs db owners inputs ≡ check_inputs db' owners inputs
  unfolding check_inputs
  check_inputs-Agree owners [] db db' a e = refl
  check_inputs-Agree owners (i ∷ inputs) db db' a e =
      let here : p i.coin.hash ≡ true = ground (arith, e) in
      let later : all p (input_hashes inputs) ≡ true = ground (arith, e, here) in
      let same = a i.coin here in
      elim (Option-cases (lookup i.coin db')) [
        | inl absent ↦ rw (same, absent, check_inputs) refl
        | inr (o, found) ↦ elim (Bool-cases (o.value == i.value)) [
          | inl good ↦
              rw (same, found, good, check_inputs)
                (check_inputs-Agree (add o.recipient owners) inputs db db' a later)
          | inr bad ↦ rw (same, found, bad, check_inputs) refl
        ]
      ]

  contains-Agree :
      (hash : H256) (idx : ℕ) (outputs : List Output) (db db' : Utxo)
      → Agree p db db'
      → p hash ≡ true
      → all (contains db) (output_coins hash idx outputs)
        ≡ all (contains db') (output_coins hash idx outputs)
  unfolding output_coins contains
  contains-Agree hash idx [] db db' a e = refl
  contains-Agree hash idx (o ∷ outputs) db db' a e =
      ground (arith, a (coin_of hash idx) e, contains-Agree hash (idx + 1) outputs db db' a e)

  add-Agree :
      (address_of : List ℕ → Address) (t : Transaction) (hash : H256) (db db' : Utxo)
      → Agree p db db'
      → all p (input_hashes t.input) ≡ true
      → Agree p (add_transaction address_of db t hash).0 (add_transaction address_of db' t hash).0
  unfolding add_transaction is_accepted
  add-Agree address_of t hash db db' a e =
      let same : is_accepted address_of db t ≡ is_accepted address_of db' t =
        rw (check_inputs-Agree [] t.input db db' a e, is_accepted) refl in
      elim (Bool-cases (is_accepted address_of db' t)) [
        | inl good ↦ λ c h. ground (
          arith,
          same,
          good,
          put_outputs-Agree hash 0 t.output (delete_coins (input_coins t.input) db)
              (delete_coins (input_coins t.input) db')
              (delete_coins-Agree (input_coins t.input) db db' a) c h,
        )
        | inr bad ↦ λ c h. ground (arith, same, bad, a c h)
      ]

  remove-Agree :
      (t : Transaction) (hash : H256) (db db' : Utxo)
      → Agree p db db'
      → p hash ≡ true
      → Agree p (remove_transaction db t hash).0 (remove_transaction db' t hash).0
  unfolding remove_transaction
  remove-Agree t hash db db' a e =
      let ids = output_coins hash 0 t.output in
      let same = contains-Agree hash 0 t.output db db' a e in
      elim (Bool-cases (all (contains db') ids)) [
        | inl good ↦ λ c h. ground (
          arith,
          same,
          good,
          put_inputs-Agree t.input (delete_coins ids db) (delete_coins ids db')
              (delete_coins-Agree ids db db' a) c h,
        )
        | inr bad ↦ λ c h. ground (arith, same, bad, a c h)
      ]

  -- A job does the same to databases that agree on the coins that it touches, and on more.
  pub process-Agree :
      (address_of : List ℕ → Address) (j : Job) (db db' : Utxo)
      → Agree p db db'
      → ((x : H256) → elem x (touched j) ≡ true → p x ≡ true)
      → Agree p (process address_of j db).0 (process address_of j db').0
  unfolding process
  process-Agree address_of j db db' a e =
      let touches = elem-touched j in
      let own : p j.hash ≡ true = e j.hash (ground (arith, touches j.hash)) in
      let inputs : all p (input_hashes j.transaction.input) ≡ true =
        all-of-elem p (input_hashes j.transaction.input)
          (λ x k. e x (ground (arith, k, touches x))) in
      elim (Bool-cases j.add) [
        | inl yes_add ↦ rw yes_add (add-Agree address_of j.transaction j.hash db db' a inputs)
        | inr no_add ↦ rw no_add (remove-Agree j.transaction j.hash db db' a own)
      ]

-- What is not touched stays.
put_outputs-outside :
    (c : CoinId) (hash : H256) (idx : ℕ) (outputs : List Output) (db : Utxo)
    → nat_beq hash c.hash ≡ false
    → lookup c (put_outputs hash idx outputs db) ≡ lookup c db
unfolding put_outputs
put_outputs-outside c hash idx [] db e = refl
put_outputs-outside c hash idx (o ∷ outputs) db e = ground (
  arith,
  e,
  put_outputs-outside c hash (idx + 1) outputs (insert (coin_of hash idx) o db),
  lookup-insert (coin_of hash idx) c o db,
)

put_inputs-outside :
    (c : CoinId) (inputs : List Input) (db : Utxo)
    → elem c.hash (input_hashes inputs) ≡ false
    → lookup c (put_inputs inputs db) ≡ lookup c db
unfolding put_inputs elem
put_inputs-outside c [] db e = refl
put_inputs-outside c (i ∷ inputs) db e = ground (
  arith,
  e,
  put_inputs-outside c inputs (insert i.coin (restored i) db),
  lookup-insert i.coin c (restored i) db,
)

elem-input_coins :
    (c : CoinId) (inputs : List Input)
    → elem c.hash (input_hashes inputs) ≡ false
    → elem c (input_coins inputs) ≡ false
unfolding elem
elem-input_coins c [] e = refl
elem-input_coins c (i ∷ inputs) e = ground (arith, e, elem-input_coins c inputs)

elem-output_coins_outside :
    (c : CoinId) (hash : H256) (idx : ℕ) (outputs : List Output)
    → nat_beq hash c.hash ≡ false
    → elem c (output_coins hash idx outputs) ≡ false
unfolding elem output_coins
elem-output_coins_outside c hash idx [] e = refl
elem-output_coins_outside c hash idx (o ∷ outputs) e =
    ground (arith, e, elem-output_coins_outside c hash (idx + 1) outputs)

pub process-outside :
    (address_of : List ℕ → Address) (j : Job) (c : CoinId) (db : Utxo)
    → elem c.hash (touched j) ≡ false
    → lookup c (process address_of j db).0 ≡ lookup c db
unfolding process add_transaction remove_transaction
process-outside address_of j c db e =
    let touches = elem-touched j c.hash in
    let t = j.transaction in
    let ids = output_coins j.hash 0 t.output in
    let other : nat_beq j.hash c.hash ≡ false = ground (arith, touches, e) in
    let away : elem c.hash (input_hashes t.input) ≡ false = ground (arith, touches, e) in
    ground (
      arith,
      put_outputs-outside c j.hash 0 t.output (delete_coins (input_coins t.input) db) other,
      lookup-delete_coins c (input_coins t.input) db,
      elem-input_coins c t.input away,
      put_inputs-outside c t.input (delete_coins ids db) away,
      lookup-delete_coins c ids db,
      elem-output_coins_outside c j.hash 0 t.output other,
    )
