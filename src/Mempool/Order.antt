-- ===== src/Mempool/Order.antt =====
-- What the writes to the three tables leave under a key, and the order of the storage index.
use prism_rust_vivek.Prelude.{
  ℕ, ◌<◌, ◌≡◌, refl, true, false, none, some, List, [], ◌∷◌, ◌++◌, Table, lookup, insert, remove,
  lookup-insert, lookup-remove, elem, All, any, contains_key, ◌==◌, if◌then◌else◌, nat_eq, arith,
}
use prism_rust_vivek.Crypto.{H256}
use prism_rust_vivek.Ledger.Transaction.{Input, input_eq, input_beq_iff}
use prism_rust_vivek.Mempool.{btree_insert, insert_inputs, remove_inputs}

pub lookup-btree_insert :
    (k j : ℕ) (v : H256) (m : Table ℕ H256)
    → All (λ e. e.0 < k) m
    → lookup j (btree_insert k v m) ≡ (if k == j then some v else lookup j m)
unfolding lookup btree_insert
lookup-btree_insert k j v [] h = refl
lookup-btree_insert k j v ((i, w) ∷ m) h = ground (arith, lookup-btree_insert k j v m h.1)

-- A key above all others goes to the end.
pub btree_insert-append :
    (k : ℕ) (v : H256) (m : Table ℕ H256)
    → All (λ e. e.0 < k) m
    → btree_insert k v m ≡ m ++ (k, v) ∷ []
unfolding btree_insert
btree_insert-append k v [] h = refl
btree_insert-append k v ((i, w) ∷ m) h = ground (arith, btree_insert-append k v m h.1)

pub lookup-insert_inputs :
    (hash : H256) (x : Input) (inputs : List Input) (m : Table Input H256)
    → lookup x (insert_inputs hash inputs m) ≡ (if elem x inputs then some hash else lookup x m)
unfolding insert_inputs elem
lookup-insert_inputs hash x [] m = refl
lookup-insert_inputs hash x (y ∷ inputs) m =
    ground (arith, lookup-insert_inputs hash x inputs (insert y hash m), lookup-insert y x hash m)

pub lookup-remove_inputs :
    (x : Input) (inputs : List Input) (m : Table Input H256)
    → lookup x (remove_inputs inputs m) ≡ (if elem x inputs then none else lookup x m)
unfolding remove_inputs elem
lookup-remove_inputs x [] m = refl
lookup-remove_inputs x (y ∷ inputs) m =
    ground (arith, lookup-remove_inputs x inputs (remove y m), lookup-remove y x m)

-- No input of a list is a key if the double-spend test fails.
pub any-elem :
    (m : Table Input H256) (x : Input) (inputs : List Input)
    → any (λ y. contains_key y m) inputs ≡ false
    → elem x inputs ≡ true
    → lookup x m ≡ none
unfolding elem
any-elem m x [] h e = cc
any-elem m x (y ∷ inputs) h e = ground (arith, any-elem m x inputs, input_beq_iff y x)
