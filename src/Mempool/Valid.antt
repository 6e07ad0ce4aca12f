-- ===== src/Mempool/Valid.antt =====
-- The invariant of the memory pool: its three tables describe the same transactions.
use prism_rust_vivek.Prelude.{
  ℕ, suc, ◌+◌, ◌%◌, ◌^◌, ◌<◌, ◌≤◌, ◌≡◌, refl, ap, true, none, some, [], ◌∷◌, Table, lookup, insert,
  remove, lookup-insert, lookup-empty, elem, All, length, HasDistinctKeys, insert-HasDistinctKeys,
  total-insert, total-remove, length-eq-total, nat_eq, nat_beq, arith, ltb, Bool-cases, inl, inr,
  not, ◌&&◌,
}
use prism_rust_vivek.Crypto.{H256}
use prism_rust_vivek.Ledger.Transaction.{Input, Transaction, input_eq}
use prism_rust_vivek.Mempool.{
  MemoryPool, Entry, new, btree_insert, insert_inputs, insert_transaction, new_transaction,
  contains, is_double_spend,
}
use prism_rust_vivek.Mempool.Order.{lookup-btree_insert, lookup-insert_inputs, any-elem}

pub record IsValid (tx_hash : Transaction → H256) (p : MemoryPool) : Type 0 where
  -- by-hash storage: every entry is under its hash, at its own place of the index
  pub distinct : HasDistinctKeys p.by_hash
  pub size : p.num_transactions ≡ length p.by_hash
  -- the pool holds one transaction more than its limit at most
  pub fits : p.num_transactions ≤ p.max_transactions + 1
  pub hashed : (h : H256) (e : Entry) → lookup h p.by_hash ≡ some e → tx_hash e.transaction ≡ h
  pub indexed :
      (h : H256) (e : Entry)
      → lookup h p.by_hash ≡ some e
      → lookup e.storage_index p.by_storage_index ≡ some h
  -- the index points to entries, below the counter
  pub below : All (λ e. e.0 < p.counter) p.by_storage_index
  pub index_entry :
      (i : ℕ) (h : H256)
      → lookup i p.by_storage_index ≡ some h
      → (e : Entry) × (lookup h p.by_hash ≡ some e) × (e.storage_index ≡ i)
  -- the inputs that are recorded are those of the entries
  pub input_entry :
      (x : Input) (h : H256)
      → lookup x p.by_input ≡ some h
      → (e : Entry) × (lookup h p.by_hash ≡ some e) × (elem x e.transaction.input ≡ true)
  pub recorded :
      (h : H256) (e : Entry) (x : Input)
      → lookup h p.by_hash ≡ some e
      → elem x e.transaction.input ≡ true
      → lookup x p.by_input ≡ some h

-- An index below the counter is free at the counter.
pub index_free : (k : ℕ) (m : Table ℕ H256) → All (λ e. e.0 < k) m → lookup k m ≡ none
unfolding lookup
index_free k [] h = refl
index_free k ((i, w) ∷ m) h = ground (arith, index_free k m h.1)

All-lt_suc : (k : ℕ) (m : Table ℕ H256) → All (λ e. e.0 < k) m → All (λ e. e.0 < k + 1) m
All-lt_suc k [] h = tt
All-lt_suc k (e ∷ m) h = (omega arith, All-lt_suc k m h.1)

All-btree_insert :
    (k : ℕ) (v : H256) (m : Table ℕ H256)
    → All (λ e. e.0 < k) m
    → All (λ e. e.0 < k + 1) (btree_insert k v m)
unfolding btree_insert
All-btree_insert k v [] h = (omega arith, tt)
All-btree_insert k v ((i, w) ∷ m) h = ground (arith, All-btree_insert k v m h.1, All-lt_suc k m h.1)

pub All-remove :
    (c k : ℕ) (m : Table ℕ H256) → All (λ e. e.0 < c) m → All (λ e. e.0 < c) (remove k m)
unfolding remove
All-remove c k [] h = tt
All-remove c k ((i, w) ∷ m) h = ground (arith, All-remove c k m h.1)

pub new-IsValid : (tx_hash : Transaction → H256) (limit : ℕ) → IsValid tx_hash (new limit)
new-IsValid tx_hash limit = record {
  distinct = tt;
  size = refl;
  fits = omega arith;
  hashed = λ h e q. cc (lookup-empty {V = Entry} h);
  indexed = λ h e q. cc (lookup-empty {V = Entry} h);
  below = tt;
  index_entry = λ i h q. absurd (cc (lookup-empty {V = H256} i));
  input_entry = λ x h q. absurd (cc (lookup-empty {V = H256} x));
  recorded = λ h e x q r. cc (lookup-empty {V = Entry} h);
}

module _ (tx_hash : Transaction → H256) {p : MemoryPool} (v : IsValid tx_hash p) where
  length-insert_new :
      (h : H256) (e : Entry)
      → lookup h p.by_hash ≡ none
      → length (insert h e p.by_hash) ≡ suc (length p.by_hash)
  length-insert_new h e fresh = omega (
    arith,
    length-eq-total (insert h e p.by_hash),
    length-eq-total p.by_hash,
    total-insert (λ (a : Entry). 1) h e p.by_hash fresh,
  )

  pub length-remove_old :
      (h : H256) (e : Entry)
      → lookup h p.by_hash ≡ some e
      → length (remove h p.by_hash) + 1 ≡ length p.by_hash
  length-remove_old h e there = omega (
    arith,
    length-eq-total (remove h p.by_hash),
    length-eq-total p.by_hash,
    total-remove (λ (a : Entry). 1) h e p.by_hash v.distinct there,
  )

  -- A transaction with a new hash and no input that is recorded.
  module _ (tx : Transaction) (fresh : lookup (tx_hash tx) p.by_hash ≡ none)
      (unspent : (x : Input) → elem x tx.input ≡ true → lookup x p.by_input ≡ none)
      (counts : p.counter + 1 < 2 ^ 64) (limit : p.max_transactions + 1 < 2 ^ 64) where
    abbrev entry : Entry
    entry = record { transaction = tx; storage_index = p.counter }

    abbrev grown : MemoryPool
    grown = record p {
      num_transactions = p.num_transactions + 1;
      counter = p.counter + 1;
      by_hash = insert (tx_hash tx) entry p.by_hash;
      by_input = insert_inputs (tx_hash tx) tx.input p.by_input;
      by_storage_index = btree_insert p.counter (tx_hash tx) p.by_storage_index;
    }

    grown-hashed :
        (h : H256) (e : Entry) → lookup h grown.by_hash ≡ some e → tx_hash e.transaction ≡ h
    grown-hashed h e q = ground (arith, lookup-insert (tx_hash tx) h entry p.by_hash, v.hashed h e)

    grown-indexed :
        (h : H256) (e : Entry)
        → lookup h grown.by_hash ≡ some e
        → lookup e.storage_index grown.by_storage_index ≡ some h
    grown-indexed h e q = ground (
      arith,
      lookup-insert (tx_hash tx) h entry p.by_hash,
      v.indexed h e,
      lookup-btree_insert p.counter e.storage_index (tx_hash tx) p.by_storage_index v.below,
      index_free p.counter p.by_storage_index v.below,
      ap (λ (i : ℕ). lookup i p.by_storage_index),
    )

    grown-index_entry :
        (i : ℕ) (h : H256)
        → lookup i grown.by_storage_index ≡ some h
        → (e : Entry) × (lookup h grown.by_hash ≡ some e) × (e.storage_index ≡ i)
    grown-index_entry i h q =
        let split = lookup-btree_insert p.counter i (tx_hash tx) p.by_storage_index v.below in
        elim (Bool-cases (nat_beq p.counter i)) [
          | inl here ↦ (
            entry,
            ground (arith, split, lookup-insert (tx_hash tx) h entry p.by_hash),
            ground arith,
          )
          | inr other ↦
              let (e, a, b) = v.index_entry i h (ground (arith, split)) in
              (e, ground (arith, lookup-insert (tx_hash tx) h entry p.by_hash), b)
        ]

    grown-input_entry :
        (x : Input) (h : H256)
        → lookup x grown.by_input ≡ some h
        → (e : Entry) × (lookup h grown.by_hash ≡ some e) × (elem x e.transaction.input ≡ true)
    grown-input_entry x h q =
        let split = lookup-insert_inputs (tx_hash tx) x tx.input p.by_input in
        elim (Bool-cases (elem x tx.input)) [
          | inl here ↦
              (entry, ground (arith, split, lookup-insert (tx_hash tx) h entry p.by_hash), here)
          | inr other ↦
              let (e, a, b) = v.input_entry x h (ground (arith, split)) in
              (e, ground (arith, lookup-insert (tx_hash tx) h entry p.by_hash), b)
        ]

    grown-recorded :
        (h : H256) (e : Entry) (x : Input)
        → lookup h grown.by_hash ≡ some e
        → elem x e.transaction.input ≡ true
        → lookup x grown.by_input ≡ some h
    grown-recorded h e x q r = ground (
      arith,
      lookup-insert (tx_hash tx) h entry p.by_hash,
      lookup-insert_inputs (tx_hash tx) x tx.input p.by_input,
      v.recorded h e x,
      unspent x,
    )

    grown-IsValid : p.num_transactions ≤ p.max_transactions → IsValid tx_hash grown
    grown-IsValid room = record {
      distinct = insert-HasDistinctKeys (tx_hash tx) entry p.by_hash v.distinct;
      size = omega (arith, v.size, length-insert_new (tx_hash tx) entry fresh);
      fits = omega arith;
      hashed = grown-hashed;
      indexed = grown-indexed;
      below = All-btree_insert p.counter (tx_hash tx) p.by_storage_index v.below;
      index_entry = grown-index_entry;
      input_entry = grown-input_entry;
      recorded = grown-recorded;
    }

    -- `insert` of such a transaction keeps the invariant.
    insert_transaction-IsValid : IsValid tx_hash (insert_transaction tx_hash p tx)
    unfolding insert_transaction
    insert_transaction-IsValid = elim (Bool-cases (ltb p.max_transactions p.num_transactions)) [
      | inl full ↦ rw full v
      | inr room ↦
          let a : (p.num_transactions + 1) % 2 ^ 64 ≡ p.num_transactions + 1 = ground arith in
          let b : (p.counter + 1) % 2 ^ 64 ≡ p.counter + 1 = ground arith in
          rw (room, a, b) (grown-IsValid (ground arith))
    ]

-- A transaction that a peer or the API hands in keeps the invariant, whatever it is: the handler
-- turns away known hashes and double spends. The counter and the limit are below 2 ^ 64 - 1.
pub new_transaction-IsValid :
    (tx_hash : Transaction → H256) (p : MemoryPool) (tx : Transaction)
    → IsValid tx_hash p
    → p.counter + 1 < 2 ^ 64
    → p.max_transactions + 1 < 2 ^ 64
    → IsValid tx_hash (new_transaction tx_hash p tx)
unfolding new_transaction
new_transaction-IsValid tx_hash p tx v c m =
    elim (Bool-cases (not (contains p (tx_hash tx)) && not (is_double_spend p tx.input))) [
      | inl good ↦ rw good (
          insert_transaction-IsValid tx_hash v tx (ground arith)
            (λ x e. any-elem p.by_input x tx.input (ground arith) e) c m)
      | inr bad ↦ rw bad v
    ]

-- A submission keeps the limit, and the counter grows by one at most.
pub new_transaction-room :
    (tx_hash : Transaction → H256) (p : MemoryPool) (t : Transaction)
    → let q = new_transaction tx_hash p t in
      (q.max_transactions ≡ p.max_transactions) × (q.counter ≤ p.counter + 1)
unfolding new_transaction insert_transaction
new_transaction-room tx_hash p t = ground arith
