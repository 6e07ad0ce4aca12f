-- ===== src/Mempool/Removal.antt =====
-- `remove_and_get` keeps the invariant of the pool.
use prism_rust_vivek.Prelude.{
  ℕ, ◌+◌, ◌-◌, ◌%◌, ◌^◌, ◌<◌, ◌≡◌, ◌≢◌, ap, true, none, some, lookup, remove, lookup-remove, elem,
  remove-HasDistinctKeys, ◌==◌, if◌then◌else◌, nat_eq, arith, inl, inr, Option-cases,
}
use prism_rust_vivek.Crypto.{H256}
use prism_rust_vivek.Ledger.Transaction.{Input, Transaction, input_eq}
use prism_rust_vivek.Mempool.{MemoryPool, Entry, remove_inputs, remove_and_get, remove_by_hash}
use prism_rust_vivek.Mempool.Order.{lookup-remove_inputs}
use prism_rust_vivek.Mempool.Valid.{IsValid, length-remove_old, All-remove}

module _ (tx_hash : Transaction → H256) {p : MemoryPool} (v : IsValid tx_hash p) (h : H256)
    (e : Entry) (there : lookup h p.by_hash ≡ some e)
    (limit : p.max_transactions + 1 < 2 ^ 64) where
  abbrev pub shrunk : MemoryPool
  shrunk = record p {
    num_transactions = p.num_transactions - 1;
    by_hash = remove h p.by_hash;
    by_input = remove_inputs e.transaction.input p.by_input;
    by_storage_index = remove e.storage_index p.by_storage_index;
  }

  shrunk-entry :
      (k : H256) (a : Entry)
      → lookup k (remove h p.by_hash) ≡ some a
      → (lookup k p.by_hash ≡ some a) × (h ≢ k)
  shrunk-entry k a q = ground (arith, lookup-remove h k p.by_hash)

  -- Another entry has another place in the index.
  shrunk-indexed :
      (k : H256) (a : Entry)
      → lookup k (remove h p.by_hash) ≡ some a
      → lookup a.storage_index (remove e.storage_index p.by_storage_index) ≡ some k
  shrunk-indexed k a q =
      let (there_too, differ) = shrunk-entry k a q in
      ground (
        arith,
        lookup-remove e.storage_index a.storage_index p.by_storage_index,
        v.indexed k a there_too,
        v.indexed h e there,
        ap (λ (i : ℕ). lookup i p.by_storage_index),
      )

  shrunk-index_entry :
      (i : ℕ) (k : H256)
      → lookup i (remove e.storage_index p.by_storage_index) ≡ some k
      → (a : Entry) × (lookup k (remove h p.by_hash) ≡ some a) × (a.storage_index ≡ i)
  shrunk-index_entry i k q =
      let (a, b, c) =
        v.index_entry i k (ground (arith, lookup-remove e.storage_index i p.by_storage_index)) in
      (
        a,
        ground (
          arith,
          lookup-remove h k p.by_hash,
          lookup-remove e.storage_index i p.by_storage_index,
          ap (λ (j : H256). lookup j p.by_hash),
        ),
        c,
      )

  shrunk-input_entry :
      (x : Input) (k : H256)
      → lookup x (remove_inputs e.transaction.input p.by_input) ≡ some k
      → (a : Entry) × (lookup k (remove h p.by_hash) ≡ some a) × (elem x a.transaction.input ≡ true)
  shrunk-input_entry x k q =
      let split = lookup-remove_inputs x e.transaction.input p.by_input in
      let (a, b, c) = v.input_entry x k (ground (arith, split)) in
      (
        a,
        ground (arith, lookup-remove h k p.by_hash, split, ap (λ (j : H256). lookup j p.by_hash)),
        c,
      )

  shrunk-recorded :
      (k : H256) (a : Entry) (x : Input)
      → lookup k (remove h p.by_hash) ≡ some a
      → elem x a.transaction.input ≡ true
      → lookup x (remove_inputs e.transaction.input p.by_input) ≡ some k
  shrunk-recorded k a x q r =
      let (there_too, differ) = shrunk-entry k a q in
      ground (
        arith,
        lookup-remove_inputs x e.transaction.input p.by_input,
        v.recorded k a x there_too r,
        v.recorded h e x there,
      )

  pub shrunk-IsValid : IsValid tx_hash shrunk
  shrunk-IsValid = record {
    distinct = remove-HasDistinctKeys h p.by_hash v.distinct;
    size = omega (arith, v.size, length-remove_old tx_hash v h e there);
    fits = omega arith;
    hashed = λ k a q. v.hashed k a (shrunk-entry k a q).0;
    indexed = shrunk-indexed;
    below = All-remove p.counter e.storage_index p.by_storage_index v.below;
    index_entry = shrunk-index_entry;
    input_entry = shrunk-input_entry;
    recorded = shrunk-recorded;
  }

  -- Taking 1 from the counter does not wrap around.
  one_less : (p.num_transactions + 2 ^ 64 - 1) % 2 ^ 64 ≡ p.num_transactions - 1
  one_less = omega (arith, v.size, length-remove_old tx_hash v h e there, v.fits)

  pub remove_and_get_lem : remove_and_get p h ≡ some (shrunk, e)
  unfolding remove_and_get
  remove_and_get_lem = ground (arith, one_less)

  pub remove_by_hash_there : remove_by_hash p h ≡ shrunk
  unfolding remove_by_hash
  remove_by_hash_there = ground (arith, one_less)

pub remove_by_hash_absent :
    (p : MemoryPool) (h : H256) → lookup h p.by_hash ≡ none → remove_by_hash p h ≡ p
unfolding remove_by_hash
remove_by_hash_absent p h absent = ground arith

-- `remove_by_hash` keeps the invariant, and takes the entry of the hash and no other. The limit of the
-- pool is below 2 ^ 64 - 1.
pub remove_by_hash-IsValid :
    (tx_hash : Transaction → H256) (p : MemoryPool) (h : H256)
    → IsValid tx_hash p
    → p.max_transactions + 1 < 2 ^ 64
    → IsValid tx_hash (remove_by_hash p h)
      × ((k : H256)
          → lookup k (remove_by_hash p h).by_hash ≡ (if h == k then none else lookup k p.by_hash))
remove_by_hash-IsValid tx_hash p h v limit = elim (Option-cases (lookup h p.by_hash)) [
  | inl absent ↦
      rw (remove_by_hash_absent p h absent)
        (v, λ k. ground (arith, ap (λ (j : H256). lookup j p.by_hash)))
  | inr (e, there) ↦
      rw (remove_by_hash_there tx_hash v h e there limit)
        (shrunk-IsValid tx_hash v h e there limit, λ k. lookup-remove h k p.by_hash)
]
