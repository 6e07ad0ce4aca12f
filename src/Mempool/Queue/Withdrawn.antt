-- ===== src/Mempool/Queue/Withdrawn.antt =====
-- A transaction that is removed by its hash.
use prism_rust_vivek.Prelude.{
  ℕ, ◌+◌, ◌<◌, ◌^◌, ◌≡◌, refl, ap, ◌∙◌, false, some, List, [], ◌∷◌, Table, lookup, remove,
  HasDistinctKeys, remove-HasDistinctKeys, total-remove, length-eq-total, All, nat_eq, nat_beq,
  nat_beq_iff, arith, Bool-cases, Option-cases, inl, inr,
}
use prism_rust_vivek.Crypto.{H256}
use prism_rust_vivek.Ledger.Transaction.{Transaction, input_eq}
use prism_rust_vivek.Mempool.{MemoryPool, Entry, contains, remove_by_hash}
use prism_rust_vivek.Mempool.Removal.{
  remove_by_hash_there, remove_by_hash_absent, shrunk, shrunk-IsValid,
}
use prism_rust_vivek.Mempool.Queue.Listed.{get_all-remove}
use prism_rust_vivek.Mempool.Queue.{Represents, has_hash, withdraw}
use prism_rust_vivek.Mempool.Queue.Agree.{has_hash-contains}

All-of-lookup :
    (P : ℕ × H256 → Type 0) (m : Table ℕ H256)
    → HasDistinctKeys m
    → ((i : ℕ) (h : H256) → lookup i m ≡ some h → P (i, h))
    → All P m
unfolding lookup
All-of-lookup P [] d f = tt
All-of-lookup P ((j, g) ∷ m) (first, d) f = (
  f j g (ground arith),
  All-of-lookup P m d (λ i h e. f i h (ground (arith, e, first, ap (λ (x : ℕ). lookup x m)))),
)

module _ (tx_hash : Transaction → H256) (p : MemoryPool) (q : List Transaction)
    (r : Represents tx_hash p q) where
  -- The entry of a hash goes, at its place of the index.
  module _ (h : H256) (limit : p.max_transactions + 1 < 2 ^ 64) (e : Entry)
      (there : lookup h p.by_hash ≡ some e) where
    abbrev left : MemoryPool
    left = shrunk tx_hash r.valid h e there limit

    at_index :
        (i : ℕ) (k : H256)
        → lookup i p.by_storage_index ≡ some k
        → nat_beq h k ≡ nat_beq i e.storage_index
    at_index i k at =
        let (a, found, own) = r.valid.index_entry i k at in
        let known = r.valid.indexed h e there in
        elim (Bool-cases (nat_beq h k)) [
          | inl same ↦
              let it : a ≡ e =
                cc (
                  found,
                  there,
                  ap (λ (x : H256). lookup x p.by_hash) ((nat_beq_iff h k).0 same),
                ) in
              ground (arith, same, own, ap (λ (x : Entry). x.storage_index) it)
          | inr other ↦ elim (Bool-cases (nat_beq i e.storage_index)) [
            | inr away ↦ ground (arith, other, away)
            | inl here ↦
                let it : k ≡ h = ground (
                  arith,
                  at,
                  known,
                  ap (λ (x : ℕ). lookup x p.by_storage_index)
                      ((nat_beq_iff i e.storage_index).0 here),
                ) in
                absurd (ground (arith, other, it))
          ]
        ]

    left-Represents : Represents tx_hash left (withdraw tx_hash h q)
    left-Represents = record {
      valid = shrunk-IsValid tx_hash r.valid h e there limit;
      distinct = remove-HasDistinctKeys e.storage_index p.by_storage_index r.distinct;
      listed =
          get_all-remove tx_hash p left h e.storage_index p.by_storage_index q refl r.valid.hashed
            (All-of-lookup (λ x. nat_beq h x.1 ≡ nat_beq x.0 e.storage_index) p.by_storage_index
              r.distinct at_index)
            r.listed;
      size = omega (
        arith,
        r.size,
        length-eq-total (remove e.storage_index p.by_storage_index),
        length-eq-total p.by_storage_index,
        total-remove (λ (a : H256). 1) e.storage_index h p.by_storage_index r.distinct
            (r.valid.indexed h e there),
      );
    }

  -- No transaction has a hash that the pool does not know.
  withdraw-absent :
      (h : H256) (list : List Transaction)
      → has_hash tx_hash h list ≡ false
      → withdraw tx_hash h list ≡ list
  withdraw-absent h [] e = refl
  withdraw-absent h (t ∷ list) e = ground (arith, e, withdraw-absent h list)

  pub withdraw-Represents :
      (h : H256)
      → p.max_transactions + 1 < 2 ^ 64
      → Represents tx_hash (remove_by_hash p h) (withdraw tx_hash h q)
  withdraw-Represents h limit = elim (Option-cases (lookup h p.by_hash)) [
    | inl absent ↦
        let unknown : contains p h ≡ false = unfold contains in ground (arith, absent) in
        rw
          (
            remove_by_hash_absent p h absent,
            withdraw-absent h q (has_hash-contains tx_hash p q r h ∙ unknown),
          )
          r
    | inr (e, there) ↦
        rw (remove_by_hash_there tx_hash r.valid h e there limit) (left-Represents h limit e there)
  ]
