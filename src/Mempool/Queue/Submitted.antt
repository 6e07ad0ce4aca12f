-- ===== src/Mempool/Queue/Submitted.antt =====
-- A transaction that comes in.
use prism_rust_vivek.Prelude.{
  ℕ, ◌+◌, ◌<◌, ◌^◌, ◌≡◌, refl, sym, ap, Bool, true, false, not, ◌&&◌, ◌||◌, none, some, List, [],
  ◌∷◌, ◌++◌, Table, lookup, insert, lookup-insert, HasDistinctKeys, any, length, length-append, ltb,
  nat_eq, nat_beq, arith, Bool-cases, Option-cases, inl, inr,
}
use mathlib.Core.Path.{subst}
use prism_rust_vivek.Crypto.{H256}
use prism_rust_vivek.Ledger.Transaction.{Transaction, input_eq}
use prism_rust_vivek.Mempool.{
  MemoryPool, Entry, get_all, contains, is_double_spend, insert_transaction, new_transaction,
}
use prism_rust_vivek.Mempool.Order.{btree_insert-append}
use prism_rust_vivek.Mempool.Valid.{IsValid, index_free, new_transaction-IsValid}
use prism_rust_vivek.Mempool.Queue.Listed.{get_all-append, cons-get_all, get_all-insert}
use prism_rust_vivek.Mempool.Queue.{Represents, has_hash, spends, submit}
use prism_rust_vivek.Mempool.Queue.Agree.{has_hash-contains, double_spend, length_queue}

lookup-append_none :
    (i k : ℕ) (h : H256) (m : Table ℕ H256)
    → nat_beq k i ≡ false
    → lookup i m ≡ none
    → lookup i (m ++ (k, h) ∷ []) ≡ none
unfolding lookup
lookup-append_none i k h [] differ e = ground (arith, differ)
lookup-append_none i k h ((a, b) ∷ m) differ e =
    ground (arith, differ, e, lookup-append_none i k h m)

append-HasDistinctKeys :
    (k : ℕ) (h : H256) (m : Table ℕ H256)
    → HasDistinctKeys m
    → lookup k m ≡ none
    → HasDistinctKeys (m ++ (k, h) ∷ [])
unfolding lookup
append-HasDistinctKeys k h [] d fresh = (refl, tt)
append-HasDistinctKeys k h ((j, g) ∷ m) (first, d) fresh =
    let differ : nat_beq k j ≡ false = ground (arith, fresh) in
    let later : lookup k m ≡ none = ground (arith, fresh, differ) in
    (lookup-append_none j k h m differ first, append-HasDistinctKeys k h m d later)

module _ (tx_hash : Transaction → H256) (p : MemoryPool) (q : List Transaction)
    (r : Represents tx_hash p q) where
  module _ (tx : Transaction) (counts : p.counter + 1 < 2 ^ 64)
      (limit : p.max_transactions + 1 < 2 ^ 64) where
    abbrev taken : MemoryPool
    taken = new_transaction tx_hash p tx

    abbrev refused : Bool
    refused = has_hash tx_hash (tx_hash tx) q || any (λ x. spends tx_hash x q) tx.input

    refused_by_pool :
        (not (contains p (tx_hash tx)) && not (is_double_spend p tx.input)) ≡ not refused
    refused_by_pool =
        ground
          (arith, has_hash-contains tx_hash p q r (tx_hash tx), double_spend tx_hash p q r tx.input)

    taken-IsValid : IsValid tx_hash taken
    taken-IsValid = new_transaction-IsValid tx_hash p tx r.valid counts limit

    -- The pool has a new entry.
    module _ (accepted : refused ≡ false)
        (room : ltb p.max_transactions p.num_transactions ≡ false) where
      abbrev entry : Entry
      entry = record { transaction = tx; storage_index = p.counter }

      unseen : lookup (tx_hash tx) p.by_hash ≡ none
      unseen = elim (Option-cases (lookup (tx_hash tx) p.by_hash)) [
        | inl absent ↦ absent
        | inr (e, there) ↦
            let seen : contains p (tx_hash tx) ≡ true = unfold contains in ground (arith, there) in
            absurd (ground (arith, accepted, seen, has_hash-contains tx_hash p q r (tx_hash tx)))
      ]

      index : taken.by_storage_index ≡ p.by_storage_index ++ (p.counter, tx_hash tx) ∷ []
      unfolding new_transaction insert_transaction
      index =
          rw (refused_by_pool, accepted, room)
            (btree_insert-append p.counter (tx_hash tx) p.by_storage_index r.valid.below)

      entries : taken.by_hash ≡ insert (tx_hash tx) entry p.by_hash
      unfolding new_transaction insert_transaction
      entries = rw (refused_by_pool, accepted, room) refl

      number : taken.num_transactions ≡ p.num_transactions + 1
      unfolding new_transaction insert_transaction
      number = rw (refused_by_pool, accepted, room) (ground (arith, room))

      taken-listed : get_all taken taken.by_storage_index ≡ some (q ++ tx ∷ [])
      unfolding get_all
      taken-listed =
          let old =
            get_all-insert p taken (tx_hash tx) entry p.by_storage_index q entries unseen
              r.listed in
          let there : lookup (tx_hash tx) taken.by_hash ≡ some entry =
            rw entries (ground (arith, lookup-insert (tx_hash tx) (tx_hash tx) entry p.by_hash)) in
          let one = cons-get_all taken p.counter (tx_hash tx) [] entry [] there refl in
          rw index (
            get_all-append taken p.by_storage_index ((p.counter, tx_hash tx) ∷ []) q (tx ∷ []) old
              one)

      taken-Represents : Represents tx_hash taken (q ++ tx ∷ [])
      taken-Represents = record {
        valid = taken-IsValid;
        distinct = rw index (
            append-HasDistinctKeys p.counter (tx_hash tx) p.by_storage_index r.distinct
              (index_free p.counter p.by_storage_index r.valid.below));
        listed = taken-listed;
        size = omega (
          arith,
          number,
          r.size,
          ap length index,
          length-append p.by_storage_index ((p.counter, tx_hash tx) ∷ []),
        );
      }

    unchanged : taken ≡ p → Represents tx_hash taken q
    unchanged e = subst (λ (x : MemoryPool). Represents tx_hash x q) (sym e) r

    pub submit-Represents : Represents tx_hash taken (submit tx_hash p.max_transactions tx q)
    submit-Represents = elim (Bool-cases refused) [
      | inl out ↦
          let same : taken ≡ p = unfold new_transaction in rw (refused_by_pool, out) refl in
          rw out (unchanged same)
      | inr accepted ↦ elim (Bool-cases (ltb p.max_transactions p.num_transactions)) [
        | inl full ↦
            let same : taken ≡ p =
              unfold new_transaction insert_transaction in
              rw (refused_by_pool, accepted, full) refl in
            rw (accepted, length_queue tx_hash p q r, full) (unchanged same)
        | inr room ↦
            rw (accepted, length_queue tx_hash p q r, room) (taken-Represents accepted room)
      ]
    ]
