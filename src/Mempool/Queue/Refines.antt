-- ===== src/Mempool/Queue/Refines.antt =====
-- Whatever happens to a pool, it gives what the specified queue has at its front.
use prism_rust_vivek.Prelude.{
  ℕ, ◌+◌, ◌<◌, ◌^◌, ◌≡◌, refl, ◌∙◌, some, List, [], ◌∷◌, lookup, length, take, nat_eq, arith,
  Option-cases, inl, inr,
}
use mathlib.Core.Path.{subst}
use prism_rust_vivek.Crypto.{H256}
use prism_rust_vivek.Ledger.Transaction.{Transaction, input_eq}
use prism_rust_vivek.Mempool.{
  MemoryPool, new, get_all, get_transactions, new_transaction, remove_by_hash, remove_and_get,
}
use prism_rust_vivek.Mempool.Valid.{new-IsValid, new_transaction-room}
use prism_rust_vivek.Mempool.Queue.{
  Represents, submit, withdraw, Operation, submitted, withdrawn, specified, performed,
}
use prism_rust_vivek.Mempool.Queue.Agree.{get_transactions-take}
use prism_rust_vivek.Mempool.Queue.Submitted.{submit-Represents}
use prism_rust_vivek.Mempool.Queue.Withdrawn.{withdraw-Represents}

remove_by_hash-room :
    (p : MemoryPool) (h : H256)
    → let r = remove_by_hash p h in
      (r.max_transactions ≡ p.max_transactions) × (r.counter ≡ p.counter)
unfolding remove_by_hash remove_and_get
remove_by_hash-room p h = elim (Option-cases (lookup h p.by_hash)) [
  | inl absent ↦ ground (arith, absent)
  | inr (x, there) ↦ ground (arith, there)
]

new-Represents : (tx_hash : Transaction → H256) (limit : ℕ) → Represents tx_hash (new limit) []
unfolding get_all
new-Represents tx_hash limit = record {
  valid = new-IsValid tx_hash limit;
  distinct = tt;
  listed = refl;
  size = refl;
}

performed-Represents :
    (tx_hash : Transaction → H256) (limit : ℕ) (ops : List Operation) (p : MemoryPool)
    (q : List Transaction)
    → Represents tx_hash p q
    → p.max_transactions ≡ limit
    → limit + 1 < 2 ^ 64
    → p.counter + length ops < 2 ^ 64
    → Represents tx_hash (performed tx_hash ops p) (specified tx_hash limit ops q)
performed-Represents tx_hash limit [] p q r same small counts = r
performed-Represents tx_hash limit (submitted tx ∷ ops) p q r same small counts =
    let (kept, grows) = new_transaction-room tx_hash p tx in
    let next =
      submit-Represents tx_hash p q r tx (omega (arith, counts)) (omega (arith, same, small)) in
    performed-Represents tx_hash limit ops (new_transaction tx_hash p tx)
      (submit tx_hash limit tx q)
      (subst (λ (k : ℕ). Represents tx_hash (new_transaction tx_hash p tx) (submit tx_hash k tx q))
        same next)
      (kept ∙ same) small (omega (arith, counts, grows))
performed-Represents tx_hash limit (withdrawn h ∷ ops) p q r same small counts =
    let (kept, stays) = remove_by_hash-room p h in
    performed-Represents tx_hash limit ops (remove_by_hash p h) (withdraw tx_hash h q)
      (withdraw-Represents tx_hash p q r h (omega (arith, same, small))) (kept ∙ same) small
      (omega (arith, counts, stays))

-- The pool is a queue. After any sequence of fewer than 2 ^ 64 submissions and removals, from an empty
-- pool, `get_transactions` does not panic and gives the first `n` transactions of the specified
-- queue: a submission is added at the end if its hash is new, none of its inputs is spent by a waiting
-- transaction, and no more than the limit are waiting; a removal takes the transactions of the hash
-- out. The limit is below 2 ^ 64 - 1.
pub get_transactions-performed :
    (tx_hash : Transaction → H256) (limit n : ℕ) (ops : List Operation)
    → limit + 1 < 2 ^ 64
    → length ops < 2 ^ 64
    → get_transactions (performed tx_hash ops (new limit)) n
      ≡ some (take n (specified tx_hash limit ops []))
get_transactions-performed tx_hash limit n ops small counts =
    get_transactions-take tx_hash (performed tx_hash ops (new limit))
      (specified tx_hash limit ops [])
      (performed-Represents tx_hash limit ops (new limit) [] (new-Represents tx_hash limit) refl
        small (omega (arith, counts)))
      n
