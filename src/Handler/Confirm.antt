-- ===== src/Handler/Confirm.antt =====
-- The pool after the transactions of a block are confirmed.
use prism_rust_vivek.Prelude.{
  ℕ, zero, suc, ◌+◌, ◌<◌, ◌^◌, ◌≡◌, refl, sym, ap, ◌∙◌, none, some, List, [], ◌∷◌, ◌++◌, All,
  lookup, nat_eq, arith, Option-cases, inl, inr,
}
use prism_rust_vivek.Crypto.{H256}
use prism_rust_vivek.Ledger.Transaction.{Input, Transaction, input_eq}
use prism_rust_vivek.Mempool.{
  MemoryPool, Entry, done, panicked, remove_and_get, remove_by_hash, remove_by_input, remove_queue,
  output_inputs, queue_fuel,
}
use prism_rust_vivek.Mempool.Valid.{IsValid}
use prism_rust_vivek.Mempool.Removal.{remove_by_hash-IsValid}
use prism_rust_vivek.Mempool.Cascade.{remove_by_input-IsSwept}
use prism_rust_vivek.Handler.{remove_spenders, confirm}

-- A pool is left with a part of its transactions and its limit.
pub record Shrinks (tx_hash : Transaction → H256) (p q : MemoryPool) : Type 0 where
  pub valid : IsValid tx_hash q
  pub limit : q.max_transactions ≡ p.max_transactions
  pub subset : (h : H256) (e : Entry) → lookup h q.by_hash ≡ some e → lookup h p.by_hash ≡ some e

Shrinks-trans :
    (tx_hash : Transaction → H256) (p q r : MemoryPool)
    → Shrinks tx_hash p q
    → Shrinks tx_hash q r
    → Shrinks tx_hash p r
Shrinks-trans tx_hash p q r a b = record {
  valid = b.valid;
  limit = b.limit ∙ a.limit;
  subset = λ h e l. a.subset h e (b.subset h e l);
}

-- What is gone stays gone.
absent_hash :
    (tx_hash : Transaction → H256) (p q : MemoryPool) (h : H256)
    → Shrinks tx_hash p q
    → lookup h p.by_hash ≡ none
    → lookup h q.by_hash ≡ none
absent_hash tx_hash p q h s e = elim (Option-cases (lookup h q.by_hash)) [
  | inl gone ↦ gone
  | inr (x, there) ↦ absurd (cc (e, s.subset h x there))
]

absent_input :
    (tx_hash : Transaction → H256) (p q : MemoryPool) (x : Input)
    → IsValid tx_hash p
    → Shrinks tx_hash p q
    → lookup x p.by_input ≡ none
    → lookup x q.by_input ≡ none
absent_input tx_hash p q x v s e = elim (Option-cases (lookup x q.by_input)) [
  | inl gone ↦ gone
  | inr (h, spent) ↦
      let (entry, there, uses) = s.valid.input_entry x h spent in
      absurd (cc (e, v.recorded h entry x (s.subset h entry there) uses))
]

remove_and_get-limit :
    (p q : MemoryPool) (h : H256) (e : Entry)
    → remove_and_get p h ≡ some (q, e)
    → q.max_transactions ≡ p.max_transactions
unfolding remove_and_get
remove_and_get-limit p q h e run = elim (Option-cases (lookup h p.by_hash)) [
  | inl absent ↦ absurd (ground (arith, absent, run))
  | inr (x, there) ↦ ground (arith, there, run)
]

remove_by_hash-limit :
    (p : MemoryPool) (h : H256) → (remove_by_hash p h).max_transactions ≡ p.max_transactions
unfolding remove_by_hash remove_and_get
remove_by_hash-limit p h = elim (Option-cases (lookup h p.by_hash)) [
  | inl absent ↦ ground (arith, absent)
  | inr (x, there) ↦ ground (arith, there)
]

remove_queue-limit :
    (fuel : ℕ) (queue : List Input) (p q : MemoryPool)
    → remove_queue fuel queue p ≡ done q
    → q.max_transactions ≡ p.max_transactions
unfolding remove_queue
remove_queue-limit zero queue p q run = absurd (cc run)
remove_queue-limit (suc fuel) [] p q run =
    let same : p ≡ q = cc run in ap (λ (r : MemoryPool). r.max_transactions) (sym same)
remove_queue-limit (suc fuel) (x ∷ queue) p q run = elim (Option-cases (lookup x p.by_input)) [
  | inl absent ↦ remove_queue-limit fuel queue p q (rw (absent, remove_queue) at run)
  | inr (h, spent) ↦ elim (Option-cases (remove_and_get p h)) [
    | inl missing ↦
        absurd (let bad : panicked ≡ done q = rw (spent, missing, remove_queue) at run in cc bad)
    | inr ((r, e), taken) ↦
        let rest : remove_queue fuel (queue ++ output_inputs h 0 e.transaction.output) r ≡ done q =
          rw (spent, taken, remove_queue) at run in
        remove_queue-limit fuel (queue ++ output_inputs h 0 e.transaction.output) r q rest
        ∙ remove_and_get-limit p r h e taken
  ]
]

remove_by_input-limit :
    (p q : MemoryPool) (x : Input)
    → remove_by_input p x ≡ done q
    → q.max_transactions ≡ p.max_transactions
unfolding remove_by_input
remove_by_input-limit p q x run = remove_queue-limit (queue_fuel p) (x ∷ []) p q run

-- Nothing of the pool spends an input of the list.
abbrev pub Unspent : MemoryPool → List Input → Type 0
Unspent q inputs = All (λ x. lookup x q.by_input ≡ none) inputs

remove_spenders-Unspent :
    (tx_hash : Transaction → H256) (inputs : List Input) (p : MemoryPool)
    → IsValid tx_hash p
    → p.max_transactions + 1 < 2 ^ 64
    → (q : MemoryPool) × (remove_spenders inputs p ≡ done q)
      × Shrinks tx_hash p q
      × Unspent q inputs
unfolding remove_spenders
remove_spenders-Unspent tx_hash [] p v room =
    (p, refl, record { valid = v; limit = refl; subset = λ h e l. l }, tt)
remove_spenders-Unspent tx_hash (x ∷ inputs) p v room =
    let (q, run, s) = remove_by_input-IsSwept tx_hash p x v room in
    let same = remove_by_input-limit p q x run in
    let first : Shrinks tx_hash p q = record { valid = s.valid; limit = same; subset = s.subset } in
    let (r, run', s', u) = remove_spenders-Unspent tx_hash inputs q s.valid (omega (arith, same)) in
    (
      r,
      rw run run',
      Shrinks-trans tx_hash p q r first s',
      (absent_input tx_hash q r x s.valid s' s.asked, u),
    )

-- A confirmed transaction is gone, and so is whatever spends its inputs.
abbrev pub Confirmed : (Transaction → H256) → MemoryPool → List Transaction → Type 0
Confirmed tx_hash q transactions =
    All (λ t. (lookup (tx_hash t) q.by_hash ≡ none) × Unspent q t.input) transactions

All-Unspent :
    (tx_hash : Transaction → H256) (p q : MemoryPool) (inputs : List Input)
    → IsValid tx_hash p
    → Shrinks tx_hash p q
    → Unspent p inputs
    → Unspent q inputs
All-Unspent tx_hash p q [] v s u = tt
All-Unspent tx_hash p q (x ∷ inputs) v s (e, u) =
    (absent_input tx_hash p q x v s e, All-Unspent tx_hash p q inputs v s u)

-- `confirm` ends, on a pool in order, with a pool in order that is a part of it: no transaction of
-- the block is left in it, and no transaction that spends an input of one of them.
pub confirm-Confirmed :
    (tx_hash : Transaction → H256) (transactions : List Transaction) (p : MemoryPool)
    → IsValid tx_hash p
    → p.max_transactions + 1 < 2 ^ 64
    → (q : MemoryPool) × (confirm tx_hash transactions p ≡ done q)
      × Shrinks tx_hash p q
      × Confirmed tx_hash q transactions
unfolding confirm
confirm-Confirmed tx_hash [] p v room =
    (p, refl, record { valid = v; limit = refl; subset = λ h e l. l }, tt)
confirm-Confirmed tx_hash (t ∷ transactions) p v room =
    let r = remove_by_hash p (tx_hash t) in
    let (w, entries) = remove_by_hash-IsValid tx_hash p (tx_hash t) v room in
    let same = remove_by_hash-limit p (tx_hash t) in
    let first : Shrinks tx_hash p r = record {
      valid = w;
      limit = same;
      subset = λ h e l. ground (arith, entries h);
    } in
    let own_gone : lookup (tx_hash t) r.by_hash ≡ none = ground (arith, entries (tx_hash t)) in
    let (q, run, s, u) = remove_spenders-Unspent tx_hash t.input r w (omega (arith, same)) in
    let (z, run', s', c) =
      confirm-Confirmed tx_hash transactions q s.valid (omega (arith, same, s.limit)) in
    (
      z,
      rw run run',
      Shrinks-trans tx_hash p r z first (Shrinks-trans tx_hash r q z s s'),
      (
        (
          absent_hash tx_hash r z (tx_hash t) (Shrinks-trans tx_hash r q z s s') own_gone,
          All-Unspent tx_hash q z t.input s.valid s' u,
        ),
        c,
      ),
    )
