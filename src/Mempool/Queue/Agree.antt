-- ===== src/Mempool/Queue/Agree.antt =====
-- What the pool's tests find is what the tests on the queue find.
use prism_rust_vivek.Prelude.{
  ℕ, ◌≡◌, refl, sym, ap, ◌∙◌, Bool, true, some, List, [], ◌∷◌, lookup, any, length, take, elem,
  contains_key, nat_eq, nat_beq, ◌==◌, arith, Bool-cases, Option-cases, inl, inr,
}
use prism_rust_vivek.Crypto.{H256}
use prism_rust_vivek.Ledger.Transaction.{Input, Transaction, input_eq}
use prism_rust_vivek.Mempool.{MemoryPool, get_transactions, contains, is_double_spend}
use prism_rust_vivek.Mempool.Queue.Listed.{get_all-take, length-get_all, any-get_all, get_all-any}
use prism_rust_vivek.Mempool.Queue.{Represents, has_hash, spends}

any-same :
    (f g : Input → Bool) (inputs : List Input)
    → ((x : Input) → f x ≡ g x)
    → any f inputs ≡ any g inputs
any-same f g [] e = refl
any-same f g (x ∷ inputs) e = ground (arith, e x, any-same f g inputs e)

module _ (tx_hash : Transaction → H256) (p : MemoryPool) (q : List Transaction)
    (r : Represents tx_hash p q) where
  pub has_hash-contains : (h : H256) → has_hash tx_hash h q ≡ contains p h
  unfolding contains
  has_hash-contains h = elim (Bool-cases (has_hash tx_hash h q)) [
    | inl there ↦
        let (k, e, found, same) =
          any-get_all p (λ t. tx_hash t == h) p.by_storage_index q r.listed there in
        ground (
          arith,
          there,
          found,
          same,
          r.valid.hashed k e found,
          ap (λ (x : H256). lookup x p.by_hash),
        )
    | inr absent ↦ elim (Option-cases (lookup h p.by_hash)) [
      | inl none_there ↦ ground (arith, absent, none_there)
      | inr (e, found) ↦
          let own : nat_beq (tx_hash e.transaction) h ≡ true =
            ground (arith, r.valid.hashed h e found) in
          absurd (
            cc (
              absent,
              get_all-any p (λ t. tx_hash t == h) p.by_storage_index q e.storage_index h e r.listed
                  (r.valid.indexed h e found) found own,
            ))
    ]
  ]

  spends-recorded : (x : Input) → spends tx_hash x q ≡ contains_key x p.by_input
  spends-recorded x = elim (Bool-cases (spends tx_hash x q)) [
    | inl there ↦
        let (k, e, found, same) =
          any-get_all p (λ t. elem x t.input) p.by_storage_index q r.listed there in
        let spent = r.valid.recorded k e x found same in ground (arith, there, spent)
    | inr absent ↦ elim (Option-cases (lookup x p.by_input)) [
      | inl none_there ↦ ground (arith, absent, none_there)
      | inr (h, spent) ↦
          let (e, found, own) = r.valid.input_entry x h spent in
          absurd (
            cc (
              absent,
              get_all-any p (λ t. elem x t.input) p.by_storage_index q e.storage_index h e r.listed
                  (r.valid.indexed h e found) found own,
            ))
    ]
  ]

  pub double_spend :
      (inputs : List Input) → any (λ x. spends tx_hash x q) inputs ≡ is_double_spend p inputs
  unfolding is_double_spend
  double_spend inputs =
      any-same (λ x. spends tx_hash x q) (λ x. contains_key x p.by_input) inputs spends-recorded

  pub length_queue : length q ≡ p.num_transactions
  length_queue = length-get_all p p.by_storage_index q r.listed ∙ sym r.size

  -- What `get_transactions` gives is the front of the queue.
  pub get_transactions-take : (n : ℕ) → get_transactions p n ≡ some (take n q)
  unfolding get_transactions
  get_transactions-take n = get_all-take p n p.by_storage_index q r.listed
