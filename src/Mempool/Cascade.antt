-- ===== src/Mempool/Cascade.antt =====
-- `remove_by_input` ends, and takes out every transaction that depends on the input.
use prism_rust_vivek.Prelude.{
  ℕ, zero, suc, ◌+◌, ◌^◌, ◌<◌, ◌≡◌, ◌⊎◌, refl, ap, true, none, some, List, [], ◌∷◌, ◌++◌, lookup,
  remove, lookup-remove, elem, length, length-append, total, total-remove, if◌then◌else◌, nat_eq,
  nat_beq, arith, Bool-cases, inl, inr, Option-cases,
}
use prism_rust_vivek.Crypto.{H256}
use prism_rust_vivek.Ledger.Transaction.{Input, Output, Transaction, input_eq, input_beq_iff}
use prism_rust_vivek.Mempool.{
  MemoryPool, Entry, done, output_inputs, remove_queue, remove_by_input, queue_fuel,
}
use prism_rust_vivek.Mempool.Order.{lookup-remove_inputs}
use prism_rust_vivek.Mempool.Valid.{IsValid}
use prism_rust_vivek.Mempool.Removal.{shrunk, shrunk-IsValid, remove_and_get_lem}

length-output_inputs :
    (h : H256) (idx : ℕ) (outputs : List Output)
    → length (output_inputs h idx outputs) ≡ length outputs
unfolding output_inputs
length-output_inputs h idx [] = refl
length-output_inputs h idx (o ∷ outputs) = ap suc (length-output_inputs h (idx + 1) outputs)

elem-append :
    (x : Input) (a b : List Input) → elem x (a ++ b) ≡ (if elem x a then true else elem x b)
unfolding elem
elem-append x [] b = refl
elem-append x (y ∷ a) b = ground (arith, elem-append x a b)

-- No transaction spends the input, or the input waits in the queue.
abbrev Pending : MemoryPool → List Input → Input → Type 0
Pending p queue x = (lookup x p.by_input ≡ none) ⊎ (elem x queue ≡ true)

-- What holds between rounds, for the pool `start` and the input `first` of the call.
record Sweeps (start : MemoryPool) (first : Input) (queue : List Input) (p : MemoryPool)
    : Type 0 where
  subset : (h : H256) (e : Entry) → lookup h p.by_hash ≡ some e → lookup h start.by_hash ≡ some e
  asked : Pending p queue first
  taken :
      (h : H256) (e : Entry) (x : Input)
      → lookup h start.by_hash ≡ some e
      → lookup h p.by_hash ≡ none
      → elem x (output_inputs h 0 e.transaction.output) ≡ true
      → Pending p queue x

-- What the call leaves: a valid pool, within the first, where nothing spends the input or an output
-- of a transaction that was taken out.
pub record IsSwept (tx_hash : Transaction → H256) (start : MemoryPool) (first : Input)
    (q : MemoryPool) : Type 0 where
  pub valid : IsValid tx_hash q
  pub subset :
      (h : H256) (e : Entry) → lookup h q.by_hash ≡ some e → lookup h start.by_hash ≡ some e
  pub asked : lookup first q.by_input ≡ none
  pub taken :
      (h : H256) (e : Entry) (x : Input)
      → lookup h start.by_hash ≡ some e
      → lookup h q.by_hash ≡ none
      → elem x (output_inputs h 0 e.transaction.output) ≡ true
      → lookup x q.by_input ≡ none

abbrev weight : Entry → ℕ
weight e = length e.transaction.output

module _ (tx_hash : Transaction → H256) (start : MemoryPool) (first : Input) where
  -- A round that finds nothing drops the input.
  skip :
      (x : Input) (queue : List Input) (p : MemoryPool)
      → lookup x p.by_input ≡ none
      → Sweeps start first (x ∷ queue) p
      → Sweeps start first queue p
  unfolding elem
  skip x queue p free s = record {
    subset = s.subset;
    asked = drop_head first s.asked;
    taken = λ h e y a b c. drop_head y (s.taken h e y a b c);
  }
    where
      drop_head : (y : Input) → Pending p (x ∷ queue) y → Pending p queue y
      drop_head y (inl gone) = inl gone
      drop_head y (inr waits) =
          ground (arith, input_beq_iff x y, ap (λ (z : Input). lookup z p.by_input))

  module _ (x : Input) (queue : List Input) {p : MemoryPool} (v : IsValid tx_hash p) (h : H256)
      (e : Entry) (there : lookup h p.by_hash ≡ some e) (uses : elem x e.transaction.input ≡ true)
      (limit : p.max_transactions + 1 < 2 ^ 64) where
    -- An input that was pending still is: it is recorded no more, or it is queued.
    still-Pending :
        (y : Input)
        → Pending p (x ∷ queue) y
        → Pending
            (shrunk tx_hash v h e there limit)
            (queue ++ output_inputs h 0 e.transaction.output)
            y
    unfolding elem
    still-Pending y (inl gone) =
        inl (ground (arith, lookup-remove_inputs y e.transaction.input p.by_input))
    still-Pending y (inr waits) = elim (Bool-cases (input_eq.beq x y)) [
      | inl same ↦ inl (
          ground (
            arith,
            lookup-remove_inputs y e.transaction.input p.by_input,
            input_beq_iff x y,
            ap (λ (z : Input). elem z e.transaction.input),
          ))
      | inr other ↦
          inr (ground (arith, elem-append y queue (output_inputs h 0 e.transaction.output)))
    ]

    just_taken :
        (k : H256) (a : Entry) (y : Input)
        → Sweeps start first (x ∷ queue) p
        → lookup k start.by_hash ≡ some a
        → lookup k (remove h p.by_hash) ≡ none
        → elem y (output_inputs k 0 a.transaction.output) ≡ true
        → Pending
            (shrunk tx_hash v h e there limit)
            (queue ++ output_inputs h 0 e.transaction.output)
            y
    just_taken k a y s b c d = elim (Bool-cases (nat_beq h k)) [
      | inl same ↦ inr (
          ground (
            arith,
            elem-append y queue (output_inputs h 0 e.transaction.output),
            s.subset h e there,
            ap (λ (j : H256). lookup j start.by_hash),
            ap (λ (j : H256). elem y (output_inputs j 0 a.transaction.output)),
          ))
      | inr other ↦
          still-Pending y (s.taken k a y b (ground (arith, lookup-remove h k p.by_hash)) d)
    ]

    -- A round that finds a transaction takes it out, and queues its outputs.
    take_out :
        Sweeps start first (x ∷ queue) p
        → Sweeps start first
            (queue ++ output_inputs h 0 e.transaction.output)
            (shrunk tx_hash v h e there limit)
    take_out s = record {
      subset = λ k a q. s.subset k a (ground (arith, lookup-remove h k p.by_hash));
      asked = still-Pending first s.asked;
      taken = λ k a y b c d. just_taken k a y s b c d;
    }

    lighter :
        length (queue ++ output_inputs h 0 e.transaction.output) + total weight (remove h p.by_hash)
        ≡ length queue + total weight p.by_hash
    lighter = omega (
      arith,
      length-append queue (output_inputs h 0 e.transaction.output),
      length-output_inputs h 0 e.transaction.output,
      total-remove weight h e p.by_hash v.distinct there,
    )

  finish :
      (q : MemoryPool) → IsValid tx_hash q → Sweeps start first [] q → IsSwept tx_hash start first q
  unfolding elem
  finish q v s = record {
    valid = v;
    subset = s.subset;
    asked = settled first s.asked;
    taken = λ h e x a b c. settled x (s.taken h e x a b c);
  }
    where
      settled : (y : Input) → Pending q [] y → lookup y q.by_input ≡ none
      settled y (inl gone) = gone
      settled y (inr waits) = cc

  remove_queue_total :
      (fuel : ℕ) (queue : List Input) (p : MemoryPool)
      → IsValid tx_hash p
      → p.max_transactions + 1 < 2 ^ 64
      → length queue + total weight p.by_hash < fuel
      → Sweeps start first queue p
      → (q : MemoryPool) × (remove_queue fuel queue p ≡ done q) × IsSwept tx_hash start first q
  unfolding remove_queue
  remove_queue_total zero queue p v limit enough s = elim enough [ ]
  remove_queue_total (suc fuel) [] p v limit enough s = (p, refl, finish p v s)
  remove_queue_total (suc fuel) (x ∷ queue) p v limit enough s =
      elim (Option-cases (lookup x p.by_input)) [
        | inl free ↦
            let (q, run, swept) =
              remove_queue_total fuel queue p v limit (omega arith) (skip x queue p free s) in
            (q, ground arith, swept)
        | inr (h, found) ↦
            let (e, there, uses) = v.input_entry x h found in
            let (q, run, swept) =
              remove_queue_total fuel (queue ++ output_inputs h 0 e.transaction.output)
                (shrunk tx_hash v h e there limit) (shrunk-IsValid tx_hash v h e there limit) limit
                (omega (arith, lighter x queue v h e there uses limit))
                (take_out x queue v h e there uses limit s) in
            (q, ground (arith, remove_and_get_lem tx_hash v h e there limit), swept)
      ]

-- On a valid pool `remove_by_input` neither panics nor runs out of rounds. The pool that it leaves
-- is valid and within the old one; no transaction of it spends the input, and none spends an output
-- of a transaction that was taken out.
-- The limit of the pool is below 2 ^ 64 - 1.
pub remove_by_input-IsSwept :
    (tx_hash : Transaction → H256) (p : MemoryPool) (prevout : Input)
    → IsValid tx_hash p
    → p.max_transactions + 1 < 2 ^ 64
    → (q : MemoryPool) × (remove_by_input p prevout ≡ done q) × IsSwept tx_hash p prevout q
unfolding remove_by_input elem
remove_by_input-IsSwept tx_hash p prevout v limit =
    remove_queue_total tx_hash p prevout (queue_fuel p) (prevout ∷ []) p v limit (omega arith)
      (record {
        subset = λ h e q. q;
        asked = inr (ground (arith, input_beq_iff prevout prevout));
        taken = λ h e x a b c. absurd (cc (a, b));
      })
