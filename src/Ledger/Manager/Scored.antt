-- ===== src/Ledger/Manager/Scored.antt =====
-- What the scoreboard and the coins of the transactions in flight say of each other.
use prism_rust_vivek.Prelude.{
  ℕ, ◌+◌, ◌<◌, ◌≤◌, ◌≡◌, true, some, List, ◌++◌, All, count, lookup, elem, nat_eq, nat_beq,
}
use prism_rust_vivek.Crypto.{H256}
use prism_rust_vivek.Ledger.Manager.{LedgerState, touched}

-- how often a transaction is in flight: sent, worked on, applied, or waiting as a notification
abbrev pub in_flight : LedgerState → H256 → ℕ
in_flight s h =
    count (λ j. nat_beq j.hash h) s.working
    + count (λ j. nat_beq j.hash h) s.transaction_chan
    + count (λ k. nat_beq k h) s.applied
    + count (λ k. nat_beq k h) s.notification_chan

pub record IsScored (s : LedgerState) : Type 0 where
  -- the coins of a transaction include its own, and are on the scoreboard
  pub own : (h : H256) (ts : List H256) → lookup h s.transaction_coins ≡ some ts → elem h ts ≡ true
  pub marked :
      (h x : H256) (ts : List H256)
      → lookup h s.transaction_coins ≡ some ts
      → elem x ts ≡ true
      → elem x s.scoreboard ≡ true
  -- no two transactions have a coin in common
  pub apart :
      (h k x : H256) (ts us : List H256)
      → lookup h s.transaction_coins ≡ some ts
      → lookup k s.transaction_coins ≡ some us
      → elem x ts ≡ true
      → elem x us ≡ true
      → h ≡ k
  -- a transaction is in flight once, with its coins
  pub once : (h : H256) → in_flight s h ≤ 1
  pub known :
      (h : H256) → 0 < in_flight s h → (ts : List H256) × (lookup h s.transaction_coins ≡ some ts)
  pub touches :
      All
        (λ j. lookup j.hash s.transaction_coins ≡ some (touched j))
        (s.working ++ s.transaction_chan)
