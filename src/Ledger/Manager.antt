-- ===== src/Ledger/Manager.antt =====
-- src/ledger_manager/mod.rs: the threads that bring confirmed transactions to the database of coins.
-- The dispatcher sends the transactions of each change of the ledger to the workers, and holds a
-- transaction back while one in flight touches the same coins. A step relation has the steps of the
-- dispatcher and of the workers, in any order; a channel is a list, and its receiver takes the head.
pub mod Frame
pub mod Commute
pub mod Scored
pub mod Finished
pub mod Dispatched
pub mod Kept
pub mod Serial
pub mod Panicking
mod Tests
use prism_rust_vivek.Prelude.{
  ℕ, ◌+◌, ◌*◌, ◌%◌, ◌^◌, ◌<◌, ◌≡◌, Bool, true, false, not, Option, none, some, List, [], ◌∷◌, ◌++◌,
  map, Table, lookup, insert, remove, elem, all, length, add_all, discard_all, if◌then◌else◌,
  nat_eq, ◌>>=◌,
}
use prism_rust_vivek.Crypto.{H256}
use prism_rust_vivek.Ledger.Transaction.{Input, Address, Transaction}
use prism_rust_vivek.Ledger.Utxo.{Utxo, Diff, add_transaction, remove_transaction}
use prism_rust_vivek.Block.{Block, Content, transaction, proposer, voter}
use prism_rust_vivek.Blockdb.{BlockDatabase, Bytes, get}

-- A message to the workers: whether to add or to remove, the transaction and its hash.
pub record Job : Type 0 where
  pub add : Bool
  pub transaction : Transaction
  pub hash : H256

-- The hashes of the transactions whose coins a job touches.
abbrev pub input_hashes : List Input → List H256
input_hashes inputs = map (λ i. i.coin.hash) inputs

abbrev pub touched : Job → List H256
touched j = add_all (j.hash ∷ input_hashes j.transaction.input) []

abbrev pub jobs_of : Bool → List (Transaction × H256) → List Job
jobs_of add txs = map (λ t. record { add = add; transaction = t.0; hash = t.1 }) txs

-- `removed_tx.drain(..).rev()`, and `added_tx.drain(..)`
abbrev pub reverse_onto : List Job → List Job → List Job
reverse_onto [] acc = acc
reverse_onto (j ∷ jobs) acc = reverse_onto jobs (j ∷ acc)

abbrev pub jobs_of_diff : List (Transaction × H256) × List (Transaction × H256) → List Job
jobs_of_diff (added_tx, removed_tx) =
    reverse_onto (jobs_of false removed_tx) [] ++ jobs_of true added_tx

pub record LedgerState : Type 0 where
  -- the dispatcher: what is left of the change, the head first; whether it drains the notifications
  pub jobs : List Job
  pub draining : Bool
  pub scoreboard : List H256
  pub transaction_coins : Table H256 (List H256)
  -- the channels, and what the workers hold: received, and applied but not yet notified
  pub transaction_chan : List Job
  pub working : List Job
  pub applied : List H256
  pub notification_chan : List H256
  pub coin_chan : List Diff
  pub utxodb : Utxo

abbrev pub started : Utxo → LedgerState
started db = record {
  jobs = [];
  draining = true;
  scoreboard = [];
  transaction_coins = [];
  transaction_chan = [];
  working = [];
  applied = [];
  notification_chan = [];
  coin_chan = [];
  utxodb = db;
}

-- A processed transaction is taken off the scoreboard; `none` is a failed `unwrap`.
unfoldable pub finish : H256 → LedgerState → Option LedgerState
finish processed s = do
  finished_coins ← lookup processed s.transaction_coins
  some (record s {
    scoreboard = discard_all finished_coins s.scoreboard;
    transaction_coins = remove processed s.transaction_coins;
  })

-- `is_disjoint`
abbrev pub is_disjoint : List H256 → List H256 → Bool
is_disjoint scoreboard hashes = all (λ h. not (elem h scoreboard)) hashes

-- the coins of the job are marked, and the job is sent
unfoldable pub dispatch : Job → List Job → LedgerState → LedgerState
dispatch j jobs s = record s {
  jobs = jobs;
  draining = true;
  scoreboard = add_all (touched j) s.scoreboard;
  transaction_coins = insert j.hash (touched j) s.transaction_coins;
  transaction_chan = s.transaction_chan ++ j ∷ [];
}

-- what a worker does with a job
unfoldable pub process : (List ℕ → Address) → Job → Utxo → Utxo × Diff
unfolding add_transaction remove_transaction
process address_of j db =
    if j.add
    then add_transaction address_of db j.transaction j.hash
    else remove_transaction db j.transaction j.hash

module _ (address_of : List ℕ → Address) (buffer_size num_workers : ℕ) where
  -- One step of a thread. `before` and `after` are the jobs around the one that a worker applies.
  pub data Step : LedgerState → LedgerState → Type 0 where
    -- `try_iter`: a notification, or the end of the loop
    drain_one :
        {s t : LedgerState} (j : Job) (jobs : List Job) (h : H256) (rest : List H256)
        → s.jobs ≡ j ∷ jobs
        → s.draining ≡ true
        → s.notification_chan ≡ h ∷ rest
        → finish h (record s { notification_chan = rest }) ≡ some t
        → Step s t
    drained :
        {s : LedgerState} (j : Job) (jobs : List Job)
        → s.jobs ≡ j ∷ jobs
        → s.draining ≡ true
        → s.notification_chan ≡ []
        → Step s (record s { draining = false })
    -- `while !scoreboard.is_disjoint(..)`
    wait_one :
        {s t : LedgerState} (j : Job) (jobs : List Job) (h : H256) (rest : List H256)
        → s.jobs ≡ j ∷ jobs
        → s.draining ≡ false
        → is_disjoint s.scoreboard (touched j) ≡ false
        → s.notification_chan ≡ h ∷ rest
        → finish h (record s { notification_chan = rest }) ≡ some t
        → Step s t
    dispatched :
        {s : LedgerState} (j : Job) (jobs : List Job)
        → s.jobs ≡ j ∷ jobs
        → s.draining ≡ false
        → is_disjoint s.scoreboard (touched j) ≡ true
        → length s.transaction_chan < buffer_size * num_workers % 2 ^ 64
        → Step s (dispatch j jobs s)
    -- a channel of capacity 0 holds nothing: the job goes straight to a worker that waits for one
    handed :
        {s : LedgerState} (j : Job) (jobs : List Job)
        → s.jobs ≡ j ∷ jobs
        → s.draining ≡ false
        → is_disjoint s.scoreboard (touched j) ≡ true
        → buffer_size * num_workers % 2 ^ 64 ≡ 0
        → s.transaction_chan ≡ []
        → length s.working + length s.applied < num_workers
        → Step s
            (record (dispatch j jobs s) { transaction_chan = []; working = s.working ++ j ∷ [] })
    -- a worker receives a job, applies it, and notifies the dispatcher
    taken :
        {s : LedgerState} (j : Job) (rest : List Job)
        → s.transaction_chan ≡ j ∷ rest
        → length s.working + length s.applied < num_workers
        → Step s (record s { transaction_chan = rest; working = s.working ++ j ∷ [] })
    worked :
        {s : LedgerState} (j : Job) (before after : List Job)
        → s.working ≡ before ++ j ∷ after
        → Step s (record s {
          working = before ++ after;
          applied = j.hash ∷ s.applied;
          coin_chan = s.coin_chan ++ (process address_of j s.utxodb).1 ∷ [];
          utxodb = (process address_of j s.utxodb).0;
        })
    notified :
        {s : LedgerState} (h : H256) (before after : List H256)
        → s.applied ≡ before ++ h ∷ after
        → Step s (record s {
          applied = before ++ after;
          notification_chan = s.notification_chan ++ h ∷ [];
        })
    -- the thread of the wallet receives the coins
    paid :
        {s : LedgerState} (d : Diff) (rest : List Diff)
        → s.coin_chan ≡ d ∷ rest
        → Step s (record s { coin_chan = rest })

  -- The states in which an `unwrap` of the dispatcher fails: it receives a transaction that it has no
  -- coins of, or a channel is closed, since there is no worker that holds its other end.
  pub data Panics : LedgerState → Type 0 where
    unknown_drained :
        {s : LedgerState} (j : Job) (jobs : List Job) (h : H256) (rest : List H256)
        → s.jobs ≡ j ∷ jobs
        → s.draining ≡ true
        → s.notification_chan ≡ h ∷ rest
        → finish h (record s { notification_chan = rest }) ≡ none
        → Panics s
    unknown_awaited :
        {s : LedgerState} (j : Job) (jobs : List Job) (h : H256) (rest : List H256)
        → s.jobs ≡ j ∷ jobs
        → s.draining ≡ false
        → is_disjoint s.scoreboard (touched j) ≡ false
        → s.notification_chan ≡ h ∷ rest
        → finish h (record s { notification_chan = rest }) ≡ none
        → Panics s
    no_sender :
        {s : LedgerState} (j : Job) (jobs : List Job)
        → s.jobs ≡ j ∷ jobs
        → s.draining ≡ false
        → is_disjoint s.scoreboard (touched j) ≡ false
        → s.notification_chan ≡ []
        → num_workers ≡ 0
        → Panics s
    no_receiver :
        {s : LedgerState} (j : Job) (jobs : List Job)
        → s.jobs ≡ j ∷ jobs
        → s.draining ≡ false
        → is_disjoint s.scoreboard (touched j) ≡ true
        → num_workers ≡ 0
        → Panics s

  -- The states that are reached, with the jobs of all changes received so far, in order.
  pub data Reach (db : Utxo) : LedgerState → List Job → Type 0 where
    at_start : Reach db (started db) []
    received :
        {s : LedgerState} {all_jobs : List Job}
        (diff : List (Transaction × H256) × List (Transaction × H256))
        → Reach db s all_jobs
        → s.jobs ≡ []
        → Reach db
            (record s { jobs = jobs_of_diff diff; draining = true })
            (all_jobs ++ jobs_of_diff diff)
    stepped :
        {s t : LedgerState} {all_jobs : List Job}
        → Reach db s all_jobs
        → Step s t
        → Reach db t all_jobs

-- The transactions of blocks, with their hashes. `none` is a failed `unwrap`, or `unreachable!()`.
module _ (decode : Bytes → Option Block) (tx_hash : Transaction → H256) where
  unfoldable pub transactions_of : BlockDatabase → List H256 → Option (List (Transaction × H256))
  unfolding get
  transactions_of blockdb [] = some []
  transactions_of blockdb (hash ∷ hashes) = do
    found ← get decode hash blockdb
    block ← found
    txs ← elim block.content [
      | transaction content ↦ some (map (λ t. (t, tx_hash t)) content.transactions)
      | proposer _ ↦ none
      | voter _ ↦ none
    ]
    rest ← transactions_of blockdb hashes
    some (txs ++ rest)

  -- the result of `chain.update_ledger()` is the argument `diff`
  unfoldable pub update_transaction_sequence :
      BlockDatabase
      → List H256 × List H256
      → Option (List (Transaction × H256) × List (Transaction × H256))
  unfolding transactions_of
  update_transaction_sequence blockdb (added, removed) = do
    add ← transactions_of blockdb added
    remove ← transactions_of blockdb removed
    some (add, remove)
