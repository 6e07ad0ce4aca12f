-- ===== src/Ledger/Manager/Serial.antt =====
-- The workers together do what one worker would do that takes the jobs in order.
use mathlib.Core.List.{append_assoc}
use mathlib.Core.Path.{subst}
use prism_rust_vivek.Prelude.{
  ℕ, ◌≡◌, ◌≢◌, refl, sym, ap, ◌∙◌, none, some, List, [], ◌∷◌, ◌++◌, All, count, count-append,
  lookup, nat_eq, nat_beq, arith,
}
use prism_rust_vivek.Crypto.{H256}
use prism_rust_vivek.Ledger.Transaction.{Address, coin_eq}
use prism_rust_vivek.Ledger.Utxo.{Utxo}
use prism_rust_vivek.Ledger.Manager.{
  LedgerState, Job, touched, started, finish, dispatch, process, jobs_of_diff, Step, drain_one,
  drained, wait_one, dispatched, handed, taken, worked, notified, paid, Reach, at_start, received,
  stepped,
}
use prism_rust_vivek.Ledger.Manager.Commute.{
  Same, Apart, process_all, process_all-Same, process_all-first,
}
use prism_rust_vivek.Ledger.Manager.Scored.{IsScored}
use prism_rust_vivek.Ledger.Manager.Finished.{
  Touches, All-split, settled, settled-finish, coins_there,
}
use prism_rust_vivek.Ledger.Manager.Kept.{Touches-Apart, worked-Apart, Step-IsScored}

-- The jobs that are not applied yet, in order.
abbrev pub pending : LedgerState → List Job
pending s = s.working ++ (s.transaction_chan ++ s.jobs)

append_nil : (xs : List Job) → xs ++ [] ≡ xs
append_nil [] = refl
append_nil (x ∷ xs) = ap (λ (l : List Job). x ∷ l) (append_nil xs)

process_all-append :
    (address_of : List ℕ → Address) (a b : List Job) (db : Utxo)
    → process_all address_of (a ++ b) db ≡ process_all address_of b (process_all address_of a db)
process_all-append address_of [] b db = refl
process_all-append address_of (j ∷ a) b db =
    process_all-append address_of a b (process address_of j db).0

started-IsScored : (db : Utxo) → IsScored (started db)
unfolding lookup
started-IsScored db = record {
  own = λ h ts e. cc e;
  marked = λ h x ts e m. cc e;
  apart = λ h k x ts us e f m n. cc e;
  once = λ h. omega arith;
  known = λ h lt. absurd (omega (arith, lt));
  touches = tt;
}

module _ (address_of : List ℕ → Address) (buffer_size num_workers : ℕ) (db : Utxo) where
  -- In every state that is reached, the scoreboard is in order.
  pub Reach-IsScored :
      {s : LedgerState} {all_jobs : List Job}
      → Reach address_of buffer_size num_workers db s all_jobs
      → IsScored s
  Reach-IsScored at_start = started-IsScored db
  Reach-IsScored (received {s} diff r idle) =
      let v = Reach-IsScored r in
      record {
        own = v.own;
        marked = v.marked;
        apart = v.apart;
        once = v.once;
        known = v.known;
        touches = v.touches;
      }
  Reach-IsScored (stepped r step) =
      Step-IsScored address_of buffer_size num_workers step (Reach-IsScored r)

  abbrev Serial : LedgerState → List Job → Type 0
  Serial s all_jobs =
      Same (process_all address_of (pending s) s.utxodb) (process_all address_of all_jobs db)

  -- The same jobs are pending, in the same order, for the same database.
  same-Serial :
      (s t : LedgerState) (all_jobs : List Job)
      → Serial s all_jobs
      → pending t ≡ pending s
      → t.utxodb ≡ s.utxodb
      → Serial t all_jobs
  same-Serial s t all_jobs v jobs same c =
      ap (λ (l : List Job). lookup c (process_all address_of l t.utxodb)) jobs
      ∙ ap (λ (u : Utxo). lookup c (process_all address_of (pending s) u)) same
      ∙ v c

  finish-Serial :
      (s t : LedgerState) (h : H256) (rest : List H256) (all_jobs : List Job)
      → IsScored s
      → s.notification_chan ≡ h ∷ rest
      → finish h (record s { notification_chan = rest }) ≡ some t
      → Serial s all_jobs
      → Serial t all_jobs
  finish-Serial s t h rest all_jobs v next run serial =
      let (ts, there) = coins_there s h rest v next in
      subst (λ (x : LedgerState). Serial x all_jobs)
        (sym (settled-finish s h rest v next ts there t run)) serial

  Step-Serial :
      {s t : LedgerState} (all_jobs : List Job)
      → Step address_of buffer_size num_workers s t
      → IsScored s
      → Serial s all_jobs
      → Serial t all_jobs
  unfolding dispatch
  Step-Serial {s} {t} all_jobs (drain_one j jobs h rest e f next run) v serial =
      finish-Serial s t h rest all_jobs v next run serial
  Step-Serial {s} {t} all_jobs (drained j jobs e f g) v serial = serial
  Step-Serial {s} {t} all_jobs (wait_one j jobs h rest e f cold next run) v serial =
      finish-Serial s t h rest all_jobs v next run serial
  Step-Serial {s} {t} all_jobs (dispatched j jobs e f cold room) v serial =
      same-Serial s (dispatch j jobs s) all_jobs serial
        (ap (λ (l : List Job). s.working ++ l)
          (append_assoc s.transaction_chan (j ∷ []) jobs
            ∙ ap (λ (l : List Job). s.transaction_chan ++ l) (sym e)))
        refl
  Step-Serial {s} {t} all_jobs (handed j jobs e f cold none_held empty free) v serial =
      same-Serial s
        (record (dispatch j jobs s) { transaction_chan = []; working = s.working ++ j ∷ [] })
        all_jobs serial
        (append_assoc s.working (j ∷ []) jobs
          ∙ ap (λ (l : List Job). s.working ++ l) (sym e)
          ∙ ap (λ (l : List Job). s.working ++ (l ++ s.jobs)) (sym empty))
        refl
  Step-Serial {s} {t} all_jobs (taken j rest e few) v serial =
      same-Serial s t all_jobs serial
        (append_assoc s.working (j ∷ []) (rest ++ s.jobs)
          ∙ ap (λ (l : List Job). s.working ++ (l ++ s.jobs)) (sym e))
        refl
  Step-Serial {s} {t} all_jobs (worked j before after e) v serial = λ c.
      let others = s.transaction_chan ++ s.jobs in
      let moved =
        process_all-first address_of before (after ++ others) j s.utxodb
          (worked-Apart address_of buffer_size num_workers s j before after v e) c in
      let now : (before ++ after) ++ others ≡ before ++ (after ++ others) =
        append_assoc before after others in
      let was : pending s ≡ before ++ j ∷ (after ++ others) =
        ap (λ (l : List Job). l ++ others) e ∙ append_assoc before (j ∷ after) others in
      ap (λ (l : List Job). lookup c (process_all address_of l (process address_of j s.utxodb).0))
        now
      ∙ sym moved
      ∙ sym (ap (λ (l : List Job). lookup c (process_all address_of l s.utxodb)) was)
      ∙ serial c
  Step-Serial {s} {t} all_jobs (notified h before after e) v serial = serial
  Step-Serial {s} {t} all_jobs (paid d rest e) v serial = serial

  -- The scoreboard serializes the workers. In every state that the threads reach, in whatever order
  -- their steps come, the database of coins is as far as the jobs that were applied; when the jobs that
  -- are still pending are processed in order, every coin is as it would be had one worker processed all
  -- jobs received so far one after another.
  pub Reach-Serial :
      {s : LedgerState} {all_jobs : List Job}
      → Reach address_of buffer_size num_workers db s all_jobs
      → Same (process_all address_of (pending s) s.utxodb) (process_all address_of all_jobs db)
  Reach-Serial at_start = λ c. refl
  Reach-Serial (received {s} {all_jobs} diff r idle) = λ c.
      let js = jobs_of_diff diff in
      let before : pending s ≡ s.working ++ s.transaction_chan =
        ap (λ (l : List Job). s.working ++ (s.transaction_chan ++ l)) idle
        ∙ ap (λ (l : List Job). s.working ++ l) (append_nil s.transaction_chan) in
      let now : s.working ++ (s.transaction_chan ++ js) ≡ pending s ++ js =
        sym (append_assoc s.working s.transaction_chan js)
        ∙ ap (λ (l : List Job). l ++ js) (sym before) in
      ap (λ (l : List Job). lookup c (process_all address_of l s.utxodb)) now
      ∙ ap (lookup c) (process_all-append address_of (pending s) js s.utxodb)
      ∙ process_all-Same address_of js (process_all address_of (pending s) s.utxodb)
          (process_all address_of all_jobs db) (Reach-Serial r) c
      ∙ sym (ap (lookup c) (process_all-append address_of all_jobs js db))
  Reach-Serial (stepped {all_jobs} r step) =
      Step-Serial all_jobs step (Reach-IsScored r) (Reach-Serial r)

  -- Two jobs that are in flight at the same time, in a channel or with a worker, touch no coin of the
  -- same transaction.
  pub in_flight-Apart :
      {s : LedgerState} {all_jobs : List Job} (j : Job) (before after : List Job)
      → Reach address_of buffer_size num_workers db s all_jobs
      → s.working ++ s.transaction_chan ≡ before ++ j ∷ after
      → All (Apart j) before
  in_flight-Apart {s} j before after r e =
      let v = Reach-IsScored r in
      let touches : Touches s.transaction_coins (before ++ j ∷ after) = rw e at v.touches in
      let (first, (own, _)) =
        All-split (λ (k : Job). lookup k.hash s.transaction_coins ≡ some (touched k)) before
          (j ∷ after) touches in
      let le = v.once j.hash in
      Touches-Apart s v j before own first (
        ground (
          arith,
          le,
          ap (count (λ (k : Job). nat_beq k.hash j.hash)) e,
          count-append (λ (k : Job). nat_beq k.hash j.hash) before (j ∷ after),
          count-append (λ (k : Job). nat_beq k.hash j.hash) s.working s.transaction_chan,
        ))

  -- The transaction of a notification that arrives has its coins recorded.
  pub finish-some :
      {s : LedgerState} {all_jobs : List Job} (h : H256) (rest : List H256)
      → Reach address_of buffer_size num_workers db s all_jobs
      → s.notification_chan ≡ h ∷ rest
      → finish h (record s { notification_chan = rest }) ≢ none
  unfolding finish
  finish-some {s} h rest r next bad =
      let (ts, there) = coins_there s h rest (Reach-IsScored r) next in
      let good : finish h (record s { notification_chan = rest })
          ≡ some (settled s h rest (Reach-IsScored r) next ts there) =
        rw there refl in
      cc (good, bad)
