-- ===== src/Ledger/Manager/Tests.antt =====
-- Two transactions that spend different coins: the second is applied first.
use prism_rust_vivek.Prelude.{
  ℕ, ◌≡◌, ◌≢◌, ◌↔◌, refl, true, false, List, [], ◌∷◌, All, insert, elem, add, add_all, nat_eq,
  arith,
}
use prism_rust_vivek.Crypto.{H256}
use prism_rust_vivek.Ledger.Transaction.{Address, Transaction, coin_eq}
use prism_rust_vivek.Ledger.Utxo.{Utxo}
use prism_rust_vivek.Ledger.Manager.{
  LedgerState, Job, started, dispatch, process, drained, dispatched, taken, worked, Reach, at_start,
  received, stepped, Panics,
}
use prism_rust_vivek.Ledger.Manager.Commute.{Same, Apart, process_all}
use prism_rust_vivek.Ledger.Manager.Serial.{Reach-Serial, in_flight-Apart}
use prism_rust_vivek.Ledger.Manager.Panicking.{dispatcher-Panics_iff}

abbrev address_of : List ℕ → Address
address_of bytes = elim bytes [ [] ↦ 0 | x ∷ _ ↦ x ]

-- Owner 7 spends the coin of a transaction.
abbrev spend : H256 → Transaction
spend h = record {
  input = record { coin = record { hash = h; index = 0 }; value = 5; owner = 7 } ∷ [];
  output = record { value = 5; recipient = 8 } ∷ [];
  authorization = record { pubkey = 7 ∷ []; signature = [] } ∷ [];
}

abbrev coins : Utxo
coins =
    (record { hash = 10; index = 0 }, record { value = 5; recipient = 7 })
    ∷ (record { hash = 20; index = 0 }, record { value = 5; recipient = 7 })
    ∷ []

abbrev change : List (Transaction × H256) × List (Transaction × H256)
change = ((spend 10, 11) ∷ (spend 20, 21) ∷ [], [])

abbrev first : Job
first = record { add = true; transaction = spend 10; hash = 11 }

abbrev second : Job
second = record { add = true; transaction = spend 20; hash = 21 }

abbrev Run : LedgerState → Type 0
Run s = Reach address_of 10 2 coins s (first ∷ second ∷ [])

-- Both are sent.
abbrev both_sent : LedgerState
both_sent = record (started coins) {
  scoreboard = add_all (21 ∷ 20 ∷ []) (11 ∷ 10 ∷ []);
  transaction_coins = (11, 11 ∷ 10 ∷ []) ∷ (21, 21 ∷ 20 ∷ []) ∷ [];
  transaction_chan = first ∷ second ∷ [];
}

both_sent-Run : Run both_sent
unfolding add_all dispatch elem insert add
both_sent-Run =
    stepped
      (stepped
        (stepped
          (stepped (received change at_start refl) (drained first (second ∷ []) refl refl refl))
          (dispatched first (second ∷ []) refl refl refl (omega arith)))
        (drained second [] refl refl refl))
      (dispatched second [] refl refl refl (omega arith))

-- Both are taken, and the second is applied.
abbrev second_applied : LedgerState
second_applied = record both_sent {
  transaction_chan = [];
  working = first ∷ [];
  applied = 21 ∷ [];
  coin_chan = (process address_of second coins).1 ∷ [];
  utxodb = (process address_of second coins).0;
}

second_applied-Run : Run second_applied
second_applied-Run =
    stepped
      (stepped (stepped both_sent-Run (taken first (second ∷ []) refl (omega arith)))
        (taken second [] refl (omega arith)))
      (worked second (first ∷ []) [] refl)

Reach-Serial_example :
    Same
      (process_all address_of (first ∷ []) second_applied.utxodb)
      (process_all address_of (first ∷ second ∷ []) coins)
Reach-Serial_example = Reach-Serial address_of 10 2 coins second_applied-Run

in_flight-Apart_example : All (Apart second) (first ∷ [])
in_flight-Apart_example =
    in_flight-Apart address_of 10 2 coins second (first ∷ []) [] both_sent-Run refl

-- With no worker the first job that is to be sent makes the dispatcher panic.
abbrev nobody : LedgerState
nobody = record (started coins) { jobs = first ∷ second ∷ []; draining = false }

nobody-Reach : Reach address_of 10 0 coins nobody (first ∷ second ∷ [])
nobody-Reach = stepped (received change at_start refl) (drained first (second ∷ []) refl refl refl)

dispatcher-Panics_iff_example :
    Panics address_of 10 0 nobody
    ↔ ((◌≡◌ {A = ℕ} 0 0) × (nobody.jobs ≢ []) × (nobody.draining ≡ false))
dispatcher-Panics_iff_example = dispatcher-Panics_iff address_of 10 0 coins nobody-Reach
