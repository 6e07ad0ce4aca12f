-- ===== src/Ledger/Manager/Kept.antt =====
-- Every step keeps the scoreboard in order.
use mathlib.Core.List.{append_assoc}
use mathlib.Core.Path.{subst}
use prism_rust_vivek.Prelude.{
  ℕ, ◌≡◌, refl, sym, ap, ◌∙◌, true, false, some, List, [], ◌∷◌, ◌++◌, All, All-append, count,
  count-append, lookup, elem, nat_eq, nat_beq, arith, Bool-cases, inl, inr,
}
use prism_rust_vivek.Crypto.{H256}
use prism_rust_vivek.Ledger.Transaction.{Address, coin_eq}
use prism_rust_vivek.Ledger.Manager.{
  LedgerState, Job, touched, finish, process, Step, drain_one, drained, wait_one, dispatched,
  handed, dispatch, taken, worked, notified, paid,
}
use prism_rust_vivek.Ledger.Manager.Commute.{Apart}
use prism_rust_vivek.Ledger.Manager.Scored.{IsScored, in_flight}
use prism_rust_vivek.Ledger.Manager.Finished.{
  Touches, All-split, settled-IsScored, settled-finish, coins_there,
}
use prism_rust_vivek.Ledger.Manager.Dispatched.{sent-IsScored}

-- Transactions in flight of other hashes are apart from a job.
pub Touches-Apart :
    (s : LedgerState) (v : IsScored s) (j : Job) (jobs : List Job)
    → lookup j.hash s.transaction_coins ≡ some (touched j)
    → Touches s.transaction_coins jobs
    → count (λ k. nat_beq k.hash j.hash) jobs ≡ 0
    → All (Apart j) jobs
Touches-Apart s v j [] there a e = tt
Touches-Apart s v j (k ∷ jobs) there (own, a) e =
    let other : nat_beq k.hash j.hash ≡ false = ground (arith, e) in
    let rest : count (λ i. nat_beq i.hash j.hash) jobs ≡ 0 = ground (arith, e) in
    (
      λ x m. elim (Bool-cases (elem x (touched k))) [
        | inr out ↦ out
        | inl both ↦
            let same = v.apart j.hash k.hash x (touched j) (touched k) there own m both in
            absurd (ground (arith, other, same))
      ],
      Touches-Apart s v j jobs there a rest,
    )

-- The same transactions in flight, with the same coins.
same-IsScored :
    (s t : LedgerState)
    → IsScored s
    → t.scoreboard ≡ s.scoreboard
    → t.transaction_coins ≡ s.transaction_coins
    → ((h : H256) → in_flight t h ≡ in_flight s h)
    → Touches t.transaction_coins (t.working ++ t.transaction_chan)
    → IsScored t
same-IsScored s t v board coins flight touches = record {
  own = λ h ts e. v.own h ts (sym (ap (lookup h) coins) ∙ e);
  marked = λ h x ts e m. ap (elem x) board ∙ v.marked h x ts (sym (ap (lookup h) coins) ∙ e) m;
  apart = λ h k x ts us e f m n.
      v.apart h k x ts us (sym (ap (lookup h) coins) ∙ e) (sym (ap (lookup k) coins) ∙ f) m n;
  once = λ h. let le = v.once h in omega (arith, le, flight h);
  known = λ h lt.
      let (ts, there) = v.known h (omega (arith, lt, flight h)) in
      (ts, ap (lookup h) coins ∙ there);
  touches = touches;
}

-- A worker receives a job.
taken-IsScored :
    (s : LedgerState) (j : Job) (rest : List Job)
    → s.transaction_chan ≡ j ∷ rest
    → IsScored s
    → IsScored (record s { transaction_chan = rest; working = s.working ++ j ∷ [] })
taken-IsScored s j rest e v =
    same-IsScored s (record s { transaction_chan = rest; working = s.working ++ j ∷ [] }) v refl
      refl
      (λ h. omega (
        arith,
        ap (count (λ (k : Job). nat_beq k.hash h)) e,
        count-append (λ (k : Job). nat_beq k.hash h) s.working (j ∷ []),
      ))
      (subst (Touches s.transaction_coins)
        (ap (λ (l : List Job). s.working ++ l) e ∙ sym (append_assoc s.working (j ∷ []) rest))
        v.touches)

module _ (address_of : List ℕ → Address) (buffer_size num_workers : ℕ) where
  pub worked-Apart :
      (s : LedgerState) (j : Job) (before after : List Job)
      → IsScored s
      → s.working ≡ before ++ j ∷ after
      → All (Apart j) before
  worked-Apart s j before after v e =
      let coins = s.transaction_coins in
      let (working, _) =
        All-split (λ (k : Job). lookup k.hash coins ≡ some (touched k)) s.working s.transaction_chan
          v.touches in
      let working' : Touches coins (before ++ j ∷ after) = rw e at working in
      let (first, (own, _)) =
        All-split (λ (k : Job). lookup k.hash coins ≡ some (touched k)) before (j ∷ after)
          working' in
      let le = v.once j.hash in
      let here : nat_beq j.hash j.hash ≡ true = ground arith in
      Touches-Apart s v j before own first (
        ground (
          arith,
          le,
          here,
          ap (count (λ (k : Job). nat_beq k.hash j.hash)) e,
          count-append (λ (k : Job). nat_beq k.hash j.hash) before (j ∷ after),
        ))

  worked-Touches :
      (s : LedgerState) (j : Job) (before after : List Job)
      → IsScored s
      → s.working ≡ before ++ j ∷ after
      → Touches s.transaction_coins ((before ++ after) ++ s.transaction_chan)
  worked-Touches s j before after v e =
      let P = λ (k : Job). lookup k.hash s.transaction_coins ≡ some (touched k) in
      let (working, chan) = All-split P s.working s.transaction_chan v.touches in
      let working' : Touches s.transaction_coins (before ++ j ∷ after) = rw e at working in
      let (first, (_, last)) = All-split P before (j ∷ after) working' in
      All-append P (before ++ after) s.transaction_chan (All-append P before after first last) chan

  finish-IsScored :
      (s t : LedgerState) (h : H256) (rest : List H256)
      → IsScored s
      → s.notification_chan ≡ h ∷ rest
      → finish h (record s { notification_chan = rest }) ≡ some t
      → IsScored t
  finish-IsScored s t h rest v next run =
      let (ts, there) = coins_there s h rest v next in
      subst IsScored (sym (settled-finish s h rest v next ts there t run))
        (settled-IsScored s h rest v next ts there)

  pub Step-IsScored :
      {s t : LedgerState} → Step address_of buffer_size num_workers s t → IsScored s → IsScored t
  unfolding dispatch
  Step-IsScored {s} {t} (drain_one j jobs h rest e f next run) v =
      finish-IsScored s t h rest v next run
  Step-IsScored {s} (drained j jobs e f g) v =
      same-IsScored s (record s { draining = false }) v refl refl (λ h. refl) v.touches
  Step-IsScored {s} {t} (wait_one j jobs h rest e f cold next run) v =
      finish-IsScored s t h rest v next run
  Step-IsScored {s} (dispatched j jobs e f cold room) v = sent-IsScored s j jobs v cold
  Step-IsScored {s} (handed j jobs e f cold none_held empty free) v =
      taken-IsScored (dispatch j jobs s) j [] (ap (λ (l : List Job). l ++ j ∷ []) empty)
        (sent-IsScored s j jobs v cold)
  Step-IsScored {s} (taken j rest e few) v = taken-IsScored s j rest e v
  Step-IsScored {s} (worked j before after e) v =
      same-IsScored s
        (record s {
          working = before ++ after;
          applied = j.hash ∷ s.applied;
          coin_chan = s.coin_chan ++ (process address_of j s.utxodb).1 ∷ [];
          utxodb = (process address_of j s.utxodb).0;
        })
        v refl refl
        (λ h. omega (
          arith,
          ap (count (λ (k : Job). nat_beq k.hash h)) e,
          count-append (λ (k : Job). nat_beq k.hash h) before (j ∷ after),
          count-append (λ (k : Job). nat_beq k.hash h) before after,
        ))
        (worked-Touches s j before after v e)
  Step-IsScored {s} (notified h before after e) v =
      same-IsScored s
        (record s { applied = before ++ after; notification_chan = s.notification_chan ++ h ∷ [] })
        v refl refl
        (λ k. omega (
          arith,
          ap (count (λ (x : H256). nat_beq x k)) e,
          count-append (λ (x : H256). nat_beq x k) before (h ∷ after),
          count-append (λ (x : H256). nat_beq x k) before after,
          count-append (λ (x : H256). nat_beq x k) s.notification_chan (h ∷ []),
        ))
        v.touches
  Step-IsScored {s} (paid d rest e) v =
      same-IsScored s (record s { coin_chan = rest }) v refl refl (λ h. refl) v.touches
