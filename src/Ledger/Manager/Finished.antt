-- ===== src/Ledger/Manager/Finished.antt =====
-- A notification takes a transaction off the scoreboard, and no `unwrap` fails.
use prism_rust_vivek.Prelude.{
  ◌+◌, ◌≡◌, ap, ◌∙◌, false, some, List, [], ◌∷◌, ◌++◌, All, count, count-append, Table, lookup,
  remove, lookup-remove, elem, discard_all, elem-discard_all, nat_eq, nat_beq, if◌then◌else◌, arith,
  Bool-cases, inl, inr,
}
use prism_rust_vivek.Crypto.{H256}
use prism_rust_vivek.Ledger.Manager.{LedgerState, Job, touched, finish}
use prism_rust_vivek.Ledger.Manager.Scored.{IsScored, in_flight}

abbrev pub Touches : Table H256 (List H256) → List Job → Type 0
Touches coins jobs = All (λ j. lookup j.hash coins ≡ some (touched j)) jobs

pub All-split :
    {A : Type 0} (P : A → Type 0) (xs ys : List A) → All P (xs ++ ys) → All P xs × All P ys
All-split P [] ys a = (tt, a)
All-split P (x ∷ xs) ys (p, a) = let (b, c) = All-split P xs ys a in ((p, b), c)

Touches-remove :
    (h : H256) (coins : Table H256 (List H256)) (jobs : List Job)
    → count (λ j. nat_beq j.hash h) jobs ≡ 0
    → Touches coins jobs
    → Touches (remove h coins) jobs
Touches-remove h coins [] e a = tt
Touches-remove h coins (j ∷ jobs) e (p, a) =
    let other : nat_beq j.hash h ≡ false = ground (arith, e) in
    let rest : count (λ k. nat_beq k.hash h) jobs ≡ 0 = ground (arith, e) in
    (ground (arith, p, other, lookup-remove h j.hash coins), Touches-remove h coins jobs rest a)

-- A notification.
module _ (s : LedgerState) (h : H256) (rest : List H256) (v : IsScored s)
    (next : s.notification_chan ≡ h ∷ rest) where
  arrived_once : count (λ k. nat_beq k h) s.notification_chan ≡ 1 + count (λ k. nat_beq k h) rest
  arrived_once = ap (count (λ k. nat_beq k h)) next ∙ ground arith

  notified_count :
      (k : H256)
      → count (λ x. nat_beq x k) s.notification_chan
        ≡ (if nat_beq h k then 1 else 0) + count (λ x. nat_beq x k) rest
  notified_count k = ap (count (λ x. nat_beq x k)) next

  pub coins_there : (ts : List H256) × (lookup h s.transaction_coins ≡ some ts)
  coins_there = v.known h (omega (arith, arrived_once))

  module _ (ts : List H256) (there : lookup h s.transaction_coins ≡ some ts) where
    abbrev pub settled : LedgerState
    settled = record s {
      notification_chan = rest;
      scoreboard = discard_all ts s.scoreboard;
      transaction_coins = remove h s.transaction_coins;
    }

    count-settled :
        (k : H256) → in_flight settled k + (if nat_beq h k then 1 else 0) ≡ in_flight s k
    count-settled k = omega (arith, notified_count k)

    still_there :
        (k : H256) (us : List H256)
        → lookup k settled.transaction_coins ≡ some us
        → (nat_beq h k ≡ false) × (lookup k s.transaction_coins ≡ some us)
    still_there k us e = ground (arith, e, lookup-remove h k s.transaction_coins)

    none_left : count (λ j. nat_beq j.hash h) (s.working ++ s.transaction_chan) ≡ 0
    none_left =
        let le = v.once h in
        omega (
          arith,
          le,
          arrived_once,
          count-append (λ j. nat_beq j.hash h) s.working s.transaction_chan,
        )

    pub settled-IsScored : IsScored settled
    settled-IsScored = record {
      own = λ k us e. v.own k us (still_there k us e).1;
      marked = λ k x us e m.
          let (other, old) = still_there k us e in
          elim (Bool-cases (elem x ts)) [
            | inl both ↦
                let same = v.apart h k x ts us there old both m in
                absurd (ground (arith, other, same))
            | inr out ↦
                let on = v.marked k x us old m in
                ground (arith, on, out, elem-discard_all x ts s.scoreboard)
          ];
      apart = λ k l x us ws e f m n.
          v.apart k l x us ws (still_there k us e).1 (still_there l ws f).1 m n;
      once = λ k. let le = v.once k in omega (arith, le, count-settled k);
      known = λ k lt.
          let le = v.once k in
          let other : nat_beq h k ≡ false = ground (arith, lt, le, count-settled k) in
          let (us, old) = v.known k (omega (arith, lt, count-settled k)) in
          (us, ground (arith, old, other, lookup-remove h k s.transaction_coins));
      touches =
          Touches-remove h s.transaction_coins (s.working ++ s.transaction_chan) none_left
            v.touches;
    }

    pub settled-finish :
        (t : LedgerState) → finish h (record s { notification_chan = rest }) ≡ some t → t ≡ settled
    unfolding finish
    settled-finish t run = ground (arith, run, there)
