-- ===== src/Ledger/Manager/Dispatched.antt =====
-- A job that is dispatched is put on the scoreboard.
use mathlib.Core.Path.{subst}
use prism_rust_vivek.Prelude.{
  ◌+◌, ◌≡◌, sym, ap, true, false, not, none, some, List, [], ◌∷◌, ◌++◌, All-append, count-append,
  Table, lookup, insert, lookup-insert, elem, elem-add_all, elem-of-all, nat_eq, nat_beq,
  nat_beq_iff, if◌then◌else◌, arith, Bool-cases, Option-cases, inl, inr,
}
use prism_rust_vivek.Crypto.{H256}
use prism_rust_vivek.Ledger.Manager.{LedgerState, Job, touched, dispatch, is_disjoint}
use prism_rust_vivek.Ledger.Manager.Frame.{elem-touched}
use prism_rust_vivek.Ledger.Manager.Scored.{IsScored, in_flight}
use prism_rust_vivek.Ledger.Manager.Finished.{Touches, All-split}

Touches-insert :
    (h : H256) (ts : List H256) (coins : Table H256 (List H256)) (jobs : List Job)
    → lookup h coins ≡ none
    → Touches coins jobs
    → Touches (insert h ts coins) jobs
Touches-insert h ts coins [] e a = tt
Touches-insert h ts coins (j ∷ jobs) e (p, a) = (
  ground (arith, p, e, lookup-insert h j.hash ts coins, ap (λ (x : H256). lookup x coins)),
  Touches-insert h ts coins jobs e a,
)

-- A job that is dispatched.
module _ (s : LedgerState) (j : Job) (jobs : List Job) (v : IsScored s)
    (cold : is_disjoint s.scoreboard (touched j) ≡ true) where
  not_marked : (x : H256) → elem x (touched j) ≡ true → elem x s.scoreboard ≡ false
  not_marked x e =
      let out = elem-of-all (λ h. not (elem h s.scoreboard)) x (touched j) cold e in
      ground (arith, out)

  touches_own : elem j.hash (touched j) ≡ true
  touches_own = ground (arith, elem-touched j j.hash)

  new_hash : lookup j.hash s.transaction_coins ≡ none
  new_hash = elim (Option-cases (lookup j.hash s.transaction_coins)) [
    | inl absent ↦ absent
    | inr (ts, there) ↦ absurd (
        cc (not_marked j.hash touches_own, v.marked j.hash j.hash ts there (v.own j.hash ts there)))
  ]

  abbrev sent : LedgerState
  sent = dispatch j jobs s

  coins-sent :
      (h : H256)
      → lookup h sent.transaction_coins
        ≡ (if nat_beq j.hash h then some (touched j) else lookup h s.transaction_coins)
  unfolding dispatch
  coins-sent h = lookup-insert j.hash h (touched j) s.transaction_coins

  board-sent :
      (x : H256)
      → elem x sent.scoreboard ≡ (if elem x (touched j) then true else elem x s.scoreboard)
  unfolding dispatch
  board-sent x = elem-add_all x (touched j) s.scoreboard

  count-sent : (h : H256) → in_flight sent h ≡ in_flight s h + (if nat_beq j.hash h then 1 else 0)
  unfolding dispatch
  count-sent h = omega (arith, count-append (λ k. nat_beq k.hash h) s.transaction_chan (j ∷ []))

  not_in_flight : in_flight s j.hash ≡ 0
  not_in_flight = elim (Bool-cases (nat_beq (in_flight s j.hash) 0)) [
    | inl e ↦ ground (arith, e)
    | inr ne ↦
        let (ts, there) = v.known j.hash (ground (arith, ne)) in absurd (cc (there, new_hash))
  ]

  new-marked :
      (h x : H256) (ts : List H256)
      → lookup h sent.transaction_coins ≡ some ts
      → elem x ts ≡ true
      → elem x sent.scoreboard ≡ true
  new-marked h x ts e m = elim (Bool-cases (nat_beq j.hash h)) [
    | inl same ↦
        let it : touched j ≡ ts = ground (arith, e, same, coins-sent h) in
        let m' : elem x (touched j) ≡ true = rw it m in ground (arith, m', board-sent x)
    | inr other ↦
        let old = v.marked h x ts (ground (arith, e, other, coins-sent h)) m in
        ground (arith, old, board-sent x)
  ]

  -- An old transaction touches nothing of the new job.
  old-apart :
      (k x : H256) (us : List H256)
      → lookup k s.transaction_coins ≡ some us
      → elem x us ≡ true
      → elem x (touched j) ≡ false
  old-apart k x us e m = elim (Bool-cases (elem x (touched j))) [
    | inr out ↦ out
    | inl both ↦ absurd (cc (not_marked x both, v.marked k x us e m))
  ]

  new-apart :
      (h k x : H256) (ts us : List H256)
      → lookup h sent.transaction_coins ≡ some ts
      → lookup k sent.transaction_coins ≡ some us
      → elem x ts ≡ true
      → elem x us ≡ true
      → h ≡ k
  new-apart h k x ts us e f m n = elim (Bool-cases (nat_beq j.hash h)) [
    | inl same ↦ elim (Bool-cases (nat_beq j.hash k)) [
      | inl same' ↦ ground (arith, same, same')
      | inr other' ↦
          let it : touched j ≡ ts = ground (arith, e, same, coins-sent h) in
          let m' : elem x (touched j) ≡ true = rw it m in
          let out = old-apart k x us (ground (arith, f, other', coins-sent k)) n in
          absurd (cc (m', out))
    ]
    | inr other ↦
        let old : lookup h s.transaction_coins ≡ some ts = ground (arith, e, other, coins-sent h) in
        elim (Bool-cases (nat_beq j.hash k)) [
          | inl same' ↦
              let it : touched j ≡ us = ground (arith, f, same', coins-sent k) in
              let n' : elem x (touched j) ≡ true = rw it n in
              let out = old-apart h x ts old m in absurd (cc (n', out))
          | inr other' ↦ v.apart h k x ts us old (ground (arith, f, other', coins-sent k)) m n
        ]
  ]

  touches_new : lookup j.hash sent.transaction_coins ≡ some (touched j)
  touches_new = ground (arith, coins-sent j.hash)

  sent-Touches : Touches sent.transaction_coins (sent.working ++ sent.transaction_chan)
  unfolding dispatch
  sent-Touches =
      let coins = s.transaction_coins in
      let P = λ (k : Job). lookup k.hash sent.transaction_coins ≡ some (touched k) in
      let (working, chan) =
        All-split (λ (k : Job). lookup k.hash coins ≡ some (touched k)) s.working s.transaction_chan
          v.touches in
      All-append P s.working (s.transaction_chan ++ j ∷ [])
        (Touches-insert j.hash (touched j) coins s.working new_hash working)
        (All-append P s.transaction_chan (j ∷ [])
          (Touches-insert j.hash (touched j) coins s.transaction_chan new_hash chan)
          (touches_new, tt))

  pub sent-IsScored : IsScored sent
  sent-IsScored = record {
    own = λ h ts e. elim (Bool-cases (nat_beq j.hash h)) [
      | inl same ↦
          let it : touched j ≡ ts = ground (arith, e, same, coins-sent h) in
          let here : elem j.hash ts ≡ true = rw (sym it) touches_own in
          subst (λ (x : H256). elem x ts ≡ true) ((nat_beq_iff j.hash h).0 same) here
      | inr other ↦ v.own h ts (ground (arith, e, other, coins-sent h))
    ];
    marked = new-marked;
    apart = new-apart;
    once =
        λ h. let le = v.once h in ground (arith, le, count-sent h, not_in_flight, ap (in_flight s));
    known = λ h lt. elim (Bool-cases (nat_beq j.hash h)) [
      | inl same ↦ (touched j, ground (arith, same, coins-sent h))
      | inr other ↦
          let (ts, there) = v.known h (ground (arith, lt, other, count-sent h)) in
          (ts, ground (arith, there, other, coins-sent h))
    ];
    touches = sent-Touches;
  }
