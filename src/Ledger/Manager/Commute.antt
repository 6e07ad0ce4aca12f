-- ===== src/Ledger/Manager/Commute.antt =====
-- Jobs that touch no coin in common may change places.
use prism_rust_vivek.Prelude.{
  ℕ, ◌≡◌, refl, sym, ◌∙◌, true, false, List, [], ◌∷◌, ◌++◌, All, lookup, elem, nat_eq, Bool-cases,
  inl, inr,
}
use prism_rust_vivek.Crypto.{H256}
use prism_rust_vivek.Ledger.Transaction.{CoinId, Address, coin_eq}
use prism_rust_vivek.Ledger.Utxo.{Utxo}
use prism_rust_vivek.Ledger.Manager.{Job, touched, process}
use prism_rust_vivek.Ledger.Manager.Frame.{process-Agree, process-outside}

-- The same coins.
abbrev pub Same : Utxo → Utxo → Type 0
Same db db' = (c : CoinId) → lookup c db ≡ lookup c db'

-- No transaction whose coins both touch.
abbrev pub Apart : Job → Job → Type 0
Apart j k = (x : H256) → elem x (touched j) ≡ true → elem x (touched k) ≡ false

module _ (address_of : List ℕ → Address) where
  -- jobs one after another
  abbrev pub process_all : List Job → Utxo → Utxo
  process_all [] db = db
  process_all (j ∷ jobs) db = process_all jobs (process address_of j db).0

  process-Same :
      (j : Job) (db db' : Utxo)
      → Same db db'
      → Same (process address_of j db).0 (process address_of j db').0
  process-Same j db db' s c =
      process-Agree (λ x. true) address_of j db db' (λ k e. s k) (λ x e. refl) c refl

  pub process_all-Same :
      (jobs : List Job) (db db' : Utxo)
      → Same db db'
      → Same (process_all jobs db) (process_all jobs db')
  process_all-Same [] db db' s = s
  process_all-Same (j ∷ jobs) db db' s =
      process_all-Same jobs (process address_of j db).0 (process address_of j db').0
        (process-Same j db db' s)

  -- On the coins that `j` touches, a job apart from it changes nothing, before or after.
  process-swap_inside :
      (j k : Job) (db : Utxo) (c : CoinId)
      → Apart j k
      → elem c.hash (touched j) ≡ true
      → lookup c (process address_of j (process address_of k db).0).0
        ≡ lookup c (process address_of k (process address_of j db).0).0
  process-swap_inside j k db c apart e =
      process-Agree (λ x. elem x (touched j)) address_of j (process address_of k db).0 db
        (λ d h. process-outside address_of k d db (apart d.hash h)) (λ x h. h) c e
      ∙ sym (process-outside address_of k c (process address_of j db).0 (apart c.hash e))

  Apart-sym : (j k : Job) → Apart j k → Apart k j
  Apart-sym j k apart x e = elim (Bool-cases (elem x (touched j))) [
    | inl both ↦ absurd (let no_k = apart x both in cc (e, no_k))
    | inr out ↦ out
  ]

  process-swap :
      (j k : Job) (db : Utxo)
      → Apart j k
      → Same
          (process address_of j (process address_of k db).0).0
          (process address_of k (process address_of j db).0).0
  process-swap j k db apart c = elim (Bool-cases (elem c.hash (touched j))) [
    | inl in_j ↦ process-swap_inside j k db c apart in_j
    | inr out_j ↦ elim (Bool-cases (elem c.hash (touched k))) [
      | inl in_k ↦ sym (process-swap_inside k j db c (Apart-sym j k apart) in_k)
      | inr out_k ↦
          process-outside address_of j c (process address_of k db).0 out_j
          ∙ process-outside address_of k c db out_k
          ∙ sym (process-outside address_of j c db out_j)
          ∙ sym (process-outside address_of k c (process address_of j db).0 out_k)
    ]
  ]

  -- A job that is apart from all jobs before it may go first.
  pub process_all-first :
      (before after : List Job) (j : Job) (db : Utxo)
      → All (Apart j) before
      → Same
          (process_all (before ++ j ∷ after) db)
          (process_all (before ++ after) (process address_of j db).0)
  process_all-first [] after j db a c = refl
  process_all-first (k ∷ before) after j db (apart, a) c =
      process_all-first before after j (process address_of k db).0 a c
      ∙ process_all-Same (before ++ after) (process address_of j (process address_of k db).0).0
          (process address_of k (process address_of j db).0).0 (process-swap j k db apart) c
