-- ===== src/Ledger/Transaction.antt =====
-- src/transaction/mod.rs: coins, inputs, outputs and transactions, with the equality that the
-- program derives for the types that it uses as keys.
use prism_rust_vivek.Prelude.{ℕ, List, Eq, ◌&&◌, Bool, true, ◌≡◌, ◌↔◌, arith, nat_eq, nat_beq}
use prism_rust_vivek.Crypto.{H256}

pub record CoinId : Type 0 where
  pub hash : H256
  pub index : ℕ

-- the hash of a public key
abbrev pub Address : Type 0
Address = H256

pub record Input : Type 0 where
  pub coin : CoinId
  pub value : ℕ
  pub owner : Address

pub record Output : Type 0 where
  pub value : ℕ
  pub recipient : Address

pub record Authorization : Type 0 where
  pub pubkey : List ℕ
  pub signature : List ℕ

pub record Transaction : Type 0 where
  pub input : List Input
  pub output : List Output
  pub authorization : List Authorization

abbrev pub coin_beq : CoinId → CoinId → Bool
coin_beq a b = nat_beq a.hash b.hash && nat_beq a.index b.index

pub coin_beq_iff : (a b : CoinId) → (coin_beq a b ≡ true) ↔ (a ≡ b)
coin_beq_iff a b = ground arith

instance abbrev pub coin_eq : Eq CoinId
coin_eq = record { beq = coin_beq; beq_iff = coin_beq_iff }

abbrev pub input_beq : Input → Input → Bool
input_beq a b = coin_beq a.coin b.coin && (nat_beq a.value b.value && nat_beq a.owner b.owner)

pub input_beq_iff : (a b : Input) → (input_beq a b ≡ true) ↔ (a ≡ b)
input_beq_iff a b = ground arith

instance abbrev pub input_eq : Eq Input
input_eq = record { beq = input_beq; beq_iff = input_beq_iff }
