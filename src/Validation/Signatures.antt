-- ===== src/Validation/Signatures.antt =====
-- `check_signature_batch` of src/validation/transaction.rs. The encoding of a transaction's inputs
-- and outputs, and Ed25519 of a library, are the parameter `ed`.
use prism_rust_vivek.Prelude.{ℕ, Bool, Option, some, List, [], ◌∷◌, ◌++◌, ◌>>=◌}
use prism_rust_vivek.Ledger.Transaction.{Authorization, Transaction}

pub record Ed25519 : Type 1 where
  pub Key : Type 0
  pub Signature : Type 0
  -- `PublicKey::from_bytes` and `Signature::from_bytes`, which may fail
  pub key_of : List ℕ → Option Key
  pub signature_of : List ℕ → Option Signature
  pub message_of : Transaction → List ℕ
  pub verify_batch : List (List ℕ × Signature × Key) → Bool

module _ (ed : Ed25519) where
  abbrev pub Signed : Type 0
  Signed = List ℕ × ed.Signature × ed.Key

  unfoldable pub signed_by : List ℕ → List Authorization → Option (List Signed)
  signed_by message [] = some []
  signed_by message (a ∷ authorization) = do
    key ← ed.key_of a.pubkey
    signature ← ed.signature_of a.signature
    rest ← signed_by message authorization
    some ((message, signature, key) ∷ rest)

  unfoldable pub signed_messages : List Transaction → Option (List Signed)
  unfolding signed_by
  signed_messages [] = some []
  signed_messages (t ∷ transactions) = do
    own ← signed_by (ed.message_of t) t.authorization
    rest ← signed_messages transactions
    some (own ++ rest)

  unfoldable pub check_signature_batch : List Transaction → Option Bool
  unfolding signed_messages
  check_signature_batch transactions = do
    batch ← signed_messages transactions
    some (ed.verify_batch batch)
