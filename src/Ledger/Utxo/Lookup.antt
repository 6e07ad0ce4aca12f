-- ===== src/Ledger/Utxo/Lookup.antt =====
-- What each batch leaves under a coin id.
use prism_rust_vivek.Prelude.{
  ℕ, suc, ◌+◌, ◌-◌, ◌^◌, ◌≤◌, ◌<◌, ◌≡◌, refl, ap, true, false, ◌&&◌, Option, none, some, List, [],
  ◌∷◌, lookup, insert, remove, lookup-insert, lookup-remove, elem, leb, length, get_elem?, ◌==◌,
  if◌then◌else◌, nat_eq, arith,
}
use prism_rust_vivek.Crypto.{H256}
use prism_rust_vivek.Ledger.Transaction.{CoinId, Output, coin_eq}
use prism_rust_vivek.Ledger.Utxo.{Utxo, delete_coins, put_outputs, coin_of, output_coins}

pub lookup-delete_coins :
    (c : CoinId) (coins : List CoinId) (db : Utxo)
    → lookup c (delete_coins coins db) ≡ (if elem c coins then none else lookup c db)
unfolding delete_coins elem
lookup-delete_coins c [] db = refl
lookup-delete_coins c (k ∷ coins) db =
    ground (arith, lookup-delete_coins c coins (remove k db), lookup-remove k c db)

-- The output that a transaction of a hash has under a coin id.
abbrev pub output_at : H256 → ℕ → List Output → CoinId → Option Output
output_at hash idx outputs c =
    if c.hash == hash && leb idx c.index then get_elem? outputs (c.index - idx) else none

abbrev pub or_else {ℓ} : {A : Type ℓ} → Option A → Option A → Option A
or_else (some a) _ = some a
or_else none o = o

get_elem?-shift :
    (idx i : ℕ) (o : Output) (outputs : List Output)
    → idx < i
    → get_elem? (o ∷ outputs) (i - idx) ≡ get_elem? outputs (i - (idx + 1))
get_elem?-shift idx i o outputs h =
    let e : i - idx ≡ suc (i - (idx + 1)) = omega arith in ap (get_elem? (o ∷ outputs)) e

get_elem?-here :
    (idx i : ℕ) (o : Output) (outputs : List Output)
    → idx ≡ i
    → get_elem? (o ∷ outputs) (i - idx) ≡ some o
get_elem?-here idx i o outputs h =
    let e : i - idx ≡ 0 = omega arith in ap (get_elem? (o ∷ outputs)) e

output_at-cons :
    (hash : H256) (idx : ℕ) (o : Output) (outputs : List Output) (c : CoinId)
    → idx < 2 ^ 32
    → output_at hash idx (o ∷ outputs) c
      ≡ or_else
          (output_at hash (idx + 1) outputs c)
          (if coin_of hash idx == c then some o else none)
output_at-cons hash idx o outputs c h =
    ground (arith, get_elem?-shift idx c.index o outputs, get_elem?-here idx c.index o outputs)

pub lookup-put_outputs :
    (hash : H256) (idx : ℕ) (outputs : List Output) (c : CoinId) (db : Utxo)
    → idx + length outputs ≤ 2 ^ 32
    → lookup c (put_outputs hash idx outputs db)
      ≡ or_else (output_at hash idx outputs c) (lookup c db)
unfolding put_outputs
lookup-put_outputs hash idx [] c db h = ground arith
lookup-put_outputs hash idx (o ∷ outputs) c db h = ground (
  arith,
  lookup-put_outputs hash (idx + 1) outputs c (insert (coin_of hash idx) o db),
  lookup-insert (coin_of hash idx) c o db,
  output_at-cons hash idx o outputs c,
)

pub elem-output_coins :
    (hash : H256) (idx : ℕ) (outputs : List Output) (c : CoinId)
    → idx + length outputs ≤ 2 ^ 32
    → elem c (output_coins hash idx outputs)
      ≡ elim (output_at hash idx outputs c) [ none ↦ false | some _ ↦ true ]
unfolding output_coins elem
elem-output_coins hash idx [] c h = ground arith
elem-output_coins hash idx (o ∷ outputs) c h =
    ground (arith, elem-output_coins hash (idx + 1) outputs c, output_at-cons hash idx o outputs c)
