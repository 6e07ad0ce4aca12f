-- ===== src/Blockdb/Tests.antt =====
-- The theorem on the block database at a database of the genesis blocks and one more. A block is
-- encoded as the number of its chain.
use prism_rust_vivek.Prelude.{
  ◌+◌, ◌-◌, ◌≡◌, refl, Option, none, some, List, [], ◌∷◌, map, length, ltb, if◌then◌else◌, lookup,
  insert,
}
use prism_rust_vivek.Crypto.{H256}
use prism_rust_vivek.Chain.Sample.{config}
use prism_rust_vivek.Block.{Block, Header, voter, proposer_genesis_block, voter_genesis_block}
use prism_rust_vivek.Blockdb.{BlockDatabase, BlocksInArrivalOrder, Bytes, insert_encoded, new, next}
use prism_rust_vivek.Blockdb.Arrival.{arrivals}
use prism_rust_vivek.Blockdb.Reached.{IsReached, created, received, batch_of, next_lem, empty_db}

abbrev encode : Block → Bytes
encode block = elim block.content [ voter c ↦ c.chain_number ∷ [] | _ ↦ [] ]

abbrev decode : Bytes → Option Block
decode [] = some proposer_genesis_block
decode (chain_num ∷ []) = some (voter_genesis_block chain_num)
decode _ = none

abbrev header_hash : Header → H256
header_hash header = header.nonce

-- what `new` makes
abbrev genesis_db : BlockDatabase
genesis_db = elim (new encode config) [ none ↦ empty_db | some db ↦ db ]

genesis_db-IsReached : IsReached encode decode header_hash config genesis_db
unfolding new
genesis_db-IsReached = created refl

abbrev larger_db : BlockDatabase
larger_db = (insert_encoded 77 (5 ∷ []) genesis_db).1

larger_db-IsReached : IsReached encode decode header_hash config larger_db
larger_db-IsReached = received 77 (5 ∷ []) (voter_genesis_block 5) refl genesis_db-IsReached

abbrev iterator : BlocksInArrivalOrder
iterator = record { seq = 1; batch = 2 }

-- The first batch after the proposer genesis block has the two voter genesis blocks.
first_batch :
    next decode iterator larger_db
    ≡ some
        (some (voter_genesis_block 0 ∷ voter_genesis_block 1 ∷ []), record { seq = 3; batch = 2 })
unfolding next new insert_encoded lookup insert
first_batch = refl

next_lem_example :
    (blocks : List Block) × (next decode iterator larger_db
      ≡ some (batch_of blocks, record iterator { seq = 1 + length blocks }))
    × (map some blocks ≡ arrivals decode larger_db 1 (length blocks))
    × (length blocks ≡ (if ltb 2 (larger_db.count - 1) then 2 else larger_db.count - 1))
next_lem_example =
    next_lem encode decode refl (λ chain_num. refl) header_hash config larger_db iterator
      larger_db-IsReached
