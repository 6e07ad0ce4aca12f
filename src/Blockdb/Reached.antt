-- ===== src/Blockdb/Reached.antt =====
-- The databases that `new` and the insertions of src/blockdb/mod.rs make, and what their iterators
-- give.
use prism_rust_vivek.Prelude.{
  ℕ, zero, suc, ◌+◌, ◌-◌, ◌%◌, ◌^◌, ◌<◌, ◌≡◌, refl, sym, ◌∙◌, Option, none, some, List, [], ◌∷◌,
  length, map, if◌then◌else◌, nat_eq, arith, Option-cases, inl, inr, ltb, ◌>>=◌, add_u64, get_elem?,
}
use mathlib.Core.Option.{some-injective}
use prism_rust_vivek.Crypto.{H256}
use prism_rust_vivek.Config.{BlockchainConfig}
use prism_rust_vivek.Block.{Block, Header, proposer_genesis_block, voter_genesis_block, block_hash}
use prism_rust_vivek.Blockdb.{
  BlockDatabase, BlocksInArrivalOrder, Bytes, put_block, insert_encoded, insert_block, put_geneses,
  new, next_blocks, next,
}
use prism_rust_vivek.Blockdb.Arrival.{
  IsFilled, IsArrived, put_block-IsFilled, Batch, next_blocks-Batch, arrivals,
}

module _ (encode : Block → Bytes) (decode : Bytes → Option Block) (header_hash : Header → H256)
    (config : BlockchainConfig) where
  -- The databases that come about; what is inserted has to decode.
  pub data IsReached : BlockDatabase → Type 0 where
    created : {db : BlockDatabase} → new encode config ≡ some db → IsReached db
    inserted :
        {db : BlockDatabase} (block : Block)
        → decode (encode block) ≡ some block
        → IsReached db
        → IsReached (insert_block encode header_hash block db).1
    received :
        {db : BlockDatabase} (hash : H256) (raw : Bytes) (block : Block)
        → decode raw ≡ some block
        → IsReached db
        → IsReached (insert_encoded hash raw db).1

put_geneses-out :
    (encode : Block → Bytes) (config : BlockchainConfig) (i chains counter : ℕ) (db : BlockDatabase)
    → get_elem? config.voter_genesis i ≡ none
    → put_geneses encode config i (suc chains) (counter, db) ≡ none
unfolding put_geneses
put_geneses-out encode config i chains counter db out = rw out refl

put_geneses-suc :
    (encode : Block → Bytes) (config : BlockchainConfig) (i chains counter : ℕ) (db : BlockDatabase)
    (hash : H256)
    → get_elem? config.voter_genesis i ≡ some hash
    → put_geneses encode config i (suc chains) (counter, db)
      ≡ put_geneses encode config
          (i + 1)
          chains
          (add_u64 counter 1, put_block hash (encode (voter_genesis_block (i % 2 ^ 16))) counter db)
unfolding put_geneses
put_geneses-suc encode config i chains counter db hash at = rw at refl

put_geneses-zero :
    (encode : Block → Bytes) (config : BlockchainConfig) (i counter : ℕ) (db : BlockDatabase)
    → put_geneses encode config i zero (counter, db) ≡ some (counter, db)
unfolding put_geneses
put_geneses-zero encode config i counter db = refl

abbrev pub empty_db : BlockDatabase
empty_db = record {
  block_cf = [];
  block_arrival_order_cf = [];
  block_sequence_number_cf = [];
  count = 0;
}

new-run :
    (encode : Block → Bytes) (config : BlockchainConfig)
    → new encode config ≡ (
        put_geneses encode config 0 config.voter_chains
          (1, put_block config.proposer_genesis (encode proposer_genesis_block) 0 empty_db)
        >>= (λ last. some (record last.1 { count = last.0 })))
unfolding new
new-run encode config = refl

insert_block-eq :
    (encode : Block → Bytes) (header_hash : Header → H256) (block : Block) (db : BlockDatabase)
    → insert_block encode header_hash block db
      ≡ insert_encoded (block_hash header_hash block) (encode block) db
unfolding insert_block insert_encoded
insert_block-eq encode header_hash block db = refl

-- a batch, if there is one
abbrev pub batch_of : List Block → Option (List Block)
batch_of [] = none
batch_of (block ∷ blocks) = some (block ∷ blocks)

next-run :
    (decode : Bytes → Option Block) (it : BlocksInArrivalOrder) (db : BlockDatabase)
    (blocks : List Block) (last : ℕ)
    → next_blocks decode it.batch it.seq db ≡ some (blocks, last)
    → next decode it db ≡ some (batch_of blocks, record it { seq = last })
unfolding next
next-run decode it db [] last e = rw e refl
next-run decode it db (block ∷ blocks) last e = rw e refl

module _ (decode : Bytes → Option Block) where
  -- The numbers below the count are those of blocks, and the count is one of 64 bits.
  unfoldable pub IsComplete : BlockDatabase → Type 0
  IsComplete db = IsFilled decode db.count db × (db.count < 2 ^ 64)

  recount :
      (n m : ℕ) (db : BlockDatabase)
      → IsFilled decode n db
      → IsFilled decode n (record db { count = m })
  unfolding IsFilled IsArrived
  recount n m db h i below = h i below

  insert_encoded-IsComplete :
      (hash : H256) (raw : Bytes) (db : BlockDatabase) (block : Block)
      → decode raw ≡ some block
      → IsComplete db
      → IsComplete (insert_encoded hash raw db).1
  unfolding IsComplete insert_encoded
  insert_encoded-IsComplete hash raw db block d (filled, small) =
      let db' : BlockDatabase = record db { count = add_u64 db.count 1 } in
      (
        put_block-IsFilled decode hash raw db.count db' block d
            (recount db.count (add_u64 db.count 1) db filled),
        omega arith,
      )

module _ (encode : Block → Bytes) (decode : Bytes → Option Block)
    (decodes : decode (encode proposer_genesis_block) ≡ some proposer_genesis_block)
    (decodes_voter : (chain_num : ℕ)
      → decode (encode (voter_genesis_block chain_num)) ≡ some (voter_genesis_block chain_num))
    (config : BlockchainConfig) where
  unfoldable Filled : ℕ × BlockDatabase → Type 0
  Filled state = IsFilled decode state.0 state.1 × (state.0 < 2 ^ 64)

  put_block-Filled :
      (hash : H256) (block : Block) (n : ℕ) (db : BlockDatabase)
      → decode (encode block) ≡ some block
      → Filled (n, db)
      → Filled (add_u64 n 1, put_block hash (encode block) n db)
  unfolding Filled
  put_block-Filled hash block n db d filled =
      (put_block-IsFilled decode hash (encode block) n db block d filled.0, omega arith)

  put_geneses-Filled :
      (i chains counter : ℕ) (db : BlockDatabase) {last : ℕ × BlockDatabase}
      → put_geneses encode config i chains (counter, db) ≡ some last
      → Filled (counter, db)
      → Filled last
  put_geneses-Filled i zero counter db done filled =
      let e =
        some-injective (counter, db) _ (sym (put_geneses-zero encode config i counter db) ∙ done) in
      rw (sym e) filled
  put_geneses-Filled i (suc chains) counter db done filled =
      elim (Option-cases (get_elem? config.voter_genesis i)) [
        | inl out ↦ let e = put_geneses-out encode config i chains counter db out in cc
        | inr (hash, at) ↦
            let raw = encode (voter_genesis_block (i % 2 ^ 16)) in
            let e = put_geneses-suc encode config i chains counter db hash at in
            put_geneses-Filled (i + 1) chains (add_u64 counter 1) (put_block hash raw counter db)
              (sym e ∙ done)
              (put_block-Filled hash (voter_genesis_block (i % 2 ^ 16)) counter db
                (decodes_voter (i % 2 ^ 16)) filled)
      ]

  first-Filled :
      Filled (1, put_block config.proposer_genesis (encode proposer_genesis_block) 0 empty_db)
  unfolding Filled IsFilled
  first-Filled =
      let first =
        put_block-IsFilled decode config.proposer_genesis (encode proposer_genesis_block) 0 empty_db
          proposer_genesis_block decodes (λ i h. absurd (omega arith)) in
      (first, omega arith)

  new-IsComplete : (db : BlockDatabase) → new encode config ≡ some db → IsComplete decode db
  unfolding IsComplete Filled
  new-IsComplete db made =
      let genesis = put_block config.proposer_genesis (encode proposer_genesis_block) 0 empty_db in
      let run = new-run encode config in
      elim (Option-cases (put_geneses encode config 0 config.voter_chains (1, genesis))) [
        | inl failed ↦ let e : new encode config ≡ none = rw (run, failed) refl in cc
        | inr (last, e) ↦
            let made' : new encode config ≡ some (record last.1 { count = last.0 }) =
              rw (run, e) refl in
            let same = some-injective (record last.1 { count = last.0 }) db (sym made' ∙ made) in
            let filled = put_geneses-Filled 0 config.voter_chains 1 genesis e first-Filled in
            rw (sym same) (recount decode last.0 last.0 last.1 filled.0, filled.1)
      ]

module _ (encode : Block → Bytes) (decode : Bytes → Option Block)
    (decodes : decode (encode proposer_genesis_block) ≡ some proposer_genesis_block)
    (decodes_voter : (chain_num : ℕ)
      → decode (encode (voter_genesis_block chain_num)) ≡ some (voter_genesis_block chain_num))
    (header_hash : Header → H256) (config : BlockchainConfig) where
  IsReached-IsComplete :
      (db : BlockDatabase) → IsReached encode decode header_hash config db → IsComplete decode db
  IsReached-IsComplete db (created made) =
      new-IsComplete encode decode decodes decodes_voter config db made
  IsReached-IsComplete _ (inserted {db} block d reached) =
      rw (insert_block-eq encode header_hash block db) (
        insert_encoded-IsComplete decode (block_hash header_hash block) (encode block) db block d
          (IsReached-IsComplete db reached))
  IsReached-IsComplete _ (received hash raw block d reached) =
      insert_encoded-IsComplete decode hash raw _ block d (IsReached-IsComplete _ reached)

  -- If the genesis blocks, and the blocks that are inserted, decode from their encoding, an iterator
  -- of a database that `new` and any insertions have made gives, without a panic, the blocks that
  -- have the numbers from its own on, in this order: as many as its batch is for, or all that are
  -- left if these are fewer. It gives `none` if there are none, and moves past those that it gave.
  pub next_lem :
      (db : BlockDatabase) (it : BlocksInArrivalOrder)
      → IsReached encode decode header_hash config db
      → (blocks : List Block) × (next decode it db
          ≡ some (batch_of blocks, record it { seq = it.seq + length blocks }))
        × (map some blocks ≡ arrivals decode db it.seq (length blocks))
        × (length blocks
            ≡ (if ltb it.batch (db.count - it.seq) then it.batch else db.count - it.seq))
  unfolding IsComplete Batch
  next_lem db it reached =
      let (filled, small) = IsReached-IsComplete db reached in
      let (blocks, e, listed, size) = next_blocks-Batch decode it.batch it.seq db filled small in
      (blocks, next-run decode it db blocks (it.seq + length blocks) e, listed, size)
