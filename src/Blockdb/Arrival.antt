-- ===== src/Blockdb/Arrival.antt =====
-- The order of arrival in src/blockdb/mod.rs: every number below the count is that of a block that
-- the database has.
use prism_rust_vivek.Prelude.{
  ℕ, zero, suc, ◌+◌, ◌-◌, ◌^◌, ◌<◌, ◌≡◌, refl, sym, ap, true, false, Option, some, List, [], ◌∷◌,
  length, map, nat_beq, if◌then◌else◌, nat_eq, arith, Bool-cases, inl, inr, ltb, ◌>>=◌, lookup,
  lookup-insert, add_u64,
}
use prism_rust_vivek.Crypto.{H256}
use prism_rust_vivek.Block.{Block}
use prism_rust_vivek.Blockdb.{BlockDatabase, Bytes, put_block, next_blocks}

module _ (decode : Bytes → Option Block) where
  -- The block with a number is there, and decodes.
  unfoldable pub IsArrived : BlockDatabase → ℕ → Type 0
  IsArrived db i =
      (hash : H256) × (raw : Bytes) × (block : Block) × (lookup i db.block_arrival_order_cf
        ≡ some hash)
      × (lookup hash db.block_cf ≡ some raw)
      × (decode raw ≡ some block)

  put_block-new :
      (hash : H256) (raw : Bytes) (n : ℕ) (db : BlockDatabase) (block : Block)
      → decode raw ≡ some block
      → IsArrived (put_block hash raw n db) n
  unfolding IsArrived put_block
  put_block-new hash raw n db block d = (
    hash,
    raw,
    block,
    ground (arith, lookup-insert n n hash db.block_arrival_order_cf),
    ground (arith, lookup-insert hash hash raw db.block_cf),
    d,
  )

  put_block-old :
      (hash : H256) (raw : Bytes) (n i : ℕ) (db : BlockDatabase) (block : Block)
      → decode raw ≡ some block
      → IsArrived db i
      → IsArrived (put_block hash raw n db) i
  unfolding IsArrived put_block
  put_block-old hash raw n i db block d (h, s, b, at, found, e) =
      let order = lookup-insert n i hash db.block_arrival_order_cf in
      elim (Bool-cases (nat_beq n i)) [
        | inl here ↦ (
          hash,
          raw,
          block,
          ground (arith, order, here),
          ground (arith, lookup-insert hash hash raw db.block_cf),
          d,
        )
        | inr there ↦
            let blocks = lookup-insert hash h raw db.block_cf in
            elim (Bool-cases (nat_beq hash h)) [
              | inl same ↦
                  (h, raw, block, ground (arith, order, there, at), ground (arith, blocks, same), d)
              | inr other ↦ (
                h,
                s,
                b,
                ground (arith, order, there, at),
                ground (arith, blocks, other, found),
                e,
              )
            ]
      ]

  -- The numbers below a bound are those of blocks.
  unfoldable pub IsFilled : ℕ → BlockDatabase → Type 0
  IsFilled n db = (i : ℕ) → i < n → IsArrived db i

  pub put_block-IsFilled :
      (hash : H256) (raw : Bytes) (n : ℕ) (db : BlockDatabase) (block : Block)
      → decode raw ≡ some block
      → IsFilled n db
      → IsFilled (add_u64 n 1) (put_block hash raw n db)
  unfolding IsFilled
  put_block-IsFilled hash raw n db block d filled i h = elim (Bool-cases (nat_beq n i)) [
    | inl here ↦
        let e : n ≡ i = ground (arith, here) in rw (sym e) (put_block-new hash raw n db block d)
    | inr there ↦ put_block-old hash raw n i db block d (filled i (ground (arith, there)))
  ]

  -- The block with a number.
  unfoldable pub numbered : BlockDatabase → ℕ → Option Block
  numbered db i = do
    hash ← lookup i db.block_arrival_order_cf
    raw ← lookup hash db.block_cf
    decode raw

  -- The blocks with some numbers in a row.
  unfoldable pub arrivals : BlockDatabase → ℕ → ℕ → List (Option Block)
  arrivals db seq zero = []
  arrivals db seq (suc n) = numbered db seq ∷ arrivals db (seq + 1) n

  next_blocks-end :
      (left seq : ℕ) (db : BlockDatabase)
      → ltb seq db.count ≡ false
      → next_blocks decode left seq db ≡ some ([], seq)
  unfolding next_blocks
  next_blocks-end zero seq db h = refl
  next_blocks-end (suc left) seq db h = rw h refl

  next_blocks-suc :
      (left seq : ℕ) (db : BlockDatabase) (hash : H256) (raw : Bytes) (block : Block)
      (blocks : List Block) (last : ℕ)
      → ltb seq db.count ≡ true
      → lookup seq db.block_arrival_order_cf ≡ some hash
      → lookup hash db.block_cf ≡ some raw
      → decode raw ≡ some block
      → next_blocks decode left (add_u64 seq 1) db ≡ some (blocks, last)
      → next_blocks decode (suc left) seq db ≡ some (block ∷ blocks, last)
  unfolding next_blocks
  next_blocks-suc left seq db hash raw block blocks last more at found d rest =
      rw (more, at, found, d, rest) refl

  -- What a batch of blocks is.
  unfoldable pub Batch : ℕ → ℕ → BlockDatabase → Type 0
  Batch left seq db =
      (blocks : List Block) × (next_blocks decode left seq db ≡ some (blocks, seq + length blocks))
      × (map some blocks ≡ arrivals db seq (length blocks))
      × (length blocks ≡ (if ltb left (db.count - seq) then left else db.count - seq))

  Batch-end : (left seq : ℕ) (db : BlockDatabase) → ltb seq db.count ≡ false → Batch left seq db
  unfolding Batch arrivals
  Batch-end left seq db done =
      let e : seq + 0 ≡ seq = omega arith in
      ([], rw e (next_blocks-end left seq db done), refl, ground (arith, done))

  Batch-zero : (seq : ℕ) (db : BlockDatabase) → Batch 0 seq db
  unfolding Batch arrivals next_blocks
  Batch-zero seq db = let e : seq + 0 ≡ seq = omega arith in ([], rw e refl, refl, ground arith)

  Batch-suc :
      (left seq : ℕ) (db : BlockDatabase)
      → db.count < 2 ^ 64
      → ltb seq db.count ≡ true
      → IsArrived db seq
      → Batch left (seq + 1) db
      → Batch (suc left) seq db
  unfolding Batch arrivals IsArrived numbered
  Batch-suc left seq db small more (hash, raw, block, at, found, d) (blocks, e, listed, size) =
      let s : add_u64 seq 1 ≡ seq + 1 = ground (arith, more, small) in
      let n : seq + length (block ∷ blocks) ≡ seq + 1 + length blocks = omega arith in
      (
        block ∷ blocks,
        rw n (
            next_blocks-suc left seq db hash raw block blocks (seq + 1 + length blocks) more at
              found d (rw s e)),
        rw (at, found, d) (ap (λ r. some block ∷ r) listed),
        ground (arith, more, size),
      )

  -- A batch has the blocks that come next, as many as it is for, or as are left.
  pub next_blocks-Batch :
      (left seq : ℕ) (db : BlockDatabase)
      → IsFilled db.count db
      → db.count < 2 ^ 64
      → Batch left seq db
  unfolding IsFilled
  next_blocks-Batch zero seq db filled small = Batch-zero seq db
  next_blocks-Batch (suc left) seq db filled small = elim (Bool-cases (ltb seq db.count)) [
    | inr done ↦ Batch-end (suc left) seq db done
    | inl more ↦
        Batch-suc left seq db small more (filled seq (ground (arith, more)))
          (next_blocks-Batch left (seq + 1) db filled small)
  ]
