-- ===== src/Network/Worker.antt =====
-- src/network/worker.rs: what a worker does with a message, as the state that it leaves and the
-- events that it causes, in order. `none` is a panic.
pub mod Received
pub mod Messages
pub mod Requests
use prism_rust_vivek.Prelude.{
  add_all, ℕ, ◌+◌, ◌*◌, Bool, true, false, not, ◌||◌, Option, none, some, List, [], ◌∷◌, ◌++◌, map,
  filter, length, elem, add, discard, if◌then◌else◌, nat_eq, ◌==◌, ◌>>=◌,
}
use prism_rust_vivek.Crypto.{H256}
use prism_rust_vivek.Ledger.Transaction.{Transaction}
use prism_rust_vivek.Block.{Block, block_hash}
use prism_rust_vivek.Chain.Query.{sort}
use prism_rust_vivek.Mempool.{MemoryPool, Entry, get, new_transaction, contains as in_mempool}
use prism_rust_vivek.Blockdb.{
  BlockDatabase, Bytes, insert_encoded, get_encoded, contains as in_blockdb,
}
use prism_rust_vivek.Validation.{BlockResult, check_pow_sortition_id, pass}
use prism_rust_vivek.Network.Message.{
  Message, ping, pong, new_block_hashes, get_blocks, blocks, new_transaction_hashes,
  get_transactions, transactions, bootstrap, Event, write, broadcast, send, Libraries,
}
use prism_rust_vivek.Network.Context.{Context}
use prism_rust_vivek.Network.Processing.{Progress, is_pass, push_all, process_blocks}

-- `if !hashes.is_empty() { .. }`
abbrev pub if_any {ℓ} : {A : Type ℓ} → List A → Event → List Event
if_any [] e = []
if_any (x ∷ xs) e = e ∷ []

-- the hashes of which the pool has no transaction
abbrev pub unknown_transactions : MemoryPool → List H256 → List H256
unknown_transactions p hashes = filter (λ h. not (in_mempool p h)) hashes

unfoldable pub known_transactions : MemoryPool → List H256 → List Transaction
unfolding get
known_transactions p [] = []
known_transactions p (h ∷ hashes) =
    let rest = known_transactions p hashes in
    elim (get p h) [ none ↦ rest | some entry ↦ entry.transaction ∷ rest ]

abbrev pub unknown_blocks : Context → List H256 → List H256
unknown_blocks c hashes =
    filter (λ h. not (in_blockdb h c.blockdb || elem h c.requested_blocks)) hashes

unfoldable pub known_blocks : BlockDatabase → List H256 → List Bytes
unfolding get_encoded
known_blocks db [] = []
known_blocks db (h ∷ hashes) =
    let rest = known_blocks db hashes in
    elim (get_encoded h db) [ none ↦ rest | some encoded_block ↦ encoded_block ∷ rest ]

-- `dedup`: of equal neighbours, the first stays
unfoldable pub dedup : List H256 → List H256
dedup [] = []
dedup (x ∷ xs) =
    let rest = dedup xs in
    elim rest [ [] ↦ x ∷ [] | y ∷ ys ↦ if x == y then x ∷ ys else x ∷ y ∷ ys ]

-- a new block with valid proof of work: stored, unless the database has it
unfoldable pub store_block : H256 → Bytes → Context → Bool × Context
unfolding insert_encoded
store_block hash encoded_block c =
    if in_blockdb hash c.blockdb
    then (false, record c { recent_blocks = discard hash (add hash c.recent_blocks) })
    else (
      true,
      record c {
        blockdb = (insert_encoded hash encoded_block c.blockdb).1;
        recent_blocks = discard hash (add hash c.recent_blocks);
      },
    )

module _ (l : Libraries) where
  unfoldable pub add_transactions : List Transaction → MemoryPool → MemoryPool
  unfolding new_transaction
  add_transactions [] p = p
  add_transactions (t ∷ ts) p = add_transactions ts (new_transaction l.tx_hash p t)

  -- the checks before it; the flag tells whether the block is to be processed
  unfoldable pub receive_decoded : Block → Bytes → Context → Bool × Context
  unfolding store_block check_pow_sortition_id block_hash
  receive_decoded block encoded_block c =
      let hash = block_hash l.header_hash block in
      let arrived = record c { requested_blocks = discard hash c.requested_blocks } in
      if is_pass (check_pow_sortition_id l.header_hash l.u256 block c.config)
      then if elem hash c.recent_blocks
        then (false, arrived)
        else store_block hash encoded_block arrived
      else (false, arrived)

  -- the loop over the encoded blocks: those to be processed, and the state
  unfoldable pub receive_blocks : List Bytes → Context → Option (List Block × Context)
  unfolding receive_decoded
  receive_blocks [] c = some ([], c)
  receive_blocks (encoded_block ∷ encoded_blocks) c = do
    block ← l.decode encoded_block
    let (fresh, c') = receive_decoded block encoded_block c
    rest ← receive_blocks encoded_blocks c'
    some (if fresh then (block ∷ rest.0, rest.1) else rest)

  -- Every round inserts or drops a block, or moves one to the buffer.
  abbrev pub process_fuel : List Block → Context → ℕ
  process_fuel received c =
      let n = length received + length c.buffer.dependency in n * (n + 1) + length received + 1

  -- The new blocks to all peers, the signals to the miner, and what is missing to the peer.
  abbrev pub events_of : List Block → Progress → List Event
  events_of received s =
      let to_request = dedup (sort s.to_request) in
      broadcast (new_block_hashes (map (block_hash l.header_hash) received))
        ∷ map send s.context_update_sig
      ++ if_any to_request (write (get_blocks to_request))

  -- what is left to do with the blocks that are to be processed
  unfoldable pub handle_received : List Block → Context → Option (Context × List Event)
  unfolding process_blocks push_all block_hash sort dedup
  handle_received [] c = some (c, [])
  handle_received (b ∷ bs) c = do
    let received = b ∷ bs
    s ← process_blocks l (process_fuel received c) (record {
      context = c;
      to_process = push_all received [];
      to_request = [];
      context_update_sig = [];
    })
    some (s.context, events_of received s)

  unfoldable pub handle_blocks : List Bytes → Context → Option (Context × List Event)
  unfolding receive_blocks handle_received
  handle_blocks encoded_blocks c = do
    received ← receive_blocks encoded_blocks c
    handle_received received.0 received.1

  unfoldable pub handle_message : Message → Context → Option (Context × List Event)
  unfolding known_transactions known_blocks add_all add_transactions handle_blocks
  handle_message (ping nonce) c = some (c, write (pong nonce) ∷ [])
  handle_message (pong nonce) c = some (c, [])
  handle_message (new_transaction_hashes hashes) c =
      let hashes_to_request = unknown_transactions c.mempool hashes in
      some (c, if_any hashes_to_request (write (get_transactions hashes_to_request)))
  handle_message (get_transactions hashes) c =
      some (c, write (transactions (known_transactions c.mempool hashes)) ∷ [])
  handle_message (transactions ts) c =
      some (record c { mempool = add_transactions ts c.mempool }, [])
  handle_message (new_block_hashes hashes) c =
      let hashes_to_request = unknown_blocks c hashes in
      some (
        record c { requested_blocks = add_all hashes_to_request c.requested_blocks },
        if_any hashes_to_request (write (get_blocks hashes_to_request)),
      )
  handle_message (get_blocks hashes) c =
      some (c, write (blocks (known_blocks c.blockdb hashes)) ∷ [])
  handle_message (blocks encoded_blocks) c = handle_blocks encoded_blocks c
  handle_message (bootstrap after) c = some (c, [])
