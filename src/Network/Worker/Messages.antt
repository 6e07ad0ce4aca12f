-- ===== src/Network/Worker/Messages.antt =====
-- Whatever message arrives, the worker answers it and keeps its state in order.
use mathlib.Core.Path.{subst}
use prism_rust_vivek.Prelude.{
  add_all, ◌+◌, ◌<◌, ◌^◌, ◌≡◌, ◌≢◌, refl, ◌∙◌, true, some, List, [], ◌∷◌, All, length, lookup, elem,
  nat_eq, arith,
}
use prism_rust_vivek.Crypto.{H256}
use prism_rust_vivek.Ledger.Transaction.{Transaction}
use prism_rust_vivek.Block.{Block}
use prism_rust_vivek.Blockdb.{Bytes}
use prism_rust_vivek.Chain.Extends.{HasSpace, HasSpace-less}
use prism_rust_vivek.Mempool.{MemoryPool, new_transaction}
use prism_rust_vivek.Mempool.Valid.{IsValid, new_transaction-IsValid, new_transaction-room}
use prism_rust_vivek.Validation.{check_data_availability, missing_references}
use prism_rust_vivek.Validation.Missing.{unavailable}
use prism_rust_vivek.Network.Message.{
  Libraries, Message, Event, write, ping, pong, new_block_hashes, get_blocks, blocks,
  new_transaction_hashes, get_transactions, transactions, bootstrap,
}
use prism_rust_vivek.Network.Context.{Context}
use prism_rust_vivek.Network.Processing.{push_all, process_blocks}
use prism_rust_vivek.Network.Processing.Sound.{IsSound, unprocessed}
use prism_rust_vivek.Network.Processing.Accept.{length-push_all}
use prism_rust_vivek.Network.Processing.Loop.{process_blocks-IsSound}
use prism_rust_vivek.Network.Worker.{
  add_transactions, unknown_blocks, unknown_transactions, known_transactions, known_blocks, if_any,
  receive_blocks, handle_received, handle_blocks, handle_message, process_fuel, events_of,
}
use prism_rust_vivek.Network.Worker.Received.{
  working, same_work, with_sets, Readable, receive_blocks-IsSound,
}

-- The state between two messages: nothing is left to process.
abbrev pub IsNode : Libraries → Context → Type 0
IsNode l c = IsSound l (working c [])

handle_received-IsNode :
    (l : Libraries) (received : List Block) (c : Context)
    → IsSound l (working c (push_all received []))
    → (c' : Context) × (events : List Event) × (handle_received l received c ≡ some (c', events))
      × IsNode l c'
unfolding handle_received push_all
handle_received-IsNode l [] c v = (c, [], refl, v)
handle_received-IsNode l (block ∷ rest) c v =
    let received = block ∷ rest in
    let n = length received + length c.buffer.dependency in
    let len = length-push_all received [] in
    let (end, run, sound, empty) =
      process_blocks-IsSound l (process_fuel l received c) n (working c (push_all received [])) v
        (omega (arith, len)) (ground (arith, len)) in
    (
      end.context,
      events_of l received end,
      rw (run, process_blocks) refl,
      subst (λ (t : List Block). IsSound l (working end.context t)) empty (same_work l end sound),
    )

-- A message that the state has room for: its blocks decode, and their keys and signatures parse; the
-- levels of the chain and the counter of the pool stay below 2 ^ 64.
abbrev pub IsAcceptable : Libraries → Message → Context → Type 0
IsAcceptable l (blocks encoded) c =
    All (Readable l) encoded × HasSpace (length c.buffer.dependency + length encoded) c.chain
IsAcceptable l (transactions ts) c = c.mempool.counter + length ts < 2 ^ 64
IsAcceptable l _ c = Unit

add_transactions-IsValid :
    (l : Libraries) (ts : List Transaction) (p : MemoryPool)
    → IsValid l.tx_hash p
    → p.max_transactions + 1 < 2 ^ 64
    → p.counter + length ts < 2 ^ 64
    → IsValid l.tx_hash (add_transactions l ts p)
      × ((add_transactions l ts p).max_transactions ≡ p.max_transactions)
unfolding add_transactions
add_transactions-IsValid l [] p v limit room = (v, refl)
add_transactions-IsValid l (t ∷ ts) p v limit room =
    let (same, grows) = new_transaction-room l.tx_hash p t in
    let (w, same') =
      add_transactions-IsValid l ts (new_transaction l.tx_hash p t)
        (new_transaction-IsValid l.tx_hash p t v (omega (arith, room)) limit)
        (omega (arith, limit, same)) (omega (arith, room, grows)) in
    (w, same' ∙ same)

with_pool :
    (l : Libraries) (c : Context) (p : MemoryPool)
    → IsNode l c
    → IsValid l.tx_hash p
    → p.max_transactions ≡ c.mempool.max_transactions
    → IsNode l (record c { mempool = p })
with_pool l c p v valid same = record {
  forest = v.forest;
  pool = valid;
  limit = omega (arith, same, v.limit);
  buffered = v.buffered;
  space = v.space;
  once = v.once;
  unknown = v.unknown;
  stored = v.stored;
  proposer_stored = v.proposer_stored;
  voter_stored = v.voter_stored;
  stack_checked = v.stack_checked;
  buffer_checked = v.buffer_checked;
  starved = v.starved;
}

-- What the worker does with a message: it does not panic, and the state is in order afterwards.
abbrev pub Handled : Libraries → Message → Context → Type 0
Handled l m c =
    (c' : Context) × (events : List Event) × (handle_message l m c ≡ some (c', events))
    × IsNode l c'

handle_blocks-IsNode :
    (l : Libraries) (encoded : List Bytes) (c : Context)
    → IsNode l c
    → IsAcceptable l (blocks encoded) c
    → Handled l (blocks encoded) c
unfolding handle_message handle_blocks
handle_blocks-IsNode l encoded c v (readable, space) =
    let (received, c1, run, sound) = receive_blocks-IsSound l encoded c [] v readable (
      HasSpace-less (unprocessed (working c []) + length encoded)
        (length c.buffer.dependency + length encoded) c.chain (omega arith) space) in
    let (c2, events, run', node) = handle_received-IsNode l received c1 sound in
    (c2, events, rw (run, receive_blocks) run', node)

-- Whatever acceptable message arrives, the worker handles it without a panic, and its state stays in
-- order.
pub handle_message-IsNode :
    (l : Libraries) (m : Message) (c : Context) → IsNode l c → IsAcceptable l m c → Handled l m c
unfolding handle_message
handle_message-IsNode l (ping nonce) c v a = (c, write (pong nonce) ∷ [], refl, v)
handle_message-IsNode l (pong nonce) c v a = (c, [], refl, v)
handle_message-IsNode l (new_transaction_hashes hashes) c v a = (
  c,
  if_any (unknown_transactions c.mempool hashes)
      (write (get_transactions (unknown_transactions c.mempool hashes))),
  refl,
  v,
)
handle_message-IsNode l (get_transactions hashes) c v a =
    (c, write (transactions (known_transactions c.mempool hashes)) ∷ [], refl, v)
handle_message-IsNode l (transactions ts) c v a =
    let (valid, same) = add_transactions-IsValid l ts c.mempool v.pool v.limit a in
    (
      record c { mempool = add_transactions l ts c.mempool },
      [],
      refl,
      with_pool l c (add_transactions l ts c.mempool) v valid same,
    )
handle_message-IsNode l (new_block_hashes hashes) c v a = (
  record c { requested_blocks = add_all (unknown_blocks c hashes) c.requested_blocks },
  if_any (unknown_blocks c hashes) (write (get_blocks (unknown_blocks c hashes))),
  refl,
  with_sets l c [] c.recent_blocks (add_all (unknown_blocks c hashes) c.requested_blocks) v,
)
handle_message-IsNode l (get_blocks hashes) c v a =
    (c, write (blocks (known_blocks c.blockdb hashes)) ∷ [], refl, v)
handle_message-IsNode l (blocks encoded) c v a = handle_blocks-IsNode l encoded c v a
handle_message-IsNode l (bootstrap after) c v a = (c, [], refl, v)

elem-first : (ds : List H256) → ds ≢ [] → (d : H256) × (elem d ds ≡ true)
unfolding elem
elem-first [] ne = absurd (ne refl)
elem-first (d ∷ ds) ne = (d, ground arith)

lacks_reference :
    (l : Libraries) (c : Context)
    → IsNode l c
    → (n : H256) (ds : List H256) → lookup n c.buffer.dependency ≡ some ds
    → (block : Block) × (lookup n c.buffer.blocks ≡ some block)
      × (missing : List H256) × (check_data_availability block c.chain ≡ missing_references missing)
lacks_reference l c v n ds there =
    let (block, found, _) = v.buffered.stored n ds there in
    let (d, waits) = elem-first ds (v.buffered.needs n ds there) in
    let (missing, e) = unavailable block c.chain d (v.starved n d block (ds, there, waits) found) in
    (block, found, missing, e)

-- After the blocks of an acceptable message are handled, a block that is in the buffer still lacks a
-- reference: a block leaves the buffer as soon as the last of its references enters the chain.
pub buffered_block_lacks_reference :
    (l : Libraries) (encoded : List Bytes) (c c' : Context) (events : List Event) (n : H256)
    (ds : List H256)
    → IsNode l c
    → IsAcceptable l (blocks encoded) c
    → handle_message l (blocks encoded) c ≡ some (c', events)
    → lookup n c'.buffer.dependency ≡ some ds
    → (block : Block) × (lookup n c'.buffer.blocks ≡ some block)
      × (missing : List H256) × (check_data_availability block c'.chain
          ≡ missing_references missing)
buffered_block_lacks_reference l encoded c c' events n ds v a run there =
    let (d, events', run', node) = handle_message-IsNode l (blocks encoded) c v a in
    let same : d ≡ c' = cc (run, run') in
    lacks_reference l c' (subst (IsNode l) same node) n ds there
