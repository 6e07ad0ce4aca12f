-- ===== src/Network/Tests.antt =====
-- The theorems on the buffer: block 5 waits for blocks 7 and 8, block 6 for block 7 alone.
use prism_rust_vivek.Prelude.{
  arith, Option, none, ◌||◌, ◌&&◌, not, ℕ, ◌≡◌, ◌↔◌, refl, true, some, List, [], ◌∷◌, lookup, elem,
  nat_eq, insert, add, discard, remove,
}
use prism_rust_vivek.Crypto.{H256}
use prism_rust_vivek.Block.{Block, Header, voter, block_hash}
use prism_rust_vivek.Network.Buffer.{BlockBuffer, new, insert_block, satisfy}
use prism_rust_vivek.Network.Buffer.Waiting.{Waits, IsBuffered}
use prism_rust_vivek.Network.Buffer.Rounds.{Treated}
use prism_rust_vivek.Network.Buffer.Satisfy.{satisfy_lem}
use prism_rust_vivek.Blockdb.{Bytes, contains}
use prism_rust_vivek.Chain.Extends.{HasSpace-less}
use prism_rust_vivek.Validation.{check_data_availability, missing_references}
use prism_rust_vivek.Network.Message.{
  Event, new_block_hashes, get_blocks, blocks, write, broadcast, send, new_proposer_block,
}
use prism_rust_vivek.Network.Context.{Context}
use prism_rust_vivek.Network.Worker.{handle_message}
use prism_rust_vivek.Network.Worker.Messages.{
  IsAcceptable, Handled, handle_message-IsNode, buffered_block_lacks_reference,
}
use prism_rust_vivek.Network.Worker.Requests.{announced_twice}
use prism_rust_vivek.Network.Sample.{
  libraries, node, node-IsNode, node-HasSpace, block as sample_block,
}
use prism_rust_vivek.Network.Buffer.Insert.{new-IsBuffered, insert_block-IsBuffered}

abbrev header_hash : Header → H256
header_hash h = h.nonce

abbrev block : ℕ → Block
block nonce = record {
  header = record {
    parent = 0;
    timestamp = 0;
    nonce = nonce;
    content_merkle_root = 0;
    extra_content = [];
    difficulty = 0;
  };
  content = voter (record { chain_number = 0; voter_parent = 0; votes = [] });
  sortition_proof = [];
}

abbrev one : BlockBuffer
one = insert_block header_hash (block 5) (7 ∷ 8 ∷ []) new

abbrev two : BlockBuffer
two = insert_block header_hash (block 6) (7 ∷ []) one

insert_block-IsBuffered_example :
    IsBuffered header_hash one
    × ((elem {K = H256} 8 (7 ∷ 8 ∷ []) ≡ true) ↔ Waits one (block_hash header_hash (block 5)) 8)
unfolding lookup
insert_block-IsBuffered_example =
    insert_block-IsBuffered header_hash (block 5) (7 ∷ 8 ∷ []) new 8 (new-IsBuffered header_hash)
      refl cc

two-IsBuffered : IsBuffered header_hash two
unfolding lookup insert_block block_hash insert
two-IsBuffered =
    (insert_block-IsBuffered header_hash (block 6) (7 ∷ []) one 7
      (insert_block-IsBuffered header_hash (block 5) (7 ∷ 8 ∷ []) new 7 (new-IsBuffered header_hash)
        refl cc).0
      refl cc).0

satisfy_lem_example :
    (resolved : List Block) × (q : BlockBuffer) × (satisfy 7 two ≡ some (resolved, q))
    × IsBuffered header_hash q
    × ((n : H256) → ¬ (Waits q n 7))
    × Treated header_hash 7 two resolved q
satisfy_lem_example = satisfy_lem header_hash 7 two two-IsBuffered

-- Block 6 is returned, and block 5 waits for block 8 still.
satisfy-two :
    satisfy 7 two
    ≡ some (
      block 6 ∷ [],
      record {
        blocks = (5, block 5) ∷ [];
        dependency = (5, 8 ∷ []) ∷ [];
        dependent = (8, 5 ∷ []) ∷ [];
      },
    )
unfolding satisfy insert_block lookup insert add discard remove
satisfy-two = refl

-- Two blocks, and the parent of the one that is processed first comes second: it is buffered, and
-- leaves the buffer when its parent is in the chain.
abbrev two_blocks : List Bytes
two_blocks = (101 ∷ 100 ∷ []) ∷ (102 ∷ 101 ∷ []) ∷ []

two_blocks-IsAcceptable : IsAcceptable libraries (blocks two_blocks) node
unfolding node
two_blocks-IsAcceptable =
    (((sample_block 101 100, refl, tt), ((sample_block 102 101, refl, tt), tt)), node-HasSpace)

handle_message-IsNode_example : Handled libraries (blocks two_blocks) node
handle_message-IsNode_example =
    handle_message-IsNode libraries (blocks two_blocks) node node-IsNode two_blocks-IsAcceptable

-- The events of this message.
abbrev sent : Option (Context × List Event) → List Event
sent none = []
sent (some r) = r.1

sent-two_blocks :
    sent (handle_message libraries (blocks two_blocks) node)
    ≡ broadcast (new_block_hashes (101 ∷ 102 ∷ []))
      ∷ send new_proposer_block
      ∷ send new_proposer_block
      ∷ write (get_blocks (101 ∷ []))
      ∷ []
unfolding handle_message node contains lookup discard remove
sent-two_blocks = refl

announced_twice_example :
    (c : Context) × (events : List Event) × (handle_message libraries
        (new_block_hashes (100 ∷ 300 ∷ []))
        node
      ≡ some (c, events))
    × ((h : H256)
        → elem h c.requested_blocks ≡ (
            elem h node.requested_blocks
            || (elem h (100 ∷ 300 ∷ []) && not (contains h node.blockdb))))
    × (handle_message libraries (new_block_hashes (100 ∷ 300 ∷ [])) c ≡ some (c, []))
announced_twice_example = announced_twice libraries (100 ∷ 300 ∷ []) node

-- A block alone, whose parent is missing.
abbrev one_block : List Bytes
one_block = (102 ∷ 101 ∷ []) ∷ []

one_block-IsAcceptable : IsAcceptable libraries (blocks one_block) node
unfolding node
one_block-IsAcceptable = (
  ((sample_block 102 101, refl, tt), tt),
  HasSpace-less 1 2 node.chain (omega arith) node-HasSpace,
)

abbrev left : Option (Context × List Event) → Context
left none = node
left (some r) = r.0

buffered_block_lacks_reference_example :
    (block : Block) × (lookup 102
        (left (handle_message libraries (blocks one_block) node)).buffer.blocks
      ≡ some block)
    × (missing : List H256) × (check_data_availability block
          (left (handle_message libraries (blocks one_block) node)).chain
        ≡ missing_references missing)
unfolding handle_message node contains lookup discard remove
buffered_block_lacks_reference_example =
    buffered_block_lacks_reference libraries one_block node
      (left (handle_message libraries (blocks one_block) node))
      (sent (handle_message libraries (blocks one_block) node)) 102 (101 ∷ []) node-IsNode
      one_block-IsAcceptable refl refl
