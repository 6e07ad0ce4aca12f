-- ===== src/Network/Buffer.antt =====
-- src/network/buffer.rs: blocks that were received but refer to blocks that are not processed yet.
-- A set is a list without repetition, and the blocks of a set come in the order of the list.
pub mod Waiting
pub mod Rounds
pub mod Freed
pub mod Kept
pub mod Round
pub mod Satisfy
pub mod Insert
pub mod Shrunk
use prism_rust_vivek.Prelude.{
  add_all, ℕ, Bool, Option, none, some, List, [], ◌∷◌, ◌++◌, Table, lookup, insert, remove, add,
  discard, nat_eq, ◌==◌, if◌then◌else◌, ◌>>=◌,
}
use prism_rust_vivek.Crypto.{H256}
use prism_rust_vivek.Block.{Block, Header, block_hash}
use prism_rust_vivek.Chain.Merge.{from_stored}

pub record BlockBuffer : Type 0 where
  pub blocks : Table H256 Block
  pub dependency : Table H256 (List H256)
  pub dependent : Table H256 (List H256)

abbrev pub new : BlockBuffer
new = record { blocks = []; dependency = []; dependent = [] }

-- the dependents that the loop records: an absent set is made first
unfoldable pub add_dependents : H256 → List H256 → Table H256 (List H256) → Table H256 (List H256)
add_dependents hash [] m = m
add_dependents hash (d ∷ dependencies) m =
    add_dependents hash dependencies (insert d (add hash (from_stored [] (lookup d m))) m)

unfoldable pub insert_block : (Header → H256) → Block → List H256 → BlockBuffer → BlockBuffer
unfolding block_hash add_all add_dependents
insert_block header_hash block dependencies b =
    let hash = block_hash header_hash block in
    record {
      blocks = insert hash block b.blocks;
      dependency = insert hash (add_all dependencies []) b.dependency;
      dependent = add_dependents hash dependencies b.dependent;
    }

-- what a round does with the dependencies that are left; `none` is a failed `unwrap`
unfoldable pub settle : H256 → List H256 → BlockBuffer → Option (List Block × BlockBuffer)
settle node [] b = do
  block ← lookup node b.blocks
  some (
    block ∷ [],
    record b { dependency = remove node b.dependency; blocks = remove node b.blocks },
  )
settle node (h ∷ rest) b = some ([], record b { dependency = insert node (h ∷ rest) b.dependency })

-- one round of the loop of `satisfy`
unfoldable pub satisfy_node : H256 → H256 → BlockBuffer → Option (List Block × BlockBuffer)
unfolding settle
satisfy_node hash node b = do
  dependency ← lookup node b.dependency
  settle node (discard hash dependency) b

unfoldable pub satisfy_nodes : H256 → List H256 → BlockBuffer → Option (List Block × BlockBuffer)
unfolding satisfy_node
satisfy_nodes hash [] b = some ([], b)
satisfy_nodes hash (node ∷ dependents) b =
    satisfy_node hash node b
    >>= (λ r. satisfy_nodes hash dependents r.1 >>= (λ s. some (r.0 ++ s.0, s.1)))

unfoldable pub satisfy : H256 → BlockBuffer → Option (List Block × BlockBuffer)
unfolding satisfy_nodes
satisfy hash b = elim (lookup hash b.dependent) [
  | none ↦ some ([], b)
  | some dependents ↦
      satisfy_nodes hash dependents (record b { dependent = remove hash b.dependent })
]
