-- ===== src/Network/Buffer/Waiting.antt =====
-- Which blocks wait for which: the invariant of the buffer, and what `satisfy` does to it.
use prism_rust_vivek.Prelude.{◌≡◌, ◌≢◌, true, some, List, [], lookup, elem, nat_eq}
use prism_rust_vivek.Crypto.{H256}
use prism_rust_vivek.Block.{Block, Header}
use prism_rust_vivek.Chain.Merge.{IsDistinct}
use prism_rust_vivek.Network.Buffer.{BlockBuffer}

-- Block `n` waits for block `d`.
abbrev pub Waits : BlockBuffer → H256 → H256 → Type 0
Waits b n d = (ds : List H256) × (lookup n b.dependency ≡ some ds) × (elem d ds ≡ true)

-- `n` is recorded as a dependent of `d`.
abbrev pub Blocks : BlockBuffer → H256 → H256 → Type 0
Blocks b d n = (ns : List H256) × (lookup d b.dependent ≡ some ns) × (elem n ns ≡ true)

pub record IsBuffered (header_hash : Header → H256) (b : BlockBuffer) : Type 0 where
  -- a waiting block is stored under its hash, and waits for something
  pub stored :
      (n : H256) (ds : List H256)
      → lookup n b.dependency ≡ some ds
      → (block : Block) × (lookup n b.blocks ≡ some block) × (header_hash block.header ≡ n)
  pub needs : (n : H256) (ds : List H256) → lookup n b.dependency ≡ some ds → ds ≢ []
  -- the two maps between waiting blocks and missing blocks agree
  pub blocked : (n d : H256) → Waits b n d → Blocks b d n
  pub waiting : (n d : H256) → Blocks b d n → Waits b n d
  pub once : (d : H256) (ns : List H256) → lookup d b.dependent ≡ some ns → IsDistinct ns
