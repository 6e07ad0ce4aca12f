-- ===== src/Lib.antt =====
-- Prism, the high-throughput block chain client: a model of its core and the theorems on it.
--
-- A node keeps a block chain database (blockchain/mod.rs): one tree of proposer blocks and a tree of
-- voter blocks for each voter chain. Every mined or received block is inserted there; votes of voter
-- blocks choose the leaders of the proposer tree. The ledger of the chosen transactions is the coin
-- database (utxodb/mod.rs), which the ledger manager (ledger_manager/mod.rs) brings up to date with
-- several workers. Transactions that wait are in the memory pool (miner/memory_pool.rs). The network
-- worker (network/worker.rs) handles the messages of peers: it stores a received block in the block
-- database (blockdb/mod.rs), checks it, buffers it while its references are missing, and inserts it.
-- A page (visualization/blockchain_vis.js) draws the block chain, and a script
-- (testbed/dashboard/prism.js) builds the dashboard of an experiment.
--
-- Paths of Rust files and of the page are below src/ of the repository.
-- - Prelude: tests on numbers, lists, classes with equality, tables, options and machine words. A
--   table is an association list with one entry for each key; a set is a list without repetition.
-- - Text: strings of JavaScript as lists of code units, `substring`, decimal texts, and
--   `parseInt`, whose result is rounded to a double.
-- - Vis: blockchain_vis.js. Vis/Render is `handle_data`; its result is the list of the calls of the
--   graph widget and the way it ends (it returns, or throws a TypeError). Vis/Style is the style sheet,
--   Vis/Load the request of the page, with `JSON.parse` as the parameter `parse`; what `handle_data`
--   does on JSON of another shape than a payload is not described.
-- - Dashboard: prism.js, by its argument `ARGS.nodes`; `none` is the error of an array that is full.
-- - Crypto: crypto/hash.rs and crypto/merkle.rs. A hash is the number that its bytes spell, except in
--   Crypto/Hash, where it is the list of its bytes. SHA-256 is a parameter. Crypto/Tree is the tree of
--   crypto/merkle.rs, with the layers of its nodes one after another from the root, and Crypto/Merkle
--   is `verify`, with sums that wrap around at 2 ^ 64; the loops over the layers have the number of
--   items as fuel, and Crypto/Halvings shows that it is enough for `verify` up to 2 ^ 62 leaves.
-- - Ledger: transaction/mod.rs (Ledger/Transaction) and utxodb/mod.rs (Ledger/Utxo). A database is a
--   table from coins to outputs, a write batch is a sequence of writes to it. The addresses of public
--   keys, SHA-256 of their bytes, are the parameter `address_of`. Ledger/Manager is
--   ledger_manager/mod.rs: `Step` has a constructor for each step of the dispatcher, of a worker and of
--   the wallet's thread, and `Reach` the states that any interleaving reaches; `Panics` has the failures
--   of the dispatcher. A worker applies a job in one step: its reads and its write batch are not
--   interleaved with those of others.
-- - Mempool: miner/memory_pool.rs and handler/new_transaction.rs. The hash of a transaction is the
--   parameter `tx_hash`. `remove_by_input` runs on fuel, two rounds more than the outputs of the
--   pool; a theorem shows that the fuel is enough. Mempool/Queue is the queue that a client sees.
-- - Block: the types of block/ and the genesis blocks.
-- - Blockdb: blockdb/mod.rs on one table for each column family; the encoding of blocks is a parameter.
--   Blockdb/Reached has the databases that `new` and the insertions make.
-- - Config: config.rs, the sortition of hashes to chains. The widths, which the program computes in
--   floating point, are any numbers; the 256-bit arithmetic of a library is the parameter `u`.
-- - Validation: validation/. Validation/Transactions and Validation/Signatures are the checks of
--   transactions; Ed25519 is the parameter `ed`. `none` is a panic.
-- - Network: Network/Buffer is network/buffer.rs, the blocks that wait for others. Network/Worker is
--   network/worker.rs: `handle_message` takes the state of a node (Network/Context) to the next one and
--   the events that it causes; Network/Processing is its loop over received blocks, on fuel `n * (n + 1)`
--   and the number of received blocks and one more, for `n` received or buffered blocks; a theorem shows
--   that the fuel is enough. One worker handles one message after another; locks are not modelled.
-- - Handler: handler/new_validated_block.rs, the effect of a checked block on the pool and on the block
--   chain.
-- - Chain: blockchain/mod.rs. Chain/State is the struct with one table for each column family;
--   Chain/Merge are the merge operators; Chain/Insert is `insert_block`, where `none` is a failed
--   `unwrap`; Chain/Genesis is `open` and `new`; Chain/Query are the queries; Chain/Diff is
--   `vote_diff`, whose two loops run on the sum of the two levels and one more as fuel.
--   Chain/Proposers and Chain/Voters hold the invariants of the two kinds of trees, Chain/Forest both
--   together.

--
-- Not modelled: the mining loop and its timing, the confirmation rule, whose quantiles are
-- floating point, the wallet, sockets and HTTP, start-up and counters, and the graph libraries in
-- visualization/, which are copies of other projects.
pub mod Prelude
pub mod Text
pub mod Vis
pub mod Dashboard
pub mod Crypto
pub mod Config
pub mod Ledger
pub mod Blockdb
pub mod Mempool
pub mod Block
pub mod Chain
pub mod Validation
pub mod Network
pub mod Handler
